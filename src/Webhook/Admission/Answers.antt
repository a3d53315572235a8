-- ===== src/Webhook/Admission/Answers.antt =====
-- Every request is answered.
use pv_snapshotter.Base.{
  ℕ, suc, ◌*◌, ◌≤◌, ◌≡◌, ◌≢◌, ◌⊎◌, inl, inr, none, some, List, [], Text, arith, Error, errorf,
  Result, ok, err, Result-cases, Option-cases,
}
use pv_snapshotter.Base.Int.{pos_part}
use pv_snapshotter.Exec.{State}
use pv_snapshotter.Webhook.Kube.{Pod, AdmissionRequest}
use pv_snapshotter.Webhook.Handler.{Handler}
use pv_snapshotter.Webhook.Owner.{resolve_owner}
use pv_snapshotter.Webhook.Claim.{resolve_pvc}
use pv_snapshotter.Webhook.Bound.{bound_poll_interval}
use pv_snapshotter.Webhook.Bound.Terminates.{IsClock, wait_bound_ends}
use pv_snapshotter.Webhook.Patch.{JsonPatchOp, build_patch}
use pv_snapshotter.Webhook.Admission.{
  AdmissionResponse, AdmissionReview, bad_request, reviewed, deny, allow, initial_data, with_volume,
  patch_of, mutate, handle,
}

module _ {W T : Type 0} (h : Handler W T) (decode : Text → Result Pod)
    (marshal : List JsonPatchOp → Result Text) (time : W → ℕ) (k : ℕ) where
  patch_of_ends :
      (req : AdmissionRequest) (s : State W)
      → IsClock h req.namespace time
      → pos_part h.bound_timeout ≤ k * bound_poll_interval
      → (patch_of h decode marshal (suc k) req s).0 ≢ ok none
  unfolding patch_of
  patch_of_ends req s c b x = elim (Result-cases (decode req.raw)) [
    | inr (_, a) ↦ ground arith
    | inl (pod, a) ↦ elim (Result-cases (resolve_owner h.owners req.namespace pod.meta s).0) [
      | inr (_, d) ↦ ground arith
      | inl (owner_name, d) ↦
          let fields = initial_data owner_name req pod in
          let owned = (resolve_owner h.owners req.namespace pod.meta s).1 in
          let resolving = resolve_pvc h req.namespace pod fields owned in
          elim (Result-cases resolving.0) [
            | inr (_, e) ↦ ground arith
            | inl (pvc, e) ↦ elim (wait_bound_ends h req.namespace time c k pvc resolving.1 b) [
              | inr (_, f) ↦ ground arith
              | inl (v, f) ↦
                  elim (Result-cases (build_patch h pod pvc.name (with_volume fields v))) [
                    | inr (_, g) ↦ ground arith
                    | inl (ops, g) ↦ ground (arith, Result-cases (marshal ops))
                  ]
            ]
          ]
    ]
  ]

  -- Under the conditions on the clock of the end of waitBound (IsClock), mutate gives a response to
  -- every request within `k` + 1 rounds of waitBound, where the timeout is at most `k` poll
  -- intervals, and with the uid of the request: it admits the pod with a patch, or it denies it
  -- with a status of code 422 and no patch.
  mutate_answers :
      (req : AdmissionRequest) (s : State W)
      → IsClock h req.namespace time
      → pos_part h.bound_timeout ≤ k * bound_poll_interval
      → ((patch : Text) × ((mutate h decode marshal (suc k) req s).0 ≡ some (allow req.uid patch)))
        ⊎ ((e : Error) × ((mutate h decode marshal (suc k) req s).0 ≡ some (deny req.uid e)))
  unfolding mutate
  mutate_answers req s c b = elim (Result-cases (patch_of h decode marshal (suc k) req s).0) [
    | inr (e, f) ↦ inr (e, ground arith)
    | inl (none, f) ↦ absurd (patch_of_ends req s c b f)
    | inl (some patch, f) ↦ inl (patch, ground arith)
  ]

  module _ (bind : Text → Result AdmissionReview) where
    -- handle answers a body that is no review, and a review without a request, with a bad request,
    -- and changes nothing then; any other it answers with a review of the same version and kind that
    -- holds the response of mutate. The conditions are those of mutate's answer.
    pub handle_answers :
        (body : Text) (s : State W)
        → ((req : AdmissionRequest) → IsClock h req.namespace time)
        → pos_part h.bound_timeout ≤ k * bound_poll_interval
        → ((e : Error) × (bind body ≡ err e)
            × (handle h decode marshal bind (suc k) body s ≡ (some (bad_request e), s)))
          ⊎ (((review : AdmissionReview) × (bind body ≡ ok review)
                × (review.request ≡ none)
                × (handle h decode marshal bind (suc k) body s
                    ≡ (some (bad_request (errorf "AdmissionReview.request is nil" [])), s)))
              ⊎ ((review : AdmissionReview) × (req : AdmissionRequest)
                  × (response : AdmissionResponse) × (bind body ≡ ok review)
                  × (review.request ≡ some req)
                  × ((mutate h decode marshal (suc k) req s).0 ≡ some response)
                  × (handle h decode marshal bind (suc k) body s ≡ (
                    some (reviewed review.api_version review.kind response),
                    (mutate h decode marshal (suc k) req s).1,
                  ))))
    unfolding handle
    handle_answers body s c b = elim (Result-cases (bind body)) [
      | inr (e, f) ↦ inl (e, f, ground arith)
      | inl (review, f) ↦ elim (Option-cases review.request) [
        | inl g ↦ inr (inl (review, f, g, ground arith))
        | inr (req, g) ↦ elim (mutate_answers req s (c req) b) [
          | inl (patch, x) ↦ inr (inr (review, req, allow req.uid patch, f, g, x, ground arith))
          | inr (e, x) ↦ inr (inr (review, req, deny req.uid e, f, g, x, ground arith))
        ]
      ]
    ]
