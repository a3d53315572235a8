-- ===== src/Webhook/Admission/Allowed.antt =====
-- Which pods are admitted, and with what patch.
use pv_snapshotter.Base.{
  ℕ, ◌≡◌, inl, inr, true, none, some, List, Text, arith, Result, ok, Result-cases,
}
use pv_snapshotter.Base.Int.{pos_part}
use pv_snapshotter.Exec.{State}
use pv_snapshotter.Exec.Laws.{Returns}
use pv_snapshotter.Webhook.Kube.{Pod, Claim, AdmissionRequest}
use pv_snapshotter.Webhook.Handler.{Handler}
use pv_snapshotter.Webhook.Owner.{resolve_owner}
use pv_snapshotter.Webhook.Owner.Chain.{Climbs, resolve_owner-Climbs}
use pv_snapshotter.Webhook.Claim.{resolve_pvc}
use pv_snapshotter.Webhook.Claim.Resolved.{IsResolved, resolve_pvc-IsResolved}
use pv_snapshotter.Webhook.Bound.{BoundVolume, wait_bound}
use pv_snapshotter.Webhook.Bound.Polls.{IsReady, wait_bound-IsReady}
use pv_snapshotter.Webhook.Patch.{JsonPatchOp, build_patch}
use pv_snapshotter.Webhook.Patch.Apply.{apply_all}
use pv_snapshotter.Webhook.Patch.Applied.{Renders, patched, build_patch-patched}
use pv_snapshotter.Webhook.Admission.{
  AdmissionResponse, deny, allow, initial_data, with_volume, patch_of, mutate,
}

module _ {W T : Type 0} (h : Handler W T) (decode : Text → Result Pod)
    (marshal : List JsonPatchOp → Result Text) where
  -- The patch is the marshalled one of the pod that the request holds, for the claim and the volume
  -- that its owner and the handler's templates name.
  pub record IsAdmitted (req : AdmissionRequest) (s : State W) (patch : Text) (t : State W)
      : Type 0 where
    pub pod : Pod
    pub owner_name : Text
    pub owned : State W
    pub pvc : Claim
    pub claimed : State W
    pub volume : BoundVolume
    pub ops : List JsonPatchOp
    pub vs : List (Text × Text)
    pub decoded : decode req.raw ≡ ok pod
    pub climbs :
        Climbs h.owners req.namespace
          (pos_part h.owners.max_owner_depth)
          pod.meta.name
          pod.meta.owner_references
          s
          owner_name
          owned
    pub resolved :
        IsResolved h req.namespace (initial_data owner_name req pod) pod owned pvc claimed
    pub ready : IsReady h req.namespace pvc claimed volume t
    pub renders :
        Renders h (with_volume (initial_data owner_name req pod) volume) h.annotation_tmpls vs
    pub applied : apply_all ops pod ≡ some (patched h vs pvc.name pod)
    pub marshalled : marshal ops ≡ ok patch

  -- The last steps of the chain, on the volume that was found.
  finished :
      (req : AdmissionRequest) (s : State W) (patch : Text) (t : State W) (pod : Pod)
      (owner_name : Text) (owned : State W) (pvc : Claim) (claimed : State W) (v : BoundVolume)
      (ops : List JsonPatchOp)
      → decode req.raw ≡ ok pod
      → Returns (resolve_owner h.owners req.namespace pod.meta) s owner_name owned
      → Returns
          (resolve_pvc h req.namespace pod (initial_data owner_name req pod))
          owned
          pvc
          claimed
      → IsReady h req.namespace pvc claimed v t
      → build_patch h pod pvc.name (with_volume (initial_data owner_name req pod) v) ≡ ok ops
      → marshal ops ≡ ok patch
      → IsAdmitted req s patch t
  finished req s patch t pod owner_name owned pvc claimed v ops a b c d e f =
      let fields = initial_data owner_name req pod in
      elim (build_patch-patched h pod pvc.name (with_volume fields v)) [
        | inr (x, y, _) ↦ absurd (ground arith)
        | inl (done, vs, g, renders, applied) ↦
            let same : done ≡ ops = ground arith in
            record {
              pod = pod;
              owner_name = owner_name;
              owned = owned;
              pvc = pvc;
              claimed = claimed;
              volume = v;
              ops = done;
              vs = vs;
              decoded = a;
              climbs =
                  (resolve_owner-Climbs h.owners req.namespace pod.meta s owner_name owned).0 b;
              resolved = (resolve_pvc-IsResolved h req.namespace fields pod owned pvc claimed).0 c;
              ready = d;
              renders = renders;
              applied = applied;
              marshalled = rw same f;
            }
      ]

  patch_of-IsAdmitted :
      (rounds : ℕ) (req : AdmissionRequest) (s : State W) (patch : Text) (t : State W)
      → Returns (patch_of h decode marshal rounds req) s (some patch) t
      → IsAdmitted req s patch t
  unfolding patch_of
  patch_of-IsAdmitted rounds req s patch t r = elim (Result-cases (decode req.raw)) [
    | inr (_, a) ↦ absurd (ground arith)
    | inl (pod, a) ↦ elim (Result-cases (resolve_owner h.owners req.namespace pod.meta s).0) [
      | inr (_, b) ↦ absurd (ground arith)
      | inl (owner_name, b) ↦
          let fields = initial_data owner_name req pod in
          let owned = (resolve_owner h.owners req.namespace pod.meta s).1 in
          let resolving = resolve_pvc h req.namespace pod fields owned in
          elim (Result-cases resolving.0) [
            | inr (_, c) ↦ absurd (ground arith)
            | inl (pvc, c) ↦
                let waiting = wait_bound h req.namespace rounds pvc resolving.1 in
                elim (Result-cases waiting.0) [
                  | inr (_, d) ↦ absurd (ground arith)
                  | inl (none, d) ↦ absurd (ground arith)
                  | inl (some v, d) ↦
                      elim (Result-cases (build_patch h pod pvc.name (with_volume fields v))) [
                        | inr (_, e) ↦ absurd (ground arith)
                        | inl (ops, e) ↦
                            finished req s patch t pod owner_name owned pvc resolving.1 v ops a
                              (ground arith) (ground arith)
                              (wait_bound-IsReady h req.namespace rounds pvc resolving.1 v t
                                (ground arith))
                              e (ground arith)
                      ]
                ]
          ]
    ]
  ]

  -- mutate admits a pod only with a patch that is the marshalled form of operations which apply to
  -- the pod without an error and give it the annotations, the volume, the mount and the runtime
  -- class of `patched`: the claim is resolved for the owner at which the climb from the pod ends,
  -- and the volume is that of the claim, found bound at first or after rounds that all began before
  -- the timeout. The response carries the request's uid, the type of a JSON patch and no status.
  pub mutate_allowed :
      (rounds : ℕ) (req : AdmissionRequest) (s : State W) (r : AdmissionResponse) (t : State W)
      → mutate h decode marshal rounds req s ≡ (some r, t)
      → r.allowed ≡ true
      → (patch : Text) × (r ≡ allow req.uid patch) × IsAdmitted req s patch t
  unfolding mutate deny
  mutate_allowed rounds req s r t e a =
      let run = patch_of h decode marshal rounds req s in
      elim (Result-cases run.0) [
        | inr (_, f) ↦ absurd (ground arith)
        | inl (none, f) ↦ absurd (ground arith)
        | inl (some patch, f) ↦
            (patch, ground arith, patch_of-IsAdmitted rounds req s patch t (ground arith))
      ]
