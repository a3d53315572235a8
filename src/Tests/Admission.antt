-- ===== src/Tests/Admission.antt =====
-- The webhook on the pod of the small cluster.
use pv_snapshotter.Base.{
  ◌*◌, ◌≤◌, ◌≡◌, refl, ◌⊎◌, none, some, List, [], Text, codes, ◌==◌, arith, Error, errorf, ok, err,
}
use pv_snapshotter.Base.Int.{pos_part}
use pv_snapshotter.Exec.Laws.{Returns}
use pv_snapshotter.Webhook.Owner.{resolve_owner, resolve_from, controller_refs, owner_ref_to_gvr}
use pv_snapshotter.Webhook.Kube.{AdmissionRequest}
use pv_snapshotter.Webhook.Handler.{render_template}
use pv_snapshotter.Webhook.Claim.{override_of, resolve_pvc, resolve_pvc_by_templates}
use pv_snapshotter.Webhook.Bound.{
  bound_poll_interval, BoundVolume, wait_bound, wait_from, bound_volume,
}
use pv_snapshotter.Webhook.Bound.Terminates.{IsClock, wait_bound_ends}
use pv_snapshotter.Webhook.Patch.{JsonPatchOp, build_patch, annotation_ops}
use pv_snapshotter.Webhook.Patch.Apply.{apply_all}
use pv_snapshotter.Webhook.Patch.Applied.{Renders, patched, build_patch-patched}
use pv_snapshotter.Webhook.Admission.{
  AdmissionResponse, AdmissionReview, bad_request, reviewed, allow, initial_data, with_volume,
  patch_of, mutate, handle,
}
use pv_snapshotter.Webhook.Admission.Allowed.{IsAdmitted, mutate_allowed}
use pv_snapshotter.Webhook.Admission.Answers.{handle_answers}
use pv_snapshotter.Tests.Cluster.{
  at, second, namespace, claim_at, handler, pod, request, decode, marshal, bind, fields, volume,
}

time_passes : (ns : Text) → IsClock handler ns (λ w. w)
time_passes ns = record {
  now_after = λ w. ground arith;
  now_before = λ w. ground arith;
  pause_lasts = λ d w e. ground arith;
  fetch_later = λ name w. ground arith;
}

timeout_fits : pos_part handler.bound_timeout ≤ 15 * bound_poll_interval
timeout_fits = omega arith

-- Two rounds pass before the claim is bound.
waited :
    Returns (wait_bound handler namespace 3 (claim_at 0)) (at 0) (some volume) (at (4 * second))
unfolding wait_bound wait_from bound_volume ◌==◌
waited = refl

resolved : Returns (resolve_pvc handler namespace pod fields) (at 0) (claim_at 0) (at 0)
unfolding resolve_pvc resolve_pvc_by_templates override_of render_template initial_data ◌==◌
resolved = refl

admitted :
    mutate handler decode marshal 3 request (at 0)
    ≡ (some (allow (codes "u") (codes "patch")), at (4 * second))
unfolding mutate patch_of resolve_owner resolve_from controller_refs owner_ref_to_gvr resolve_pvc
    resolve_pvc_by_templates override_of render_template initial_data wait_bound wait_from
    bound_volume build_patch annotation_ops ◌==◌
admitted = refl

build_patch-patched_example :
    ((ops : List JsonPatchOp) × (vs : List (Text × Text)) × (build_patch handler pod
          (codes "db")
          (with_volume fields volume)
        ≡ ok ops)
      × Renders handler (with_volume fields volume) handler.annotation_tmpls vs
      × (apply_all ops pod ≡ some (patched handler vs (codes "db") pod)))
    ⊎ ((e : Error) × (build_patch handler pod (codes "db") (with_volume fields volume) ≡ err e)
        × ((vs : List (Text × Text))
            → ¬ Renders handler (with_volume fields volume) handler.annotation_tmpls vs))
build_patch-patched_example =
    build_patch-patched handler pod (codes "db") (with_volume fields volume)

wait_bound_ends_example :
    ((v : BoundVolume) × ((wait_bound handler namespace 16 (claim_at 0) (at 0)).0 ≡ ok (some v)))
    ⊎ ((e : Error) × ((wait_bound handler namespace 16 (claim_at 0) (at 0)).0 ≡ err e))
wait_bound_ends_example =
    wait_bound_ends handler namespace (λ w. w) (time_passes namespace) 15 (claim_at 0) (at 0)
      timeout_fits

mutate_allowed_example :
    (patch : Text) × (allow (codes "u") (codes "patch") ≡ allow request.uid patch)
    × IsAdmitted handler decode marshal request (at 0) patch (at (4 * second))
mutate_allowed_example =
    mutate_allowed handler decode marshal 3 request (at 0) (allow (codes "u") (codes "patch"))
      (at (4 * second)) admitted refl

handle_answers_example :
    ((e : Error) × (bind [] ≡ err e)
      × (handle handler decode marshal bind 16 [] (at 0) ≡ (some (bad_request e), at 0)))
    ⊎ (((review : AdmissionReview) × (bind [] ≡ ok review)
          × (review.request ≡ none)
          × (handle handler decode marshal bind 16 [] (at 0)
              ≡ (some (bad_request (errorf "AdmissionReview.request is nil" [])), at 0)))
        ⊎ ((review : AdmissionReview) × (req : AdmissionRequest) × (response : AdmissionResponse)
            × (bind [] ≡ ok review)
            × (review.request ≡ some req)
            × ((mutate handler decode marshal 16 req (at 0)).0 ≡ some response)
            × (handle handler decode marshal bind 16 [] (at 0) ≡ (
              some (reviewed review.api_version review.kind response),
              (mutate handler decode marshal 16 req (at 0)).1,
            ))))
handle_answers_example =
    handle_answers handler decode marshal (λ w. w) 15 bind [] (at 0)
      (λ req. time_passes req.namespace) timeout_fits
