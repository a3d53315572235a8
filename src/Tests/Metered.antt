-- ===== src/Tests/Metered.antt =====
-- The small cluster with a count of the requests to its API.
use pv_snapshotter.Base.{ℕ, ◌+◌, ◌≤◌, ◌≡◌, refl, arith, Text, ok, ◌==◌}
use pv_snapshotter.Base.Int.{pos, pos_part}
use pv_snapshotter.Exec.{State, Call}
use pv_snapshotter.Webhook.Handler.{Handler, render_template}
use pv_snapshotter.Webhook.Owner.{resolve_owner, resolve_from, controller_refs, owner_ref_to_gvr}
use pv_snapshotter.Webhook.Claim.{override_of, resolve_pvc, resolve_pvc_by_templates}
use pv_snapshotter.Webhook.Patch.{build_patch, annotation_ops}
use pv_snapshotter.Webhook.Bound.{wait_bound, wait_from, bound_volume}
use pv_snapshotter.Webhook.Bound.Terminates.{IsClock}
use pv_snapshotter.Webhook.Admission.{mutate, patch_of, initial_data}
use pv_snapshotter.Webhook.Admission.Calls.{IsCallCount, mutate_bounded}
use pv_snapshotter.Tests.Cluster.{handler, owners, client, request, decode, marshal}

-- The time, and the number of requests so far.
abbrev Metered : Type 0
Metered = ℕ × ℕ

abbrev request_of : {A : Type 0} → Call ℕ A → Call Metered A
request_of m w = ((m w.0).0, ((m w.0).1, w.1 + 1))

abbrev metered : Handler Metered Text
metered = record {
  owners = record {
    get = λ gvr ns name. request_of (owners.get gvr ns name);
    max_owner_depth = owners.max_owner_depth;
  };
  client = record {
    get_claim = λ ns name. request_of (client.get_claim ns name);
    list_claims = λ ns selector. request_of (client.list_claims ns selector);
    get_volume = λ name. request_of (client.get_volume name);
  };
  clock = record { now = λ w. (w.0, w); pause = λ d w. (ok tt, (w.0 + d, w.1)) };
  templates = handler.templates;
  parse_selector = handler.parse_selector;
  pvc_name_tmpl = handler.pvc_name_tmpl;
  pvc_selector_tmpl = handler.pvc_selector_tmpl;
  pvc_name_tmpl_annotation = handler.pvc_name_tmpl_annotation;
  annotation_tmpls = handler.annotation_tmpls;
  default_runtime_class = handler.default_runtime_class;
  runtime_class_suffix = handler.runtime_class_suffix;
  state_mount_path = handler.state_mount_path;
  bound_timeout = handler.bound_timeout;
}

abbrev begin : State Metered
begin = record { world = (0, 0); pinned_snapshots = pos 0; unpin_failures = 0; orphan_leases = 0 }

every_call : IsCallCount metered (λ w. w.1)
every_call = record {
  one_get = λ gvr ns name w. omega arith;
  one_get_claim = λ ns name w. omega arith;
  one_list_claims = λ ns selector w. omega arith;
  one_get_volume = λ name w. omega arith;
  no_now = λ w. omega arith;
  no_pause = λ d w. omega arith;
}

time_passes : IsClock metered request.namespace (λ w. w.0)
time_passes = record {
  now_after = λ w. ground arith;
  now_before = λ w. ground arith;
  pause_lasts = λ d w e. ground arith;
  fetch_later = λ name w. ground arith;
}

-- The traversal, the claim, two rounds of waiting and the volume.
sent : (mutate metered decode marshal 3 request begin).1.world.1 ≡ 5
unfolding mutate patch_of resolve_owner resolve_from controller_refs owner_ref_to_gvr resolve_pvc
    resolve_pvc_by_templates override_of render_template initial_data wait_bound wait_from
    bound_volume build_patch annotation_ops ◌==◌
sent = refl

mutate_bounded_example :
    (mutate metered decode marshal 3 request begin).1.world.1
    ≤ 0 + (pos_part metered.owners.max_owner_depth + 15 + 2)
mutate_bounded_example =
    mutate_bounded metered (λ w. w.1) every_call decode marshal (λ w. w.0) 3 15 request begin
      time_passes (omega arith)
