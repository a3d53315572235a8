-- ===== src/Tests/Pipeline.antt =====
-- A webhook and a resolver with one prefix, on the pod of the small cluster.
use pv_snapshotter.Base.{
  ℕ, ◌≡◌, refl, none, some, List, [], ◌∷◌, ◌++◌, Option, Text, codes, ◌==◌, ok, err, lookup, insert,
  split_all,
}
use pv_snapshotter.Host.{PodSandboxConfig}
use pv_snapshotter.Resolver.{template_data, render_upperdir_template, upperdir_from_config}
use pv_snapshotter.Webhook.Kube.{Pod}
use pv_snapshotter.Webhook.Handler.{Handler, TemplateData, render_template}
use pv_snapshotter.Webhook.Pointer.{json_key, replace_all, evaluate}
use pv_snapshotter.Webhook.Patch.{
  JsonPatchOp, build_patch, annotation_ops, annotations_map_ops, volume_ops, mount_ops,
  runtime_class_ops, base_runtime_class,
}
use pv_snapshotter.Webhook.Patch.Apply.{
  apply_all, apply_op, apply_at, place_of, place, evaluate_all, add, replace,
}
use pv_snapshotter.Webhook.Patch.Applied.{or_nothing}
use pv_snapshotter.Webhook.Admission.{with_volume}
use pv_snapshotter.Pipeline.{upperdir_from_config-patched}
use pv_snapshotter.Tests.Cluster.{handler, pod, fields, volume}
use pv_snapshotter.Tests.Daemon.{resolver}

abbrev upperdir_template : Text
upperdir_template = codes "/pods/{{.PodUID}}/{{.PVName}}"

abbrev stamping : Handler ℕ Text
stamping = record handler {
  annotation_tmpls =
      (codes "x/upperdir-path-template", some upperdir_template)
      ∷ (codes "x/var.PVName", some (codes "{{.PVName}}"))
      ∷ [];
}

abbrev pub all_fields : TemplateData
all_fields = with_volume fields volume

abbrev ops : List JsonPatchOp
ops = elim (build_patch stamping pod (codes "db") all_fields) [ err _ ↦ [] | ok done ↦ done ]

abbrev stamped : Pod
stamped = elim (apply_all ops pod) [ none ↦ pod | some q ↦ q ]

abbrev cfg : PodSandboxConfig
cfg = record { metadata = none; annotations = or_nothing stamped.annotations }

built : build_patch stamping pod (codes "db") all_fields ≡ ok ops
unfolding build_patch annotation_ops render_template ◌==◌
built = refl

applied : (apply_all ops pod ≡ some stamped) × (stamped.annotations ≡ some cfg.annotations)
unfolding build_patch annotation_ops render_template annotations_map_ops volume_ops mount_ops
    runtime_class_ops base_runtime_class apply_all apply_op apply_at place_of place evaluate_all
    evaluate split_all json_key replace_all add replace insert ◌==◌
applied = (refl, refl)

upperdir_from_config-patched_example :
    (upperdir_from_config resolver cfg (codes "k")
      ≡ render_upperdir_template resolver upperdir_template cfg (codes "k"))
    × ((name v : Text) (var : Option Text)
        → lookup (resolver.key_var_prefix ++ name) stamping.annotation_tmpls ≡ some var
        → render_template stamping.templates var all_fields ≡ ok v
        → lookup name (template_data resolver cfg) ≡ some v)
unfolding render_template lookup ◌==◌
upperdir_from_config-patched_example =
    upperdir_from_config-patched stamping resolver pod stamped (codes "db") all_fields ops cfg
      (some upperdir_template) upperdir_template (codes "k") (refl, (refl, tt)) tt built applied.0
      applied.1 refl refl (λ e. cc) refl refl
