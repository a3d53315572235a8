-- ===== src/Webhook/Handler.antt =====
-- The Handler of pkg/webhook/mutating.go and the data of its templates.
use pv_snapshotter.Base.{Option, none, some, List, [], Text, Result, ok}
use pv_snapshotter.Base.Int.{ℤ}
use pv_snapshotter.Host.{Templates}
use pv_snapshotter.Webhook.Owner.{OwnerLookup}
use pv_snapshotter.Webhook.Kube.{Client, Clock}

pub record TemplateData : Type 0 where
  pub owner_name : Text
  pub pod_name : Text
  pub pv_name : Text
  pub volume_handle : Text
  pub pod_index : Text
  pub pod_uid : Text
  pub pod_namespace : Text

-- Handler. `owners` holds the dynamic client and maxOwnerDepth, `templates` is text/template with the
-- program's functions, and `parse_selector` is labels.Parse, read back as a text.
pub record Handler (W T : Type 0) : Type 0 where
  pub owners : OwnerLookup W
  pub client : Client W
  pub clock : Clock W
  pub templates : Templates T TemplateData
  pub parse_selector : Text → Result Text
  pub pvc_name_tmpl : Option T
  pub pvc_selector_tmpl : Option T
  pub pvc_name_tmpl_annotation : Text
  pub annotation_tmpls : List (Text × Option T)
  pub default_runtime_class : Text
  pub runtime_class_suffix : Text
  pub state_mount_path : Text
  pub bound_timeout : ℤ

-- renderTemplate, where a template may be nil.
unfoldable pub render_template :
    {T : Type 0} → Templates T TemplateData → Option T → TemplateData → Result Text
render_template templates none fields = ok []
render_template templates (some tmpl) fields = templates.execute tmpl fields
