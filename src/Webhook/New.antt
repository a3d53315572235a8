-- ===== src/Webhook/New.antt =====
-- The construction of the webhook's handler, New of pkg/webhook/mutating.go.
pub mod Built
use pv_snapshotter.Base.{Option, some, List, [], ◌∷◌, ◌++◌, Text, codes, Result, ok, err, wrapf}
use pv_snapshotter.Base.Int.{ℤ}
use pv_snapshotter.Exec.{Exec, Call, pure, lift, call, wrapping, ◌>>=◌}
use pv_snapshotter.Host.{Templates}
use pv_snapshotter.Annotation
use pv_snapshotter.Webhook.Owner.{Object, GroupVersionResource}
use pv_snapshotter.Webhook.Kube.{Client, Clock}
use pv_snapshotter.Webhook.Handler.{Handler, TemplateData}

-- The values of the flags, as viper has them.
pub record WebhookFlags : Type 0 where
  pub pvc_name_template : Text
  pub pvc_selector_template : Text
  pub max_owner_depth : ℤ
  pub default_runtime_class : Text
  pub runtime_class_suffix : Text
  pub annotation_templates : List (Text × Text)
  pub state_mount_path : Text
  pub bound_timeout : ℤ
  pub annotation_prefix : Text

-- The constructors of the clients, with configurations `R`: ctrl.GetConfig, and NewForConfig of
-- packages kubernetes and dynamic.
pub record Connect (W R : Type 0) : Type 0 where
  pub get_config : Call W R
  pub new_client : R → Call W (Client W)
  pub new_dynamic : R → Call W (GroupVersionResource → Text → Text → Call W Object)

abbrev pub annotation_suffix_pvc_name_template : Text
annotation_suffix_pvc_name_template = codes "pvc-name-template"

module _ {T : Type 0} (templates : Templates T TemplateData) where
  -- The loop over the annotation templates; the map's order is the list's.
  unfoldable pub parse_annotations : List (Text × Text) → Result (List (Text × Option T))
  parse_annotations [] = ok []
  parse_annotations ((k, v) ∷ raw) = elim (templates.parse (codes "annotation/" ++ k) v) [
    | err e ↦ err (wrapf "parsing annotation template for key %q: %w" (k ∷ []) e)
    | ok t ↦ elim (parse_annotations raw) [ err e ↦ err e | ok ts ↦ ok ((k, some t) ∷ ts) ]
  ]

-- `templates` is text/template with templateFuncs, `is_subdomain` is validation.IsDNS1123Subdomain.
module _ {W R T : Type 0} (connect : Connect W R) (templates : Templates T TemplateData)
    (clock : Clock W) (parse_selector : Text → Result Text) (is_subdomain : Text → List Text) where
  unfoldable pub new_handler : WebhookFlags → Exec W (Handler W T)
  new_handler flags = do
    cfg ← wrapping "building in-cluster REST config: %w" [] (call connect.get_config)
    kc ← wrapping "building Kubernetes typed client: %w" [] (call (connect.new_client cfg))
    dc ← wrapping "building Kubernetes dynamic client: %w" [] (call (connect.new_dynamic cfg))
    pvc_name_tmpl ←
        wrapping "parsing --%s: %w" (codes "webhook-pvc-name-template" ∷ [])
          (lift (templates.parse (codes "pvc-name") flags.pvc_name_template))
    pvc_selector_tmpl ←
        wrapping "parsing --%s: %w" (codes "webhook-pvc-selector-template" ∷ [])
          (lift (templates.parse (codes "pvc-selector") flags.pvc_selector_template))
    prefix ← lift (Annotation.resolve_prefix is_subdomain flags.annotation_prefix)
    annotation_tmpls ← lift (parse_annotations templates flags.annotation_templates)
    pure (record {
      owners = record { get = dc; max_owner_depth = flags.max_owner_depth };
      client = kc;
      clock = clock;
      templates = templates;
      parse_selector = parse_selector;
      pvc_name_tmpl = some pvc_name_tmpl;
      pvc_selector_tmpl = some pvc_selector_tmpl;
      pvc_name_tmpl_annotation = Annotation.key prefix annotation_suffix_pvc_name_template;
      annotation_tmpls = annotation_tmpls;
      default_runtime_class = flags.default_runtime_class;
      runtime_class_suffix = flags.runtime_class_suffix;
      state_mount_path = flags.state_mount_path;
      bound_timeout = flags.bound_timeout;
    })
