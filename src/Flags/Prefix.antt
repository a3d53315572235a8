-- ===== src/Flags/Prefix.antt =====
-- What the default annotation templates of the webhook do under an annotation prefix.
use pv_snapshotter.Base.{
  ◌≡◌, ◌≢◌, refl, ap, subst, ◌∙◌, none, some, Option, List, [], ◌∷◌, ◌++◌, Text, codes, lookup, cut,
  cut-append, Lacks, ◌==◌, eq_ne, Result, ok, HasDistinctKeys,
}
use pv_snapshotter.Exec.{State}
use pv_snapshotter.Exec.Laws.{Returns}
use pv_snapshotter.Host.{ContainerClient, Templates, SandboxMetadata, PodSandboxConfig}
use pv_snapshotter.Annotation
use pv_snapshotter.Resolver.{
  Resolver, Data, new_resolver, upperdir_from_config, render_upperdir_template, template_data,
}
use pv_snapshotter.Webhook.Kube.{Pod, Clock}
use pv_snapshotter.Webhook.Handler.{Handler, TemplateData, render_template}
use pv_snapshotter.Webhook.New.{Connect, new_handler}
use pv_snapshotter.Webhook.New.Built.{Parses, parsed, no_templates}
use pv_snapshotter.Webhook.Patch.{JsonPatchOp, build_patch}
use pv_snapshotter.Webhook.Patch.Apply.{apply_all}
use pv_snapshotter.Webhook.Patch.Applied.{or_nothing}
use pv_snapshotter.Pipeline.{annotations-patched, upperdir_from_config-patched}
use pv_snapshotter.Flags.Names.{
  default_prefix, default_annotation_templates, default_upperdir_template,
}
use pv_snapshotter.Flags.{webhook_flags, Viper, webhook_settings}
use pv_snapshotter.Flags.Defaults.{AreUnset, unset_templates, default_handler-IsBuilt}

-- The two keys, below the default prefix.
abbrev template_key : Text
template_key = codes "pv-snapshotter.humble-mun.io/upperdir-path-template"

abbrev var_key : Text
var_key = codes "pv-snapshotter.humble-mun.io/var.PVName"

prefix_of_key :
    (p suffix key rest : Text)
    → Lacks b'/' p
    → cut b'/' key ≡ some (default_prefix, rest)
    → key ≡ Annotation.key p suffix
    → p ≡ default_prefix
unfolding Annotation.key
prefix_of_key p suffix key rest l c e = cc (cut-append b'/' p suffix l, ap (cut b'/') e, c)

template_prefix :
    (p suffix : Text) → Lacks b'/' p → template_key ≡ Annotation.key p suffix → p ≡ default_prefix
unfolding cut
template_prefix p suffix l e =
    prefix_of_key p suffix template_key (codes "upperdir-path-template") l refl e

var_prefix :
    (p suffix : Text) → Lacks b'/' p → var_key ≡ Annotation.key p suffix → p ≡ default_prefix
unfolding cut
var_prefix p suffix l e = prefix_of_key p suffix var_key (codes "var.PVName") l refl e

module _ {T : Type 0} (templates : Templates T TemplateData) where
  -- The handler's templates are those two.
  abbrev pub IsDefault : List (Text × Option T) → Type 0
  IsDefault ts =
      (path : T) × (var : T) × (templates.parse (codes "annotation/" ++ template_key)
          default_upperdir_template
        ≡ ok path)
      × (templates.parse (codes "annotation/" ++ var_key) (codes "{{.PVName}}") ≡ ok var)
      × (ts ≡ (template_key, some path) ∷ (var_key, some var) ∷ [])

  Parses-IsDefault :
      (ts : List (Text × Option T))
      → Parses templates default_annotation_templates ts
      → IsDefault ts
  Parses-IsDefault _ (parsed {t = path} e (parsed {t = var} f no_templates)) =
      (path, var, e, f, refl)

  lookup-IsDefault_miss :
      (ts : List (Text × Option T)) (p suffix : Text)
      → IsDefault ts
      → Lacks b'/' p
      → p ≢ default_prefix
      → lookup (Annotation.key p suffix) ts ≡ none
  unfolding lookup
  lookup-IsDefault_miss ts p suffix (path, var, _, _, same) l n =
      let a =
        eq_ne template_key (Annotation.key p suffix) (λ e. n (template_prefix p suffix l e)) in
      let b = eq_ne var_key (Annotation.key p suffix) (λ e. n (var_prefix p suffix l e)) in
      rw (same, a, b) refl

abbrev pub prefix_of : Viper → Text
prefix_of viper = viper.get_string (codes "annotation-prefix")

-- The webhook with the defaults of its flags, and the resolver, in one daemon.
module _ {W R T V C S : Type 0} (connect : Connect W R) (templates : Templates T TemplateData)
    (clock : Clock W) (parse_selector : Text → Result Text) (is_subdomain : Text → List Text)
    (client : ContainerClient V C) (path_templates : Templates S Data)
    (unmarshal : Text → Result SandboxMetadata) (viper : Viper)
    (unset : AreUnset viper webhook_flags) where
  abbrev prefix : Text
  prefix = prefix_of viper

  abbrev resolver : Resolver V C S
  resolver = new_resolver client path_templates unmarshal (prefix_of viper)

  stamped_templates :
      (s t : State W) (h : Handler W T)
      → Returns
          (new_handler connect templates clock parse_selector is_subdomain (webhook_settings viper))
          s
          h
          t
      → IsDefault templates h.annotation_tmpls × HasDistinctKeys h.annotation_tmpls
  unfolding webhook_settings
  stamped_templates s t h r =
      let built =
        default_handler-IsBuilt viper unset connect templates clock parse_selector is_subdomain s t
          h r in
      (
        Parses-IsDefault templates h.annotation_tmpls (
            subst (λ raw. Parses templates raw h.annotation_tmpls) (unset_templates viper unset)
              built.annotated),
        built.distinct,
      )

  -- Where all flags of the webhook have their defaults and --annotation-prefix is a prefix without a
  -- slash that is not the default one, a pod that the webhook has patched, and that had no upperdir
  -- annotation below that prefix of its own, with each key once, has no path for the resolver of the
  -- same daemon: it stays on the native snapshotter.
  pub defaults_miss :
      (s t : State W) (h : Handler W T) (pod q : Pod) (pvc_name : Text) (fields : TemplateData)
      (ops : List JsonPatchOp) (cfg : PodSandboxConfig) (key : Text)
      → prefix ≢ default_prefix
      → Lacks b'/' prefix
      → Returns
          (new_handler connect templates clock parse_selector is_subdomain (webhook_settings viper))
          s
          h
          t
      → HasDistinctKeys (or_nothing pod.annotations)
      → build_patch h pod pvc_name fields ≡ ok ops
      → apply_all ops pod ≡ some q
      → q.annotations ≡ some cfg.annotations
      → lookup resolver.key_literal (or_nothing pod.annotations) ≡ none
      → lookup resolver.key_template (or_nothing pod.annotations) ≡ none
      → upperdir_from_config resolver cfg key ≡ ok []
  unfolding upperdir_from_config new_resolver
  defaults_miss s t h pod q pvc_name fields ops cfg key n l r c b a e i j =
      let (default, distinct) = stamped_templates s t h r in
      let (_, kept, _) =
        annotations-patched h resolver pod q pvc_name fields ops cfg.annotations distinct b a e c in
      let free = λ (suffix : Text).
        lookup-IsDefault_miss templates h.annotation_tmpls prefix suffix default l n in
      let no_literal = kept resolver.key_literal (free (codes "upperdir-path")) ∙ i in
      let no_template = kept resolver.key_template (free (codes "upperdir-path-template")) ∙ j in
      rw (upperdir_from_config, no_literal, no_template) refl

  -- Where all flags of the webhook have their defaults and --annotation-prefix is the default one,
  -- the resolver renders, for a pod that the webhook has patched, the text to which the default
  -- template of the path was rendered at admission, where this is not empty, and on data that have,
  -- as PVName, the text to which the default template of this variable was rendered: if the pod had
  -- each key once, and not that of a literal path.
  pub defaults_route :
      (s t : State W) (h : Handler W T) (pod q : Pod) (pvc_name : Text) (fields : TemplateData)
      (ops : List JsonPatchOp) (cfg : PodSandboxConfig) (path var : T) (text v key : Text)
      → prefix ≡ default_prefix
      → Returns
          (new_handler connect templates clock parse_selector is_subdomain (webhook_settings viper))
          s
          h
          t
      → HasDistinctKeys (or_nothing pod.annotations)
      → build_patch h pod pvc_name fields ≡ ok ops
      → apply_all ops pod ≡ some q
      → q.annotations ≡ some cfg.annotations
      → lookup resolver.key_literal (or_nothing pod.annotations) ≡ none
      → templates.parse (codes "annotation/" ++ template_key) default_upperdir_template ≡ ok path
      → templates.parse (codes "annotation/" ++ var_key) (codes "{{.PVName}}") ≡ ok var
      → render_template h.templates (some path) fields ≡ ok text
      → text ≢ []
      → render_template h.templates (some var) fields ≡ ok v
      → (upperdir_from_config resolver cfg key ≡ render_upperdir_template resolver text cfg key)
        × (lookup (codes "PVName") (template_data resolver cfg) ≡ some v)
  unfolding new_resolver Annotation.key lookup ◌==◌
  defaults_route s t h pod q pvc_name fields ops cfg path var text v key d r c b a e j x y f n g =
      let ((path', var', x', y', same), distinct) = stamped_templates s t h r in
      let listed : h.annotation_tmpls ≡ (template_key, some path) ∷ (var_key, some var) ∷ [] = cc in
      let (routed, vars) =
        upperdir_from_config-patched h resolver pod q pvc_name fields ops cfg (some path) text key
          distinct c b a e (rw (listed, d) refl) f n (rw (listed, d) refl) j in
      (routed, vars (codes "PVName") v (some var) (rw (listed, d) refl) g)
