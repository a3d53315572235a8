-- ===== src/Pipeline.antt =====
-- From the webhook to the resolver: the annotations that pkg/webhook/mutating.go writes are those that
-- pkg/containerd/snapshotter/resolver.go reads.
use pv_snapshotter.Base.{
  ◌≡◌, ◌≢◌, refl, sym, subst, ◌∙◌, ap, inl, inr, Option, none, some, List, [], ◌∷◌, ◌++◌, Text,
  arith, ◌==◌, eq_iff, lookup, insert, lookup-insert, HasDistinctKeys, HasDistinctKeys-insert, ok,
  Bool-cases,
}
use pv_snapshotter.Host.{PodSandboxConfig}
use pv_snapshotter.Resolver.{
  Resolver, builtins, template_data, render_upperdir_template, upperdir_from_config,
}
use pv_snapshotter.Resolver.TemplateData.{or_else, lookup-template_data}
use pv_snapshotter.Webhook.Kube.{Pod}
use pv_snapshotter.Webhook.Handler.{Handler, TemplateData, render_template}
use pv_snapshotter.Webhook.Patch.{JsonPatchOp, build_patch}
use pv_snapshotter.Webhook.Patch.Apply.{apply_all}
use pv_snapshotter.Webhook.Patch.Applied.{
  Renders, nothing, rendered, or_nothing, insert_all, build_patch-patched,
}

lookup-insert_all_miss :
    (k : Text) (vs m : List (Text × Text))
    → lookup k vs ≡ none
    → lookup k (insert_all vs m) ≡ lookup k m
unfolding lookup
lookup-insert_all_miss k [] m e = refl
lookup-insert_all_miss k ((a, b) ∷ vs) m e = elim (Bool-cases (a == k)) [
  | inl f ↦ absurd (ground arith)
  | inr f ↦
      ground
        (arith, lookup-insert_all_miss k vs (insert a b m) (ground arith), lookup-insert a k b m)
]

lookup-insert_all :
    (k v : Text) (vs m : List (Text × Text))
    → HasDistinctKeys vs
    → lookup k vs ≡ some v
    → lookup k (insert_all vs m) ≡ some v
unfolding lookup
lookup-insert_all k v [] m d e = absurd (ground arith)
lookup-insert_all k v ((a, b) ∷ vs) m d e = elim (Bool-cases (a == k)) [
  | inl f ↦
      let same : a ≡ k = (eq_iff a k).0 f in
      ground (
        arith,
        lookup-insert_all_miss k vs (insert a b m) (subst (λ x. lookup x vs ≡ none) same d.0),
        lookup-insert a k b m,
      )
  | inr f ↦ lookup-insert_all k v vs (insert a b m) d.1 (ground arith)
]

HasDistinctKeys-insert_all :
    (vs m : List (Text × Text)) → HasDistinctKeys m → HasDistinctKeys (insert_all vs m)
HasDistinctKeys-insert_all [] m d = d
HasDistinctKeys-insert_all ((a, b) ∷ vs) m d =
    HasDistinctKeys-insert_all vs (insert a b m) (HasDistinctKeys-insert a b m d)

module _ {W T : Type 0} (h : Handler W T) (fields : TemplateData) where
  lookup-Renders_miss :
      (k : Text) (tmpls : List (Text × Option T)) (vs : List (Text × Text))
      → Renders h fields tmpls vs
      → lookup k tmpls ≡ none
      → lookup k vs ≡ none
  unfolding lookup
  lookup-Renders_miss k _ _ nothing e = refl
  lookup-Renders_miss k _ _ (rendered {key} {val} {tmpl} {tmpls} {vs} g r) e =
      elim (Bool-cases (key == k)) [
        | inl f ↦ absurd (ground arith)
        | inr f ↦ ground (arith, lookup-Renders_miss k tmpls vs r (ground arith))
      ]

  lookup-Renders :
      (k v : Text) (tmpl : Option T) (tmpls : List (Text × Option T)) (vs : List (Text × Text))
      → Renders h fields tmpls vs
      → lookup k tmpls ≡ some tmpl
      → render_template h.templates tmpl fields ≡ ok v
      → lookup k vs ≡ some v
  unfolding lookup
  lookup-Renders k v tmpl _ _ nothing e x = absurd (ground arith)
  lookup-Renders k v tmpl _ _ (rendered {key} {val} {tmpl = other} {tmpls} {vs} g r) e x =
      elim (Bool-cases (key == k)) [
        | inl f ↦ ground arith
        | inr f ↦ ground (arith, lookup-Renders k v tmpl tmpls vs r (ground arith) x)
      ]

  HasDistinctKeys-Renders :
      (tmpls : List (Text × Option T)) (vs : List (Text × Text))
      → Renders h fields tmpls vs
      → HasDistinctKeys tmpls
      → HasDistinctKeys vs
  HasDistinctKeys-Renders _ _ nothing d = tt
  HasDistinctKeys-Renders _ _ (rendered {key} {val} {tmpl} {tmpls} {vs} g r) d =
      (lookup-Renders_miss key tmpls vs r d.0, HasDistinctKeys-Renders tmpls vs r d.1)

module _ {W V T C S : Type 0} (h : Handler W T) (r : Resolver V C S) where
  -- The annotations of the patched pod: the value of a template stands at its key, and another key
  -- has the value that it had.
  pub annotations-patched :
      (pod q : Pod) (pvc_name : Text) (fields : TemplateData) (ops : List JsonPatchOp)
      (annotations : List (Text × Text))
      → HasDistinctKeys h.annotation_tmpls
      → build_patch h pod pvc_name fields ≡ ok ops
      → apply_all ops pod ≡ some q
      → q.annotations ≡ some annotations
      → HasDistinctKeys (or_nothing pod.annotations)
      → ((k v : Text) (tmpl : Option T)
          → lookup k h.annotation_tmpls ≡ some tmpl
          → render_template h.templates tmpl fields ≡ ok v
          → lookup k annotations ≡ some v)
        × ((k : Text)
            → lookup k h.annotation_tmpls ≡ none
            → lookup k annotations ≡ lookup k (or_nothing pod.annotations))
        × HasDistinctKeys annotations
  annotations-patched pod q pvc_name fields ops annotations d b a e c =
      elim (build_patch-patched h pod pvc_name fields) [
        | inr (_, x, _) ↦ absurd (ground arith)
        | inl (done, vs, x, renders, applied) ↦
            let m = or_nothing pod.annotations in
            let same : insert_all vs m ≡ annotations = ground arith in
            (
              (λ k v tmpl f g.
                  sym (ap (λ n. lookup k n) same)
                  ∙ lookup-insert_all k v vs m
                      (HasDistinctKeys-Renders h fields h.annotation_tmpls vs renders d)
                      (lookup-Renders h fields k v tmpl h.annotation_tmpls vs renders f g)),
              (λ k f.
                  sym (ap (λ n. lookup k n) same)
                  ∙ lookup-insert_all_miss k vs m
                      (lookup-Renders_miss h fields k h.annotation_tmpls vs renders f)),
              subst (λ n. HasDistinctKeys n) same (HasDistinctKeys-insert_all vs m c),
            )
      ]

  chosen :
      (cfg : PodSandboxConfig) (text key : Text)
      → text ≢ []
      → lookup r.key_literal cfg.annotations ≡ none
      → lookup r.key_template cfg.annotations ≡ some text
      → upperdir_from_config r cfg key ≡ render_upperdir_template r text cfg key
  unfolding upperdir_from_config
  chosen cfg [] key n e f = absurd (n refl)
  chosen cfg (c ∷ text) key n e f = rw (upperdir_from_config, e, f) refl

  -- For a sandbox with the annotations of the pod that the webhook's patch makes, the resolver renders
  -- the text to which the handler's template for the resolver's key renders, where that is not empty,
  -- and it does so on data that have, under the name of each variable for which the handler has a
  -- template, the text to which this renders: if the handler and the pod have each key once, and
  -- neither has the key of a literal path.
  pub upperdir_from_config-patched :
      (pod q : Pod) (pvc_name : Text) (fields : TemplateData) (ops : List JsonPatchOp)
      (cfg : PodSandboxConfig) (tmpl : Option T) (text key : Text)
      → HasDistinctKeys h.annotation_tmpls
      → HasDistinctKeys (or_nothing pod.annotations)
      → build_patch h pod pvc_name fields ≡ ok ops
      → apply_all ops pod ≡ some q
      → q.annotations ≡ some cfg.annotations
      → lookup r.key_template h.annotation_tmpls ≡ some tmpl
      → render_template h.templates tmpl fields ≡ ok text
      → text ≢ []
      → lookup r.key_literal h.annotation_tmpls ≡ none
      → lookup r.key_literal (or_nothing pod.annotations) ≡ none
      → (upperdir_from_config r cfg key ≡ render_upperdir_template r text cfg key)
        × ((name v : Text) (var : Option T)
            → lookup (r.key_var_prefix ++ name) h.annotation_tmpls ≡ some var
            → render_template h.templates var fields ≡ ok v
            → lookup name (template_data r cfg) ≡ some v)
  upperdir_from_config-patched pod q pvc_name fields ops cfg tmpl text key d c b a e f g n i j =
      let (stamped, kept, distinct) =
        annotations-patched pod q pvc_name fields ops cfg.annotations d b a e c in
      (
        chosen cfg text key n (kept r.key_literal i ∙ j) (stamped r.key_template text tmpl f g),
        λ name v var k l.
            lookup-template_data r cfg name distinct
            ∙ ap (λ o. or_else o (lookup name (builtins cfg.metadata)))
                (stamped (r.key_var_prefix ++ name) v var k l),
      )
