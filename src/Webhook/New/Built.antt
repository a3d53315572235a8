-- ===== src/Webhook/New/Built.antt =====
-- What holds of a handler that New returns.
use pv_snapshotter.Base.{
  ◌≡◌, refl, ap, ◌∙◌, subst, inl, inr, Option, none, some, List, [], ◌∷◌, ◌++◌, Text, codes, arith,
  ◌==◌, lookup, HasDistinctKeys, Result, ok, Result-cases, Bool-cases,
}
use pv_snapshotter.Exec.{State, Call, call}
use pv_snapshotter.Exec.Laws.{Returns}
use pv_snapshotter.Host.{Templates}
use pv_snapshotter.Annotation
use pv_snapshotter.Webhook.Kube.{Client, Clock}
use pv_snapshotter.Webhook.Owner.{Object, GroupVersionResource}
use pv_snapshotter.Webhook.Handler.{Handler, TemplateData}
use pv_snapshotter.Webhook.New.{
  WebhookFlags, Connect, annotation_suffix_pvc_name_template, parse_annotations, new_handler,
}

-- The templates of a handler are those of the flags, parsed, in their order.
pub data Parses {T : Type 0} (templates : Templates T TemplateData)
    : List (Text × Text) → List (Text × Option T) → Type 0 where
  no_templates : Parses templates [] []
  parsed :
      {k v : Text} {t : T} {raw : List (Text × Text)} {ts : List (Text × Option T)}
      → templates.parse (codes "annotation/" ++ k) v ≡ ok t
      → Parses templates raw ts
      → Parses templates ((k, v) ∷ raw) ((k, some t) ∷ ts)

module _ {T : Type 0} (templates : Templates T TemplateData) where
  Parses-cons :
      (k v : Text) (t : T) (raw : List (Text × Text)) (us ts : List (Text × Option T))
      → (k, some t) ∷ us ≡ ts
      → templates.parse (codes "annotation/" ++ k) v ≡ ok t
      → Parses templates raw us
      → Parses templates ((k, v) ∷ raw) ts
  Parses-cons k v t raw us ts e f p =
      subst (λ xs. Parses templates ((k, v) ∷ raw) xs) e (parsed f p)

  parse_annotations-Parses :
      (raw : List (Text × Text)) (ts : List (Text × Option T))
      → parse_annotations templates raw ≡ ok ts
      → Parses templates raw ts
  unfolding parse_annotations
  parse_annotations-Parses [] ts e =
      let same : [] ≡ ts = ground arith in subst (λ xs. Parses templates [] xs) same no_templates
  parse_annotations-Parses ((k, v) ∷ raw) ts e =
      elim (Result-cases (templates.parse (codes "annotation/" ++ k) v)) [
        | inr (_, f) ↦ absurd (ground arith)
        | inl (t, f) ↦ elim (Result-cases (parse_annotations templates raw)) [
          | inr (_, g) ↦ absurd (ground arith)
          | inl (us, g) ↦
              Parses-cons k v t raw us ts (ground arith) f (parse_annotations-Parses raw us g)
        ]
      ]

  lookup-Parses_miss :
      (key : Text) (raw : List (Text × Text)) (ts : List (Text × Option T))
      → Parses templates raw ts
      → lookup key raw ≡ none
      → lookup key ts ≡ none
  unfolding lookup
  lookup-Parses_miss key _ _ no_templates e = refl
  lookup-Parses_miss key _ _ (parsed {k} {v} {t} {raw} {ts} f p) e = elim (Bool-cases (k == key)) [
    | inl g ↦ absurd (ground arith)
    | inr g ↦ ground (arith, lookup-Parses_miss key raw ts p (ground arith))
  ]

  HasDistinctKeys-Parses :
      (raw : List (Text × Text)) (ts : List (Text × Option T))
      → Parses templates raw ts
      → HasDistinctKeys raw
      → HasDistinctKeys ts
  HasDistinctKeys-Parses _ _ no_templates d = tt
  HasDistinctKeys-Parses _ _ (parsed {k} {v} {t} {raw} {ts} f p) d =
      (lookup-Parses_miss k raw ts p d.0, HasDistinctKeys-Parses raw ts p d.1)

module _ {W R T : Type 0} (connect : Connect W R) (templates : Templates T TemplateData)
    (clock : Clock W) (parse_selector : Text → Result Text) (is_subdomain : Text → List Text) where
  -- What the handler takes from the flags.
  pub record IsBuilt (flags : WebhookFlags) (h : Handler W T) : Type 0 where
    pub prefix : Text
    pub name_tmpl : T
    pub selector_tmpl : T
    pub resolved : Annotation.resolve_prefix is_subdomain flags.annotation_prefix ≡ ok prefix
    pub overridden :
        h.pvc_name_tmpl_annotation ≡ Annotation.key prefix annotation_suffix_pvc_name_template
    pub named : templates.parse (codes "pvc-name") flags.pvc_name_template ≡ ok name_tmpl
    pub has_name : h.pvc_name_tmpl ≡ some name_tmpl
    pub selected :
        templates.parse (codes "pvc-selector") flags.pvc_selector_template ≡ ok selector_tmpl
    pub has_selector : h.pvc_selector_tmpl ≡ some selector_tmpl
    pub annotated : Parses templates flags.annotation_templates h.annotation_tmpls
    pub distinct : HasDistinctKeys h.annotation_tmpls
    pub classed : h.default_runtime_class ≡ flags.default_runtime_class
    pub suffixed : h.runtime_class_suffix ≡ flags.runtime_class_suffix

  new_handler_parses :
      (flags : WebhookFlags) (s : State W) (h : Handler W T) (t : State W) (cfg : R) (kc : Client W)
      (dc : GroupVersionResource → Text → Text → Call W Object)
      → HasDistinctKeys flags.annotation_templates
      → Returns (new_handler connect templates clock parse_selector is_subdomain flags) s h t
      → (call connect.get_config s).0 ≡ ok cfg
      → (call (connect.new_client cfg) (call connect.get_config s).1).0 ≡ ok kc
      → (call
          (connect.new_dynamic cfg)
          (call (connect.new_client cfg) (call connect.get_config s).1).1).0
        ≡ ok dc
      → IsBuilt flags h
  unfolding new_handler
  new_handler_parses flags s h t cfg kc dc d e f g k =
      elim (Result-cases (templates.parse (codes "pvc-name") flags.pvc_name_template)) [
        | inr (_, l) ↦ absurd (ground arith)
        | inl (name, l) ↦
            elim (Result-cases
              (templates.parse (codes "pvc-selector") flags.pvc_selector_template)) [
                | inr (_, m) ↦ absurd (ground arith)
                | inl (selector, m) ↦
                    elim (Result-cases
                      (Annotation.resolve_prefix is_subdomain flags.annotation_prefix)) [
                        | inr (_, n) ↦ absurd (ground arith)
                        | inl (prefix, n) ↦
                            elim (Result-cases
                              (parse_annotations templates flags.annotation_templates)) [
                                | inr (_, o) ↦ absurd (ground arith)
                                | inl (ts, o) ↦
                                    let same : ts ≡ h.annotation_tmpls = ground arith in
                                    let p =
                                      parse_annotations-Parses templates flags.annotation_templates
                                        h.annotation_tmpls (o ∙ ap (λ x. ok x) same) in
                                    record {
                                      prefix = prefix;
                                      name_tmpl = name;
                                      selector_tmpl = selector;
                                      resolved = n;
                                      overridden = ground arith;
                                      named = l;
                                      has_name = ground arith;
                                      selected = m;
                                      has_selector = ground arith;
                                      annotated = p;
                                      distinct =
                                          HasDistinctKeys-Parses templates
                                            flags.annotation_templates h.annotation_tmpls p d;
                                      classed = ground arith;
                                      suffixed = ground arith;
                                    }
                              ]
                      ]
              ]
      ]

  -- The handler that New returns has both templates of a claim's name, parsed from the flags, and the
  -- annotation templates of the flags in their order, each key once as in the flags; its key of the
  -- pods' own override is made of a valid prefix, which is the flag's; and its default runtime class
  -- and its suffix are those of the flags.
  pub new_handler-IsBuilt :
      (flags : WebhookFlags) (s : State W) (h : Handler W T) (t : State W)
      → HasDistinctKeys flags.annotation_templates
      → Returns (new_handler connect templates clock parse_selector is_subdomain flags) s h t
      → IsBuilt flags h
  unfolding new_handler
  new_handler-IsBuilt flags s h t d e =
      let configuring = call connect.get_config s in
      elim (Result-cases configuring.0) [
        | inr (_, f) ↦ absurd (ground arith)
        | inl (cfg, f) ↦ elim (Result-cases (call (connect.new_client cfg) configuring.1).0) [
          | inr (_, g) ↦ absurd (ground arith)
          | inl (kc, g) ↦
              let connecting = call (connect.new_client cfg) configuring.1 in
              elim (Result-cases (call (connect.new_dynamic cfg) connecting.1).0) [
                | inr (_, k) ↦ absurd (ground arith)
                | inl (dc, k) ↦ new_handler_parses flags s h t cfg kc dc d e f g k
              ]
        ]
      ]
