-- ===== src/Webhook/Claim/Resolved.antt =====
-- Which claim is resolved for a pod.
use pv_snapshotter.Base.{
  ◌≡◌, ◌≢◌, ◌⊎◌, ◌↔◌, inl, inr, none, some, List, [], ◌∷◌, Text, codes, arith, eq_ne, eq_iff, ok,
  Result-cases, Option-cases, List-cases,
}
use pv_snapshotter.Exec.{State, call}
use pv_snapshotter.Exec.Laws.{Returns}
use pv_snapshotter.Webhook.Kube.{Pod, Claim}
use pv_snapshotter.Webhook.Handler.{Handler, TemplateData, render_template}
use pv_snapshotter.Webhook.Claim.{
  override_of, resolve_pvc_from_annotation, select_pvc, resolve_pvc_by_templates, resolve_pvc,
}

module _ {W T : Type 0} (h : Handler W T) (ns : Text) (fields : TemplateData) where
  -- The pod's own template gives the claim's name.
  pub record IsOverridden (text : Text) (s : State W) (pvc : Claim) (t : State W) : Type 0 where
    pub tmpl : T
    pub name : Text
    pub parsed : h.templates.parse (codes "pvc-name-annotation") text ≡ ok tmpl
    pub rendered : h.templates.execute tmpl fields ≡ ok name
    pub nonempty : name ≢ []
    pub fetched : Returns (call (h.client.get_claim ns name)) s pvc t

  -- The handler's name template gives it.
  pub record IsNamed (s : State W) (pvc : Claim) (t : State W) : Type 0 where
    pub name : Text
    pub rendered : render_template h.templates h.pvc_name_tmpl fields ≡ ok name
    pub nonempty : name ≢ []
    pub fetched : Returns (call (h.client.get_claim ns name)) s pvc t

  -- The name template gives nothing, and the claim is the first with the labels.
  pub record IsSelected (s : State W) (pvc : Claim) (t : State W) : Type 0 where
    pub selector : Text
    pub sel : Text
    pub rest : List Claim
    pub unnamed : render_template h.templates h.pvc_name_tmpl fields ≡ ok []
    pub rendered : render_template h.templates h.pvc_selector_tmpl fields ≡ ok selector
    pub nonempty : selector ≢ []
    pub parsed : h.parse_selector selector ≡ ok sel
    pub listed : Returns (call (h.client.list_claims ns sel)) s (pvc ∷ rest) t

  abbrev pub IsResolved : Pod → State W → Claim → State W → Type 0
  IsResolved pod s pvc t =
      ((text : Text) × (override_of h ns pod ≡ some text) × IsOverridden text s pvc t)
      ⊎ ((override_of h ns pod ≡ none) × (IsNamed s pvc t ⊎ IsSelected s pvc t))

  resolve_pvc_from_annotation_sound :
      (text : Text) (s : State W) (pvc : Claim) (t : State W)
      → Returns (resolve_pvc_from_annotation h ns text fields) s pvc t
      → IsOverridden text s pvc t
  unfolding resolve_pvc_from_annotation render_template
  resolve_pvc_from_annotation_sound text s pvc t r =
      elim (Result-cases (h.templates.parse (codes "pvc-name-annotation") text)) [
        | inr (_, e) ↦ absurd (ground arith)
        | inl (tmpl, e) ↦ elim (Result-cases (h.templates.execute tmpl fields)) [
          | inr (_, f) ↦ absurd (ground arith)
          | inl (name, f) ↦ elim (List-cases name) [
            | inl g ↦ absurd (ground (arith, eq_iff name []))
            | inr g ↦ record {
              tmpl = tmpl;
              name = name;
              parsed = e;
              rendered = f;
              nonempty = g;
              fetched = ground (arith, eq_iff name []);
            }
          ]
        ]
      ]

  resolve_pvc_from_annotation_complete :
      (text : Text) (s : State W) (pvc : Claim) (t : State W)
      → IsOverridden text s pvc t
      → Returns (resolve_pvc_from_annotation h ns text fields) s pvc t
  unfolding resolve_pvc_from_annotation render_template
  resolve_pvc_from_annotation_complete text s pvc t r = ground (arith, eq_ne r.name [] r.nonempty)

  select_pvc_sound :
      (s : State W) (pvc : Claim) (t : State W)
      → render_template h.templates h.pvc_name_tmpl fields ≡ ok []
      → Returns (select_pvc h ns fields) s pvc t
      → IsSelected s pvc t
  unfolding select_pvc
  select_pvc_sound s pvc t u r =
      elim (Result-cases (render_template h.templates h.pvc_selector_tmpl fields)) [
        | inr (_, e) ↦ absurd (ground arith)
        | inl (selector, e) ↦ elim (Result-cases (h.parse_selector selector)) [
          | inr (_, f) ↦ absurd (ground arith)
          | inl (sel, f) ↦ elim (Result-cases (call (h.client.list_claims ns sel) s).0) [
            | inr (_, g) ↦ absurd (ground arith)
            | inl ([], g) ↦ absurd (ground arith)
            | inl (p ∷ rest, g) ↦ record {
              selector = selector;
              sel = sel;
              rest = rest;
              unnamed = u;
              rendered = e;
              nonempty = λ k. ground (arith, eq_iff selector []);
              parsed = f;
              listed = ground arith;
            }
          ]
        ]
      ]

  select_pvc_complete :
      (s : State W) (pvc : Claim) (t : State W)
      → IsSelected s pvc t
      → Returns (select_pvc h ns fields) s pvc t
  unfolding select_pvc
  select_pvc_complete s pvc t r = ground (arith, eq_ne r.selector [] r.nonempty)

  resolve_pvc_by_templates_sound :
      (s : State W) (pvc : Claim) (t : State W)
      → Returns (resolve_pvc_by_templates h ns fields) s pvc t
      → IsNamed s pvc t ⊎ IsSelected s pvc t
  unfolding resolve_pvc_by_templates
  resolve_pvc_by_templates_sound s pvc t r =
      elim (Result-cases (render_template h.templates h.pvc_name_tmpl fields)) [
        | inr (_, e) ↦ absurd (ground arith)
        | inl ([], e) ↦ inr (select_pvc_sound s pvc t e (ground arith))
        | inl (c ∷ name, e) ↦
            inl
              (record { name = c ∷ name; rendered = e; nonempty = λ k. cc; fetched = ground arith })
      ]

  resolve_pvc_by_templates_complete :
      (s : State W) (pvc : Claim) (t : State W)
      → IsNamed s pvc t ⊎ IsSelected s pvc t
      → Returns (resolve_pvc_by_templates h ns fields) s pvc t
  unfolding resolve_pvc_by_templates
  resolve_pvc_by_templates_complete s pvc t (inl r) = ground (arith, List-cases r.name)
  resolve_pvc_by_templates_complete s pvc t (inr r) = ground (arith, select_pvc_complete s pvc t r)

  pub resolve_pvc-IsResolved :
      (pod : Pod) (s : State W) (pvc : Claim) (t : State W)
      → Returns (resolve_pvc h ns pod fields) s pvc t ↔ IsResolved pod s pvc t
  unfolding resolve_pvc
  resolve_pvc-IsResolved pod s pvc t = elim (Option-cases (override_of h ns pod)) [
    | inl e ↦ (
      (λ r. inr (e, resolve_pvc_by_templates_sound s pvc t (ground arith))),
      λ r. elim r [
        | inl (text, f, _) ↦ cc
        | inr (_, f) ↦ ground (arith, resolve_pvc_by_templates_complete s pvc t f)
      ],
    )
    | inr (text, e) ↦ (
      (λ r. inl (text, e, resolve_pvc_from_annotation_sound text s pvc t (ground arith))),
      λ r. elim r [
        | inl (other, f, g) ↦ ground (arith, resolve_pvc_from_annotation_complete other s pvc t g)
        | inr (f, _) ↦ cc
      ],
    )
  ]
