-- ===== src/Resolver/TemplateData.antt =====
-- The data on which the template of an annotation is rendered.
use pv_snapshotter.Base.{
  ◌≡◌, ◌≢◌, refl, sym, ◌∙◌, inl, inr, Option, none, some, List, [], ◌∷◌, ◌++◌, Text, arith, ◌==◌,
  eq_iff, eq_ne, eq_refl, if◌then◌else◌, cut_prefix, cut_prefix_cases, lookup, lookup-insert,
  HasDistinctKeys, Option-cases, Bool-cases,
}
use pv_snapshotter.Host.{PodSandboxConfig}
use pv_snapshotter.Resolver.{Resolver, Data, add_var, add_vars, builtins, template_data}

abbrev pub or_else : Option Text → Option Text → Option Text
or_else none other = other
or_else (some v) other = some v

append_cancel : (p a b : Text) → p ++ a ≡ p ++ b → a ≡ b
append_cancel [] a b h = h
append_cancel (c ∷ p) a b h = append_cancel p a b (cc h)

module _ (prefix name : Text) where
  same_key : (k n : Text) → k ≡ prefix ++ n → (k == prefix ++ name) ≡ (n == name)
  same_key k n e = elim (Bool-cases (n == name)) [
    | inl h ↦ rw (e, (eq_iff n name).0 h) (eq_refl (prefix ++ name) ∙ sym (eq_refl name))
    | inr h ↦
        let differ : n ≢ name = λ f. cc (h, (eq_iff n name).1 f) in
        eq_ne k (prefix ++ name) (λ f. differ (append_cancel prefix n name (sym e ∙ f))) ∙ sym h
  ]

  lookup-add_var :
      (k v : Text) (fields : Data)
      → lookup name (add_var prefix k v fields)
        ≡ (if k == prefix ++ name then some v else lookup name fields)
  unfolding add_var
  lookup-add_var k v fields = elim (Option-cases (cut_prefix k prefix)) [
    | inr (n, e) ↦
        ground (
          arith,
          e,
          same_key k n ((cut_prefix_cases k prefix n).0 e),
          lookup-insert n name v fields,
        )
    | inl e ↦
        let differ : k ≢ prefix ++ name = λ f. cc (e, (cut_prefix_cases k prefix name).1 f) in
        ground (arith, e, eq_ne k (prefix ++ name) differ)
  ]

  lookup-add_vars :
      (annotations : List (Text × Text)) (fields : Data)
      → HasDistinctKeys annotations
      → lookup name (add_vars prefix annotations fields)
        ≡ or_else (lookup (prefix ++ name) annotations) (lookup name fields)
  unfolding add_vars lookup
  lookup-add_vars [] fields d = refl
  lookup-add_vars ((k, v) ∷ annotations) fields d = ground (
    arith,
    lookup-add_vars annotations (add_var prefix k v fields) d.1,
    lookup-add_var k v fields,
    eq_iff k (prefix ++ name),
  )

-- Where no two annotations have the same key, a template finds under a name the value of the
-- annotation `<prefix>/var.<name>`, and only without that annotation the pod's own field of this
-- name, whatever the order of the annotations.
pub lookup-template_data :
    {W C T : Type 0} (r : Resolver W C T) (cfg : PodSandboxConfig) (name : Text)
    → HasDistinctKeys cfg.annotations
    → lookup name (template_data r cfg)
      ≡ or_else
          (lookup (r.key_var_prefix ++ name) cfg.annotations)
          (lookup name (builtins cfg.metadata))
unfolding template_data
lookup-template_data r cfg name d =
    lookup-add_vars r.key_var_prefix name cfg.annotations (builtins cfg.metadata) d
