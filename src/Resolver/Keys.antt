-- ===== src/Resolver/Keys.antt =====
-- The annotation keys of a resolver.
use pv_snapshotter.Base.{
  ℕ, arith, ◌≡◌, ◌≢◌, refl, ap, ◌∙◌, ◌∷◌, ◌++◌, Text, codes, Result, cut_prefix_cases, append_assoc,
}
use pv_snapshotter.Host.{ContainerClient, Templates, SandboxMetadata}
use pv_snapshotter.Annotation
use pv_snapshotter.Resolver.{Data, Resolver, new_resolver}

append-cancel : (p a b : Text) → p ++ a ≡ p ++ b → a ≡ b
append-cancel p a b e =
    let f = (cut_prefix_cases (p ++ a) p a).1 refl in
    let g = (cut_prefix_cases (p ++ a) p b).1 e in cc (f, g)

abbrev second : Text → ℕ
second (a ∷ b ∷ t) = b
second t = 0

module _ {W C T : Type 0} (client : ContainerClient W C) (templates : Templates T Data)
    (unmarshal : Text → Result SandboxMetadata) (prefix : Text) where
  abbrev made : Resolver W C T
  made = new_resolver client templates unmarshal prefix

  -- The three kinds of annotation do not overlap: the key of a literal path, the key of a template
  -- and the key of a variable of any name differ, whatever the prefix is.
  pub new_resolver_keys :
      (name : Text)
      → (made.key_literal ≢ made.key_template)
        × (made.key_literal ≢ made.key_var_prefix ++ name)
        × (made.key_template ≢ made.key_var_prefix ++ name)
  unfolding new_resolver Annotation.key
  new_resolver_keys name = (
    (λ e. cc (append-cancel prefix _ _ e)),
    (λ e. omega (
      arith,
      ap second (append-cancel prefix _ _ (e ∙ append_assoc prefix (codes "/var.") name)),
    )),
    (λ e. omega (
      arith,
      ap second (append-cancel prefix _ _ (e ∙ append_assoc prefix (codes "/var.") name)),
    )),
  )
