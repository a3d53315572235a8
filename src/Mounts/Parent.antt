-- ===== src/Mounts/Parent.antt =====
-- Which path ensureUpperdirReady, pkg/containerd/snapshotter/mount.go, takes for the root's parent.
use pv_snapshotter.Base.{
  codes, eqb, Bool-cases, sym, ap, ◌⊎◌, ◌≡◌, refl, subst, ◌∙◌, append_assoc, inl, inr, ℕ, none,
  some, [], ◌∷◌, ◌++◌, arith, Text, Lacks, All,
}
use pv_snapshotter.Key.{slash}
use pv_snapshotter.Mounts.{trim_right, cut_last, or_root, parent_of}

trim_right-All : (b : ℕ) (zs : Text) → All (λ c. c ≡ b) zs → trim_right b zs ≡ []
unfolding trim_right
trim_right-All b [] h = refl
trim_right-All b (z ∷ zs) h = ground (arith, trim_right-All b zs h.1)

trim_right-append :
    (b : ℕ) (s zs : Text) → All (λ c. c ≡ b) zs → trim_right b (s ++ zs) ≡ trim_right b s
unfolding trim_right
trim_right-append b [] zs h = trim_right-All b zs h
trim_right-append b (c ∷ s) zs h = rw (trim_right-append b s zs h)

trim_right-Lacks : (b : ℕ) (s : Text) → Lacks b s → trim_right b s ≡ s
unfolding trim_right
trim_right-Lacks b [] h = refl
trim_right-Lacks b (c ∷ s) h = ground (arith, trim_right-Lacks b s h.1)

append-cons_split : (x y : Text) (d : ℕ) → (e : ℕ) × (t : Text) × (x ++ d ∷ y ≡ e ∷ t)
append-cons_split [] y d = (d, y, refl)
append-cons_split (c ∷ x) y d = (c, x ++ d ∷ y, refl)

trim_right_keeps :
    (b : ℕ) (x y : Text) (d : ℕ) → Lacks b (d ∷ y) → trim_right b (x ++ d ∷ y) ≡ x ++ d ∷ y
unfolding trim_right
trim_right_keeps b [] y d h = trim_right-Lacks b (d ∷ y) h
trim_right_keeps b (c ∷ x) y d h =
    let (e, t, same) = append-cons_split x y d in ground (arith, trim_right_keeps b x y d h)

cut_last-Lacks : (b : ℕ) (s : Text) → Lacks b s → cut_last b s ≡ none
unfolding cut_last
cut_last-Lacks b [] h = refl
cut_last-Lacks b (c ∷ s) h = ground (arith, cut_last-Lacks b s h.1)

cut_last-append : (b : ℕ) (dir base : Text) → Lacks b base → cut_last b (dir ++ b ∷ base) ≡ some dir
unfolding cut_last
cut_last-append b [] base h = ground (arith, cut_last-Lacks b base h)
cut_last-append b (c ∷ dir) base h = rw (cut_last-append b dir base h)

-- The path that ensureUpperdirReady takes for the parent is the directory of the root's last
-- element, whatever slashes the root ends in, and "/" where that is empty.
parent_of_path :
    (dir base slashes : Text) (d : ℕ)
    → Lacks slash (d ∷ base)
    → All (λ c. c ≡ slash) slashes
    → parent_of ((dir ++ slash ∷ d ∷ base) ++ slashes) ≡ or_root dir
unfolding parent_of
parent_of_path dir base slashes d h k = rw (
  trim_right-append slash (dir ++ slash ∷ d ∷ base) slashes k,
  trim_dir,
  cut_last-append slash dir (d ∷ base) h,
)
  where
    trim_dir : trim_right slash (dir ++ slash ∷ d ∷ base) ≡ dir ++ slash ∷ d ∷ base
    trim_dir =
        subst (λ t. trim_right slash t ≡ t) (append_assoc dir (slash ∷ []) (d ∷ base))
          (trim_right_keeps slash (dir ++ slash ∷ []) base d h)

-- For a root of one element, with no slash before it, that path is the root itself.
parent_of_relative :
    (base slashes : Text) (d : ℕ)
    → Lacks slash (d ∷ base)
    → All (λ c. c ≡ slash) slashes
    → parent_of ((d ∷ base) ++ slashes) ≡ d ∷ base
unfolding parent_of
parent_of_relative base slashes d h k = ground (
  arith,
  trim_right-append slash (d ∷ base) slashes k ∙ trim_right-Lacks slash (d ∷ base) h,
  cut_last-Lacks slash (d ∷ base) h,
)

parent_of_slashes : (slashes : Text) → All (λ c. c ≡ slash) slashes → parent_of slashes ≡ codes "/"
unfolding parent_of cut_last
parent_of_slashes slashes h =
    ap (λ t. or_root (elim (cut_last slash t) [ none ↦ t | some dir ↦ dir ]))
      (trim_right-All slash slashes h)

-- The path that stands for the parent of a root, whatever slashes the root ends in: the directory of
-- its last element, and "/" where that is empty; the root itself, without the slashes, where it
-- has only one element and no slash before it; and "/" where it has no element.
pub data IsParent : Text → Text → Type 0 where
  in_dir :
      (dir base slashes : Text) (d : ℕ)
      → Lacks slash (d ∷ base)
      → All (λ c. c ≡ slash) slashes
      → IsParent ((dir ++ slash ∷ d ∷ base) ++ slashes) (or_root dir)
  relative :
      (base slashes : Text) (d : ℕ)
      → Lacks slash (d ∷ base)
      → All (λ c. c ≡ slash) slashes
      → IsParent ((d ∷ base) ++ slashes) (d ∷ base)
  only_slashes : (slashes : Text) → All (λ c. c ≡ slash) slashes → IsParent slashes (codes "/")

pub IsParent-parent_of : (root parent : Text) → IsParent root parent → parent_of root ≡ parent
IsParent-parent_of _ _ (in_dir dir base slashes d h k) = parent_of_path dir base slashes d h k
IsParent-parent_of _ _ (relative base slashes d h k) = parent_of_relative base slashes d h k
IsParent-parent_of _ _ (only_slashes slashes h) = parent_of_slashes slashes h

-- A text is slashes, or an element with slashes, or has an element after a slash.
abbrev Splits : Text → Type 0
Splits root =
    All (λ c. c ≡ slash) root
    ⊎ (((base : Text) × (slashes : Text) × (d : ℕ) × Lacks slash (d ∷ base)
          × All (λ c. c ≡ slash) slashes
          × ((d ∷ base) ++ slashes ≡ root))
        ⊎ ((dir : Text) × (base : Text) × (slashes : Text) × (d : ℕ) × Lacks slash (d ∷ base)
            × All (λ c. c ≡ slash) slashes
            × ((dir ++ slash ∷ d ∷ base) ++ slashes ≡ root)))

splits : (root : Text) → Splits root
splits [] = inl tt
splits (c ∷ root) = elim (splits root) [
  | inr (inr (dir, base, slashes, d, h, k, e)) ↦
      inr (inr (c ∷ dir, base, slashes, d, h, k, ap (λ t. c ∷ t) e))
  | inl all ↦ elim (Bool-cases (eqb c slash)) [
    | inl e ↦ inl (ground arith, all)
    | inr e ↦ inr (inl ([], root, c, ((λ f. ground arith), tt), all, refl))
  ]
  | inr (inl (base, slashes, d, h, k, e)) ↦ elim (Bool-cases (eqb c slash)) [
    | inl f ↦
        let same : c ≡ slash = ground arith in
        inr
          (inr ([], base, slashes, d, h, k, ap (λ t. slash ∷ t) e ∙ ap (λ x. x ∷ root) (sym same)))
    | inr f ↦ inr (inl (d ∷ base, slashes, c, ((λ g. ground arith), h), k, ap (λ t. c ∷ t) e))
  ]
]

pub IsParent-total : (root : Text) → IsParent root (parent_of root)
IsParent-total root = elim (splits root) [
  | inl all ↦
      subst (λ p. IsParent root p) (sym (parent_of_slashes root all)) (only_slashes root all)
  | inr (inl (base, slashes, d, h, k, e)) ↦
      subst (λ r. IsParent r (parent_of r)) e
        (subst (λ p. IsParent ((d ∷ base) ++ slashes) p)
          (sym (parent_of_relative base slashes d h k)) (relative base slashes d h k))
  | inr (inr (dir, base, slashes, d, h, k, e)) ↦
      subst (λ r. IsParent r (parent_of r)) e
        (subst (λ p. IsParent ((dir ++ slash ∷ d ∷ base) ++ slashes) p)
          (sym (parent_of_path dir base slashes d h k)) (in_dir dir base slashes d h k))
]
