-- ===== src/Webhook/Pointer.antt =====
-- The escaping of annotation keys in JSON pointers, from buildPatch of pkg/webhook/mutating.go.
use pv_snapshotter.Base.{
  ℕ, ◌≡◌, refl, sym, ap, subst, ◌∙◌, inl, inr, true, false, Option, none, some, [], ◌∷◌, ◌++◌, Text,
  codes, arith, eqb, if◌then◌else◌, Lacks, Bool-cases,
}

abbrev pub slash : ℕ
slash = b'/'

abbrev pub tilde : ℕ
tilde = b'~'

-- strings.ReplaceAll of one byte.
unfoldable pub replace_all : ℕ → Text → Text → Text
replace_all b new [] = []
replace_all b new (c ∷ s) = if eqb c b then new ++ replace_all b new s else c ∷ replace_all b new s

-- jsonKey.
unfoldable pub json_key : Text → Text
json_key key = replace_all slash (codes "~1") (replace_all tilde (codes "~0") key)

abbrev pub consed : ℕ → Option Text → Option Text
consed c none = none
consed c (some s) = some (c ∷ s)

-- A reference token as RFC 6901 has it read: "~1" is a slash and "~0" a tilde, and any other tilde
-- is an error.
unfoldable pub evaluate : Text → Option Text
evaluate [] = some []
evaluate (c ∷ []) = if eqb c tilde then none else some (c ∷ [])
evaluate (c ∷ d ∷ s) = elim (eqb c tilde) [
  | false ↦ consed c (evaluate (d ∷ s))
  | true ↦ elim (eqb d b'1') [
    | true ↦ consed slash (evaluate s)
    | false ↦ elim (eqb d b'0') [ true ↦ consed tilde (evaluate s) | false ↦ none ]
  ]
]

eqb_eq : (c b : ℕ) → eqb c b ≡ true → c ≡ b
eqb_eq c b e = ground arith

evaluate_plain : (c : ℕ) (s : Text) → eqb c tilde ≡ false → evaluate (c ∷ s) ≡ consed c (evaluate s)
unfolding evaluate
evaluate_plain c [] e = rw e refl
evaluate_plain c (d ∷ s) e = rw (evaluate, e) refl

json_key-tilde : (key : Text) → json_key (tilde ∷ key) ≡ tilde ∷ b'0' ∷ json_key key
unfolding json_key replace_all
json_key-tilde key = refl

json_key-slash : (key : Text) → json_key (slash ∷ key) ≡ tilde ∷ b'1' ∷ json_key key
unfolding json_key replace_all
json_key-slash key = refl

json_key_plain :
    (c : ℕ) (key : Text)
    → eqb c tilde ≡ false
    → eqb c slash ≡ false
    → json_key (c ∷ key) ≡ c ∷ json_key key
unfolding json_key replace_all
json_key_plain c key e f = ground arith

evaluate-slash : (s : Text) → evaluate (tilde ∷ b'1' ∷ s) ≡ consed slash (evaluate s)
unfolding evaluate
evaluate-slash s = refl

evaluate-tilde : (s : Text) → evaluate (tilde ∷ b'0' ∷ s) ≡ consed tilde (evaluate s)
unfolding evaluate
evaluate-tilde s = refl

-- A reader of JSON pointers gets back from the escaped key exactly the annotation's key.
pub evaluate-json_key : (key : Text) → evaluate (json_key key) ≡ some key
unfolding json_key replace_all evaluate
evaluate-json_key [] = refl
evaluate-json_key (c ∷ key) = elim (Bool-cases (eqb c tilde)) [
  | inl e ↦
      subst (λ x. evaluate (json_key (x ∷ key)) ≡ some (x ∷ key)) (sym (eqb_eq c tilde e))
        (ap evaluate (json_key-tilde key)
          ∙ evaluate-tilde (json_key key)
          ∙ ap (consed tilde) (evaluate-json_key key))
  | inr e ↦ elim (Bool-cases (eqb c slash)) [
    | inl f ↦
        subst (λ x. evaluate (json_key (x ∷ key)) ≡ some (x ∷ key)) (sym (eqb_eq c slash f))
          (ap evaluate (json_key-slash key)
            ∙ evaluate-slash (json_key key)
            ∙ ap (consed slash) (evaluate-json_key key))
    | inr f ↦
        ap evaluate (json_key_plain c key e f)
        ∙ evaluate_plain c (json_key key) e
        ∙ ap (consed c) (evaluate-json_key key)
  ]
]

-- The escaped key has no slash, so that it is one token of the pointer's path.
pub json_key-Lacks : (key : Text) → Lacks slash (json_key key)
unfolding json_key replace_all
json_key-Lacks [] = tt
json_key-Lacks (c ∷ key) = elim (Bool-cases (eqb c tilde)) [
  | inl e ↦
      subst (λ x. Lacks slash (json_key (x ∷ key))) (sym (eqb_eq c tilde e))
        (subst (Lacks slash) (sym (json_key-tilde key))
          ((λ h. omega (arith, h)), ((λ h. omega (arith, h)), json_key-Lacks key)))
  | inr e ↦ elim (Bool-cases (eqb c slash)) [
    | inl f ↦
        subst (λ x. Lacks slash (json_key (x ∷ key))) (sym (eqb_eq c slash f))
          (subst (Lacks slash) (sym (json_key-slash key))
            ((λ h. omega (arith, h)), ((λ h. omega (arith, h)), json_key-Lacks key)))
    | inr f ↦
        subst (Lacks slash) (sym (json_key_plain c key e f)) (ground (arith, f), json_key-Lacks key)
  ]
]
