-- ===== src/Base/Strings.antt =====
-- Go strings as lists of bytes, the functions of package strings that the program calls, and maps
-- from strings as association lists.
use Prim.Native.Nat.{ℕ, zero, suc}
use Prim.Native.Char.{code}
use Prim.Native.String.{String}
use mathlib.Core.Path.{◌≡◌, refl, sym, subst, ap, ◌∙◌}
use mathlib.Core.Logic.{◌↔◌, ◌≢◌, ◌⊎◌, inl, inr}
use mathlib.Core.Bool.{Bool, true, false, ◌&&◌, ◌||◌}
use mathlib.Core.Option.{Option, none, some}
use mathlib.Core.List.{List, [], ◌∷◌, ◌++◌, reverse, reverse-append, reverse-reverse}
use native.Mathlib.Omega.{arith}
use pv_snapshotter.Base.Tests.{eqb, if◌then◌else◌, Bool-cases}
use pv_snapshotter.Base.Lists.{All}

abbrev pub Text : Type 0
Text = List ℕ

-- The bytes of a literal, which is ASCII.
abbrev pub codes : String → Text
codes String.[] = []
codes (String.◌∷◌ c s) = code c ∷ codes s

infix 50 ◌==◌
unfoldable pub ◌==◌ : Text → Text → Bool
◌==◌ [] [] = true
◌==◌ [] (b ∷ t) = false
◌==◌ (a ∷ s) [] = false
◌==◌ (a ∷ s) (b ∷ t) = eqb a b && s == t

pub eq_iff : (s t : Text) → ((s == t) ≡ true) ↔ (s ≡ t)
unfolding ◌==◌
eq_iff [] [] = ((λ _. refl), λ _. refl)
eq_iff [] (b ∷ t) = ground arith
eq_iff (a ∷ s) [] = ground arith
eq_iff (a ∷ s) (b ∷ t) = ground (arith, eq_iff s t)

pub eq_refl : (s : Text) → (s == s) ≡ true
eq_refl s = (eq_iff s s).1 refl

pub eq_ne : (s t : Text) → s ≢ t → (s == t) ≡ false
eq_ne s t h = ground (arith, eq_iff s t)

-- strings.CutPrefix, and strings.HasPrefix.
unfoldable pub cut_prefix : Text → Text → Option Text
cut_prefix s [] = some s
cut_prefix [] (p ∷ ps) = none
cut_prefix (c ∷ s) (p ∷ ps) = if eqb c p then cut_prefix s ps else none

unfoldable pub has_prefix : Text → Text → Bool
has_prefix s p = elim (cut_prefix s p) [ none ↦ false | some _ ↦ true ]

-- strings.HasSuffix.
unfoldable pub has_suffix : Text → Text → Bool
has_suffix s t = has_prefix (reverse s) (reverse t)

pub cut_prefix_cases : (s p rest : Text) → (cut_prefix s p ≡ some rest) ↔ (s ≡ p ++ rest)
unfolding cut_prefix
cut_prefix_cases s [] rest = ground arith
cut_prefix_cases [] (p ∷ ps) rest = ground arith
cut_prefix_cases (c ∷ s) (p ∷ ps) rest = ground (arith, cut_prefix_cases s ps rest)

pub has_prefix_lem : (s p rest : Text) → cut_prefix s p ≡ some rest → has_prefix s p ≡ true
unfolding has_prefix
has_prefix_lem s p rest h = ground arith

pub has_prefix_iff : (s p : Text) → (has_prefix s p ≡ true) ↔ ((rest : Text) × (s ≡ p ++ rest))
unfolding has_prefix
has_prefix_iff s p = (
  (λ h. let (rest, e) = found s p h in (rest, (cut_prefix_cases s p rest).0 e)),
  λ r. has_prefix_lem s p r.0 ((cut_prefix_cases s p r.0).1 r.1),
)
  where
    found : (s p : Text) → has_prefix s p ≡ true → (rest : Text) × (cut_prefix s p ≡ some rest)
    found s p h = ground arith

pub has_prefix-append : (p rest : Text) → has_prefix (p ++ rest) p ≡ true
has_prefix-append p rest = (has_prefix_iff (p ++ rest) p).1 (rest, refl)

pub has_suffix_iff : (s t : Text) → (has_suffix s t ≡ true) ↔ ((head : Text) × (s ≡ head ++ t))
unfolding has_suffix
has_suffix_iff s t = (
  (λ h.
      let (rest, e) = (has_prefix_iff (reverse s) (reverse t)).0 h in
      (
        reverse rest,
        sym (reverse-reverse s)
            ∙ ap reverse e
            ∙ reverse-append (reverse t) rest
            ∙ ap (λ u. reverse rest ++ u) (reverse-reverse t),
      )),
  λ r.
      (has_prefix_iff (reverse s) (reverse t)).1
        (reverse r.0, ap reverse r.1 ∙ reverse-append r.0 t),
)

abbrev pub Lacks : ℕ → Text → Type 0
Lacks b = All (λ c. c ≢ b)

-- strings.Cut at a one-byte separator; `none` where the separator does not occur.
unfoldable pub cut : ℕ → Text → Option (Text × Text)
cut sep [] = none
cut sep (c ∷ s) =
    if eqb c sep
    then some ([], s)
    else elim (cut sep s) [ none ↦ none | some (before, after) ↦ some (c ∷ before, after) ]

pub cut_cases :
    (sep : ℕ) (s : Text)
    → ((cut sep s ≡ none) × Lacks sep s)
      ⊎ ((before : Text) × (after : Text) × (cut sep s ≡ some (before, after))
          × Lacks sep before
          × (s ≡ before ++ sep ∷ after))
unfolding cut
cut_cases sep [] = inl (refl, tt)
cut_cases sep (c ∷ s) = elim (Bool-cases (eqb c sep)) [
  | inl here ↦ inr ([], s, ground arith, tt, ground arith)
  | inr later ↦ elim (cut_cases sep s) [
    | inl (e, lacks) ↦ inl (ground arith, (ground arith, lacks))
    | inr (before, after, e, lacks, same) ↦
        inr (c ∷ before, after, ground arith, (ground arith, lacks), ground arith)
  ]
]

pub cut-append :
    (sep : ℕ) (before after : Text)
    → Lacks sep before
    → cut sep (before ++ sep ∷ after) ≡ some (before, after)
unfolding cut
cut-append sep [] after h = ground arith
cut-append sep (c ∷ before) after h = ground (arith, cut-append sep before after h.1)

-- strings.Contains of a one-byte text.
unfoldable pub contains : Text → ℕ → Bool
contains [] b = false
contains (c ∷ s) b = eqb c b || contains s b

pub contains_iff : (s : Text) (b : ℕ) → (contains s b ≡ false) ↔ Lacks b s
unfolding contains
contains_iff [] b = ((λ _. tt), λ _. refl)
contains_iff (c ∷ s) b = ground (arith, contains_iff s b)

-- strings.Split at a one-byte separator.
abbrev pub onto_first : ℕ → List Text → List Text
onto_first c [] = []
onto_first c (t ∷ ts) = (c ∷ t) ∷ ts

unfoldable pub split_all : ℕ → Text → List Text
split_all b [] = [] ∷ []
split_all b (c ∷ s) = let rest = split_all b s in if eqb c b then [] ∷ rest else onto_first c rest

-- strings.SplitN at a one-byte separator, for a count that is not negative.
unfoldable pub split_n : ℕ → ℕ → Text → List Text
split_n sep zero s = []
split_n sep (suc zero) s = s ∷ []
split_n sep (suc (suc n)) s = elim (cut sep s) [
  | none ↦ s ∷ []
  | some (before, after) ↦ before ∷ split_n sep (suc n) after
]

-- `v, ok := m[key]`, and `m[key]` where the zero value is the empty text.
module _ {ℓ} {V : Type ℓ} where
  unfoldable pub lookup : Text → List (Text × V) → Option V
  lookup key [] = none
  lookup key ((k, v) ∷ m) = if k == key then some v else lookup key m

abbrev pub lookup_or : Text → List (Text × Text) → Text
lookup_or key m = elim (lookup key m) [ none ↦ [] | some v ↦ v ]

-- `m[key] = v`.
module _ {ℓ} {V : Type ℓ} where
  unfoldable pub insert : Text → V → List (Text × V) → List (Text × V)
  insert key v [] = (key, v) ∷ []
  insert key v ((k, w) ∷ m) = if k == key then (key, v) ∷ m else (k, w) ∷ insert key v m

  pub lookup-insert :
      (key other : Text) (v : V) (m : List (Text × V))
      → lookup other (insert key v m) ≡ (if key == other then some v else lookup other m)
  unfolding lookup insert
  lookup-insert key other v [] = refl
  lookup-insert key other v ((k, w) ∷ m) =
      ground (arith, eq_iff key other, eq_iff k key, eq_iff k other, lookup-insert key other v m)

-- The keys of a map are distinct.
abbrev pub HasDistinctKeys : {V : Type 0} → List (Text × V) → Type 0
HasDistinctKeys [] = Unit
HasDistinctKeys ((k, v) ∷ m) = (lookup k m ≡ none) × HasDistinctKeys m

pub HasDistinctKeys-insert :
    {V : Type 0} (key : Text) (v : V) (m : List (Text × V))
    → HasDistinctKeys m
    → HasDistinctKeys (insert key v m)
unfolding insert lookup
HasDistinctKeys-insert key v [] d = (refl, tt)
HasDistinctKeys-insert key v ((k, w) ∷ m) d = elim (Bool-cases (k == key)) [
  | inl e ↦
      let same : (key, v) ∷ m ≡ insert key v ((k, w) ∷ m) = ground arith in
      let miss : lookup key m ≡ none = subst (λ x. lookup x m ≡ none) ((eq_iff k key).0 e) d.0 in
      subst (λ n. HasDistinctKeys n) same (miss, d.1)
  | inr e ↦
      let same : (k, w) ∷ insert key v m ≡ insert key v ((k, w) ∷ m) = ground arith in
      let miss : lookup k (insert key v m) ≡ none =
        ground (arith, lookup-insert key k v m, eq_iff key k, eq_iff k key, d.0) in
      subst (λ n. HasDistinctKeys n) same (miss, HasDistinctKeys-insert key v m d.1)
]
