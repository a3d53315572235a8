-- ===== src/Dedup/Removal.antt =====
-- Lists of leases from which some are removed by their identifiers.
use pv_snapshotter.Base.{
  ◌≡◌, refl, sym, ap, ◌∙◌, inl, inr, Bool, true, false, not, ◌&&◌, List, [], ◌∷◌, Text,
  if◌then◌else◌, ◌==◌, eq_iff, eq_refl, filter, all, All, Bool-cases, arith,
}
use pv_snapshotter.Host.{Lease}
use pv_snapshotter.Dedup.Store.{IsUnique, without}

pub IsUnique-filter :
    (p : Lease → Bool) (l : Lease) (ls : List Lease) → IsUnique l ls → IsUnique l (filter p ls)
IsUnique-filter p l [] u = tt
IsUnique-filter p l (k ∷ ls) u = elim (Bool-cases (p k)) [
  | inl e ↦ rw e (u.0, IsUnique-filter p l ls u.1)
  | inr e ↦ rw e (IsUnique-filter p l ls u.1)
]

-- Taking away a lease that the test refuses does not change which leases pass it.
pub filter-without :
    (p : Lease → Bool) (l : Lease) (ls : List Lease)
    → IsUnique l ls
    → p l ≡ false
    → filter p (without l.id ls) ≡ filter p ls
filter-without p l [] u e = refl
filter-without p l (k ∷ ls) u e = elim (Bool-cases (k.id == l.id)) [
  | inl same ↦
      let k_is_l : k ≡ l = u.0 ((eq_iff k.id l.id).0 same) in
      rw same (rw (ap p k_is_l ∙ e) (filter-without p l ls u.1 e))
  | inr other ↦ rw other (ap (λ r. if p k then k ∷ r else r) (filter-without p l ls u.1 e))
]

pub IsUnique-without :
    (id : Text) (ls hs : List Lease)
    → All (λ l. IsUnique l hs) ls
    → All (λ l. IsUnique l (without id hs)) ls
IsUnique-without id [] hs u = tt
IsUnique-without id (l ∷ ls) hs u =
    (IsUnique-filter (λ k. not (k.id == id)) l hs u.0, IsUnique-without id ls hs u.1)

-- The leases that a service lists with a test pass it, and what holds of all holds of them.
pub All-filter_test : (p : Lease → Bool) (ls : List Lease) → All (λ l. p l ≡ true) (filter p ls)
All-filter_test p [] = tt
All-filter_test p (l ∷ ls) = elim (Bool-cases (p l)) [
  | inl e ↦ rw e (e, All-filter_test p ls)
  | inr e ↦ rw e (All-filter_test p ls)
]

pub All-filter :
    (P : Lease → Type 0) (p : Lease → Bool) (ls : List Lease) → All P ls → All P (filter p ls)
All-filter P p [] h = tt
All-filter P p (l ∷ ls) h = elim (Bool-cases (p l)) [
  | inl e ↦ rw e (h.0, All-filter P p ls h.1)
  | inr e ↦ rw e (All-filter P p ls h.1)
]

pub filter-filter :
    (p q : Lease → Bool) (ls : List Lease) → filter q (filter p ls) ≡ filter (λ l. p l && q l) ls
filter-filter p q [] = refl
filter-filter p q (l ∷ ls) = elim (Bool-cases (p l)) [
  | inl e ↦ rw e (ap (λ r. if q l then l ∷ r else r) (filter-filter p q ls))
  | inr e ↦ rw e (filter-filter p q ls)
]

pub filter-All :
    (p q : Lease → Bool) (ls : List Lease) → All (λ l. p l ≡ q l) ls → filter p ls ≡ filter q ls
filter-All p q [] h = refl
filter-All p q (l ∷ ls) h = rw h.0 (ap (λ r. if q l then l ∷ r else r) (filter-All p q ls h.1))

-- Removes each of the first leases from the second, one after the other.
abbrev pub remove_all : List Lease → List Lease → List Lease
remove_all [] hs = hs
remove_all (l ∷ ls) hs = remove_all ls (without l.id hs)

abbrev survives : List Lease → Lease → Bool
survives ls k = all (λ l. not (k.id == l.id)) ls

remove_all-survives : (ls hs : List Lease) → remove_all ls hs ≡ filter (survives ls) hs
remove_all-survives [] hs = sym (filter_true hs)
  where
    filter_true : (hs : List Lease) → filter (λ k. true) hs ≡ hs
    filter_true [] = refl
    filter_true (h ∷ hs) = ap (λ r. h ∷ r) (filter_true hs)
remove_all-survives (l ∷ ls) hs =
    remove_all-survives ls (without l.id hs)
    ∙ filter-filter (λ k. not (k.id == l.id)) (survives ls) hs

-- What the test refuses has the identifier of nothing that passes it.
survives_kept :
    (p : Lease → Bool) (k : Lease) (ls : List Lease)
    → IsUnique k ls
    → p k ≡ false
    → survives (filter p ls) k ≡ true
survives_kept p k [] u e = refl
survives_kept p k (l ∷ ls) u e = elim (Bool-cases (p l)) [
  | inr f ↦ rw f (survives_kept p k ls u.1 e)
  | inl f ↦ elim (Bool-cases (k.id == l.id)) [
    | inl same ↦ cc (ap p (u.0 (sym ((eq_iff k.id l.id).0 same))), e, f)
    | inr other ↦ rw (f, other) (survives_kept p k ls u.1 e)
  ]
]

survives_later :
    (p : Lease → Bool) (l : Lease) (ls ks : List Lease)
    → All (λ k. p k ≡ true → survives (filter p ls) k ≡ false) ks
    → All (λ k. p k ≡ true → survives (filter p (l ∷ ls)) k ≡ false) ks
survives_later p l ls [] h = tt
survives_later p l ls (k ∷ ks) h = (
  (λ e. elim (Bool-cases (p l)) [ inl f ↦ rw f (ground (arith, h.0 e)) | inr f ↦ rw f (h.0 e) ]),
  survives_later p l ls ks h.1,
)

survives_removed :
    (p : Lease → Bool) (ls : List Lease)
    → All (λ k. p k ≡ true → survives (filter p ls) k ≡ false) ls
survives_removed p [] = tt
survives_removed p (l ∷ ls) =
    ((λ e. rw (e, eq_refl l.id) refl), survives_later p l ls ls (survives_removed p ls))

survives-All :
    (p : Lease → Bool) (hs ks : List Lease)
    → All (λ k. IsUnique k hs) ks
    → All (λ k. p k ≡ true → survives (filter p hs) k ≡ false) ks
    → All (λ k. survives (filter p hs) k ≡ not (p k)) ks
survives-All p hs [] u h = tt
survives-All p hs (k ∷ ks) u h = (
  (elim (Bool-cases (p k)) [ inl e ↦ rw e (h.0 e) | inr e ↦ rw e (survives_kept p k hs u.0 e) ]),
  survives-All p hs ks u.1 h.1,
)

-- Removing all leases that pass a test leaves those that do not, where identifiers are unique.
pub remove_all-filter :
    (p : Lease → Bool) (hs : List Lease)
    → All (λ k. IsUnique k hs) hs
    → remove_all (filter p hs) hs ≡ filter (λ k. not (p k)) hs
remove_all-filter p hs u =
    remove_all-survives (filter p hs) hs
    ∙ filter-All (survives (filter p hs)) (λ k. not (p k)) hs
        (survives-All p hs hs u (survives_removed p hs))
