-- ===== src/Dedup/Gauge/Counting.antt =====
-- Lists of leases that are deleted one after the other, and how many managed ones remain.
use pv_snapshotter.Base.{
  ◌+◌, ◌≡◌, ◌≢◌, refl, sym, ap, subst, ◌∙◌, inl, inr, Bool, true, List, [], ◌∷◌, Text, arith,
  length, ◌==◌, eq_refl, eq_ne, filter, All, Bool-cases,
}
use mathlib.Core.List.{Memᴰ}
use mathlib.Core.List.Memᴰ.{head, tail}
use pv_snapshotter.Host.{Lease}
use pv_snapshotter.Dedup.Store.{is_managed, without, IsUnique}
use pv_snapshotter.Dedup.Removal.{All-filter}
use pv_snapshotter.Dedup.Gauge.{HasDistinctIds}

-- The leases `ls`, all different and managed, are among the leases `hs`.
pub record IsPending (ls hs : List Lease) : Type 0 where
  pub different : HasDistinctIds ls
  pub there : All (λ l. Memᴰ l hs) ls
  pub tagged : All (λ l. is_managed l ≡ true) ls

Memᴰ-without :
    (k : Lease) (id : Text) (hs : List Lease) → Memᴰ k hs → k.id ≢ id → Memᴰ k (without id hs)
Memᴰ-without k id [] i n = elim i [ ]
Memᴰ-without k id (h ∷ hs) (head e) n = rw (eq_ne h.id id (λ f. n (ap (λ l. l.id) e ∙ f))) (head e)
Memᴰ-without k id (h ∷ hs) (tail i) n = elim (Bool-cases (h.id == id)) [
  | inl e ↦ rw e (Memᴰ-without k id hs i n)
  | inr e ↦ rw e (tail (Memᴰ-without k id hs i n))
]

All-without :
    (l : Lease) (ks hs : List Lease)
    → All (λ k. Memᴰ k hs) ks
    → All (λ k. k.id ≢ l.id) ks
    → All (λ k. Memᴰ k (without l.id hs)) ks
All-without l [] hs i n = tt
All-without l (k ∷ ks) hs i n = (Memᴰ-without k l.id hs i.0 n.0, All-without l ks hs i.1 n.1)

pub IsPending-later : (l : Lease) (ls hs : List Lease) → IsPending (l ∷ ls) hs → IsPending ls hs
IsPending-later l ls hs p = record {
  different = p.different.1;
  there = p.there.1;
  tagged = p.tagged.1;
}

pub IsPending-deleted :
    (l : Lease) (ls hs : List Lease) → IsPending (l ∷ ls) hs → IsPending ls (without l.id hs)
IsPending-deleted l ls hs p = record {
  different = p.different.1;
  there = All-without l ls hs p.there.1 p.different.0;
  tagged = p.tagged.1;
}

All-at : (P : Lease → Type 0) (l : Lease) (hs : List Lease) → All P hs → Memᴰ l hs → P l
All-at P l [] h i = elim i [ ]
All-at P l (k ∷ hs) h (head e) = subst P (sym e) h.0
All-at P l (k ∷ hs) h (tail i) = All-at P l hs h.1 i

-- No lease has the identifier.
pub without_absent : (id : Text) (hs : List Lease) → All (λ k. k.id ≢ id) hs → without id hs ≡ hs
without_absent id [] n = refl
without_absent id (h ∷ hs) n = rw (eq_ne h.id id n.0) (ap (λ r. h ∷ r) (without_absent id hs n.1))

-- A deletion takes away exactly one managed lease.
pub without_counted :
    (l : Lease) (hs : List Lease)
    → Memᴰ l hs
    → HasDistinctIds hs
    → is_managed l ≡ true
    → length (filter is_managed (without l.id hs)) + 1 ≡ length (filter is_managed hs)
without_counted l [] i d g = elim i [ ]
without_counted l (h ∷ hs) (head e) d g =
    let same : h.id ≡ l.id = ap (λ k. k.id) (sym e) in
    let absent = without_absent l.id hs (subst (λ id. All (λ k. k.id ≢ id) hs) same d.0) in
    rw (ap is_managed (sym e) ∙ g, same, eq_refl l.id, absent) (omega arith)
without_counted l (h ∷ hs) (tail i) d g =
    let other : h.id ≢ l.id = λ e. All-at (λ k. k.id ≢ h.id) l hs d.0 i (sym e) in
    let fewer = without_counted l hs i d.1 g in
    rw (eq_ne h.id l.id other) (elim (Bool-cases (is_managed h)) [
      | inl e ↦ rw e (omega (arith, fewer))
      | inr e ↦ rw e fewer
    ])

module _ (p : Lease → Bool) where
  distinct-filter : (hs : List Lease) → HasDistinctIds hs → HasDistinctIds (filter p hs)
  distinct-filter [] d = tt
  distinct-filter (h ∷ hs) d = elim (Bool-cases (p h)) [
    | inl e ↦ rw e (All-filter (λ k. k.id ≢ h.id) p hs d.0, distinct-filter hs d.1)
    | inr e ↦ rw e (distinct-filter hs d.1)
  ]

  there_filter :
      (ks hs : List Lease)
      → ((l : Lease) → Memᴰ l ks → Memᴰ l hs)
      → All (λ l. Memᴰ l hs) (filter p ks)
  there_filter [] hs sub = tt
  there_filter (k ∷ ks) hs sub = elim (Bool-cases (p k)) [
    | inl e ↦ rw e (sub k (head refl), there_filter ks hs (λ l i. sub l (tail i)))
    | inr e ↦ rw e (there_filter ks hs (λ l i. sub l (tail i)))
  ]

  tagged_filter :
      (ls : List Lease)
      → All (λ l. p l ≡ true → is_managed l ≡ true) ls
      → All (λ l. is_managed l ≡ true) (filter p ls)
  tagged_filter [] g = tt
  tagged_filter (l ∷ ls) g = elim (Bool-cases (p l)) [
    | inl e ↦ rw e (g.0 e, tagged_filter ls g.1)
    | inr e ↦ rw e (tagged_filter ls g.1)
  ]

-- The managed leases that pass a test are pending.
pub IsPending-filter :
    (p : Lease → Bool) (hs : List Lease)
    → HasDistinctIds hs
    → All (λ l. p l ≡ true → is_managed l ≡ true) hs
    → IsPending (filter p hs) hs
IsPending-filter p hs d g = record {
  different = distinct-filter p hs d;
  there = there_filter p hs hs (λ l i. i);
  tagged = tagged_filter p hs g;
}

-- Leases with different identifiers are each the only one with its own.
pub distinct-IsUnique : (hs : List Lease) → HasDistinctIds hs → All (λ l. IsUnique l hs) hs
distinct-IsUnique hs d = each hs (λ l i. i)
  where
    among : (l : Lease) (ks : List Lease) → HasDistinctIds ks → Memᴰ l ks → IsUnique l ks
    among l [] d i = tt
    among l (k ∷ ks) d (head e) =
        ((λ _. sym e), others ks (subst (λ h. All (λ j. j.id ≢ h.id) ks) (sym e) d.0))
      where
        others : (js : List Lease) → All (λ j. j.id ≢ l.id) js → IsUnique l js
        others [] n = tt
        others (j ∷ js) n = ((λ f. elim (n.0 f) [ ]), others js n.1)
    among l (k ∷ ks) d (tail i) =
        ((λ f. elim (All-at (λ j. j.id ≢ k.id) l ks d.0 i (sym f)) [ ]), among l ks d.1 i)

    each : (ks : List Lease) → ((l : Lease) → Memᴰ l ks → Memᴰ l hs) → All (λ l. IsUnique l hs) ks
    each [] sub = tt
    each (k ∷ ks) sub = (among k hs d (sub k (head refl)), each ks (λ l i. sub l (tail i)))
