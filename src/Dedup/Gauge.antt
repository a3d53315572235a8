-- ===== src/Dedup/Gauge.antt =====
-- The gauge pv_snapshotter_pinned_snapshots_total against the leases that containerd holds: what is
-- assumed of the lease service besides Dedup/Store.antt, and how the two are compared.
pub mod Counting
pub mod Releasing
pub mod Sweeping
use pv_snapshotter.Base.{
  ℕ, ◌+◌, ◌≡◌, ◌≢◌, refl, sym, ap, ◌∙◌, ◌⊎◌, inl, inr, true, List, [], ◌∷◌, Text, arith, length,
  filter, Error, All, ok, err,
}
use pv_snapshotter.Base.Int.{pos, pos_part, neg_part, ◌+ℤ◌, int_laws}
use mathlib.Core.List.{Memᴰ}
use pv_snapshotter.Exec.{State}
use pv_snapshotter.Host.{Lease, Resource}
use pv_snapshotter.Dedup.Defs.{DedupManager}
use pv_snapshotter.Dedup.Leases.{owner_key, pin_labels}
use pv_snapshotter.Dedup.Store.{has_label, is_managed}

abbrev pub HasDistinctIds : List Lease → Type 0
HasDistinctIds [] = Unit
HasDistinctIds (l ∷ ls) = All (λ k. k.id ≢ l.id) ls × HasDistinctIds ls

module _ {W : Type 0} (m : DedupManager W) (ns : Text) where
  -- Identifiers are unique, as leases.Manager documents; the label of the owner is only on leases
  -- of the program; Create makes one lease with the labels that it is given, or none; and
  -- AddResource makes and deletes no lease. Every call may fail.
  pub record IsCounted (held : W → List Lease) : Type 0 where
    pub distinct : (w : W) → HasDistinctIds (held w)
    pub owned_managed :
        (owner : Text) (w : W)
        → All (λ l. has_label owner_key owner l ≡ true → is_managed l ≡ true) (held w)
    pub create_result :
        (owner : Text) (w : W)
        → ((l : Lease) × (((m.leases_service ns).create (pin_labels owner) w).0 ≡ ok l)
            × (l.labels ≡ pin_labels owner)
            × (held ((m.leases_service ns).create (pin_labels owner) w).1 ≡ l ∷ held w))
          ⊎ ((x : Error) × (((m.leases_service ns).create (pin_labels owner) w).0 ≡ err x)
              × (held ((m.leases_service ns).create (pin_labels owner) w).1 ≡ held w))
    pub add_held :
        (l : Lease) (r : Resource) (w : W)
        → held ((m.leases_service ns).add_resource l r w).1 ≡ held w

module _ {W : Type 0} (held : W → List Lease) where
  abbrev pub managed : State W → ℕ
  managed s = length (filter is_managed (held s.world))

  -- The number of managed leases above the gauge has grown by `n`.
  pub record Drifts (n : ℕ) (s t : State W) : Type 0 where
    pub drift : t.pinned_snapshots +ℤ pos (managed s + n) ≡ s.pinned_snapshots +ℤ pos (managed t)

  pub Drifts-same :
      (s t : State W)
      → t.pinned_snapshots ≡ s.pinned_snapshots
      → managed t ≡ managed s
      → Drifts 0 s t
  Drifts-same s t e f = record { drift = omega (int_laws, ap pos_part e, ap neg_part e, f) }

  pub Drifts-trans : (a b : ℕ) (s t u : State W) → Drifts a s t → Drifts b t u → Drifts (a + b) s u
  Drifts-trans a b s t u h k = record {
    drift = omega (
      int_laws,
      ap pos_part h.drift,
      ap neg_part h.drift,
      ap pos_part k.drift,
      ap neg_part k.drift,
    );
  }

module _ {W : Type 0} (m : DedupManager W) (ns : Text) (held : W → List Lease) where
  -- Some call of Delete on a lease that is held fails.
  abbrev pub Refuses : Type 0
  Refuses =
      (l : Lease) × (w : W) × Memᴰ l (held w)
      × (x : Error) × (((m.leases_service ns).delete l.id w).0 ≡ err x)

  -- The gauge falls behind the leases by some number, which is 0 unless such a call fails.
  abbrev pub Lags : State W → State W → Type 0
  Lags s t = (n : ℕ) × Drifts held n s t × ((n ≡ 0) ⊎ Refuses)

  pub Lags-same :
      (s t : State W)
      → t.pinned_snapshots ≡ s.pinned_snapshots
      → managed held t ≡ managed held s
      → Lags s t
  Lags-same s t e f = (0, Drifts-same held s t e f, inl refl)

  pub Lags-trans : (s t u : State W) → Lags s t → Lags t u → Lags s u
  Lags-trans s t u (a, h, p) (b, k, q) = (a + b, Drifts-trans held a b s t u h k, cases p q)
    where
      cases : (a ≡ 0) ⊎ Refuses → (b ≡ 0) ⊎ Refuses → (a + b ≡ 0) ⊎ Refuses
      cases (inl e) (inl f) = inl (omega (arith, e, f))
      cases (inr r) q = inr r
      cases (inl e) (inr r) = inr r
