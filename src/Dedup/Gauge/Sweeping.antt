-- ===== src/Dedup/Gauge/Sweeping.antt =====
-- The gauge along the sweep of orphans.
use pv_snapshotter.Base.{
  ℕ, ◌+◌, ◌≡◌, refl, ap, inl, inr, true, List, [], ◌∷◌, Text, length, filter, All, ok, Result-cases,
  List-cases,
}
use pv_snapshotter.Exec.{State}
use pv_snapshotter.Host.{Lease}
use pv_snapshotter.Dedup.Defs.{DedupManager}
use pv_snapshotter.Dedup.Store.{IsLeaseStore, is_managed}
use pv_snapshotter.Dedup.Leases.{
  collect, gc_each, owner_of, gc_orphan_leases, dec_pinned, label_filter, managed_by,
  managed_by_value,
}
use pv_snapshotter.Dedup.Leases.Metrics.{
  owner_stat, deletion, collect_cases, gc_each_skip, gc_each_step, listing, gc_of_listing,
  gc_of_failed_listing,
}
use pv_snapshotter.Dedup.Leases.Sweep.{seen, after_failed, after_deleted}
use pv_snapshotter.Dedup.Gauge.{IsCounted, Lags, Lags-same, Lags-trans}
use pv_snapshotter.Dedup.Gauge.Counting.{IsPending, IsPending-later, IsPending-filter}
use pv_snapshotter.Dedup.Gauge.Releasing.{deleted_Lags, left_Lags}

module _ {W : Type 0} (m : DedupManager W) (ns : Text) (held : W → List Lease)
    (store : IsLeaseStore m ns held) (counted : IsCounted m ns held) where
  collect-Lags :
      (l : Lease) (ls : List Lease) (s : State W)
      → IsPending (l ∷ ls) (held s.world)
      → (n : ℕ) × (t : State W) × (collect m ns l s ≡ (ok n, t))
        × Lags m ns held s t
        × IsPending ls (held t.world)
  collect-Lags l ls s p = elim (collect_cases m ns l s) [
    | inl (_, _, e) ↦
        let same = seen m ns held store l s in
        let t = (owner_stat m ns l s).1 in
        let (a, q) = left_Lags m ns held store counted l ls s t p refl same in (0, t, e, a, q)
    | inr (inl (_, x, _, failed, e)) ↦
        let same = after_failed m ns held store l s x failed in
        let t = (deletion m ns l s).1 in
        let (a, q) = left_Lags m ns held store counted l ls s t p refl same in (0, t, e, a, q)
    | inr (inr (_, _, deleted, e)) ↦
        let gone = after_deleted m ns held store l s deleted in
        let t = (dec_pinned (deletion m ns l s).1).1 in
        let (a, q) = deleted_Lags m ns held store counted l ls s t p refl gone in (1, t, e, a, q)
  ]

  gc_each-Lags :
      (ls : List Lease) (deleted : ℕ) (s : State W)
      → IsPending ls (held s.world)
      → Lags m ns held s (gc_each m ns ls deleted s).1
  unfolding gc_each
  gc_each-Lags [] deleted s p = Lags-same m ns held s s refl refl
  gc_each-Lags (l ∷ ls) deleted s p = elim (List-cases (owner_of l)) [
    | inl e ↦
        rw (gc_each_skip m ns l s ls deleted e)
          (gc_each-Lags ls deleted s (IsPending-later l ls (held s.world) p))
    | inr h ↦
        let (n, t, e, a, q) = collect-Lags l ls s p in
        rw (gc_each_step m ns l s ls deleted n t h e)
          (Lags-trans m ns held s t _ a (gc_each-Lags ls (deleted + n) t q))
  ]

  pub gc_orphan_leases-Lags : (s : State W) → Lags m ns held s (gc_orphan_leases m ns s).1
  gc_orphan_leases-Lags s =
      let w = s.world in
      let same = store.list_held (label_filter m ns managed_by managed_by_value) w in
      let t = (listing m ns s).1 in
      let idle = Lags-same m ns held s t refl (ap (λ ks. length (filter is_managed ks)) same) in
      elim (Result-cases (listing m ns s).0) [
        | inr (x, e) ↦ rw (gc_of_failed_listing m ns s x e) idle
        | inl (ls, e) ↦ elim (store.managed_result w) [
          | inr (x, f) ↦ cc
          | inl f ↦
              let listed : ls ≡ filter is_managed (held w) = cc in
              let p =
                IsPending-filter is_managed (held w) (counted.distinct w) (each_managed (held w)) in
              rw (gc_of_listing m ns s ls e)
                (Lags-trans m ns held s t _ idle (gc_each-Lags ls 0 t (rw (listed, same) p)))
        ]
      ]
    where
      each_managed : (ls : List Lease) → All (λ l. is_managed l ≡ true → is_managed l ≡ true) ls
      each_managed [] = tt
      each_managed (l ∷ ls) = ((λ e. e), each_managed ls)
