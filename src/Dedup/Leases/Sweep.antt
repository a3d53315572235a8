-- ===== src/Dedup/Leases/Sweep.antt =====
-- Which leases a sweep takes away.
use pv_snapshotter.Base.{
  ℕ, ◌+◌, ◌≡◌, ◌≢◌, refl, sym, ap, subst, ◌∙◌, inl, inr, Bool, true, false, not, List, [], ◌∷◌,
  Text, ◌||◌, ◌==◌, eq_ne, filter, Error, All, ok, err, Bool-cases, Result-cases, List-cases,
}
use pv_snapshotter.Exec.{State}
use pv_snapshotter.Host.{Lease}
use pv_snapshotter.Dedup.Defs.{DedupManager}
use pv_snapshotter.Dedup.Removal.{IsUnique-without, filter-without, All-filter_test, All-filter}
use pv_snapshotter.Dedup.Store.{IsLeaseStore, Steady, IsUnique, without, is_managed}
use pv_snapshotter.Dedup.Leases.{
  gc_each, gc_orphan_leases, collect, owner_of, dec_pinned, label_filter, managed_by,
  managed_by_value,
}
use pv_snapshotter.Dedup.Leases.Metrics.{
  owner_stat, deletion, collect_cases, gc_each_skip, gc_each_step, listing, gc_of_listing,
  gc_of_failed_listing,
}

module _ {W : Type 0} (m : DedupManager W) (ns : Text) (held : W → List Lease)
    (store : IsLeaseStore m ns held) where
  module _ (l : Lease) (s : State W) where
    pub seen : held (owner_stat m ns l s).1.world ≡ held s.world
    seen = store.stat_held (owner_of l) s.world

    pub after_failed :
        (x : Error)
        → (deletion m ns l s).0 ≡ err x
        → held (deletion m ns l s).1.world ≡ held s.world
    after_failed x e = elim (store.delete_result l.id (owner_stat m ns l s).1.world) [
      | inl (f, _) ↦ cc
      | inr (_, _, same) ↦ same ∙ seen
    ]

    pub after_deleted :
        (deletion m ns l s).0 ≡ ok tt
        → held (deletion m ns l s).1.world ≡ without l.id (held s.world)
    after_deleted e = elim (store.delete_result l.id (owner_stat m ns l s).1.world) [
      | inl (_, gone) ↦ gone ∙ ap (without l.id) seen
      | inr (_, f, _) ↦ cc
    ]

module _ {W : Type 0} (m : DedupManager W) (ns : Text) (held : W → List Lease) (alive : Text → Bool)
    (store : IsLeaseStore m ns held) where
  -- A lease that no sweep may take: its owner is there, or it names none, or it is not managed.
  abbrev pub is_kept : Lease → Bool
  is_kept l = alive (owner_of l) || (owner_of l == [] || not (is_managed l))

  abbrev Keeps : State W → State W → Type 0
  Keeps s t = filter is_kept (held t.world) ≡ filter is_kept (held s.world)

module _ {W : Type 0} (m : DedupManager W) (ns : Text) (held : W → List Lease) (alive : Text → Bool)
    (store : IsLeaseStore m ns held) (steady : Steady m ns alive) where
  module _ (l : Lease) (s : State W) where
    -- A lease that a round deletes is none of those that are kept.
    not_kept :
        (x : Error)
        → (owner_stat m ns l s).0 ≡ err x
        → is_managed l ≡ true
        → owner_of l ≢ []
        → is_kept m ns held alive store l ≡ false
    not_kept x missing managed owned = elim (Bool-cases (alive (owner_of l))) [
      | inl there ↦ cc (steady (owner_of l) s.world there).1
      | inr gone ↦ rw (gone, eq_ne (owner_of l) [] owned, managed)
    ]

  -- One round on a managed lease keeps what is to be kept, and the identifiers unique.
  collect-Keeps :
      (l : Lease) (ls : List Lease) (s : State W)
      → is_managed l ≡ true
      → owner_of l ≢ []
      → All (λ k. IsUnique k (held s.world)) (l ∷ ls)
      → (n : ℕ) × (t : State W) × (collect m ns l s ≡ (ok n, t))
        × Keeps m ns held alive store s t
        × All (λ k. IsUnique k (held t.world)) ls
  collect-Keeps l ls s managed owned u = elim (collect_cases m ns l s) [
    | inl (_, _, e) ↦ (
      0,
      (owner_stat m ns l s).1,
      e,
      ap (filter (is_kept m ns held alive store)) (seen m ns held store l s),
      subst Unique (sym (seen m ns held store l s)) u.1,
    )
    | inr (inl (_, x, _, failed, e)) ↦
        let same = after_failed m ns held store l s x failed in
        (
          0,
          (deletion m ns l s).1,
          e,
          ap (filter (is_kept m ns held alive store)) same,
          subst Unique (sym same) u.1,
        )
    | inr (inr (x, missing, deleted, e)) ↦
        let gone = after_deleted m ns held store l s deleted in
        (
          1,
          (dec_pinned (deletion m ns l s).1).1,
          e,
          ap (filter (is_kept m ns held alive store)) gone
              ∙ filter-without (is_kept m ns held alive store) l (held s.world) u.0
                  (not_kept l s x missing managed owned),
          subst Unique (sym gone) (IsUnique-without l.id ls (held s.world) u.1),
        )
  ]
    where
      Unique : List Lease → Type 0
      Unique hs = All (λ k. IsUnique k hs) ls

  gc_each-Keeps :
      (ls : List Lease) (deleted : ℕ) (s : State W)
      → All (λ k. is_managed k ≡ true) ls
      → All (λ k. IsUnique k (held s.world)) ls
      → Keeps m ns held alive store s (gc_each m ns ls deleted s).1
  unfolding gc_each
  gc_each-Keeps [] deleted s g u = refl
  gc_each-Keeps (l ∷ ls) deleted s g u = elim (List-cases (owner_of l)) [
    | inl e ↦ rw (gc_each_skip m ns l s ls deleted e) (gc_each-Keeps ls deleted s g.1 u.1)
    | inr h ↦
        let (n, t, e, k, u') = collect-Keeps l ls s g.0 h u in
        rw (gc_each_step m ns l s ls deleted n t h e) (gc_each-Keeps ls (deleted + n) t g.1 u' ∙ k)
  ]

  -- With a lease service that behaves as documented, a sweep leaves every lease whose owner's Stat
  -- succeeds whenever it is called, every lease without an owner and every lease of another
  -- component as they were, in their order, whichever calls of List, Delete and of Stat for other
  -- keys fail. (A lease whose owner exists may go where Stat fails for it.)
  pub gc_orphan_leases_keeps :
      (s : State W)
      → filter (is_kept m ns held alive store) (held (gc_orphan_leases m ns s).1.world)
        ≡ filter (is_kept m ns held alive store) (held s.world)
  gc_orphan_leases_keeps s =
      let w = s.world in
      let same = store.list_held (label_filter m ns managed_by managed_by_value) w in
      elim (Result-cases (listing m ns s).0) [
        | inr (x, e) ↦
            rw (gc_of_failed_listing m ns s x e) (ap (filter (is_kept m ns held alive store)) same)
        | inl (ls, e) ↦ elim (store.managed_result w) [
          | inr (x, f) ↦ cc
          | inl f ↦
              let listed : ls ≡ filter is_managed (held w) = cc in
              rw (gc_of_listing m ns s ls e) (
                gc_each-Keeps ls 0 (listing m ns s).1
                  (rw listed (All-filter_test is_managed (held w)))
                  (rw (listed, same)
                    (All-filter (λ l. IsUnique l (held w)) is_managed (held w) (store.unique w)))
                ∙ ap (filter (is_kept m ns held alive store)) same)
        ]
      ]
