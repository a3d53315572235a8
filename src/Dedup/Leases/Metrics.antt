-- ===== src/Dedup/Leases/Metrics.antt =====
-- The metrics count what the lease operations did, whatever the calls of containerd return.
use pv_snapshotter.Base.{
  ℕ, ◌+◌, ◌≡◌, refl, ap, ◌∙◌, ◌⊎◌, inl, inr, List, [], ◌∷◌, Text, arith, Error, Result, ok, err,
  Result-cases, List-cases, ◌≢◌,
}
use pv_snapshotter.Base.Int.{pos, pos_part, neg_part, ◌+ℤ◌, int_laws}
use pv_snapshotter.Exec.{State, call}
use pv_snapshotter.Host.{Lease, Info}
use pv_snapshotter.Dedup.Defs.{DedupManager}
use pv_snapshotter.Dedup.Leases.{
  collect, gc_each, gc_orphan_leases, managed_by, managed_by_value, label_filter,
  list_managed_leases, owner_of, dec_pinned,
}

-- `n` leases fewer are pinned, and the other metrics are as before.
pub record Released {W : Type 0} (n : ℕ) (s t : State W) : Type 0 where
  pub pinned : t.pinned_snapshots +ℤ pos n ≡ s.pinned_snapshots
  pub failures : t.unpin_failures ≡ s.unpin_failures
  pub orphans : t.orphan_leases ≡ s.orphan_leases

Released-none : {W : Type 0} (s : State W) (w : W) → Released 0 s (record s { world = w })
Released-none s w = record { pinned = omega int_laws; failures = refl; orphans = refl }

Released-trans :
    {W : Type 0} (a b : ℕ) (s t u : State W)
    → Released a s t
    → Released b t u
    → Released (a + b) s u
Released-trans a b s t u h k = record {
  pinned = omega (
    int_laws,
    ap pos_part h.pinned,
    ap neg_part h.pinned,
    ap pos_part k.pinned,
    ap neg_part k.pinned,
  );
  failures = k.failures ∙ h.failures;
  orphans = k.orphans ∙ h.orphans;
}

module _ {W : Type 0} (m : DedupManager W) (ns : Text) where
  module _ (l : Lease) (s : State W) where
    abbrev pub owner_stat : Result Info × State W
    owner_stat = call (m.local_sn.stat (owner_of l)) s

    abbrev pub deletion : Result (Unit {0}) × State W
    deletion = call ((m.leases_service ns).delete l.id) owner_stat.1

    -- The owner is there; or the deletion fails; or the lease is gone.
    abbrev pub CollectCases : Type 0
    CollectCases =
        ((i : Info) × (owner_stat.0 ≡ ok i) × (collect m ns l s ≡ (ok 0, owner_stat.1)))
        ⊎ ((e : Error) × (x : Error) × (owner_stat.0 ≡ err e)
            × (deletion.0 ≡ err x)
            × (collect m ns l s ≡ (ok 0, deletion.1)))
        ⊎ ((e : Error) × (owner_stat.0 ≡ err e)
            × (deletion.0 ≡ ok tt)
            × (collect m ns l s ≡ (ok 1, (dec_pinned deletion.1).1)))

    pub collect_cases : CollectCases
    unfolding collect
    collect_cases = elim (Result-cases owner_stat.0) [
      | inl (i, e) ↦ inl (i, e, ground arith)
      | inr (e, f) ↦ elim (Result-cases deletion.0) [
        | inl (_, g) ↦ inr (inr (e, f, g, ground arith))
        | inr (x, g) ↦ inr (inl (e, x, f, g, ground arith))
      ]
    ]

    -- A round on a lease without an owner, and a round on one with an owner.
    pub gc_each_skip :
        (ls : List Lease) (deleted : ℕ)
        → owner_of l ≡ []
        → gc_each m ns (l ∷ ls) deleted s ≡ gc_each m ns ls deleted s
    unfolding gc_each
    gc_each_skip ls deleted e = rw (e, gc_each)

    pub gc_each_step :
        (ls : List Lease) (deleted n : ℕ) (t : State W)
        → owner_of l ≢ []
        → collect m ns l s ≡ (ok n, t)
        → gc_each m ns (l ∷ ls) deleted s ≡ gc_each m ns ls (deleted + n) t
    unfolding gc_each
    gc_each_step ls deleted n t h e = ground arith

  -- A run that adds `n` to the count of the sweep.
  abbrev Sweeps : Result ℕ × State W → ℕ → State W → Type 0
  Sweeps r start s = (n : ℕ) × (r.0 ≡ ok (start + n)) × Released n s r.1

  collect-Released :
      (l : Lease) (s : State W)
      → (n : ℕ) × (t : State W) × (collect m ns l s ≡ (ok n, t)) × Released n s t
  collect-Released l s = elim (collect_cases l s) [
    | inl (i, _, e) ↦ (0, (owner_stat l s).1, e, Released-none s (owner_stat l s).1.world)
    | inr (inl (_, _, _, _, e)) ↦ (0, (deletion l s).1, e, Released-none s (deletion l s).1.world)
    | inr (inr (_, _, _, e)) ↦ (
      1,
      (dec_pinned (deletion l s).1).1,
      e,
      record { pinned = omega int_laws; failures = refl; orphans = refl },
    )
  ]

  gc_each-Sweeps :
      (ls : List Lease) (deleted : ℕ) (s : State W) → Sweeps (gc_each m ns ls deleted s) deleted s
  unfolding gc_each
  gc_each-Sweeps [] deleted s = (0, ap ok (omega arith), Released-none s s.world)
  gc_each-Sweeps (l ∷ ls) deleted s = elim (List-cases (owner_of l)) [
    | inl e ↦ rw (gc_each_skip l s ls deleted e) (gc_each-Sweeps ls deleted s)
    | inr h ↦
        let (a, t, e, r) = collect-Released l s in
        let (b, f, q) = gc_each-Sweeps ls (deleted + a) t in
        rw (gc_each_step l s ls deleted a t h e)
          (a + b, f ∙ ap ok (omega arith), Released-trans a b s t _ r q)
  ]

  module _ (s : State W) where
    -- The call of List that every sweep makes first.
    abbrev pub listing : Result (List Lease) × State W
    listing = call ((m.leases_service ns).list (label_filter m ns managed_by managed_by_value)) s

    pub gc_of_listing :
        (ls : List Lease)
        → listing.0 ≡ ok ls
        → gc_orphan_leases m ns s ≡ gc_each m ns ls 0 listing.1
    unfolding gc_orphan_leases list_managed_leases
    gc_of_listing ls e = ground arith

    pub gc_of_failed_listing :
        (e : Error) → listing.0 ≡ err e → gc_orphan_leases m ns s ≡ (ok 0, listing.1)
    unfolding gc_orphan_leases list_managed_leases
    gc_of_failed_listing e f = ground arith

  -- A sweep never fails, and takes from the gauge of pinned snapshots exactly the number of leases
  -- that it reports as deleted; it changes no other metric.
  pub gc_orphan_leases-Released :
      (s : State W)
      → (n : ℕ) × ((gc_orphan_leases m ns s).0 ≡ ok n) × Released n s (gc_orphan_leases m ns s).1
  gc_orphan_leases-Released s = elim (Result-cases (listing s).0) [
    | inr (e, f) ↦ rw (gc_of_failed_listing s e f) (0, refl, Released-none s (listing s).1.world)
    | inl (ls, f) ↦
        let (n, e, r) = gc_each-Sweeps ls 0 (listing s).1 in
        rw (gc_of_listing s ls f) (
          n,
          e ∙ ap ok (omega arith),
          record { pinned = r.pinned; failures = r.failures; orphans = r.orphans },
        )
  ]
