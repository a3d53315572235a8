-- ===== src/Dedup/Leases/Orphans.antt =====
-- What the count of orphans reports where no call fails.
use pv_snapshotter.Base.{
  ℕ, ◌+◌, ◌≡◌, ◌≢◌, refl, ap, ◌∙◌, inl, inr, Bool, true, false, not, List, [], ◌∷◌, Text, arith,
  length, ◌&&◌, ◌||◌, ◌==◌, eq_ne, filter, Error, All, ok, err, Bool-cases, List-cases,
}
use pv_snapshotter.Exec.{State}
use pv_snapshotter.Host.{Lease, Info}
use pv_snapshotter.Dedup.Defs.{DedupManager}
use pv_snapshotter.Dedup.Store.{IsLeaseStore, Answers, is_managed}
use pv_snapshotter.Dedup.Removal.{filter-filter, filter-All}
use pv_snapshotter.Dedup.Leases.{
  count_each, count_orphan_leases, gc_orphan_leases, list_managed_leases, owner_of,
}
use pv_snapshotter.Dedup.Leases.Metrics.{owner_stat, listing}
use pv_snapshotter.Dedup.Leases.Sweep.{is_kept}
use pv_snapshotter.Dedup.Leases.Reclaim.{is_ownerless, not_ownerless, gc_orphan_leases_exact}

module _ {W : Type 0} (m : DedupManager W) (ns : Text) where
  module _ (l : Lease) (ls : List Lease) (count : ℕ) (s : State W) where
    count_skip : owner_of l ≡ [] → count_each m ns (l ∷ ls) count s ≡ count_each m ns ls count s
    unfolding count_each
    count_skip e = rw (e, count_each)

    count_there :
        (i : Info)
        → owner_of l ≢ []
        → (owner_stat m ns l s).0 ≡ ok i
        → count_each m ns (l ∷ ls) count s ≡ count_each m ns ls count (owner_stat m ns l s).1
    unfolding count_each
    count_there i h e = ground arith

    count_gone :
        (x : Error)
        → owner_of l ≢ []
        → (owner_stat m ns l s).0 ≡ err x
        → count_each m ns (l ∷ ls) count s ≡ count_each m ns ls (count + 1) (owner_stat m ns l s).1
    unfolding count_each
    count_gone x h e = ground arith

  count_of_listing :
      (ls : List Lease) (s : State W)
      → (listing m ns s).0 ≡ ok ls
      → count_orphan_leases m ns s ≡ count_each m ns ls 0 (listing m ns s).1
  unfolding count_orphan_leases list_managed_leases
  count_of_listing ls s e = ground arith

module _ {W : Type 0} (m : DedupManager W) (ns : Text) (held : W → List Lease) (alive : Text → Bool)
    (store : IsLeaseStore m ns held) (answers : Answers m ns held alive) where
  abbrev pub is_orphan : Lease → Bool
  is_orphan l = is_managed l && is_ownerless m ns held alive store answers l

  count_each_lem :
      (ls : List Lease) (count : ℕ) (s : State W)
      → (count_each m ns ls count s).0
        ≡ ok (count + length (filter (is_ownerless m ns held alive store answers) ls))
  unfolding count_each
  count_each_lem [] count s = ap ok (omega arith)
  count_each_lem (l ∷ ls) count s = elim (List-cases (owner_of l)) [
    | inl e ↦
        rw (count_skip m ns l ls count s e, not_ownerless m ns held alive store answers l e)
          (count_each_lem ls count s)
    | inr h ↦ elim (Bool-cases (alive (owner_of l))) [
      | inl there ↦
          let (i, e) = answers.stat_alive (owner_of l) s.world there in
          rw (count_there m ns l ls count s i h e, there)
            (count_each_lem ls count (owner_stat m ns l s).1)
      | inr gone ↦
          let (x, e) = answers.stat_missing (owner_of l) s.world gone in
          rw (count_gone m ns l ls count s x h e, gone, eq_ne (owner_of l) [] h)
            (count_each_lem ls (count + 1) (owner_stat m ns l s).1 ∙ ap ok (omega arith))
    ]
  ]

  -- With lease and snapshot services that behave as documented and of which no call fails, the
  -- count of orphans is the number of managed leases that name an owner which does not exist.
  pub count_orphan_leases_exact :
      (s : State W) → (count_orphan_leases m ns s).0 ≡ ok (length (filter is_orphan (held s.world)))
  count_orphan_leases_exact s =
      let w = s.world in
      rw (count_of_listing m ns (filter is_managed (held w)) s (answers.managed_answer w)) (
        count_each_lem (filter is_managed (held w)) 0 (listing m ns s).1
        ∙ ap ok (omega arith)
        ∙ ap (λ ls. ok (length ls))
            (filter-filter is_managed (is_ownerless m ns held alive store answers) (held w)))

  no_orphan_kept :
      (ls : List Lease) → filter is_orphan (filter (is_kept m ns held alive store) ls) ≡ []
  no_orphan_kept ls =
      filter-filter (is_kept m ns held alive store) is_orphan ls
      ∙ filter-All _ (λ l. false) ls (disjoint ls)
      ∙ none_passes ls
    where
      apart : (a o g : Bool) → ((a || (o || not g)) && (g && (not a && not o))) ≡ false
      apart true o true = refl
      apart true o false = refl
      apart false true true = refl
      apart false true false = refl
      apart false false true = refl
      apart false false false = refl

      disjoint :
          (ls : List Lease) → All (λ l. (is_kept m ns held alive store l && is_orphan l) ≡ false) ls
      disjoint [] = tt
      disjoint (l ∷ ls) =
          (apart (alive (owner_of l)) (owner_of l == []) (is_managed l), disjoint ls)

      none_passes : (ls : List Lease) → filter (λ l. false) ls ≡ []
      none_passes [] = refl
      none_passes (l ∷ ls) = none_passes ls

  -- With lease and snapshot services that behave as documented and of which no call fails, no
  -- orphan is counted after a sweep.
  pub count_orphan_leases-gc_orphan_leases :
      (s : State W) → (count_orphan_leases m ns (gc_orphan_leases m ns s).1).0 ≡ ok 0
  count_orphan_leases-gc_orphan_leases s =
      count_orphan_leases_exact (gc_orphan_leases m ns s).1
      ∙ ap (λ ls. ok (length (filter is_orphan ls)))
          (gc_orphan_leases_exact m ns held alive store answers s)
      ∙ ap (λ ls. ok (length ls)) (no_orphan_kept (held s.world))
