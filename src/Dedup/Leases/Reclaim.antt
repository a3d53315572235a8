-- ===== src/Dedup/Leases/Reclaim.antt =====
-- What a sweep reclaims where no call fails.
use pv_snapshotter.Base.{
  ℕ, ◌+◌, ◌≡◌, ◌≢◌, refl, ap, ◌∙◌, inl, inr, Bool, true, false, not, List, [], ◌∷◌, Text,
  if◌then◌else◌, ◌&&◌, ◌||◌, ◌==◌, eq_refl, eq_ne, filter, All, ok, Bool-cases, List-cases,
}
use pv_snapshotter.Exec.{State}
use pv_snapshotter.Host.{Lease}
use pv_snapshotter.Dedup.Defs.{DedupManager}
use pv_snapshotter.Dedup.Store.{IsLeaseStore, Answers, without, is_managed}
use pv_snapshotter.Dedup.Removal.{remove_all, remove_all-filter, filter-filter, filter-All}
use pv_snapshotter.Dedup.Leases.{
  gc_each, gc_orphan_leases, collect, owner_of, dec_pinned, label_filter, managed_by,
  managed_by_value,
}
use pv_snapshotter.Dedup.Leases.Metrics.{
  owner_stat, deletion, collect_cases, gc_each_skip, gc_each_step, listing, gc_of_listing,
}
use pv_snapshotter.Dedup.Leases.Sweep.{is_kept, seen, after_deleted}

module _ {W : Type 0} (m : DedupManager W) (ns : Text) (held : W → List Lease) (alive : Text → Bool)
    (store : IsLeaseStore m ns held) (answers : Answers m ns held alive) where
  -- The lease names an owner that does not exist.
  abbrev pub is_ownerless : Lease → Bool
  is_ownerless l = not (alive (owner_of l)) && not (owner_of l == [])

  collect_removes :
      (l : Lease) (s : State W)
      → owner_of l ≢ []
      → (n : ℕ) × (t : State W) × (collect m ns l s ≡ (ok n, t))
        × (held t.world ≡ (if is_ownerless l then without l.id (held s.world) else held s.world))
  collect_removes l s h = elim (Bool-cases (alive (owner_of l))) [
    | inl there ↦
        let (i, found) = answers.stat_alive (owner_of l) s.world there in
        elim (collect_cases m ns l s) [
          | inl (_, _, e) ↦ (0, (owner_stat m ns l s).1, e, rw there (seen m ns held store l s))
          | inr (inl (_, _, missing, _, _)) ↦ cc
          | inr (inr (_, missing, _, _)) ↦ cc
        ]
    | inr gone ↦
        let (x, missing) = answers.stat_missing (owner_of l) s.world gone in
        let deleted = answers.delete_answer l.id (owner_stat m ns l s).1.world in
        elim (collect_cases m ns l s) [
          | inl (_, found, _) ↦ cc
          | inr (inl (_, _, _, failed, _)) ↦ cc
          | inr (inr (_, _, done, e)) ↦ (
            1,
            (dec_pinned (deletion m ns l s).1).1,
            e,
            rw (gone, eq_ne (owner_of l) [] h) (after_deleted m ns held store l s done),
          )
        ]
  ]

  pub not_ownerless : (l : Lease) → owner_of l ≡ [] → is_ownerless l ≡ false
  not_ownerless l e = rw (e, eq_refl []) (and_false (not (alive [])))
    where
      and_false : (b : Bool) → (b && false) ≡ false
      and_false true = refl
      and_false false = refl

  removed_next :
      (l : Lease) (ls hs ks : List Lease)
      → ks ≡ (if is_ownerless l then without l.id hs else hs)
      → remove_all (filter is_ownerless ls) ks ≡ remove_all (filter is_ownerless (l ∷ ls)) hs
  removed_next l ls hs ks k = elim (Bool-cases (is_ownerless l)) [
    | inl e ↦ rw (k, e) refl
    | inr e ↦ rw (k, e) refl
  ]

  gc_each_removes :
      (ls : List Lease) (deleted : ℕ) (s : State W)
      → held (gc_each m ns ls deleted s).1.world
        ≡ remove_all (filter is_ownerless ls) (held s.world)
  unfolding gc_each
  gc_each_removes [] deleted s = refl
  gc_each_removes (l ∷ ls) deleted s = elim (List-cases (owner_of l)) [
    | inl e ↦
        rw (gc_each_skip m ns l s ls deleted e, not_ownerless l e) (gc_each_removes ls deleted s)
    | inr h ↦
        let (n, t, e, k) = collect_removes l s h in
        rw (gc_each_step m ns l s ls deleted n t h e)
          (gc_each_removes ls (deleted + n) t ∙ removed_next l ls (held s.world) (held t.world) k)
  ]

  kept_All :
      (ls : List Lease)
      → All (λ l. not (is_managed l && is_ownerless l) ≡ is_kept m ns held alive store l) ls
  kept_All [] = tt
  kept_All (l ∷ ls) =
      (de_morgan (alive (owner_of l)) (owner_of l == []) (is_managed l), kept_All ls)
    where
      de_morgan : (a o g : Bool) → not (g && (not a && not o)) ≡ (a || (o || not g))
      de_morgan true true true = refl
      de_morgan true true false = refl
      de_morgan true false true = refl
      de_morgan true false false = refl
      de_morgan false true true = refl
      de_morgan false true false = refl
      de_morgan false false true = refl
      de_morgan false false false = refl

  reclaimed :
      (ls : List Lease)
      → filter (λ l. not (is_managed l && is_ownerless l)) ls
        ≡ filter (is_kept m ns held alive store) ls
  reclaimed ls = filter-All _ _ ls (kept_All ls)

  -- With lease and snapshot services that behave as documented and of which no call fails, a sweep
  -- leaves exactly the leases whose owner exists, those without an owner and those of other
  -- components: all orphans are gone, and nothing else.
  pub gc_orphan_leases_exact :
      (s : State W)
      → held (gc_orphan_leases m ns s).1.world
        ≡ filter (is_kept m ns held alive store) (held s.world)
  gc_orphan_leases_exact s =
      let w = s.world in
      let listed = answers.managed_answer w in
      let same = store.list_held (label_filter m ns managed_by managed_by_value) w in
      rw (gc_of_listing m ns s (filter is_managed (held w)) listed) (
        gc_each_removes (filter is_managed (held w)) 0 (listing m ns s).1
        ∙ ap (remove_all (filter is_ownerless (filter is_managed (held w)))) same
        ∙ ap (λ ls. remove_all ls (held w)) (filter-filter is_managed is_ownerless (held w))
        ∙ remove_all-filter (λ l. is_managed l && is_ownerless l) (held w) (store.unique w)
        ∙ reclaimed (held w))
