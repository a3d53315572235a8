-- ===== src/Dedup/Leases/Pinning.antt =====
-- What pinLayer and unpinByActiveKey do on each branch, and what they count.
use pv_snapshotter.Base.{
  ℕ, ◌+◌, ◌≡◌, refl, ap, ◌⊎◌, inl, inr, List, [], ◌∷◌, Text, arith, length, Error, Result, ok, err,
  wrapf, Result-cases,
}
use pv_snapshotter.Base.Int.{pos, pos_part, neg_part, ◌+ℤ◌, int_laws}
use pv_snapshotter.Exec.{State, call}
use pv_snapshotter.Host.{Lease}
use pv_snapshotter.Dedup.Defs.{DedupManager}
use pv_snapshotter.Dedup.Leases.{
  pin_layer, pin_labels, snapshot_resource, unpin_each, unpin_by_active_key, label_filter,
  owner_key, inc_pinned, dec_pinned, inc_unpin_failures,
}

-- `deleted` leases fewer are pinned, and `failed` deletions more have failed.
pub record Unpinned {W : Type 0} (deleted failed : ℕ) (s t : State W) : Type 0 where
  pub pinned : t.pinned_snapshots +ℤ pos deleted ≡ s.pinned_snapshots
  pub failures : t.unpin_failures ≡ s.unpin_failures + failed
  pub orphans : t.orphan_leases ≡ s.orphan_leases

module _ {W : Type 0} (m : DedupManager W) (ns : Text) where
  module _ (l : Lease) (ls : List Lease) (s : State W) where
    abbrev pub release : Result (Unit {0}) × State W
    release = call ((m.leases_service ns).delete l.id) s

    pub unpin_each_ok :
        release.0 ≡ ok tt → unpin_each m ns (l ∷ ls) s ≡ unpin_each m ns ls (dec_pinned release.1).1
    unfolding unpin_each
    unpin_each_ok e = ground arith

    pub unpin_each_err :
        (x : Error)
        → release.0 ≡ err x
        → unpin_each m ns (l ∷ ls) s ≡ unpin_each m ns ls (inc_unpin_failures release.1).1
    unfolding unpin_each
    unpin_each_err x e = ground arith

  abbrev pub Unpins : ℕ → Result (Unit {0}) × State W → State W → Type 0
  Unpins size r s =
      (deleted : ℕ) × (failed : ℕ) × (deleted + failed ≡ size)
      × (r.0 ≡ ok tt)
      × Unpinned deleted failed s r.1

  unpin_each-Unpins : (ls : List Lease) (s : State W) → Unpins (length ls) (unpin_each m ns ls s) s
  unfolding unpin_each
  unpin_each-Unpins [] s =
      (0, 0, refl, refl, record { pinned = omega int_laws; failures = omega arith; orphans = refl })
  unpin_each-Unpins (l ∷ ls) s = elim (Result-cases (release l ls s).0) [
    | inl (_, e) ↦
        let t = (dec_pinned (release l ls s).1).1 in
        let (d, f, size, done, r) = unpin_each-Unpins ls t in
        rw (unpin_each_ok l ls s e) (
          d + 1,
          f,
          omega arith,
          done,
          record {
            pinned = omega (int_laws, ap pos_part r.pinned, ap neg_part r.pinned);
            failures = r.failures;
            orphans = r.orphans;
          },
        )
    | inr (x, e) ↦
        let t = (inc_unpin_failures (release l ls s).1).1 in
        let (d, f, size, done, r) = unpin_each-Unpins ls t in
        rw (unpin_each_err l ls s x e) (
          d,
          f + 1,
          omega arith,
          done,
          record { pinned = r.pinned; failures = omega (arith, r.failures); orphans = r.orphans },
        )
  ]

  module _ (key : Text) (s : State W) where
    abbrev pub owned : Result (List Lease) × State W
    owned = call ((m.leases_service ns).list (label_filter m ns owner_key key)) s

    pub unpin_of_listing :
        (ls : List Lease)
        → owned.0 ≡ ok ls
        → unpin_by_active_key m ns key s ≡ unpin_each m ns ls owned.1
    unfolding unpin_by_active_key
    unpin_of_listing ls e = ground arith

    pub unpin_of_failed_listing :
        (x : Error) → owned.0 ≡ err x → unpin_by_active_key m ns key s ≡ (ok tt, owned.1)
    unfolding unpin_by_active_key
    unpin_of_failed_listing x e = ground arith

    -- unpinByActiveKey never fails. Each lease that the service lists for the key is counted once:
    -- as released in the gauge, or as a failure in the counter. Where the listing fails, neither
    -- changes.
    unpin_by_active_key-Unpins :
        ((ls : List Lease) × (owned.0 ≡ ok ls)
          × Unpins (length ls) (unpin_by_active_key m ns key s) s)
        ⊎ ((x : Error) × (owned.0 ≡ err x) × (unpin_by_active_key m ns key s ≡ (ok tt, owned.1)))
    unpin_by_active_key-Unpins = elim (Result-cases owned.0) [
      | inr (x, e) ↦ inr (x, e, unpin_of_failed_listing x e)
      | inl (ls, e) ↦
          let (d, f, size, done, r) = unpin_each-Unpins ls owned.1 in
          inl (
            ls,
            e,
            rw (unpin_of_listing ls e) (
              d,
              f,
              size,
              done,
              record { pinned = r.pinned; failures = r.failures; orphans = r.orphans },
            ),
          )
    ]

  pub unpin_never_fails : (key : Text) (s : State W) → (unpin_by_active_key m ns key s).0 ≡ ok tt
  unpin_never_fails key s = elim (unpin_by_active_key-Unpins key s) [
    | inl (_, _, (_, _, _, done, _)) ↦ done
    | inr (_, _, e) ↦ ap (λ r. r.0) e
  ]

  module _ (chain_id key : Text) (s : State W) where
    abbrev pub creation : Result Lease × State W
    creation = call ((m.leases_service ns).create (pin_labels key)) s

    abbrev pub adding : Lease → Result (Unit {0}) × State W
    adding l = call ((m.leases_service ns).add_resource l (snapshot_resource chain_id)) creation.1

    abbrev not_created : Error → Error
    not_created = wrapf "creating dedup lease for chainID %s (owner=%s): %w" (chain_id ∷ key ∷ [])

    abbrev not_added : Error → Error
    not_added = wrapf "adding snapshot resource to dedup lease (owner=%s): %w" (key ∷ [])

    -- A lease that is created and counted, none at all, or one that is deleted again.
    abbrev pub PinCases : Type 0
    PinCases =
        ((l : Lease) × (creation.0 ≡ ok l)
          × ((adding l).0 ≡ ok tt)
          × (pin_layer m ns chain_id key s ≡ (ok l, (inc_pinned (adding l).1).1)))
        ⊎ ((x : Error) × (creation.0 ≡ err x)
            × (pin_layer m ns chain_id key s ≡ (err (not_created x), creation.1)))
        ⊎ ((l : Lease) × (x : Error) × (creation.0 ≡ ok l)
            × ((adding l).0 ≡ err x)
            × (pin_layer m ns chain_id key s
                ≡ (err (not_added x), (call ((m.leases_service ns).delete l.id) (adding l).1).1)))

    -- pinLayer returns the lease that it created and counts it once the layer is added to it. It
    -- fails where the creation fails, and where the layer cannot be added, after an attempt to
    -- delete the empty lease; no metric changes then.
    pub pin_layer_cases : PinCases
    unfolding pin_layer
    pin_layer_cases = elim (Result-cases creation.0) [
      | inr (x, e) ↦ inr (inl (x, e, ground arith))
      | inl (l, e) ↦ elim (Result-cases (adding l).0) [
        | inl (_, f) ↦ inl (l, e, f, ground arith)
        | inr (x, f) ↦ inr (inr (l, x, e, f, ground arith))
      ]
    ]
