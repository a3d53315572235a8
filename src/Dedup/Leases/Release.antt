-- ===== src/Dedup/Leases/Release.antt =====
-- Which leases Remove releases.
use pv_snapshotter.Base.{
  ◌≡◌, refl, sym, ap, subst, ◌∙◌, inl, inr, Bool, true, false, not, List, [], ◌∷◌, Text, ◌==◌,
  eq_refl, filter, lookup, none, some, Error, All, ok, err, Result-cases,
}
use pv_snapshotter.Exec.{State}
use pv_snapshotter.Host.{Lease}
use pv_snapshotter.Dedup.Defs.{DedupManager}
use pv_snapshotter.Dedup.Store.{IsLeaseStore, Answers, IsUnique, has_label, without}
use pv_snapshotter.Dedup.Removal.{
  remove_all, remove_all-filter, filter-without, IsUnique-without, All-filter_test, All-filter,
}
use pv_snapshotter.Dedup.Leases.{
  unpin_each, unpin_by_active_key, pin_layer, pin_labels, snapshot_resource, owner_key, inc_pinned,
  dec_pinned, inc_unpin_failures, label_filter,
}
use pv_snapshotter.Dedup.Leases.Pinning.{
  release, unpin_each_ok, unpin_each_err, owned, unpin_of_listing, unpin_of_failed_listing,
  pin_layer_cases, adding,
}

abbrev pub is_owned : Text → Lease → Bool
is_owned key = has_label owner_key key

pins_owner : (key : Text) → lookup owner_key (pin_labels key) ≡ some key
unfolding lookup ◌==◌
pins_owner key = refl

owns_own : (l : Lease) (key : Text) → l.labels ≡ pin_labels key → is_owned key l ≡ true
owns_own l key e =
    ap (λ o. elim o [ none ↦ false | some v ↦ v == key ]) (ap (lookup owner_key) e ∙ pins_owner key)
    ∙ eq_refl key

module _ {W : Type 0} (m : DedupManager W) (ns : Text) (held : W → List Lease)
    (store : IsLeaseStore m ns held) where
  pub after_release :
      (l : Lease) (ls : List Lease) (s : State W)
      → (release m ns l ls s).0 ≡ ok tt
      → held (release m ns l ls s).1.world ≡ without l.id (held s.world)
  after_release l ls s e = elim (store.delete_result l.id s.world) [
    | inl (_, gone) ↦ gone
    | inr (_, f, _) ↦ cc
  ]

  pub after_refusal :
      (l : Lease) (ls : List Lease) (s : State W) (x : Error)
      → (release m ns l ls s).0 ≡ err x
      → held (release m ns l ls s).1.world ≡ held s.world
  after_refusal l ls s x e = elim (store.delete_result l.id s.world) [
    | inl (f, _) ↦ cc
    | inr (_, _, same) ↦ same
  ]

  unpin_each_keeps :
      (key : Text) (ls : List Lease) (s : State W)
      → All (λ l. is_owned key l ≡ true) ls
      → All (λ l. IsUnique l (held s.world)) ls
      → filter (λ l. not (is_owned key l)) (held (unpin_each m ns ls s).1.world)
        ≡ filter (λ l. not (is_owned key l)) (held s.world)
  unfolding unpin_each
  unpin_each_keeps key [] s h u = refl
  unpin_each_keeps key (l ∷ ls) s h u = elim (Result-cases (release m ns l ls s).0) [
    | inl (_, e) ↦
        let t = (dec_pinned (release m ns l ls s).1).1 in
        let gone = after_release l ls s e in
        rw (unpin_each_ok m ns l ls s e) (
          unpin_each_keeps key ls t h.1 (
            subst (λ hs. All (λ k. IsUnique k hs) ls) (sym gone)
              (IsUnique-without l.id ls (held s.world) u.1))
          ∙ ap (filter (λ k. not (is_owned key k))) gone
          ∙ filter-without (λ k. not (is_owned key k)) l (held s.world) u.0 (ap not h.0))
    | inr (x, e) ↦
        let t = (inc_unpin_failures (release m ns l ls s).1).1 in
        let same = after_refusal l ls s x e in
        rw (unpin_each_err m ns l ls s x e) (
          unpin_each_keeps key ls t h.1 (subst (λ hs. All (λ k. IsUnique k hs) ls) (sym same) u.1)
          ∙ ap (filter (λ k. not (is_owned key k))) same)
  ]

  -- With lease and snapshot services that behave as documented, releasing the leases of a key
  -- leaves every lease that does not name the key as its owner as it was, in its order, whichever
  -- calls fail.
  pub unpin_by_active_key_keeps :
      (key : Text) (s : State W)
      → filter (λ l. not (is_owned key l)) (held (unpin_by_active_key m ns key s).1.world)
        ≡ filter (λ l. not (is_owned key l)) (held s.world)
  unpin_by_active_key_keeps key s =
      let w = s.world in
      let same = store.list_held (label_filter m ns owner_key key) w in
      elim (Result-cases (owned m ns key s).0) [
        | inr (x, e) ↦
            rw (unpin_of_failed_listing m ns key s x e)
              (ap (filter (λ l. not (is_owned key l))) same)
        | inl (ls, e) ↦ elim (store.owned_result key w) [
          | inr (x, f) ↦ cc
          | inl f ↦
              let listed : ls ≡ filter (is_owned key) (held w) = cc in
              rw (unpin_of_listing m ns key s ls e) (
                unpin_each_keeps key ls (owned m ns key s).1
                  (rw listed (All-filter_test (is_owned key) (held w)))
                  (rw (listed, same)
                    (All-filter (λ l. IsUnique l (held w)) (is_owned key) (held w)
                      (store.unique w)))
                ∙ ap (filter (λ l. not (is_owned key l))) same)
        ]
      ]

  module _ (alive : Text → Bool) (answers : Answers m ns held alive) where
    unpin_each_removes :
        (ls : List Lease) (s : State W)
        → held (unpin_each m ns ls s).1.world ≡ remove_all ls (held s.world)
    unfolding unpin_each
    unpin_each_removes [] s = refl
    unpin_each_removes (l ∷ ls) s =
        let e = answers.delete_answer l.id s.world in
        rw (unpin_each_ok m ns l ls s e) (
          unpin_each_removes ls (dec_pinned (release m ns l ls s).1).1
          ∙ ap (remove_all ls) (after_release l ls s e))

    -- With lease and snapshot services that behave as documented and of which no call fails,
    -- releasing the leases of a key removes all leases that name the key as their owner, and no
    -- other.
    pub unpin_by_active_key_exact :
        (key : Text) (s : State W)
        → held (unpin_by_active_key m ns key s).1.world
          ≡ filter (λ l. not (is_owned key l)) (held s.world)
    unpin_by_active_key_exact key s =
        let w = s.world in
        let e = answers.owned_answer key w in
        rw (unpin_of_listing m ns key s (filter (is_owned key) (held w)) e) (
          unpin_each_removes (filter (is_owned key) (held w)) (owned m ns key s).1
          ∙ ap (remove_all (filter (is_owned key) (held w)))
              (store.list_held (label_filter m ns owner_key key) w)
          ∙ remove_all-filter (is_owned key) (held w) (store.unique w))

    -- The lease that pinLayer made is the new one, and names the key.
    pin_layer_adds :
        (chain_id key : Text) (s : State W)
        → (l : Lease) × (l.labels ≡ pin_labels key)
          × (held (pin_layer m ns chain_id key s).1.world ≡ l ∷ held s.world)
    pin_layer_adds chain_id key s =
        let (l, made, labels, new) = answers.create_answer key s.world in
        let w = ((m.leases_service ns).create (pin_labels key) s.world).1 in
        let (added, kept) = answers.add_answer l (snapshot_resource chain_id) w in
        elim (pin_layer_cases m ns chain_id key s) [
          | inl (k, made', _, e) ↦
              let same : k ≡ l = cc in
              (l, labels, ap (λ r. held r.1.world) (subst (λ x. Pinned x) same e) ∙ kept ∙ new)
          | inr (inl (_, failed, _)) ↦ cc
          | inr (inr (k, y, made', failed, _)) ↦
              let same : k ≡ l = cc in
              cc (subst (λ x. (adding m ns chain_id key s x).0 ≡ err y) same failed)
        ]
      where
        Pinned : Lease → Type 0
        Pinned x =
            pin_layer m ns chain_id key s ≡ (ok x, (inc_pinned (adding m ns chain_id key s x).1).1)

    -- With lease and snapshot services that behave as documented and of which no call fails, a
    -- release after a pin leaves the leases of all other owners as they were before the pin, and
    -- none of the key.
    pub unpin-pin :
        (chain_id key : Text) (s : State W)
        → held (unpin_by_active_key m ns key (pin_layer m ns chain_id key s).1).1.world
          ≡ filter (λ l. not (is_owned key l)) (held s.world)
    unpin-pin chain_id key s =
        let (l, labels, new) = pin_layer_adds chain_id key s in
        unpin_by_active_key_exact key (pin_layer m ns chain_id key s).1
        ∙ ap (filter (λ k. not (is_owned key k))) new
        ∙ rw (owns_own l key labels) refl
