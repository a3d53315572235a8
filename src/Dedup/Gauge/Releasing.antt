-- ===== src/Dedup/Gauge/Releasing.antt =====
-- The gauge along pinLayer, unpinByActiveKey and deleteLease.
use pv_snapshotter.Base.{
  ◌≡◌, refl, sym, ap, subst, ◌∙◌, inl, inr, true, List, [], ◌∷◌, Text, arith, length, suc, lookup,
  ◌==◌, filter, Error, Result, ok, err, Result-cases,
}
use pv_snapshotter.Base.Int.{pos, pos_part, neg_part, ◌+ℤ◌, ◌-ℤ◌, int_laws}
use mathlib.Core.List.{Memᴰ}
use mathlib.Core.List.Memᴰ.{head}
use pv_snapshotter.Exec.{State, call}
use pv_snapshotter.Host.{Lease}
use pv_snapshotter.Dedup.Defs.{DedupManager}
use pv_snapshotter.Dedup.Store.{IsLeaseStore, has_label, is_managed, without}
use pv_snapshotter.Dedup.Leases.{
  unpin_each, unpin_by_active_key, pin_layer, delete_lease, dec_pinned, inc_unpin_failures,
  owner_key, pin_labels, snapshot_resource, managed_by, managed_by_value, label_filter,
}
use pv_snapshotter.Dedup.Leases.Pinning.{
  release, unpin_each_ok, unpin_each_err, owned, unpin_of_listing, unpin_of_failed_listing,
  pin_layer_cases, creation, adding,
}
use pv_snapshotter.Dedup.Leases.Release.{after_release, after_refusal}
use pv_snapshotter.Dedup.Gauge.{IsCounted, managed, Lags, Lags-same, Lags-trans}
use pv_snapshotter.Dedup.Gauge.Counting.{
  IsPending, IsPending-later, IsPending-deleted, IsPending-filter, without_counted,
}

tagged_pin : (l : Lease) (key : Text) → l.labels ≡ pin_labels key → is_managed l ≡ true
unfolding lookup ◌==◌
tagged_pin l key e = ap (λ ls. has_label managed_by managed_by_value (record l { labels = ls })) e

module _ {W : Type 0} (m : DedupManager W) (ns : Text) (held : W → List Lease)
    (store : IsLeaseStore m ns held) (counted : IsCounted m ns held) where
  -- A lease that is deleted and counted so, of which the others are still pending.
  pub deleted_Lags :
      (l : Lease) (ls : List Lease) (s t : State W)
      → IsPending (l ∷ ls) (held s.world)
      → t.pinned_snapshots ≡ s.pinned_snapshots -ℤ pos 1
      → held t.world ≡ without l.id (held s.world)
      → Lags m ns held s t × IsPending ls (held t.world)
  deleted_Lags l ls s t p e gone =
      let fewer =
        without_counted l (held s.world) p.there.0 (counted.distinct s.world) p.tagged.0 in
      let now = ap (λ ks. length (filter is_managed ks)) gone in
      (
        (
          0,
          record { drift = omega (int_laws, ap pos_part e, ap neg_part e, fewer, now) },
          inl refl,
        ),
        subst (λ hs. IsPending ls hs) (sym gone) (IsPending-deleted l ls (held s.world) p),
      )

  -- A lease that is not deleted.
  pub left_Lags :
      (l : Lease) (ls : List Lease) (s t : State W)
      → IsPending (l ∷ ls) (held s.world)
      → t.pinned_snapshots ≡ s.pinned_snapshots
      → held t.world ≡ held s.world
      → Lags m ns held s t × IsPending ls (held t.world)
  left_Lags l ls s t p e same = (
    Lags-same m ns held s t e (ap (λ ks. length (filter is_managed ks)) same),
    subst (λ hs. IsPending ls hs) (sym same) (IsPending-later l ls (held s.world) p),
  )

  unpin_each-Lags :
      (ls : List Lease) (s : State W)
      → IsPending ls (held s.world)
      → Lags m ns held s (unpin_each m ns ls s).1
  unfolding unpin_each
  unpin_each-Lags [] s p = Lags-same m ns held s s refl refl
  unpin_each-Lags (l ∷ ls) s p = elim (Result-cases (release m ns l ls s).0) [
    | inl (_, e) ↦
        let t = (dec_pinned (release m ns l ls s).1).1 in
        let (a, q) = deleted_Lags l ls s t p refl (after_release m ns held store l ls s e) in
        rw (unpin_each_ok m ns l ls s e) (Lags-trans m ns held s t _ a (unpin_each-Lags ls t q))
    | inr (x, e) ↦
        let t = (inc_unpin_failures (release m ns l ls s).1).1 in
        let (a, q) = left_Lags l ls s t p refl (after_refusal m ns held store l ls s x e) in
        rw (unpin_each_err m ns l ls s x e) (Lags-trans m ns held s t _ a (unpin_each-Lags ls t q))
  ]

  pub unpin_by_active_key-Lags :
      (key : Text) (s : State W) → Lags m ns held s (unpin_by_active_key m ns key s).1
  unpin_by_active_key-Lags key s =
      let w = s.world in
      let same = store.list_held (label_filter m ns owner_key key) w in
      let t = (owned m ns key s).1 in
      let idle = Lags-same m ns held s t refl (ap (λ ks. length (filter is_managed ks)) same) in
      elim (Result-cases (owned m ns key s).0) [
        | inr (x, e) ↦ rw (unpin_of_failed_listing m ns key s x e) idle
        | inl (ls, e) ↦ elim (store.owned_result key w) [
          | inr (x, f) ↦ cc
          | inl f ↦
              let listed : ls ≡ filter (has_label owner_key key) (held w) = cc in
              let p =
                IsPending-filter (has_label owner_key key) (held w) (counted.distinct w)
                  (counted.owned_managed key w) in
              rw (unpin_of_listing m ns key s ls e)
                (Lags-trans m ns held s t _ idle (unpin_each-Lags ls t (rw (listed, same) p)))
        ]
      ]

  module _ (chain_id key : Text) (s : State W) where
    -- The lease that Create made is the only new one, and managed.
    made_held :
        (l : Lease)
        → (creation m ns chain_id key s).0 ≡ ok l
        → (is_managed l ≡ true) × (held (adding m ns chain_id key s l).1.world ≡ l ∷ held s.world)
    made_held l e = elim (counted.create_result key s.world) [
      | inr (x, f, _) ↦ cc
      | inl (k, f, labels, new) ↦
          let same : k ≡ l = cc in
          let after = ((m.leases_service ns).create (pin_labels key) s.world).1 in
          (
            tagged_pin l key (ap (λ k. k.labels) (sym same) ∙ labels),
            counted.add_held l (snapshot_resource chain_id) after
                ∙ new
                ∙ ap (λ k. k ∷ held s.world) same,
          )
    ]

    made_Lags :
        (l : Lease) (t : State W)
        → is_managed l ≡ true
        → held t.world ≡ l ∷ held s.world
        → t.pinned_snapshots ≡ s.pinned_snapshots +ℤ pos 1
        → Lags m ns held s t
    made_Lags l t g new e =
        let more : managed held t ≡ suc (managed held s) =
          ap (λ ks. length (filter is_managed ks)) new ∙ rw g refl in
        (0, record { drift = omega (int_laws, ap pos_part e, ap neg_part e, more) }, inl refl)

    undone_Lags :
        (l : Lease)
        → (creation m ns chain_id key s).0 ≡ ok l
        → Lags m ns held s
            (call ((m.leases_service ns).delete l.id) (adding m ns chain_id key s l).1).1
    undone_Lags l made =
        let (g, new) = made_held l made in
        let w = (adding m ns chain_id key s l).1.world in
        let t = (call ((m.leases_service ns).delete l.id) (adding m ns chain_id key s l).1).1 in
        let there = subst (λ hs. Memᴰ l hs) (sym new) (head refl) in
        elim (store.delete_result l.id w) [
          | inl (_, gone) ↦
              let fewer = without_counted l (held w) there (counted.distinct w) g in
              let before : length (filter is_managed (held w)) ≡ suc (managed held s) =
                ap (λ ks. length (filter is_managed ks)) new ∙ rw g refl in
              let now = ap (λ ks. length (filter is_managed ks)) gone in
              Lags-same m ns held s t refl (omega (arith, fewer, before, now))
          | inr (x, refused, same) ↦
              let more : managed held t ≡ suc (managed held s) =
                ap (λ ks. length (filter is_managed ks)) (same ∙ new) ∙ rw g refl in
              (1, record { drift = omega (int_laws, more) }, inr (l, w, there, x, refused))
        ]

    pub pin_layer-Lags : Lags m ns held s (pin_layer m ns chain_id key s).1
    pin_layer-Lags = elim (pin_layer_cases m ns chain_id key s) [
      | inl (l, made, _, e) ↦ let (g, new) = made_held l made in rw e (made_Lags l _ g new refl)
      | inr (inl (x, failed, e)) ↦ rw e (elim (counted.create_result key s.world) [
        | inl (_, f, _, _) ↦ cc
        | inr (_, _, same) ↦
            Lags-same m ns held s _ refl (ap (λ ks. length (filter is_managed ks)) same)
      ])
      | inr (inr (l, _, made, _, e)) ↦ rw e (undone_Lags l made)
    ]

  module _ (l : Lease) (s : State W) where
    abbrev deleting : Result (Unit {0}) × State W
    deleting = call ((m.leases_service ns).delete l.id) s

    delete_lease_ok : deleting.0 ≡ ok tt → (delete_lease m ns l.id s).1 ≡ (dec_pinned deleting.1).1
    unfolding delete_lease
    delete_lease_ok e = ground arith

    delete_lease_err : (x : Error) → deleting.0 ≡ err x → (delete_lease m ns l.id s).1 ≡ deleting.1
    unfolding delete_lease
    delete_lease_err x e = ground arith

    -- deleteLease on a managed lease of the service.
    pub delete_lease-Lags :
        Memᴰ l (held s.world) → is_managed l ≡ true → Lags m ns held s (delete_lease m ns l.id s).1
    delete_lease-Lags i g =
        let p : IsPending (l ∷ []) (held s.world) = record {
          different = (tt, tt);
          there = (i, tt);
          tagged = (g, tt);
        } in
        elim (store.delete_result l.id s.world) [
          | inl (e, gone) ↦
              rw (delete_lease_ok e) (deleted_Lags l [] s (dec_pinned deleting.1).1 p refl gone).0
          | inr (x, e, same) ↦ rw (delete_lease_err x e) (left_Lags l [] s deleting.1 p refl same).0
        ]

  -- deleteLease where the service refuses.
  pub refused_Lags :
      (id : Text) (s : State W) (x : Error)
      → (call ((m.leases_service ns).delete id) s).0 ≡ err x
      → Lags m ns held s (delete_lease m ns id s).1
  refused_Lags id s x refused =
      let l : Lease = record { id = id; created_at = 0; labels = [] } in
      elim (store.delete_result id s.world) [
        | inl (e, _) ↦ cc
        | inr (_, _, same) ↦ rw (delete_lease_err l s x refused) (
            Lags-same m ns held s (call ((m.leases_service ns).delete id) s).1 refl
              (ap (λ ks. length (filter is_managed ks)) same))
      ]
