-- ===== src/Service/Dedup.antt =====
-- What Stat, Prepare and Remove add to the calls of the native snapshotter.
use pv_snapshotter.Base.{
  ◌≡◌, ◌⊎◌, inl, inr, true, false, none, some, List, [], Text, arith, Error, ok, err, is_not_found,
  Option-cases, Bool-cases,
}
use pv_snapshotter.Exec.{State, call}
use pv_snapshotter.Host.{Opt}
use pv_snapshotter.Key.{parse_snapshot_key, is_chain_id}
use pv_snapshotter.Key.ChainId.{is_chain_id_of_key}
use pv_snapshotter.Dedup.{DedupManager}
use pv_snapshotter.Dedup.Reference.{or_k8s, overlayfs_layer_path}
use pv_snapshotter.Dedup.Reference.Lazy.{stat_with_lazy_materialise_miss}
use pv_snapshotter.Dedup.Leases.{pin_layer, unpin_by_active_key}
use pv_snapshotter.Dedup.Leases.Pinning.{unpin_never_fails}
use pv_snapshotter.Service.{Snapshotter, stat, prepare, pin_parent, remove, unpin_key}

module _ {W C T : Type 0} (sn : Snapshotter W C T) where
  -- A container's snapshot is prepared on an image layer, with the dedup path enabled.
  pub record NeedsPin (key parent : Text) : Type 0 where
    pub manager : DedupManager W
    pub ns : Text
    pub active_id : Text
    pub parent_ns : Text
    pub chain_id : Text
    pub enabled : sn.dedup ≡ some manager
    pub is_active : parse_snapshot_key key ≡ some (ns, active_id)
    pub no_layer : is_chain_id active_id ≡ false
    pub on_layer : parse_snapshot_key parent ≡ some (parent_ns, chain_id)
    pub is_layer : is_chain_id chain_id ≡ true

  pin_parent_cases :
      (key parent : Text) (s : State W)
      → ((p : NeedsPin key parent) × (pin_parent sn key parent s
            ≡ (ok tt, (pin_layer p.manager p.ns p.chain_id key s).1)))
        ⊎ (¬ NeedsPin key parent × (pin_parent sn key parent s ≡ (ok tt, s)))
  unfolding pin_parent
  pin_parent_cases key parent s = elim (Option-cases sn.dedup) [
    | inl e ↦ inr (λ p. cc (e, p.enabled), ground arith)
    | inr (d, e) ↦ elim (Option-cases (parse_snapshot_key key)) [
      | inl f ↦ inr (λ p. cc (f, p.is_active), ground arith)
      | inr ((ns, active), f) ↦ elim (Option-cases (parse_snapshot_key parent)) [
        | inl g ↦ inr (λ p. cc (g, p.on_layer), ground arith)
        | inr ((pns, chain), g) ↦ elim (Bool-cases (is_chain_id active)) [
          | inl h ↦ inr (λ p. cc (f, h, p.is_active, p.no_layer), ground arith)
          | inr h ↦ elim (Bool-cases (is_chain_id chain)) [
            | inr k ↦ inr (λ p. cc (g, k, p.on_layer, p.is_layer), ground arith)
            | inl k ↦ inl (
              record {
                manager = d;
                ns = ns;
                active_id = active;
                parent_ns = pns;
                chain_id = chain;
                enabled = e;
                is_active = f;
                no_layer = h;
                on_layer = g;
                is_layer = k;
              },
              ground arith,
            )
          ]
        ]
      ]
    ]
  ]

  -- Prepare returns what the native snapshotter returns, an error too, and pins the layer of the
  -- parent exactly where a container's snapshot is prepared on an image layer with the dedup path
  -- enabled; a failure to pin does not show in the result.
  pub prepare_cases :
      (key parent : Text) (opts : List Opt) (s : State W)
      → ((p : NeedsPin key parent) × (prepare sn key parent opts s ≡ (
        (call (sn.sn.prepare key parent opts) s).0,
        (pin_layer p.manager p.ns p.chain_id key (call (sn.sn.prepare key parent opts) s).1).1,
      )))
        ⊎ (¬ NeedsPin key parent
            × (prepare sn key parent opts s ≡ call (sn.sn.prepare key parent opts) s))
  unfolding prepare
  prepare_cases key parent opts s =
      let native = call (sn.sn.prepare key parent opts) s in
      elim (pin_parent_cases key parent native.1) [
        | inl (p, e) ↦ inl (p, ground arith)
        | inr (idle, e) ↦ inr (idle, ground arith)
      ]

  abbrev pub unpinned : DedupManager W → Text → Text → State W → State W
  unpinned d ns key s = (unpin_by_active_key d ns key s).1

  -- Remove returns what the native snapshotter returns. With the dedup path enabled it then releases
  -- the leases of a key `<ns>/<seq>/<container-id>`, also where the native snapshotter failed to
  -- remove the snapshot; otherwise it does no more than the native snapshotter.
  pub remove_cases :
      (key : Text) (s : State W)
      → ((d : DedupManager W) × (ns : Text) × (id : Text) × (sn.dedup ≡ some d)
          × (parse_snapshot_key key ≡ some (ns, id))
          × (remove sn key s
              ≡ ((call (sn.sn.remove key) s).0, unpinned d ns key (call (sn.sn.remove key) s).1)))
        ⊎ (((sn.dedup ≡ none) ⊎ (parse_snapshot_key key ≡ none))
            × (remove sn key s ≡ call (sn.sn.remove key) s))
  unfolding remove unpin_key
  remove_cases key s =
      let native = call (sn.sn.remove key) s in
      elim (Option-cases sn.dedup) [
        | inl e ↦ inr (inl e, ground arith)
        | inr (d, e) ↦ elim (Option-cases (parse_snapshot_key key)) [
          | inl f ↦ inr (inr f, ground arith)
          | inr ((ns, id), f) ↦
              let done = unpin_never_fails d ns key native.1 in inl (d, ns, id, e, f, ground arith)
        ]
      ]

  module _ (d : DedupManager W) (enabled : sn.dedup ≡ some d) (ns key : Text) (s : State W) where
    -- With the dedup path enabled, Stat of a key that the native snapshotter does not answer for
    -- fails with an error that is not of the class ErrNotFound, whatever the native error is, where
    -- the key is no chain ID, as no key `<ns>/<seq>/<container-id>` is, or is not in overlayfs.
    pub stat_miss :
        (x : Error)
        → (call (sn.sn.stat key) s).0 ≡ err x
        → ((n : Text) × (id : Text) × (parse_snapshot_key key ≡ some (n, id)))
          ⊎ ((is_chain_id key ≡ false)
              ⊎ ((overlayfs_layer_path d (or_k8s ns) key (call (sn.sn.stat key) s).1).0 ≡ ok []))
        → (y : Error) × ((stat sn ns key s).0 ≡ err y) × (is_not_found y ≡ false)
    unfolding stat
    stat_miss x e miss =
        let (y, f, g) =
          stat_with_lazy_materialise_miss d ns key sn.sn (call (sn.sn.stat key) s).1 (cases miss) in
        (y, ground arith, g)
      where
        cases :
            ((n : Text) × (id : Text) × (parse_snapshot_key key ≡ some (n, id)))
              ⊎ ((is_chain_id key ≡ false)
                  ⊎ ((overlayfs_layer_path d (or_k8s ns) key (call (sn.sn.stat key) s).1).0
                      ≡ ok []))
            → (is_chain_id key ≡ false)
              ⊎ ((overlayfs_layer_path d (or_k8s ns) key (call (sn.sn.stat key) s).1).0 ≡ ok [])
        cases (inl (n, id, h)) = inl (is_chain_id_of_key key n id h)
        cases (inr h) = h
