-- ===== src/Dedup/Leases.antt =====
-- The leases of pkg/containerd/snapshotter/dedup.go: pinning, release, listing and the sweep of
-- orphans. The metrics are those of the process's state.
pub mod Metrics
pub mod Pinning
pub mod Sweep
pub mod Release
pub mod Reclaim
pub mod Orphans
use pv_snapshotter.Base.{
  ℕ, zero, suc, ◌+◌, List, [], ◌∷◌, ◌++◌, Text, codes, lookup_or, ok, err, wrapf,
}
use pv_snapshotter.Base.Int.{pos, ◌+ℤ◌, ◌-ℤ◌}
use pv_snapshotter.Exec.{Exec, State, pure, raise, call, wrapping, attempt, ◌>>=◌, ◌>>◌}
use pv_snapshotter.Host.{Lease, Resource}
use pv_snapshotter.Dedup.Defs.{DedupManager}

abbrev pub owner_key : Text
owner_key = codes "pv-snapshotter.io/owner-snapshot"

abbrev pub managed_by : Text
managed_by = codes "pv-snapshotter.io/managed-by"

abbrev pub managed_by_value : Text
managed_by_value = codes "pv-snapshotter"

abbrev pub snapshot_resource : Text → Resource
snapshot_resource chain_id = record { id = chain_id; type = codes "snapshots/overlayfs" }

unfoldable pub owner_of : Lease → Text
owner_of l = lookup_or owner_key l.labels

abbrev pub pin_labels : Text → List (Text × Text)
pin_labels active_key = (managed_by, managed_by_value) ∷ (owner_key, active_key) ∷ []

module _ {W : Type 0} where
  abbrev pub inc_pinned : Exec W Unit
  inc_pinned s = (ok tt, record s { pinned_snapshots = s.pinned_snapshots +ℤ pos 1 })

  abbrev pub dec_pinned : Exec W Unit
  dec_pinned s = (ok tt, record s { pinned_snapshots = s.pinned_snapshots -ℤ pos 1 })

  abbrev pub inc_unpin_failures : Exec W Unit
  inc_unpin_failures s = (ok tt, record s { unpin_failures = s.unpin_failures + 1 })

module _ {W : Type 0} (m : DedupManager W) (ns : Text) where
  -- fmt.Sprintf("labels.%q==%q", key, value)
  abbrev pub label_filter : Text → Text → Text
  label_filter key value = codes "labels." ++ (m.quote key ++ (codes "==" ++ m.quote value))

  unfoldable pub pin_layer : Text → Text → Exec W Lease
  pin_layer chain_id active_key = do
    let svc = m.leases_service ns
    l ←
        wrapping "creating dedup lease for chainID %s (owner=%s): %w" (chain_id ∷ active_key ∷ [])
          (call (svc.create (pin_labels active_key)))
    added ← attempt (call (svc.add_resource l (snapshot_resource chain_id)))
    elim added [
      | err e ↦ do
        attempt (call (svc.delete l.id))
        raise (wrapf "adding snapshot resource to dedup lease (owner=%s): %w" (active_key ∷ []) e)
      | ok _ ↦ do inc_pinned; pure l
    ]

  -- The loop of unpinByActiveKey.
  unfoldable pub unpin_each : List Lease → Exec W Unit
  unpin_each [] = pure tt
  unpin_each (l ∷ ls) = do
    deleted ← attempt (call ((m.leases_service ns).delete l.id))
    elim deleted [ err _ ↦ inc_unpin_failures | ok _ ↦ dec_pinned ]
    unpin_each ls

  unfoldable pub unpin_by_active_key : Text → Exec W Unit
  unpin_by_active_key active_key = do
    listed ← attempt (call ((m.leases_service ns).list (label_filter owner_key active_key)))
    elim listed [ err _ ↦ pure tt | ok ls ↦ unpin_each ls ]

  unfoldable pub list_managed_leases : Exec W (List Lease)
  list_managed_leases = call ((m.leases_service ns).list (label_filter managed_by managed_by_value))

  unfoldable pub delete_lease : Text → Exec W Unit
  delete_lease lease_id = do
    wrapping "deleting lease %s: %w" (lease_id ∷ []) (call ((m.leases_service ns).delete lease_id))
    dec_pinned

  -- The loop of countOrphanLeases.
  unfoldable pub count_each : List Lease → ℕ → Exec W ℕ
  count_each [] count = pure count
  count_each (l ∷ ls) count = elim (owner_of l) [
    | [] ↦ count_each ls count
    | c ∷ owner ↦ do
      found ← attempt (call (m.local_sn.stat (c ∷ owner)))
      count_each ls (elim found [ err _ ↦ count + 1 | ok _ ↦ count ])
  ]

  unfoldable pub count_orphan_leases : Exec W ℕ
  count_orphan_leases = do
    listed ← attempt list_managed_leases
    elim listed [ err _ ↦ pure 0 | ok ls ↦ count_each ls 0 ]

  -- One round of gcOrphanLeases on a lease with an owner: how many leases it deleted.
  unfoldable pub collect : Lease → Exec W ℕ
  collect l = do
    found ← attempt (call (m.local_sn.stat (owner_of l)))
    elim found [
      | ok _ ↦ pure 0
      | err _ ↦ do
        deleted ← attempt (call ((m.leases_service ns).delete l.id))
        elim deleted [ err _ ↦ pure 0 | ok _ ↦ do dec_pinned; pure 1 ]
    ]

  -- The loop of gcOrphanLeases.
  unfoldable pub gc_each : List Lease → ℕ → Exec W ℕ
  gc_each [] deleted = pure deleted
  gc_each (l ∷ ls) deleted = elim (owner_of l) [
    | [] ↦ gc_each ls deleted
    | _ ∷ _ ↦ do n ← collect l; gc_each ls (deleted + n)
  ]

  unfoldable pub gc_orphan_leases : Exec W ℕ
  gc_orphan_leases = do
    listed ← attempt list_managed_leases
    elim listed [ err _ ↦ pure 0 | ok ls ↦ gc_each ls 0 ]
