-- ===== src/Dedup/Reference.antt =====
-- Reference snapshots: layer-path resolution, materialisation and the lazy Stat of
-- pkg/containerd/snapshotter/dedup.go. The lock is held by one call at a time, and a call is one
-- step here.
pub mod Materialise
pub mod Lazy
pub mod Blocked
pub mod Threads
use pv_snapshotter.Base.{
  not, List, [], ◌∷◌, ◌++◌, String, Text, codes, ◌==◌, if◌then◌else◌, ok, err, errorf, wrapf,
  Result,
}
use pv_snapshotter.Exec.{Exec, pure, raise_if, lift, call, wrapping, attempt, ◌>>=◌, ◌>>◌}
use pv_snapshotter.Host.{Mount, Info, Files, Snapshots}
use pv_snapshotter.Key.{is_chain_id}
use pv_snapshotter.Mounts.{layer_path_from_mounts, upperdir_from_mounts}
use pv_snapshotter.Dedup.Defs.{DedupManager, k8s_namespace}

-- `defer cleanup()`, where the cleanup's own error is only logged.
abbrev deferring : {W A : Type 0} → Exec W Unit → Exec W A → Exec W A
deferring cleanup m s = ((m s).0, (cleanup (m s).1).1)

-- overlayfsLayerPath after the call of View.
unfoldable pub probe_path : Text → List Mount → Result Text
probe_path chain_id [] =
    err (errorf "no mounts returned for probe view of chainID %s" (chain_id ∷ []))
probe_path chain_id (m ∷ ms) = layer_path_from_mounts (m ∷ ms)

abbrev pub probe_key : Text → Text
probe_key chain_id = codes "pv-snapshotter-probe-" ++ chain_id

abbrev pub tmp_key : Text → Text
tmp_key chain_id = codes "pv-snapshotter-ref-tmp-" ++ chain_id

abbrev pub parent_or_root : Result Text → Text
parent_or_root (ok parent) = parent
parent_or_root (err _) = []

abbrev pub or_k8s : Text → Text
or_k8s ns = if ns == [] then k8s_namespace else ns

module _ {W : Type 0} (files : Files W) where
  unfoldable pub replace_with_symlink : Text → Text → Exec W Unit
  replace_with_symlink path target = do
    wrapping "removing %s: %w" (path ∷ []) (call (files.remove_all path))
    wrapping "symlinking %s → %s: %w" (path ∷ target ∷ []) (call (files.symlink target path))

module _ {W : Type 0} (sn : Snapshots W) where
  -- `if err != nil { _ = m.localSn.Remove(ctx, tmpKey); return fmt.Errorf(format, args..., err) }`
  abbrev pub or_remove : {A : Type 0} → Text → String → List Text → Exec W A → Exec W A
  or_remove key format args m s = elim (m s).0 [
    | ok a ↦ (ok a, (m s).1)
    | err e ↦ (err (wrapf format args e), (call (sn.remove key) (m s).1).1)
  ]

module _ {W : Type 0} (m : DedupManager W) where
  unfoldable pub overlayfs_layer_path : Text → Text → Exec W Text
  overlayfs_layer_path ns chain_id = do
    let ovl = m.overlayfs ns
    found ← attempt (call (ovl.stat chain_id))
    elim found [
      | err _ ↦ pure []
      | ok _ ↦ do
        mounts ←
            wrapping "creating probe view for chainID %s: %w" (chain_id ∷ [])
              (call (ovl.view (probe_key chain_id) chain_id []))
        deferring (call (ovl.remove (probe_key chain_id))) (lift (probe_path chain_id mounts))
    ]

  unfoldable pub materialize_reference : Text → Text → Text → Exec W Unit
  materialize_reference chain_id parent ovl_layer_path = do
    let key = tmp_key chain_id
    let sn = m.local_sn
    wrapping "preparing reference snapshot for chainID %s: %w" (chain_id ∷ [])
        (call (sn.prepare key parent []))
    mounts ←
        or_remove sn key "getting local mounts for tmp reference %s: %w" (key ∷ [])
          (call (sn.mounts key))
    path ←
        or_remove sn key "extracting upperdir from local mounts for %s: %w" (key ∷ [])
          (lift (upperdir_from_mounts mounts))
    or_remove sn key "creating symlink %s → %s: %w" (path ∷ ovl_layer_path ∷ [])
        (replace_with_symlink m.files path ovl_layer_path)
    or_remove sn key "committing reference snapshot for chainID %s: %w" (chain_id ∷ [])
        (call (sn.commit chain_id key []))

  unfoldable pub resolve_parent_chain_id : Text → Text → Exec W Text
  resolve_parent_chain_id ns chain_id = do
    info ← call ((m.overlayfs ns).stat chain_id)
    pure info.parent

  -- What statWithLazyMaterialise does under the lock.
  unfoldable pub materialise_locked : Text → Text → Text → Snapshots W → Exec W Info
  materialise_locked ns key ovl_path sn = do
    found ← attempt (call (sn.stat key))
    elim found [
      | ok info ↦ pure info
      | err _ ↦ do
        parent_info ← attempt (resolve_parent_chain_id ns key)
        let parent = parent_or_root parent_info
        wrapping "materialising reference for %s: %w" (key ∷ [])
            (materialize_reference key parent ovl_path)
        call (sn.stat key)
    ]

  -- `ns` is the namespace of the context, "" where it has none.
  unfoldable pub stat_with_lazy_materialise : Text → Text → Snapshots W → Exec W Info
  stat_with_lazy_materialise ns key sn = do
    raise_if (not (is_chain_id key)) (errorf "not a chainID: %s" (key ∷ []))
    ovl_path ←
        wrapping "resolving overlayfs layer path for %s: %w" (key ∷ [])
          (overlayfs_layer_path (or_k8s ns) key)
    raise_if (ovl_path == []) (errorf "chainID %s not found in overlayfs (dedup miss)" (key ∷ []))
    materialise_locked (or_k8s ns) key ovl_path sn
