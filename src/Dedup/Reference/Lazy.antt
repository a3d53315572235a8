-- ===== src/Dedup/Reference/Lazy.antt =====
-- The probe of the host's layers, and the lazy Stat.
use pv_snapshotter.Base.{
  ◌≡◌, refl, ◌⊎◌, inl, inr, false, List, [], ◌∷◌, Text, arith, Error, Result, ok, err, wrapf,
  errorf, is_not_found, Result-cases, Bool-cases, eq_refl,
}
use pv_snapshotter.Exec.{State, call}
use pv_snapshotter.Host.{Mount, Info, Snapshots}
use pv_snapshotter.Key.{is_chain_id}
use pv_snapshotter.Dedup.Defs.{DedupManager}
use pv_snapshotter.Dedup.Reference.{
  probe_key, probe_path, overlayfs_layer_path, or_k8s, stat_with_lazy_materialise,
}

module _ {W : Type 0} (m : DedupManager W) (ns chain_id : Text) (s : State W) where
  abbrev found : Result Info × State W
  found = call ((m.overlayfs ns).stat chain_id) s

  abbrev viewing : Result (List Mount) × State W
  viewing = call ((m.overlayfs ns).view (probe_key chain_id) chain_id []) found.1

  abbrev removed : Result (Unit {0}) × State W
  removed = call ((m.overlayfs ns).remove (probe_key chain_id)) viewing.1

  -- The layer is not there; the view is refused; or the view is made, read and removed.
  abbrev pub ProbeCases : Result Text × State W → Type 0
  ProbeCases r =
      ((x : Error) × (found.0 ≡ err x) × (r ≡ (ok [], found.1)))
      ⊎ ((i : Info) × (x : Error) × (y : Error) × (found.0 ≡ ok i)
          × (viewing.0 ≡ err x)
          × (r ≡ (err y, viewing.1)))
      ⊎ ((i : Info) × (ms : List Mount) × (found.0 ≡ ok i)
          × (viewing.0 ≡ ok ms)
          × (r ≡ (probe_path chain_id ms, removed.1)))

  -- overlayfsLayerPath makes no view of a chain ID that the host's snapshotter does not have, and
  -- returns "" for it; a view that it made it removes in its last call, whatever it read from it,
  -- also where reading fails or the removal itself does.
  pub overlayfs_layer_path_cases : ProbeCases (overlayfs_layer_path m ns chain_id s)
  unfolding overlayfs_layer_path
  overlayfs_layer_path_cases = elim (Result-cases found.0) [
    | inr (x, e) ↦ inl (x, e, ground arith)
    | inl (i, e) ↦ elim (Result-cases viewing.0) [
      | inr (x, f) ↦ inr (
          inl (
            i,
            x,
            wrapf "creating probe view for chainID %s: %w" (chain_id ∷ []) x,
            e,
            f,
            ground arith,
          ))
      | inl (ms, f) ↦ inr (inr (i, ms, e, f, ground arith))
    ]
  ]

module _ {W : Type 0} (m : DedupManager W) (ns key : Text) (sn : Snapshots W) (s : State W) where
  -- A key that is no chain ID, or is not among the host's layers, gets an error that is not of the
  -- class ErrNotFound, and no snapshot is materialised for it.
  pub stat_with_lazy_materialise_miss :
      (is_chain_id key ≡ false) ⊎ ((overlayfs_layer_path m (or_k8s ns) key s).0 ≡ ok [])
      → (x : Error) × ((stat_with_lazy_materialise m ns key sn s).0 ≡ err x)
        × (is_not_found x ≡ false)
  unfolding stat_with_lazy_materialise is_not_found
  stat_with_lazy_materialise_miss (inl h) =
      (errorf "not a chainID: %s" (key ∷ []), ground arith, refl)
  stat_with_lazy_materialise_miss (inr h) = elim (Bool-cases (is_chain_id key)) [
    | inr e ↦ (errorf "not a chainID: %s" (key ∷ []), ground arith, refl)
    | inl e ↦ (
      errorf "chainID %s not found in overlayfs (dedup miss)" (key ∷ []),
      ground (arith, eq_refl []),
      refl,
    )
  ]
