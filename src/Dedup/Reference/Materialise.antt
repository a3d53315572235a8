-- ===== src/Dedup/Reference/Materialise.antt =====
-- What materializeReference has done when it returns, with and without an error.
use pv_snapshotter.Base.{
  ◌≡◌, ◌⊎◌, ◌↔◌, inl, inr, List, [], Text, arith, Error, Result, ok, err, Result-cases,
}
use pv_snapshotter.Exec.{State, call}
use pv_snapshotter.Exec.Laws.{Returns}
use pv_snapshotter.Host.{Mount}
use pv_snapshotter.Mounts.{upperdir_from_mounts}
use pv_snapshotter.Dedup.Defs.{DedupManager}
use pv_snapshotter.Dedup.Reference.{tmp_key, replace_with_symlink, materialize_reference}

module _ {W : Type 0} (m : DedupManager W) (chain_id parent target : Text) where
  abbrev key : Text
  key = tmp_key chain_id

  -- The calls of a successful run, in their order.
  pub record IsMaterialised (s t : State W) : Type 0 where
    pub prepared : List Mount
    pub ms : List Mount
    pub path : Text
    pub after_prepare : State W
    pub after_mounts : State W
    pub after_removal : State W
    pub after_link : State W
    pub is_prepared : Returns (call (m.local_sn.prepare key parent [])) s prepared after_prepare
    pub has_mounts : Returns (call (m.local_sn.mounts key)) after_prepare ms after_mounts
    pub has_upperdir : upperdir_from_mounts ms ≡ ok path
    pub is_removed : Returns (call (m.files.remove_all path)) after_mounts tt after_removal
    pub is_linked : Returns (call (m.files.symlink target path)) after_removal tt after_link
    pub is_committed : Returns (call (m.local_sn.commit chain_id key [])) after_link tt t

  module _ (s : State W) where
    abbrev preparing : Result (List Mount) × State W
    preparing = call (m.local_sn.prepare key parent []) s

    abbrev mounting : Result (List Mount) × State W
    mounting = call (m.local_sn.mounts key) preparing.1

    abbrev removing : Text → Result (Unit {0}) × State W
    removing path = call (m.files.remove_all path) mounting.1

    abbrev linking : Text → Result (Unit {0}) × State W
    linking path = call (m.files.symlink target path) (removing path).1

    abbrev committing : Text → Result (Unit {0}) × State W
    committing path = call (m.local_sn.commit chain_id key []) (linking path).1

    materialize_sound :
        (t : State W)
        → Returns (materialize_reference m chain_id parent target) s tt t
        → IsMaterialised s t
    unfolding materialize_reference replace_with_symlink
    materialize_sound t h = elim (Result-cases preparing.0) [
      | inr (_, e) ↦ absurd (ground arith)
      | inl (prepared, e) ↦ elim (Result-cases mounting.0) [
        | inr (_, f) ↦ absurd (ground arith)
        | inl (ms, f) ↦ elim (Result-cases (upperdir_from_mounts ms)) [
          | inr (_, g) ↦ absurd (ground arith)
          | inl (path, g) ↦ record {
            prepared = prepared;
            ms = ms;
            path = path;
            after_prepare = preparing.1;
            after_mounts = mounting.1;
            after_removal = (removing path).1;
            after_link = (linking path).1;
            is_prepared = ground arith;
            has_mounts = ground arith;
            has_upperdir = g;
            is_removed = ground arith;
            is_linked = ground arith;
            is_committed = ground arith;
          }
        ]
      ]
    ]

    materialize_complete :
        (t : State W)
        → IsMaterialised s t
        → Returns (materialize_reference m chain_id parent target) s tt t
    unfolding materialize_reference replace_with_symlink
    materialize_complete t r = ground arith

  -- materializeReference returns without an error exactly when it prepared the temporary snapshot
  -- on the given parent, found the upperdir in its mounts, replaced that directory by a symbolic
  -- link to the layer's directory and committed the snapshot under the chain ID, in this order and
  -- with no other call.
  pub materialize_reference-IsMaterialised :
      (s t : State W)
      → Returns (materialize_reference m chain_id parent target) s tt t ↔ IsMaterialised s t
  materialize_reference-IsMaterialised s t = (materialize_sound s t, materialize_complete s t)

  -- The last call of a run that failed.
  abbrev Discarded : State W → State W → Type 0
  Discarded s t =
      (t ≡ (call (m.local_sn.prepare key parent []) s).1)
      ⊎ ((u : State W) × (t ≡ (call (m.local_sn.remove key) u).1))

  -- Where materializeReference fails, its last call removes the temporary snapshot, unless it was
  -- the call of Prepare that failed, which is then the only one.
  materialize_reference-Discarded :
      (s : State W) (x : Error)
      → (materialize_reference m chain_id parent target s).0 ≡ err x
      → Discarded s (materialize_reference m chain_id parent target s).1
  unfolding materialize_reference replace_with_symlink
  materialize_reference-Discarded s x h = elim (Result-cases (preparing s).0) [
    | inr (_, e) ↦ inl (ground arith)
    | inl (prepared, e) ↦ elim (Result-cases (mounting s).0) [
      | inr (_, f) ↦ inr ((mounting s).1, ground arith)
      | inl (ms, f) ↦ elim (Result-cases (upperdir_from_mounts ms)) [
        | inr (_, g) ↦ inr ((mounting s).1, ground arith)
        | inl (path, g) ↦ elim (Result-cases (removing s path).0) [
          | inr (_, k) ↦ inr ((removing s path).1, ground arith)
          | inl (_, k) ↦ elim (Result-cases (linking s path).0) [
            | inr (_, l) ↦ inr ((linking s path).1, ground arith)
            | inl (_, l) ↦ inr ((committing s path).1, ground arith)
          ]
        ]
      ]
    ]
  ]
