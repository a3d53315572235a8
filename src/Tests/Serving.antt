-- ===== src/Tests/Serving.antt =====
-- The snapshotter's operations on the small daemon.
use pv_snapshotter.Base.{
  ◌≡◌, refl, ◌⊎◌, inl, false, none, some, ok, err, Error, host, not_found, errorf, panic,
  is_not_found, [], ◌∷◌, ◌++◌, Text, codes, ◌==◌, cut_prefix, has_prefix, cut, split_n, contains,
  lookup,
}
use pv_snapshotter.Exec.{call}
use pv_snapshotter.Key.{parse_snapshot_key, key_of_parts}
use pv_snapshotter.Mounts.{
  replace_upperdir_options, ensure_upperdir_ready, make_dirs, parent_of, trim_right, cut_last,
}
use pv_snapshotter.Resolver.{
  resolve_at_mounts_time, upperdir_of_kind, upperdir_from_sandbox_id,
  upperdir_from_sandbox_container, upperdir_from_metadata, upperdir_from_config,
}
use pv_snapshotter.Dedup.{DedupManager}
use pv_snapshotter.Dedup.Leases.{pin_layer}
use pv_snapshotter.Service.{redirect_mounts, Snapshotter, stat, prepare, remove, mounts}
use pv_snapshotter.Service.Dedup.{NeedsPin, unpinned, stat_miss, prepare_cases, remove_cases}
use pv_snapshotter.Service.Mounting.{MountsOutcome, mounts_cases}
use pv_snapshotter.Tests.World.{World, state, files, snapshots, manager, alive_key}
use pv_snapshotter.Tests.Daemon.{daemon}

abbrev pub workload_key : Text
workload_key = codes "k8s.io/7/abc"

abbrev pub chain_id : Text
chain_id = codes "sha256:0123456789abcdef0123456789abcdef0123456789abcdef0123456789abcdef"

abbrev pub layer_key : Text
layer_key = codes "k8s.io/3/" ++ chain_id

-- No path of this disk is a mountpoint.
abbrev unmounted : Snapshotter World Text Text
unmounted = record daemon { files = record files { device = λ path w. (ok 1, w) } }

-- The native snapshotter answers with no mounts.
abbrev mountless : Snapshotter World Text Text
mountless = record daemon { sn = record snapshots { mounts = λ key w. (ok [], w) } }

abbrev not_mounted : Error
not_mounted =
    errorf "upperdir root %q is not a mountpoint (CSI volume not yet mounted)" (codes "/vol" ∷ [])

routed : (resolve_at_mounts_time unmounted.resolver workload_key (state [])).0 ≡ ok (codes "/vol")
unfolding resolve_at_mounts_time upperdir_of_kind upperdir_from_sandbox_id
    upperdir_from_sandbox_container upperdir_from_metadata upperdir_from_config parse_snapshot_key
    key_of_parts split_n cut contains has_prefix cut_prefix lookup ◌==◌
routed = refl

refused : (ensure_upperdir_ready unmounted.files (codes "/vol") (state [])).0 ≡ err not_mounted
unfolding ensure_upperdir_ready make_dirs parent_of trim_right cut_last ◌==◌
refused = refl

-- The native snapshotter has no mounts for the key of a workload whose volume is ready.
no_mounts : (mounts mountless workload_key (state [])).0 ≡ err (panic "index out of range")
unfolding mounts redirect_mounts replace_upperdir_options ensure_upperdir_ready make_dirs parent_of
    trim_right cut_last resolve_at_mounts_time upperdir_of_kind upperdir_from_sandbox_id
    upperdir_from_sandbox_container upperdir_from_metadata upperdir_from_config parse_snapshot_key
    key_of_parts split_n cut contains has_prefix cut_prefix lookup ◌==◌
no_mounts = refl

mounts_cases_example : MountsOutcome mountless workload_key (state [])
mounts_cases_example = mounts_cases mountless workload_key (state [])

prepare_cases_example :
    ((p : NeedsPin daemon workload_key layer_key) × (prepare daemon workload_key layer_key []
          (state [])
        ≡ (
          (call (snapshots.prepare workload_key layer_key []) (state [])).0,
          (pin_layer p.manager p.ns p.chain_id workload_key
              (call (snapshots.prepare workload_key layer_key []) (state [])).1).1,
        )))
    ⊎ (¬ NeedsPin daemon workload_key layer_key
        × (prepare daemon workload_key layer_key [] (state [])
            ≡ call (snapshots.prepare workload_key layer_key []) (state [])))
prepare_cases_example = prepare_cases daemon workload_key layer_key [] (state [])

remove_cases_example :
    ((d : DedupManager World) × (ns : Text) × (id : Text) × (some manager ≡ some d)
      × (parse_snapshot_key alive_key ≡ some (ns, id))
      × (remove daemon alive_key (state (alive_key ∷ []))
          ≡ (err (host (codes "busy")), unpinned daemon d ns alive_key (state (alive_key ∷ [])))))
    ⊎ (((some manager ≡ none) ⊎ (parse_snapshot_key alive_key ≡ none))
        × (remove daemon alive_key (state (alive_key ∷ []))
            ≡ (err (host (codes "busy")), state (alive_key ∷ []))))
remove_cases_example = remove_cases daemon alive_key (state (alive_key ∷ []))

wrapped : parse_snapshot_key layer_key ≡ some (codes "k8s.io", chain_id)
unfolding parse_snapshot_key key_of_parts split_n cut contains has_prefix cut_prefix ◌==◌
wrapped = refl

native_miss : (call (snapshots.stat layer_key) (state [])).0 ≡ err (not_found layer_key)
unfolding ◌==◌
native_miss = refl

stat_miss_example :
    (y : Error) × ((stat daemon [] layer_key (state [])).0 ≡ err y) × (is_not_found y ≡ false)
stat_miss_example =
    stat_miss daemon manager refl [] layer_key (state []) (not_found layer_key) native_miss
      (inl (codes "k8s.io", chain_id, wrapped))
