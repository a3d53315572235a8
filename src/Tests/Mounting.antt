-- ===== src/Tests/Mounting.antt =====
-- Mounts of the small daemon.
use pv_snapshotter.Base.{
  ◌≡◌, refl, ◌↔◌, ◌⊎◌, List, [], ◌∷◌, Text, codes, ◌==◌, err, errorf, lookup, has_prefix,
  cut_prefix, cut, split_n, contains,
}
use pv_snapshotter.Exec.Laws.{Returns}
use pv_snapshotter.Host.{Mount}
use pv_snapshotter.Key.{parse_snapshot_key, key_of_parts}
use pv_snapshotter.Mounts.{
  ensure_upperdir_ready, make_dirs, parent_of, trim_right, cut_last, replace_upperdir_options,
  redirect,
}
use pv_snapshotter.Mounts.Ready.{IsReady, ensure_upperdir_ready-IsReady}
use pv_snapshotter.Resolver.{
  resolve_at_mounts_time, upperdir_of_kind, upperdir_from_sandbox_id,
  upperdir_from_sandbox_container, upperdir_from_metadata, upperdir_from_config,
}
use pv_snapshotter.Resolver.Routing.{IsRouted, resolve_at_mounts_time-IsRouted}
use pv_snapshotter.Service.{mounts, redirect_mounts}
use pv_snapshotter.Service.Mounting.{IsPassedThrough, IsRedirectedTo, mounts_safe}
use pv_snapshotter.Tests.World.{state, files, native_mount}
use pv_snapshotter.Tests.Daemon.{daemon, resolver}

abbrev workload_key : Text
workload_key = codes "k8s.io/7/abc"

abbrev redirected : List Mount
redirected =
    record native_mount {
      options =
          codes "index=off"
          ∷ codes "workdir=/vol/work"
          ∷ codes "upperdir=/vol/upper"
          ∷ codes "lowerdir=/a:/b"
          ∷ [];
    }
    ∷ []

ready : Returns (ensure_upperdir_ready files (codes "/vol")) (state []) tt (state [])
unfolding ensure_upperdir_ready make_dirs parent_of trim_right cut_last ◌==◌
ready = refl

not_mounted :
    (ensure_upperdir_ready files (codes "/tmp") (state [])).0
    ≡ err (
        errorf "upperdir root %q is not a mountpoint (CSI volume not yet mounted)"
          (codes "/tmp" ∷ []))
unfolding ensure_upperdir_ready make_dirs parent_of trim_right cut_last ◌==◌
not_mounted = refl

ensure_upperdir_ready-IsReady_example :
    Returns (ensure_upperdir_ready files (codes "/vol")) (state []) tt (state [])
    ↔ IsReady files (codes "/vol") (state []) (state [])
ensure_upperdir_ready-IsReady_example =
    ensure_upperdir_ready-IsReady files (codes "/vol") (state []) (state [])

routed : Returns (resolve_at_mounts_time resolver workload_key) (state []) (codes "/vol") (state [])
unfolding resolve_at_mounts_time upperdir_of_kind upperdir_from_sandbox_id
    upperdir_from_sandbox_container upperdir_from_metadata upperdir_from_config parse_snapshot_key
    key_of_parts split_n cut contains has_prefix cut_prefix lookup ◌==◌
routed = refl

resolve_at_mounts_time-IsRouted_example :
    Returns (resolve_at_mounts_time resolver workload_key) (state []) (codes "/vol") (state [])
    ↔ IsRouted resolver workload_key (codes "/vol") (state []) (state [])
resolve_at_mounts_time-IsRouted_example =
    resolve_at_mounts_time-IsRouted resolver workload_key (codes "/vol") (state []) (state [])
      (λ e. cc)

mounted : Returns (mounts daemon workload_key) (state []) redirected (state [])
unfolding mounts redirect_mounts resolve_at_mounts_time upperdir_of_kind upperdir_from_sandbox_id
    upperdir_from_sandbox_container upperdir_from_metadata upperdir_from_config parse_snapshot_key
    key_of_parts split_n cut contains has_prefix cut_prefix lookup ◌==◌ ensure_upperdir_ready
    make_dirs parent_of trim_right cut_last replace_upperdir_options redirect
mounted = refl

mounts_safe_example :
    IsPassedThrough daemon workload_key (state []) redirected (state [])
    ⊎ ((path : Text) × IsRedirectedTo daemon workload_key (state []) redirected path (state []))
mounts_safe_example = mounts_safe daemon workload_key (state []) redirected (state []) mounted
