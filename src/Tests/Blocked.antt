-- ===== src/Tests/Blocked.antt =====
-- Two snapshotters that keep the keys of their snapshots, and a probe view that was left behind.
use pv_snapshotter.Base.{
  ◌≡◌, ◌≢◌, refl, sym, inl, inr, Bool, not, some, List, [], ◌∷◌, Text, any, filter, codes, cut,
  cut_prefix, ◌==◌, eq_ne, Bool-cases, if◌then◌else◌, Error, host, not_found, ok, err,
}
use pv_snapshotter.Base.Int.{pos}
use pv_snapshotter.Exec.{State}
use pv_snapshotter.Host.{Snapshots, LeaseService}
use pv_snapshotter.Key.{is_chain_id, is_digest}
use pv_snapshotter.Mounts.{layer_path_from_mounts, find_option, upperdir_from_mounts}
use pv_snapshotter.Dedup.{DedupManager, k8s_namespace}
use pv_snapshotter.Dedup.Reference.{
  probe_key, stat_with_lazy_materialise, overlayfs_layer_path, probe_path, materialise_locked,
  materialize_reference, resolve_parent_chain_id, replace_with_symlink,
}
use pv_snapshotter.Dedup.Reference.Blocked.{IsKeyed, IsBlocked}
use pv_snapshotter.Service.{Snapshotter, stat}
use pv_snapshotter.Service.Blocked.{IsShared, stat-IsBlocked}
use pv_snapshotter.Tests.World.{snapshots, files, info_of, native_mount}
use pv_snapshotter.Tests.Daemon.{daemon_with}
use pv_snapshotter.Tests.Serving.{chain_id}

abbrev Keys : Type 0
Keys = List Text

-- The keys of the host's snapshotter and those of the daemon's.
pub record Disks : Type 0 where
  pub on_host : Keys
  pub on_local : Keys

abbrev holds : Text → Keys → Bool
holds key = any (λ k. k == key)

abbrev exists : Error
exists = host (codes "already exists")

abbrev keyed_snapshots : (Disks → Keys) → (Keys → Disks → Disks) → Snapshots Disks
keyed_snapshots keys put = record snapshots {
  stat = λ key w. (if holds key (keys w) then ok (info_of key) else err (not_found key), w);
  prepare = λ key parent opts w. (
    if holds key (keys w) then err exists else ok (native_mount ∷ []),
    put (if holds key (keys w) then keys w else key ∷ keys w) w,
  );
  view = λ key parent opts w. (
    if holds key (keys w) then err exists else ok (native_mount ∷ []),
    put (if holds key (keys w) then keys w else key ∷ keys w) w,
  );
  commit = λ name key opts w. (ok tt, put (name ∷ filter (λ k. not (k == key)) (keys w)) w);
  remove = λ key w. (ok tt, put (filter (λ k. not (k == key)) (keys w)) w);
}

abbrev pub host_disk : Snapshots Disks
host_disk = keyed_snapshots (λ w. w.on_host) (λ ks w. record w { on_host = ks })

abbrev pub local_disk : Snapshots Disks
local_disk = keyed_snapshots (λ w. w.on_local) (λ ks w. record w { on_local = ks })

abbrev pub disk_manager : DedupManager Disks
disk_manager = record {
  overlayfs = λ ns. host_disk;
  leases_service = λ ns. idle_leases;
  local_sn = local_disk;
  files = files;
  quote = λ t. t;
}
  where
    idle_leases : LeaseService Disks
    idle_leases = record {
      create = λ labels w. (err exists, w);
      add_resource = λ l r w. (ok tt, w);
      list = λ query w. (ok [], w);
      delete = λ id w. (ok tt, w);
    }

abbrev disk_daemon : Snapshotter Disks Text Text
disk_daemon = record (daemon_with (some disk_manager)) { sn = local_disk }

abbrev pub host_taken : Text → Disks → Bool
host_taken key w = holds key w.on_host

abbrev pub local_taken : Text → Disks → Bool
local_taken key w = holds key w.on_local

abbrev with_key : Text → Keys → Keys
with_key key ks = if holds key ks then ks else key ∷ ks

holds_other : (k key : Text) (ks : Keys) → k ≢ key → holds k (with_key key ks) ≡ holds k ks
holds_other k key ks n = elim (Bool-cases (holds key ks)) [
  | inl e ↦ rw e refl
  | inr e ↦ rw (e, eq_ne key k (λ f. n (sym f))) refl
]

host_laws : IsKeyed host_disk host_taken
host_laws = record {
  stat_missing = λ key w e. (not_found key, rw e refl);
  view_taken = λ key parent opts w e. (exists, rw e refl, rw e e);
  prepare_taken = λ key parent opts w e. (exists, rw e refl, rw e e);
  stat_keys = λ k key w. refl;
  prepare_keys = λ k key parent opts w n. holds_other k key w.on_host n;
}

pub local_laws : IsKeyed local_disk local_taken
local_laws = record {
  stat_missing = λ key w e. (not_found key, rw e refl);
  view_taken = λ key parent opts w e. (exists, rw e refl, rw e e);
  prepare_taken = λ key parent opts w e. (exists, rw e refl, rw e e);
  stat_keys = λ k key w. refl;
  prepare_keys = λ k key parent opts w n. holds_other k key w.on_local n;
}

pub shared : IsShared disk_daemon disk_manager k8s_namespace host_taken local_taken
shared = record {
  enabled = refl;
  same = refl;
  host = host_laws;
  keyed = local_laws;
  host_apart = record {
    stat_apart = λ k key w. refl;
    view_apart = λ k key parent opts w. refl;
    remove_apart = λ k key w. refl;
  };
  apart = record {
    stat_apart = λ k key w. refl;
    view_apart = λ k key parent opts w. refl;
    remove_apart = λ k key w. refl;
  };
}

abbrev left_behind : State Disks
left_behind = record {
  world = record { on_host = chain_id ∷ probe_key chain_id ∷ []; on_local = [] };
  pinned_snapshots = pos 0;
  unpin_failures = 0;
  orphan_leases = 0;
}

probe_left : IsBlocked host_taken local_taken chain_id left_behind.world
unfolding ◌==◌
probe_left = (refl, inl refl)

stat-IsBlocked_example :
    (x : Error) × ((stat disk_daemon k8s_namespace chain_id left_behind).0 ≡ err x)
    × IsBlocked host_taken local_taken chain_id
        (stat disk_daemon k8s_namespace chain_id left_behind).1.world
stat-IsBlocked_example =
    stat-IsBlocked disk_daemon disk_manager k8s_namespace host_taken local_taken chain_id
      left_behind shared probe_left

-- Without the probe view, the same Stat makes the reference.
abbrev pub nothing_left : State Disks
nothing_left = record left_behind { world = record { on_host = chain_id ∷ []; on_local = [] } }

materialised : (stat disk_daemon k8s_namespace chain_id nothing_left).0 ≡ ok (info_of chain_id)
unfolding stat stat_with_lazy_materialise is_chain_id cut_prefix is_digest overlayfs_layer_path ◌==◌
    probe_path layer_path_from_mounts find_option cut materialise_locked materialize_reference
    resolve_parent_chain_id upperdir_from_mounts replace_with_symlink
materialised = refl
