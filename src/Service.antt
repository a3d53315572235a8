-- ===== src/Service.antt =====
-- The gRPC snapshotter and the HTTP handlers of pkg/containerd/snapshotter/service.go. Log lines
-- are not modelled; the proofs are in the modules below.
pub mod Mounting
pub mod Dedup
pub mod Gauge
pub mod Blocked
pub mod Wiring
use pv_snapshotter.Base.{
  ℕ, String, not, ◌&&◌, Option, none, some, List, [], ◌∷◌, map, Text, Error, Result, ok, err, panic,
  if◌then◌else◌,
}
use pv_snapshotter.Exec.{Call, Exec, pure, raise, lift, call, attempt, ◌>>=◌, ◌>>◌}
use pv_snapshotter.Host.{Mount, Info, Usage, Opt, Snapshots, Lease, Files}
use pv_snapshotter.Key.{parse_snapshot_key, is_chain_id}
use pv_snapshotter.Mounts.{replace_upperdir_options, ensure_upperdir_ready}
use pv_snapshotter.Resolver.{Resolver, resolve_at_mounts_time}
use pv_snapshotter.Dedup.{DedupManager, k8s_namespace}
use pv_snapshotter.Dedup.Reference.{stat_with_lazy_materialise}
use pv_snapshotter.Dedup.Leases.{
  pin_layer, unpin_by_active_key, list_managed_leases, delete_lease, count_orphan_leases,
  gc_orphan_leases,
}

-- snapshotter. `dedup` is nil unless --share-overlayfs-lowers is set; `files` is package os and
-- `cleaner` the method of snapshots.Cleaner that cleanerSnapshotter calls.
pub record Snapshotter (W C T : Type 0) : Type 0 where
  pub sn : Snapshots W
  pub resolver : Resolver W C T
  pub dedup : Option (DedupManager W)
  pub files : Files W
  pub cleaner : Call W Unit
  -- The field CreatedAt in the layout of handleListLeases.
  pub format_time : ℕ → Text

pub record LeaseEntry : Type 0 where
  pub id : Text
  pub created_at : Text
  pub labels : List (Text × Text)

pub data Body : Type 0 where
  message : String → Body
  failure : Error → Body
  lease_list : List LeaseEntry → Body
  deleted : ℕ → Body
  no_content : Body

pub record Response : Type 0 where
  pub status : ℕ
  pub body : Body

abbrev pub not_enabled : Response
not_enabled = record {
  status = 501;
  body = message "dedup not enabled (--share-overlayfs-lowers=false)";
}

-- The path of an upperdir, "" where it could not be resolved.
abbrev pub or_native : Result Text → Text
or_native (ok path) = path
or_native (err _) = []

-- mounts[0] is read for a log line, at every log level.
abbrev pub first_read : List Mount → Result (List Mount)
first_read [] = err (panic "index out of range")
first_read (m ∷ ms) = ok (m ∷ ms)

module _ {W C T : Type 0} (s : Snapshotter W C T) where
  -- `ns` is the namespace of the call's context.
  unfoldable pub stat : Text → Text → Exec W Info
  stat ns key = do
    found ← attempt (call (s.sn.stat key))
    elim found [
      | ok info ↦ pure info
      | err e ↦ elim s.dedup [ none ↦ raise e | some d ↦ stat_with_lazy_materialise d ns key s.sn ]
    ]

  unfoldable pub redirect_mounts : List Mount → Text → Exec W (List Mount)
  redirect_mounts ms [] = pure ms
  redirect_mounts ms (c ∷ path) = do
    ensure_upperdir_ready s.files (c ∷ path)
    lift (first_read (replace_upperdir_options ms (c ∷ path)))

  unfoldable pub mounts : Text → Exec W (List Mount)
  mounts key = do
    ms ← call (s.sn.mounts key)
    resolved ← attempt (resolve_at_mounts_time s.resolver key)
    redirect_mounts ms (or_native resolved)

  -- What Prepare does after the native snapshotter's Prepare, whose result it does not read.
  unfoldable pub pin_parent : Text → Text → Exec W Unit
  pin_parent key parent = elim s.dedup [
    | none ↦ pure tt
    | some d ↦ elim (parse_snapshot_key key) [
      | none ↦ pure tt
      | some (ns, active_id) ↦ elim (parse_snapshot_key parent) [
        | none ↦ pure tt
        | some (_, chain_id) ↦
            if not (is_chain_id active_id) && is_chain_id chain_id
            then attempt (pin_layer d ns chain_id key) >>= (λ _. pure tt)
            else pure tt
      ]
    ]
  ]

  unfoldable pub prepare : Text → Text → List Opt → Exec W (List Mount)
  prepare key parent opts = do
    prepared ← attempt (call (s.sn.prepare key parent opts))
    pin_parent key parent
    lift prepared

  unfoldable pub unpin_key : Text → Exec W Unit
  unpin_key key = elim s.dedup [
    | none ↦ pure tt
    | some d ↦ elim (parse_snapshot_key key) [
      | none ↦ pure tt
      | some (ns, _) ↦ unpin_by_active_key d ns key
    ]
  ]

  unfoldable pub remove : Text → Exec W Unit
  remove key = do removed ← attempt (call (s.sn.remove key)); unpin_key key; lift removed

  unfoldable pub update : Info → List Text → Exec W Info
  update info fieldpaths = call (s.sn.update info fieldpaths)

  unfoldable pub usage : Text → Exec W Usage
  usage key = call (s.sn.usage key)

  unfoldable pub view : Text → Text → List Opt → Exec W (List Mount)
  view key parent opts = call (s.sn.view key parent opts)

  unfoldable pub commit : Text → Text → List Opt → Exec W Unit
  commit name key opts = call (s.sn.commit name key opts)

  unfoldable pub walk : (Info → Call W Unit) → List Text → Exec W Unit
  walk fn filters = call (s.sn.walk fn filters)

  -- The client's error is overwritten by the snapshotter's result.
  unfoldable pub close : Exec W Unit
  close = do attempt (call s.resolver.client.close); call s.sn.close

  unfoldable pub cleanup : Exec W Unit
  cleanup = call s.cleaner

  unfoldable pub register_scrape_hook : Exec W Unit
  register_scrape_hook = elim s.dedup [
    | none ↦ pure tt
    | some d ↦ do count ← count_orphan_leases d k8s_namespace; set_orphan_leases count
  ]
    where
      set_orphan_leases : ℕ → Exec W Unit
      set_orphan_leases n t = (ok tt, record t { orphan_leases = n })

  abbrev pub entry_of : Lease → LeaseEntry
  entry_of l = record { id = l.id; created_at = s.format_time l.created_at; labels = l.labels }

  unfoldable pub handle_list_leases : Exec W Response
  handle_list_leases = elim s.dedup [
    | none ↦ pure not_enabled
    | some d ↦ do
      listed ← attempt (list_managed_leases d k8s_namespace)
      elim listed [
        | err e ↦ pure (record { status = 500; body = failure e })
        | ok all ↦ pure (record { status = 200; body = lease_list (map entry_of all) })
      ]
  ]

  unfoldable pub handle_delete_lease : Text → Exec W Response
  handle_delete_lease lease_id = elim s.dedup [
    | none ↦ pure not_enabled
    | some d ↦ elim lease_id [
      | [] ↦ pure (record { status = 400; body = message "leaseID is required" })
      | c ∷ id ↦ do
        result ← attempt (delete_lease d k8s_namespace (c ∷ id))
        elim result [
          | err e ↦ pure (record { status = 500; body = failure e })
          | ok _ ↦ pure (record { status = 204; body = no_content })
        ]
    ]
  ]

  unfoldable pub handle_gc_leases : Exec W Response
  handle_gc_leases = elim s.dedup [
    | none ↦ pure not_enabled
    | some d ↦ do
      n ← gc_orphan_leases d k8s_namespace
      pure (record { status = 200; body = deleted n })
  ]
