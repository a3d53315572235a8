-- ===== src/Service/Wiring.antt =====
-- The construction of the daemon's service: RegisterGRPCService of
-- pkg/containerd/snapshotter/service.go, and createNativeOverlaySnapshotter of overlay.go there. Log
-- lines and the registration with the gRPC server are not modelled.
pub mod Released
use pv_snapshotter.Base.{
  ℕ, Bool, true, false, not, Option, none, some, List, [], ◌∷◌, ◌++◌, Text, codes, ◌==◌,
  if◌then◌else◌, Result, ok, err,
}
use pv_snapshotter.Exec.{State, Exec, Call, pure, lift, call, attempt, ◌>>=◌, ◌>>◌}
use pv_snapshotter.Host.{
  Snapshots, LeaseService, Files, ContainerClient, SandboxMetadata, Templates,
}
use pv_snapshotter.Annotation
use pv_snapshotter.Resolver.{Resolver, Data, new_resolver}
use pv_snapshotter.Dedup.{DedupManager}
use pv_snapshotter.Service.{Snapshotter}

-- config of overlay.go.
pub record OverlayConfig : Type 0 where
  pub root_path : Text
  pub upper_dir_label : Bool
  pub sync_remove : Bool
  pub slow_chown : Bool
  pub mount_options : List Text

-- overlay.Opt.
pub data OverlayOpt : Type 0 where
  with_upperdir_label asynchronous_remove with_remap_ids with_slow_chown : OverlayOpt
  with_mount_options : List Text → OverlayOpt

abbrev pub default_root_path : Text
default_root_path = codes "/var/lib/containerd/io.containerd.snapshotter.v1.pv-snapshotter"

-- containerd.Client, with the services that the dedup manager takes from it.
pub record Containerd (W C : Type 0) : Type 0 where
  pub client : ContainerClient W C
  pub overlayfs : Text → Snapshots W
  pub leases_service : Text → LeaseService W

-- What the construction calls: viper, overlayutils, overlay.NewSnapshotter, containerd.New, and the
-- packages that the parts of the service use.
pub record Setup (W C T : Type 0) : Type 0 where
  pub overlay_config : Result OverlayConfig
  pub supports_id_mapped_mounts : Call W Bool
  pub new_snapshotter : Text → List OverlayOpt → Call W (Snapshots W)
  pub new_client : Text → Call W (Containerd W C)
  pub containerd_socket : Text
  pub share_overlayfs_lowers : Bool
  pub annotation_prefix : Text
  pub is_subdomain : Text → List Text
  pub templates : Templates T Data
  pub unmarshal : Text → Result SandboxMetadata
  pub files : Files W
  pub cleaner : Snapshots W → Call W Unit
  pub quote : Text → Text
  pub format_time : ℕ → Text

abbrev pub append_if : Bool → OverlayOpt → List OverlayOpt
append_if test opt = if test then opt ∷ [] else []

abbrev pub is_ok_true : Result Bool → Bool
is_ok_true (ok supported) = supported
is_ok_true (err e) = false

-- opts, with the answer about id-mapped mounts.
unfoldable pub overlay_options : OverlayConfig → Result Bool → List OverlayOpt
overlay_options cfg supported =
    append_if cfg.upper_dir_label with_upperdir_label
    ++ (append_if (not cfg.sync_remove) asynchronous_remove
        ++ ((elim cfg.mount_options [ [] ↦ [] | o ∷ os ↦ with_mount_options (o ∷ os) ∷ [] ])
            ++ (append_if (is_ok_true supported) with_remap_ids
                ++ append_if cfg.slow_chown with_slow_chown)))

abbrev pub or_default : Text → Text
or_default [] = default_root_path
or_default (c ∷ path) = c ∷ path

module _ {W : Type 0} where
  -- The deferred loop over closers, whose errors are only logged; the map's order is the list's.
  unfoldable pub close_all : List (Call W Unit) → Exec W Unit
  close_all [] = pure tt
  close_all (closer ∷ closers) = do attempt (call closer); close_all closers

  -- A step after which the deferred function runs, if the step fails.
  unfoldable pub or_close : {A : Type 0} → List (Call W Unit) → Exec W A → Exec W A
  or_close closers m s = elim (m s).0 [
    | ok a ↦ (ok a, (m s).1)
    | err e ↦ (err e, (close_all closers (m s).1).1)
  ]

module _ {W C T : Type 0} (setup : Setup W C T) where
  unfoldable pub create_native_overlay_snapshotter : Exec W (Snapshots W)
  create_native_overlay_snapshotter = do
    cfg ← lift setup.overlay_config
    supported ← attempt (call setup.supports_id_mapped_mounts)
    call (setup.new_snapshotter (or_default cfg.root_path) (overlay_options cfg supported))

  -- newResolver, with the prefix that it resolves.
  unfoldable pub make_resolver : ContainerClient W C → Result (Resolver W C T)
  make_resolver client =
      elim (Annotation.resolve_prefix setup.is_subdomain setup.annotation_prefix) [
        | err e ↦ err e
        | ok prefix ↦ ok (new_resolver client setup.templates setup.unmarshal prefix)
      ]

  unfoldable pub make_dedup : Containerd W C → Snapshots W → Option (DedupManager W)
  make_dedup client sn =
      if setup.share_overlayfs_lowers
      then some (record {
        overlayfs = client.overlayfs;
        leases_service = client.leases_service;
        local_sn = sn;
        files = setup.files;
        quote = setup.quote;
      })
      else none

  -- ss, and its wrapper for the method Cleanup.
  abbrev pub service_of : Containerd W C → Snapshots W → Resolver W C T → Snapshotter W C T
  service_of client sn res = record {
    sn = sn;
    resolver = res;
    dedup = make_dedup client sn;
    files = setup.files;
    cleaner = setup.cleaner sn;
    format_time = setup.format_time;
  }

  unfoldable pub register_grpc_service : Exec W (Snapshotter W C T)
  register_grpc_service = do
    sn ← create_native_overlay_snapshotter
    client ← or_close (sn.close ∷ []) (call (setup.new_client setup.containerd_socket))
    res ← or_close (client.client.close ∷ sn.close ∷ []) (lift (make_resolver client.client))
    pure (service_of client sn res)
