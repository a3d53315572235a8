-- ===== src/Dedup/Defs.antt =====
-- What dedupManager holds, in pkg/containerd/snapshotter/dedup.go.
use pv_snapshotter.Base.{Text, codes}
use pv_snapshotter.Host.{Snapshots, LeaseService, Files}

abbrev pub k8s_namespace : Text
k8s_namespace = codes "k8s.io"

-- The client's services take the namespace of the context; `quote` is the verb %q of package fmt.
pub record DedupManager (W : Type 0) : Type 0 where
  pub overlayfs : Text → Snapshots W
  pub leases_service : Text → LeaseService W
  pub local_sn : Snapshots W
  pub files : Files W
  pub quote : Text → Text
