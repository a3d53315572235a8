-- ===== src/Dedup.antt =====
-- The dedup manager, pkg/containerd/snapshotter/dedup.go: reference snapshots that share the layers
-- of the host's overlayfs snapshotter, and the leases that keep these layers. Reference.antt and
-- Leases.antt model the two halves; the proofs are in the modules below them, those on lists of
-- leases in Removal.antt, and those on the gauge in Gauge.antt.
mod Defs
pub mod Store
pub mod Gauge
pub mod Removal
pub mod Reference
pub mod Leases
pub use Defs.{DedupManager, k8s_namespace}
