-- ===== src/Tests/Leases.antt =====
-- Leases and reference snapshots of the small world.
use pv_snapshotter.Base.{
  not, ◌≡◌, refl, ◌↔◌, ok, err, Error, host, wrapf, [], ◌∷◌, Text, codes, ◌==◌, filter, lookup,
  cut_prefix, cut,
}
use pv_snapshotter.Exec.{State}
use pv_snapshotter.Exec.Laws.{Returns}
use pv_snapshotter.Mounts.{upperdir_from_mounts, layer_path_from_mounts, find_option}
use pv_snapshotter.Dedup.{DedupManager}
use pv_snapshotter.Dedup.Reference.{
  materialize_reference, replace_with_symlink, overlayfs_layer_path, probe_path,
}
use pv_snapshotter.Dedup.Reference.Materialise.{
  IsMaterialised, materialize_reference-IsMaterialised,
}
use pv_snapshotter.Dedup.Leases.{
  gc_orphan_leases, gc_each, collect, list_managed_leases, owner_of, unpin_by_active_key,
  unpin_each, pin_layer, count_orphan_leases,
}
use pv_snapshotter.Dedup.Leases.Sweep.{is_kept, gc_orphan_leases_keeps}
use pv_snapshotter.Dedup.Leases.Reclaim.{gc_orphan_leases_exact}
use pv_snapshotter.Dedup.Leases.Orphans.{count_orphan_leases-gc_orphan_leases}
use pv_snapshotter.Dedup.Leases.Release.{is_owned, unpin-pin}
use pv_snapshotter.Tests.World.{
  World, held, is_alive, alive_key, manager, state, files, store, answers,
}

abbrev namespace : Text
namespace = codes "k8s.io"

abbrev gone_key : Text
gone_key = codes "k8s.io/2/gone"

abbrev two_owners : State World
two_owners = state (alive_key ∷ gone_key ∷ [])

swept : (gc_orphan_leases manager namespace two_owners).1.world ≡ alive_key ∷ []
unfolding gc_orphan_leases gc_each collect list_managed_leases owner_of lookup cut_prefix ◌==◌
swept = refl

gc_orphan_leases_keeps_example :
    filter
      (is_kept manager namespace held is_alive store)
      (held (gc_orphan_leases manager namespace two_owners).1.world)
    ≡ filter (is_kept manager namespace held is_alive store) (held two_owners.world)
gc_orphan_leases_keeps_example =
    gc_orphan_leases_keeps manager namespace held is_alive store answers.stat_alive two_owners

gc_orphan_leases_exact_example :
    held (gc_orphan_leases manager namespace two_owners).1.world
    ≡ filter (is_kept manager namespace held is_alive store) (held two_owners.world)
gc_orphan_leases_exact_example =
    gc_orphan_leases_exact manager namespace held is_alive store answers two_owners

count_orphan_leases-gc_orphan_leases_example :
    (count_orphan_leases manager namespace (gc_orphan_leases manager namespace two_owners).1).0
    ≡ ok 0
count_orphan_leases-gc_orphan_leases_example =
    count_orphan_leases-gc_orphan_leases manager namespace held is_alive store answers two_owners

unpin-pin_example :
    held
      (unpin_by_active_key manager namespace gone_key
        (pin_layer manager namespace (codes "sha256:ab") gone_key two_owners).1).1.world
    ≡ filter (λ l. not (is_owned gone_key l)) (held two_owners.world)
unpin-pin_example =
    unpin-pin manager namespace held store is_alive answers (codes "sha256:ab") gone_key two_owners

unpinned : (unpin_by_active_key manager namespace gone_key two_owners).1.world ≡ alive_key ∷ []
unfolding unpin_by_active_key unpin_each lookup cut_prefix ◌==◌
unpinned = refl

materialised :
    Returns
      (materialize_reference manager (codes "sha256:ab") [] (codes "/l/fs"))
      two_owners
      tt
      two_owners
unfolding materialize_reference replace_with_symlink upperdir_from_mounts find_option cut_prefix
    ◌==◌
materialised = refl

materialize_reference-IsMaterialised_example :
    Returns
      (materialize_reference manager (codes "sha256:ab") [] (codes "/l/fs"))
      two_owners
      tt
      two_owners
    ↔ IsMaterialised manager (codes "sha256:ab") [] (codes "/l/fs") two_owners two_owners
materialize_reference-IsMaterialised_example =
    materialize_reference-IsMaterialised manager (codes "sha256:ab") [] (codes "/l/fs") two_owners
      two_owners

-- The disk takes no symbolic link.
abbrev no_links : DedupManager World
no_links = record manager {
  files = record files { symlink = λ target path w. (err (host (codes "EROFS")), w) };
}

abbrev link_error : Error
link_error =
    wrapf "creating symlink %s → %s: %w" (codes "/n/fs" ∷ codes "/l/fs" ∷ [])
      (wrapf "symlinking %s → %s: %w" (codes "/n/fs" ∷ codes "/l/fs" ∷ []) (host (codes "EROFS")))

not_linked :
    (materialize_reference no_links (codes "sha256:ab") [] (codes "/l/fs") two_owners).0
    ≡ err link_error
unfolding materialize_reference replace_with_symlink upperdir_from_mounts find_option cut_prefix
    ◌==◌
not_linked = refl

probed : (overlayfs_layer_path manager namespace alive_key two_owners).0 ≡ ok (codes "/a")
unfolding overlayfs_layer_path probe_path layer_path_from_mounts find_option cut_prefix cut ◌==◌
probed = refl
