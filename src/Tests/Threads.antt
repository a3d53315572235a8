-- ===== src/Tests/Threads.antt =====
-- Two calls of Stat for one layer at once.
use pv_snapshotter.Base.{
  ◌⊎◌, ◌≤◌, ℕ, ◌≡◌, refl, true, false, [], ◌∷◌, Text, none, ok, ◌==◌, not_found,
}
use pv_snapshotter.Host.{Info}
use pv_snapshotter.Dedup.Reference.Threads.{
  Threads, Reachable, begin, next, pick, probe, lock, absent, prepare, finished,
}
use pv_snapshotter.Dedup.Reference.Threads.Ends.{turns, IsLive, Reachable-IsLive}
use pv_snapshotter.Dedup.Reference.Threads.Alone.{IsOutside}
use pv_snapshotter.Dedup.Reference.Threads.Serial.{
  Leads, IsMiss, IsLocked, stat_with_lazy_materialise-IsLocked,
}
use pv_snapshotter.Dedup.Reference.{stat_with_lazy_materialise}
use pv_snapshotter.Dedup.{k8s_namespace}
use pv_snapshotter.Dedup.Reference.Threads.Safety.{Reachable-alone}
use pv_snapshotter.Tests.World.{info_of, native_mount}
use pv_snapshotter.Tests.Serving.{chain_id}
use pv_snapshotter.Tests.Blocked.{
  Disks, disk_manager, shared, local_disk, local_taken, local_laws, nothing_left,
}

abbrev layer_of : ℕ → Text
layer_of i = chain_id

answers_for :
    (key : Text) (w : Disks)
    → local_taken key w ≡ true
    → (i : Info) × ((local_disk.stat key w).0 ≡ ok i)
answers_for key w e = (info_of key, rw e refl)

abbrev Reached : Type 0
Reached =
    (s : Threads local_disk layer_of local_taken) × Reachable local_disk layer_of local_taken
      nothing_left.world s

abbrev one_probed : Reached
one_probed = (_, next begin (pick 0 (probe {v = nothing_left.world} (λ i. refl))))

abbrev both_probed : Reached
both_probed = (_, next one_probed.1 (pick 1 (probe {v = nothing_left.world} (λ i. refl))))

-- The first thread has the lock and has prepared its snapshot; the second one waits.
abbrev one_linking : Reached
one_linking = (
  _,
  next
      (next (next both_probed.1 (pick 0 lock))
        (pick 0 (absent {v = nothing_left.world} (not_found chain_id) refl (λ i. refl))))
      (pick 0 (prepare [] (native_mount ∷ []) refl)),
)

Reachable-alone_example : ◌≡◌ {A = ℕ} 0 0 × (local_taken chain_id one_linking.0.world ≡ false)
unfolding ◌==◌
Reachable-alone_example =
    Reachable-alone local_disk layer_of local_taken local_laws answers_for one_linking.1 0 0 refl
      refl

outside : IsOutside disk_manager layer_of local_taken
outside = record {
  mounts_keys = λ k key w. refl;
  remove_all_keys = λ k path w. refl;
  symlink_keys = λ k target path w. refl;
}

-- The second thread goes through while the first one has not taken the lock.
stat_with_lazy_materialise-IsLocked_example :
    Leads disk_manager layer_of local_taken 1 one_probed.0
      (stat_with_lazy_materialise disk_manager k8s_namespace chain_id local_disk
        nothing_left).1.world
      none
      finished
    × (IsMiss disk_manager layer_of local_taken k8s_namespace 1 shared.apart outside nothing_left
        ⊎ IsLocked disk_manager layer_of local_taken k8s_namespace 1 shared.apart outside
            nothing_left one_probed.0)
unfolding ◌==◌
stat_with_lazy_materialise-IsLocked_example =
    stat_with_lazy_materialise-IsLocked disk_manager layer_of local_taken k8s_namespace 1
      shared.apart outside nothing_left one_probed.0 refl refl refl

Reachable-IsLive_example :
    (turns local_disk layer_of local_taken 1 one_linking.1 ≤ 7)
    × IsLive local_disk layer_of local_taken one_linking.0 1
Reachable-IsLive_example = Reachable-IsLive local_disk layer_of local_taken one_linking.1 1
