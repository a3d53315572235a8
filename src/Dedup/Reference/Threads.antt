-- ===== src/Dedup/Reference/Threads.antt =====
-- Concurrent calls of statWithLazyMaterialise, pkg/containerd/snapshotter/dedup.go: the calls of
-- localSn, m.mu.Lock() and what lies between them are steps, and the threads take them in any order.
pub mod Safety
pub mod Alone
pub mod Serial
pub mod Ends
use pv_snapshotter.Base.{
  ℕ, ◌≡◌, Bool, true, false, Option, none, some, List, [], ◌∷◌, Text, Error, ok, err, eqb,
  if◌then◌else◌,
}
use pv_snapshotter.Host.{Mount, Info, Snapshots}
use pv_snapshotter.Dedup.Reference.{tmp_key}

-- Where a thread stands: the next call that it makes.
pub data Phase : Type 0 where
  -- overlayfsLayerPath, m.mu.Lock(), and the second Stat.
  probing waiting checking : Phase
  -- In materializeReference: Prepare, what lies between it and Commit, Commit, and Remove.
  preparing linking committing removing : Phase
  -- The last Stat, and after the return.
  answering finished : Phase

-- Between m.mu.Lock() and the deferred m.mu.Unlock().
abbrev pub is_critical : Phase → Bool
is_critical probing = false
is_critical waiting = false
is_critical finished = false
is_critical _ = true

-- After the second Stat and before Commit.
abbrev pub is_before_commit : Phase → Bool
is_before_commit preparing = true
is_before_commit linking = true
is_before_commit committing = true
is_before_commit _ = false

-- `sn` is localSn, and `key_of` the layer that each thread asks for.
module _ {W : Type 0} (sn : Snapshots W) (key_of : ℕ → Text) (taken : Text → W → Bool) where
  -- The layers of the threads are as before.
  abbrev pub Keeps : W → W → Type 0
  Keeps w v = (i : ℕ) → taken (key_of i) v ≡ taken (key_of i) w

  -- A step of thread `i`, on the world, the holder of the lock and the thread's phase. Calls of other
  -- snapshotters, of the file system and of Mounts are steps that keep the layers, with any outcome.
  pub data Move (i : ℕ) : W → Option ℕ → Phase → W → Option ℕ → Phase → Type 0 where
    probe : {w v : W} {l : Option ℕ} → Keeps w v → Move i w l probing v l waiting
    miss : {w v : W} {l : Option ℕ} → Keeps w v → Move i w l probing v l finished
    lock : {w : W} → Move i w none waiting w (some i) checking
    found :
        {w : W} {l : Option ℕ} (info : Info)
        → (sn.stat (key_of i) w).0 ≡ ok info
        → Move i w l checking (sn.stat (key_of i) w).1 none finished
    absent :
        {w v : W} {l : Option ℕ} (e : Error)
        → (sn.stat (key_of i) w).0 ≡ err e
        → Keeps (sn.stat (key_of i) w).1 v
        → Move i w l checking v l preparing
    prepare :
        {w : W} {l : Option ℕ} (parent : Text) (ms : List Mount)
        → (sn.prepare (tmp_key (key_of i)) parent [] w).0 ≡ ok ms
        → Move i w l preparing (sn.prepare (tmp_key (key_of i)) parent [] w).1 l linking
    refuse :
        {w : W} {l : Option ℕ} (parent : Text) (e : Error)
        → (sn.prepare (tmp_key (key_of i)) parent [] w).0 ≡ err e
        → Move i w l preparing (sn.prepare (tmp_key (key_of i)) parent [] w).1 none finished
    link : {w v : W} {l : Option ℕ} → Keeps w v → Move i w l linking v l committing
    fail : {w v : W} {l : Option ℕ} → Keeps w v → Move i w l linking v l removing
    commit :
        {w : W} {l : Option ℕ}
        → (sn.commit (key_of i) (tmp_key (key_of i)) [] w).0 ≡ ok tt
        → Move i w l committing (sn.commit (key_of i) (tmp_key (key_of i)) [] w).1 l answering
    reject :
        {w : W} {l : Option ℕ} (e : Error)
        → (sn.commit (key_of i) (tmp_key (key_of i)) [] w).0 ≡ err e
        → Move i w l committing (sn.commit (key_of i) (tmp_key (key_of i)) [] w).1 l removing
    remove :
        {w : W} {l : Option ℕ}
        → Move i w l removing (sn.remove (tmp_key (key_of i)) w).1 none finished
    answer : {w : W} {l : Option ℕ} → Move i w l answering (sn.stat (key_of i) w).1 none finished

  pub record Threads : Type 0 where
    pub world : W
    pub holder : Option ℕ
    pub phase : ℕ → Phase

  abbrev pub update : (ℕ → Phase) → ℕ → Phase → ℕ → Phase
  update phase i p j = if eqb i j then p else phase j

  -- A thread takes a step, or something else happens that keeps the layers of the threads.
  pub data ThreadStep (s : Threads) : Threads → Type 0 where
    pick :
        (i : ℕ) {v : W} {l : Option ℕ} {p : Phase}
        → Move i s.world s.holder (s.phase i) v l p
        → ThreadStep s (record { world = v; holder = l; phase = update s.phase i p })
    elsewhere : {v : W} → Keeps s.world v → ThreadStep s (record s { world = v })

  abbrev pub initial : W → Threads
  initial w = record { world = w; holder = none; phase = λ _. probing }

  pub data Reachable (w : W) : Threads → Type 0 where
    begin : Reachable w (initial w)
    next : {s t : Threads} → Reachable w s → ThreadStep s t → Reachable w t
