-- ===== src/Dedup/Reference/Threads/Serial.antt =====
-- A thread that nobody interrupts goes where statWithLazyMaterialise goes.
use pv_snapshotter.Base.{
  false, Result, Error, some, ok, err, ◌⊎◌, [], ◌≢◌, ℕ, ◌≡◌, ◌≢◌, refl, sym, subst, inl, inr, Bool,
  Option, none, Text, arith,
}
use pv_snapshotter.Exec.{State}
use pv_snapshotter.Dedup.Defs.{DedupManager}
use pv_snapshotter.Dedup.Reference.{or_k8s, stat_with_lazy_materialise, overlayfs_layer_path}
use pv_snapshotter.Dedup.Reference.Blocked.{IsApart, path_apart, lazy_cases, HasNoPath}
use pv_snapshotter.Host.{Info}
use pv_snapshotter.Key.{is_chain_id}
use pv_snapshotter.Dedup.Reference.Threads.{
  checking, Phase, probing, finished, Keeps, Move, probe, miss, lock, Threads, update,
}
use pv_snapshotter.Dedup.Reference.Threads.Alone.{Moves, rest, then, IsOutside, locked_Moves}

module _ {W : Type 0} (m : DedupManager W) (key_of : ℕ → Text) (taken : Text → W → Bool)
    (i : ℕ) where
  -- Steps of thread `i`, one after the other, from the state `t`.
  pub data OwnSteps (t : Threads m.local_sn key_of taken)
      : Threads m.local_sn key_of taken → Type 0 where
    stay : OwnSteps t t
    step :
        {u : Threads m.local_sn key_of taken} {v : W} {l : Option ℕ} {p : Phase}
        → OwnSteps t u
        → Move m.local_sn key_of taken i u.world u.holder (u.phase i) v l p
        → OwnSteps t
            (record { world = v; holder = l; phase = update m.local_sn key_of taken u.phase i p })

  -- Such steps lead from `t` to a state with this world and holder, in which the thread stands there.
  abbrev pub Leads : Threads m.local_sn key_of taken → W → Option ℕ → Phase → Type 0
  Leads t v l p =
      (phase : ℕ → Phase) × OwnSteps t (record { world = v; holder = l; phase = phase })
      × (phase i ≡ p)

  Moves-Leads :
      {t : Threads m.local_sn key_of taken} {v : W} {l : Option ℕ} {p : Phase} {u : W}
      {k : Option ℕ} {q : Phase}
      → Leads t v l p
      → Moves m key_of taken i v l p u k q
      → Leads t u k q
  Moves-Leads r rest = r
  Moves-Leads r (then {v} {u} {k} {j} {q} {r = p'} steps move) =
      let (phase, reach, e) = Moves-Leads r steps in
      let move' = subst (λ x. Move m.local_sn key_of taken i v k x u j p') (sym e) move in
      (update m.local_sn key_of taken phase i p', step reach move', ground arith)

  begins :
      (t : Threads m.local_sn key_of taken) (w : W)
      → t.world ≡ w
      → t.holder ≡ none
      → t.phase i ≡ probing
      → Leads t w none probing
  begins t w e f g =
      let there : OwnSteps t (record t { world = w }) =
        subst (λ v. OwnSteps t (record t { world = v })) e stay in
      (t.phase, subst (λ l. OwnSteps t (record t { world = w; holder = l })) f there, g)

module _ {W : Type 0} (m : DedupManager W) (key_of : ℕ → Text) (taken : Text → W → Bool) (ns : Text)
    (i : ℕ) (apart : IsApart (m.overlayfs (or_k8s ns)) taken) (outside : IsOutside m key_of taken)
    (s : State W) where
  abbrev probed : Result Text × State W
  probed = overlayfs_layer_path m (or_k8s ns) (key_of i) s

  abbrev result : Result Info × State W
  result = stat_with_lazy_materialise m ns (key_of i) m.local_sn s

  -- The call fails before it asks for the lock, as there is nothing to borrow.
  abbrev pub IsMiss : Type 0
  IsMiss =
      ((x : Error) × (result.0 ≡ err x))
      × ((is_chain_id (key_of i) ≡ false) ⊎ HasNoPath m ns (key_of i) s)

  abbrev held : (ℕ → Phase) → Threads m.local_sn key_of taken
  held phase = record { world = probed.1.world; holder = some i; phase = phase }

  -- The thread takes the lock in the world in which it has found the path, and goes on from there.
  abbrev pub IsLocked : Threads m.local_sn key_of taken → Type 0
  IsLocked t =
      (path : Text) × (probed.0 ≡ ok path)
      × (path ≢ [])
      × (phase : ℕ → Phase) × OwnSteps m key_of taken i t (held phase)
      × (phase i ≡ checking)
      × Leads m key_of taken i (held phase) result.1.world none finished

  Keeps-probed : Keeps m.local_sn key_of taken s.world probed.1.world
  Keeps-probed j = path_apart m (or_k8s ns) (key_of i) taken apart (key_of j) s

  -- From any state of the threads in which the lock is free and thread `i` is about to start its call:
  -- steps of that thread alone lead to the world in which statWithLazyMaterialise returns, with the
  -- thread finished and the lock free again, whatever the calls answer. Either the key is no chain
  -- ID or the host has no path for the layer, and the call fails; or the steps go through the lock,
  -- which the thread takes in the world in which it has found the path. This is where Mounts and the
  -- calls of package os touch no snapshot of a layer, and the host's snapshotter none of the
  -- daemon's.
  pub stat_with_lazy_materialise-IsLocked :
      (t : Threads m.local_sn key_of taken)
      → t.world ≡ s.world
      → t.holder ≡ none
      → t.phase i ≡ probing
      → Leads m key_of taken i t result.1.world none finished × (IsMiss ⊎ IsLocked t)
  stat_with_lazy_materialise-IsLocked t e f g =
      let start = begins m key_of taken i t s.world e f g in
      elim (lazy_cases m ns (key_of i) s) [
        | inl (x, n, h) ↦ (
          rw h (Moves-Leads m key_of taken i start (then rest (miss (λ j. refl)))),
          inl ((x, rw h refl), inl n),
        )
        | inr (inl (x, n, h)) ↦ (
          rw h (Moves-Leads m key_of taken i start (then rest (miss Keeps-probed))),
          inl ((x, rw h refl), inr n),
        )
        | inr (inr (path, found_path, n, h)) ↦
            let (phase, own, c) =
              Moves-Leads m key_of taken i start (then (then rest (probe Keeps-probed)) lock) in
            let moves = locked_Moves m key_of taken (or_k8s ns) i path apart outside probed.1 in
            (
              rw h (Moves-Leads m key_of taken i (phase, own, c) moves),
              inr (
                path,
                found_path,
                n,
                phase,
                own,
                c,
                rw h (Moves-Leads m key_of taken i (phase, stay, c) moves),
              ),
            )
      ]
