-- ===== src/Dedup/Reference/Threads/Alone.antt =====
-- The calls that statWithLazyMaterialise makes under the lock, as steps of one thread.
use pv_snapshotter.Base.{
  ℕ, ◌≡◌, ◌≢◌, sym, subst, ◌∙◌, inl, inr, Bool, Option, none, some, List, [], ◌⊎◌, Text, arith,
  Result, ok, Result-cases,
}
use pv_snapshotter.Exec.{State, call}
use pv_snapshotter.Host.{Mount, Info}
use pv_snapshotter.Mounts.{upperdir_from_mounts}
use pv_snapshotter.Dedup.Defs.{DedupManager}
use pv_snapshotter.Dedup.Reference.{
  tmp_key, parent_or_root, resolve_parent_chain_id, replace_with_symlink, materialize_reference,
  materialise_locked,
}
use pv_snapshotter.Dedup.Reference.Blocked.{IsApart}
use pv_snapshotter.Dedup.Reference.Threads.{
  Phase, checking, preparing, committing, answering, finished, Keeps, Move, found, absent, prepare,
  refuse, link, fail, commit, reject, remove, answer,
}

module _ {W : Type 0} (m : DedupManager W) (key_of : ℕ → Text) (taken : Text → W → Bool) where
  -- Several steps of one thread, one after the other.
  pub data Moves (i : ℕ) (w : W) (l : Option ℕ) (p : Phase) : W → Option ℕ → Phase → Type 0 where
    rest : Moves i w l p w l p
    then :
        {v u : W} {k j : Option ℕ} {q r : Phase}
        → Moves i w l p v k q
        → Move m.local_sn key_of taken i v k q u j r
        → Moves i w l p u j r

  pub Moves-append :
      {i : ℕ} {w v : W} {l k : Option ℕ} {p q : Phase} {u : W} {j : Option ℕ} {r : Phase}
      → Moves i w l p v k q
      → Moves i v k q u j r
      → Moves i w l p u j r
  Moves-append a rest = a
  Moves-append a (then b move) = then (Moves-append a b) move

  -- Mounts and the calls of package os touch no key.
  pub record IsOutside : Type 0 where
    pub mounts_keys : (k key : Text) (w : W) → taken k (m.local_sn.mounts key w).1 ≡ taken k w
    pub remove_all_keys :
        (k path : Text) (w : W) → taken k (m.files.remove_all path w).1 ≡ taken k w
    pub symlink_keys :
        (k target path : Text) (w : W) → taken k (m.files.symlink target path w).1 ≡ taken k w

  module _ (ns : Text) (i : ℕ) (path : Text) (apart : IsApart (m.overlayfs ns) taken)
      (outside : IsOutside) where
    abbrev key : Text
    key = key_of i

    module _ (parent : Text) (s : State W) where
      abbrev made : Result (Unit {0}) × State W
      made = materialize_reference m key parent path s

      -- The calls, in the order in which they are made.
      abbrev prepared : Result (List Mount) × State W
      prepared = call (m.local_sn.prepare (tmp_key key) parent []) s

      abbrev mounted : Result (List Mount) × State W
      mounted = call (m.local_sn.mounts (tmp_key key)) prepared.1

      abbrev emptied : Text → Result (Unit {0}) × State W
      emptied upper = call (m.files.remove_all upper) mounted.1

      abbrev linked : Text → Result (Unit {0}) × State W
      linked upper = call (m.files.symlink path upper) (emptied upper).1

      abbrev committed : Text → Result (Unit {0}) × State W
      committed upper = call (m.local_sn.commit key (tmp_key key) []) (linked upper).1

      abbrev Reaches : W → Option ℕ → Phase → Type 0
      Reaches = Moves i s.world (some i) preparing

      Keeps-mounted : Keeps m.local_sn key_of taken prepared.1.world mounted.1.world
      Keeps-mounted j = outside.mounts_keys (key_of j) (tmp_key key) prepared.1.world

      Keeps-emptied :
          (upper : Text) → Keeps m.local_sn key_of taken prepared.1.world (emptied upper).1.world
      Keeps-emptied upper j =
          outside.remove_all_keys (key_of j) upper mounted.1.world ∙ Keeps-mounted j

      Keeps-linked :
          (upper : Text) → Keeps m.local_sn key_of taken prepared.1.world (linked upper).1.world
      Keeps-linked upper j =
          outside.symlink_keys (key_of j) path upper (emptied upper).1.world ∙ Keeps-emptied upper j

      -- Made, or not made and the lock given back.
      abbrev Outcome : Type 0
      Outcome =
          ((made.0 ≡ ok tt) × Reaches made.1.world (some i) answering)
          ⊎ ((made.0 ≢ ok tt) × Reaches made.1.world none finished)

      -- The steps to the state `v`, which is the one that materializeReference returns.
      ended : (v : State W) → made.1 ≡ v → made.0 ≢ ok tt → Reaches v.world none finished → Outcome
      ended v f n steps = inr (n, subst (λ t. Reaches t.world none finished) (sym f) steps)

      -- Prepare succeeded, and what follows it failed in the state `u`.
      abandoned :
          (ms : List Mount) (u : State W)
          → prepared.0 ≡ ok ms
          → Keeps m.local_sn key_of taken prepared.1.world u.world
          → made.1 ≡ (call (m.local_sn.remove (tmp_key key)) u).1
          → made.0 ≢ ok tt
          → Outcome
      abandoned ms u e k f n =
          ended (call (m.local_sn.remove (tmp_key key)) u).1 f n
            (then (then (then rest (prepare parent ms e)) (fail k)) remove)

      commit_Moves :
          (ms mounts : List Mount) (upper : Text)
          → prepared.0 ≡ ok ms
          → mounted.0 ≡ ok mounts
          → upperdir_from_mounts mounts ≡ ok upper
          → (emptied upper).0 ≡ ok tt
          → (linked upper).0 ≡ ok tt
          → Outcome
      unfolding materialize_reference replace_with_symlink
      commit_Moves ms mounts upper e f g h k =
          let begun : Reaches (linked upper).1.world (some i) committing =
            then (then rest (prepare parent ms e)) (link (Keeps-linked upper)) in
          elim (Result-cases (committed upper).0) [
            | inr (x, n) ↦
                ended (call (m.local_sn.remove (tmp_key key)) (committed upper).1).1 (ground arith)
                  (λ y. ground arith) (then (then begun (reject x n)) remove)
            | inl (_, n) ↦
                let same : made.1 ≡ (committed upper).1 = ground arith in
                inl (
                  ground arith,
                  subst (λ t. Reaches t.world (some i) answering) (sym same)
                      (then begun (commit n)),
                )
          ]

      made_Moves : Outcome
      unfolding materialize_reference replace_with_symlink
      made_Moves = elim (Result-cases prepared.0) [
        | inr (x, e) ↦
            ended prepared.1 (ground arith) (λ h. ground arith) (then rest (refuse parent x e))
        | inl (ms, e) ↦ elim (Result-cases mounted.0) [
          | inr (_, f) ↦ abandoned ms mounted.1 e Keeps-mounted (ground arith) (λ h. ground arith)
          | inl (mounts, f) ↦ elim (Result-cases (upperdir_from_mounts mounts)) [
            | inr (_, g) ↦ abandoned ms mounted.1 e Keeps-mounted (ground arith) (λ h. ground arith)
            | inl (upper, g) ↦ elim (Result-cases (emptied upper).0) [
              | inr (_, h) ↦
                  abandoned ms (emptied upper).1 e (Keeps-emptied upper) (ground arith)
                    (λ x. ground arith)
              | inl (_, h) ↦ elim (Result-cases (linked upper).0) [
                | inr (_, k) ↦
                    abandoned ms (linked upper).1 e (Keeps-linked upper) (ground arith)
                      (λ x. ground arith)
                | inl (_, k) ↦ commit_Moves ms mounts upper e f g h k
              ]
            ]
          ]
        ]
      ]

    -- The state in which the temporary snapshot is prepared.
    abbrev asking : State W → State W
    asking s = (call ((m.overlayfs ns).stat key) (call (m.local_sn.stat key) s).1).1

    abbrev parent_of : State W → Text
    parent_of s =
        parent_or_root (resolve_parent_chain_id m ns key (call (m.local_sn.stat key) s).1).0

    abbrev Ends : State W → Result Info × State W → Type 0
    Ends s r = Moves i s.world (some i) checking r.1.world none finished

    pub locked_Moves : (s : State W) → Ends s (materialise_locked m ns key path m.local_sn s)
    unfolding materialise_locked resolve_parent_chain_id
    locked_Moves s = elim (Result-cases (m.local_sn.stat key s.world).0) [
      | inl (info, e) ↦
          let f : (materialise_locked m ns key path m.local_sn s).1
              ≡ (call (m.local_sn.stat key) s).1 =
            ground arith in
          subst (λ t. Moves i s.world (some i) checking t.world none finished) (sym f)
            (then rest (found info e))
      | inr (x, e) ↦
          let start : Moves i s.world (some i) checking (asking s).world (some i) preparing =
            then rest
              (absent x e (λ j. apart.stat_apart (key_of j) key (m.local_sn.stat key s.world).1)) in
          elim (made_Moves (parent_of s) (asking s)) [
            | inl (g, steps) ↦
                let f : (materialise_locked m ns key path m.local_sn s).1
                    ≡ (call (m.local_sn.stat key) (made (parent_of s) (asking s)).1).1 =
                  ground arith in
                subst (λ t. Moves i s.world (some i) checking t.world none finished) (sym f)
                  (then (Moves-append start steps) answer)
            | inr (g, steps) ↦
                let f : (materialise_locked m ns key path m.local_sn s).1
                    ≡ (made (parent_of s) (asking s)).1 =
                  elim (Result-cases (made (parent_of s) (asking s)).0) [
                    | inl (_, h) ↦ absurd (g h)
                    | inr (y, h) ↦ ground arith
                  ] in
                subst (λ t. Moves i s.world (some i) checking t.world none finished) (sym f)
                  (Moves-append start steps)
          ]
    ]
