-- ===== src/Dedup/Reference/Threads/Safety.antt =====
-- No two threads make a reference at once, and none makes one that is there.
use pv_snapshotter.Base.{
  ℕ, ◌≡◌, ◌≢◌, refl, sym, ap, ◌∙◌, ◌⊎◌, inl, inr, Bool, true, false, Option, none, some, [], Text,
  length, length-append, arith, codes, ok, err, eqb, Bool-cases,
}
use pv_snapshotter.Host.{Info, Snapshots}
use pv_snapshotter.Dedup.Reference.{tmp_key}
use pv_snapshotter.Dedup.Reference.Blocked.{IsKeyed}
use pv_snapshotter.Dedup.Reference.Threads.{
  Phase, probing, waiting, checking, preparing, linking, committing, removing, answering, finished,
  is_critical, is_before_commit, Keeps, Move, probe, miss, lock, found, absent, prepare, refuse,
  link, fail, commit, reject, remove, answer, Threads, pick, elsewhere, Reachable, begin, next,
  update,
}

apart-tmp_key : (key : Text) → key ≢ tmp_key key
apart-tmp_key key e =
    omega (arith, ap length e, length-append (codes "pv-snapshotter-ref-tmp-") key)

module _ {W : Type 0} (sn : Snapshots W) (key_of : ℕ → Text) (taken : Text → W → Bool)
    (keyed : IsKeyed sn taken)
    (there : (key : Text) (w : W)
      → taken key w ≡ true
      → (i : Info) × ((sn.stat key w).0 ≡ ok i)) where
  -- The step leaves the lock and the layers alone, or the thread had the lock, or it took it.
  abbrev LeavesOthers : W → Option ℕ → Phase → W → Option ℕ → Type 0
  LeavesOthers w l p v k =
      ((k ≡ l) × Keeps sn key_of taken w v) ⊎ ((is_critical p ≡ true) ⊎ (l ≡ none))

  Move-LeavesOthers :
      {i : ℕ} {w v : W} {l k : Option ℕ} {p q : Phase}
      → Move sn key_of taken i w l p v k q
      → LeavesOthers w l p v k
  Move-LeavesOthers (probe e) = inl (refl, e)
  Move-LeavesOthers (miss e) = inl (refl, e)
  Move-LeavesOthers lock = inr (inr refl)
  Move-LeavesOthers (found _ _) = inr (inl refl)
  Move-LeavesOthers (absent _ _ _) = inr (inl refl)
  Move-LeavesOthers (prepare _ _ _) = inr (inl refl)
  Move-LeavesOthers (refuse _ _ _) = inr (inl refl)
  Move-LeavesOthers (link _) = inr (inl refl)
  Move-LeavesOthers (fail _) = inr (inl refl)
  Move-LeavesOthers (commit _) = inr (inl refl)
  Move-LeavesOthers (reject _ _) = inr (inl refl)
  Move-LeavesOthers remove = inr (inl refl)
  Move-LeavesOthers answer = inr (inl refl)

  -- Who is critical holds the lock.
  Move-holder :
      {i : ℕ} {w v : W} {l k : Option ℕ} {p q : Phase}
      → Move sn key_of taken i w l p v k q
      → (is_critical p ≡ true → l ≡ some i)
      → is_critical q ≡ true
      → k ≡ some i
  Move-holder (probe e) h c = cc
  Move-holder (miss e) h c = cc
  Move-holder lock h c = refl
  Move-holder (found _ _) h c = cc
  Move-holder (absent _ _ _) h c = h refl
  Move-holder (prepare _ _ _) h c = h refl
  Move-holder (refuse _ _ _) h c = cc
  Move-holder (link _) h c = h refl
  Move-holder (fail _) h c = h refl
  Move-holder (commit _) h c = h refl
  Move-holder (reject _ _) h c = h refl
  Move-holder remove h c = cc
  Move-holder answer h c = cc

  missing : (key : Text) (w : W) (e : _) → (sn.stat key w).0 ≡ err e → taken key w ≡ false
  missing key w e f = elim (Bool-cases (taken key w)) [
    | inr g ↦ g
    | inl g ↦ cc ((there key w g).1, f)
  ]

  -- The layer that is about to be committed is not there.
  Move-fresh :
      {i : ℕ} {w v : W} {l k : Option ℕ} {p q : Phase}
      → Move sn key_of taken i w l p v k q
      → (is_before_commit p ≡ true → taken (key_of i) w ≡ false)
      → is_before_commit q ≡ true
      → taken (key_of i) v ≡ false
  Move-fresh (probe e) h c = cc
  Move-fresh (miss e) h c = cc
  Move-fresh lock h c = cc
  Move-fresh (found _ _) h c = cc
  Move-fresh {i} {w} (absent x e keeps) h c =
      keeps i ∙ keyed.stat_keys (key_of i) (key_of i) w ∙ missing (key_of i) w x e
  Move-fresh {i} {w} (prepare parent _ _) h c =
      keyed.prepare_keys (key_of i) (tmp_key (key_of i)) parent [] w (apart-tmp_key (key_of i))
      ∙ h refl
  Move-fresh (refuse _ _ _) h c = cc
  Move-fresh {i} (link keeps) h c = keeps i ∙ h refl
  Move-fresh (fail _) h c = cc
  Move-fresh (commit _) h c = cc
  Move-fresh (reject _ _) h c = cc
  Move-fresh remove h c = cc
  Move-fresh answer h c = cc

  -- A critical thread holds the lock, and the layer that a thread is about to commit is not there.
  pub record IsSafe (s : Threads sn key_of taken) : Type 0 where
    pub holds : (i : ℕ) → is_critical (s.phase i) ≡ true → s.holder ≡ some i
    pub fresh : (i : ℕ) → is_before_commit (s.phase i) ≡ true → taken (key_of i) s.world ≡ false

  committer_lem : (p : Phase) → is_before_commit p ≡ true → is_critical p ≡ true
  committer_lem preparing c = refl
  committer_lem linking c = refl
  committer_lem committing c = refl
  committer_lem probing c = cc
  committer_lem waiting c = cc
  committer_lem checking c = cc
  committer_lem removing c = cc
  committer_lem answering c = cc
  committer_lem finished c = cc

  -- A step of one thread leaves the lock and the layer of another one that has the lock.
  other_kept :
      (s : Threads sn key_of taken) (i j : ℕ) (v : W) (k : Option ℕ) (q : Phase)
      → IsSafe s
      → Move sn key_of taken i s.world s.holder (s.phase i) v k q
      → i ≢ j
      → s.holder ≡ some j
      → (k ≡ some j) × (taken (key_of j) v ≡ taken (key_of j) s.world)
  other_kept s i j v k q safe move n h = elim (Move-LeavesOthers move) [
    | inl (same, keeps) ↦ (same ∙ h, keeps j)
    | inr (inl c) ↦ absurd (n cc (safe.holds i c, h))
    | inr (inr free) ↦ absurd cc (free, h)
  ]

  pick-IsSafe :
      (s : Threads sn key_of taken) (i : ℕ) (v : W) (k : Option ℕ) (q : Phase)
      → IsSafe s
      → Move sn key_of taken i s.world s.holder (s.phase i) v k q
      → IsSafe (record { world = v; holder = k; phase = update sn key_of taken s.phase i q })
  pick-IsSafe s i v k q safe move = record {
    holds = λ j c. elim (Bool-cases (eqb i j)) [
      | inl e ↦
          let same : i ≡ j = ground arith in
          Move-holder move (safe.holds i) (ground arith) ∙ ap some same
      | inr e ↦
          let c' : is_critical (s.phase j) ≡ true = ground arith in
          (other_kept s i j v k q safe move (λ f. ground arith) (safe.holds j c')).0
    ];
    fresh = λ j c. elim (Bool-cases (eqb i j)) [
      | inl e ↦
          let same : i ≡ j = ground arith in
          ap (λ n. taken (key_of n) v) (sym same) ∙ Move-fresh move (safe.fresh i) (ground arith)
      | inr e ↦
          let c' : is_before_commit (s.phase j) ≡ true = ground arith in
          let h = safe.holds j (committer_lem (s.phase j) c') in
          (other_kept s i j v k q safe move (λ f. ground arith) h).1 ∙ safe.fresh j c'
    ];
  }

  Reachable-IsSafe :
      {w : W} {s : Threads sn key_of taken} → Reachable sn key_of taken w s → IsSafe s
  Reachable-IsSafe begin = record { holds = λ i c. cc; fresh = λ i c. cc }
  Reachable-IsSafe (next {s} r (pick i {v} {l} {p} move)) =
      pick-IsSafe s i v l p (Reachable-IsSafe r) move
  Reachable-IsSafe (next r (elsewhere keeps)) =
      let safe = Reachable-IsSafe r in
      record { holds = safe.holds; fresh = λ i c. keeps i ∙ safe.fresh i c }

  -- With a snapshotter that behaves as documented and whose Stat answers for every snapshot that is
  -- there, in every state that concurrent calls of Stat reach by any order of their steps: while a
  -- thread is between its second Stat and its Commit, it is the only one that has the lock, and the
  -- layer that it is about to commit is not there.
  pub Reachable-alone :
      {w : W} {s : Threads sn key_of taken}
      → Reachable sn key_of taken w s
      → (i j : ℕ) → is_before_commit (s.phase i) ≡ true
      → is_critical (s.phase j) ≡ true
      → (i ≡ j) × (taken (key_of i) s.world ≡ false)
  Reachable-alone {s = s} r i j c d =
      let safe = Reachable-IsSafe r in
      (cc (safe.holds i (committer_lem (s.phase i) c), safe.holds j d), safe.fresh i c)
