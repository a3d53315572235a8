-- ===== src/Dedup/Reference/Threads/Ends.antt =====
-- Every thread gets to its return: how many steps it takes, and that nobody waits for ever.
use pv_snapshotter.Base.{
  ℕ, ◌+◌, ◌≤◌, ◌≡◌, ◌≢◌, refl, sym, ap, subst, ◌∙◌, ◌⊎◌, inl, inr, Bool, true, false, Option, none,
  some, [], Text, arith, eqb, Bool-cases, Result-cases,
}
use pv_snapshotter.Host.{Snapshots}
use pv_snapshotter.Dedup.Reference.{tmp_key}
use pv_snapshotter.Dedup.Reference.Threads.{
  Phase, probing, waiting, checking, preparing, linking, committing, removing, answering, finished,
  is_critical, Move, probe, miss, lock, found, absent, prepare, refuse, link, fail, commit, reject,
  remove, answer, Threads, pick, elsewhere, Reachable, begin, next,
}

-- The calls that a thread has before it, at most.
abbrev rank : Phase → ℕ
rank probing = 7
rank waiting = 6
rank checking = 5
rank preparing = 4
rank linking = 3
rank committing = 2
rank removing = 1
rank answering = 1
rank finished = 0

module _ {W : Type 0} (sn : Snapshots W) (key_of : ℕ → Text) (taken : Text → W → Bool) where
  Move-rank :
      {i : ℕ} {w v : W} {l k : Option ℕ} {p q : Phase}
      → Move sn key_of taken i w l p v k q
      → 1 + rank q ≤ rank p
  Move-rank (probe _) = omega arith
  Move-rank (miss _) = omega arith
  Move-rank lock = omega arith
  Move-rank (found _ _) = omega arith
  Move-rank (absent _ _ _) = omega arith
  Move-rank (prepare _ _ _) = omega arith
  Move-rank (refuse _ _ _) = omega arith
  Move-rank (link _) = omega arith
  Move-rank (fail _) = omega arith
  Move-rank (commit _) = omega arith
  Move-rank (reject _ _) = omega arith
  Move-rank remove = omega arith
  Move-rank answer = omega arith

  -- Who has the lock is critical.
  Move-held :
      {i : ℕ} {w v : W} {l k : Option ℕ} {p q : Phase}
      → Move sn key_of taken i w l p v k q
      → (l ≡ some i → is_critical p ≡ true)
      → k ≡ some i
      → is_critical q ≡ true
  Move-held (probe _) h e = cc (h e)
  Move-held (miss _) h e = cc (h e)
  Move-held lock h e = refl
  Move-held (found _ _) h e = cc
  Move-held (absent _ _ _) h e = refl
  Move-held (prepare _ _ _) h e = refl
  Move-held (refuse _ _ _) h e = cc
  Move-held (link _) h e = refl
  Move-held (fail _) h e = refl
  Move-held (commit _) h e = refl
  Move-held (reject _ _) h e = refl
  Move-held remove h e = cc
  Move-held answer h e = cc

  -- Nobody gives the lock to another thread.
  Move-other :
      {i : ℕ} {w v : W} {l k : Option ℕ} {p q : Phase}
      → Move sn key_of taken i w l p v k q
      → (j : ℕ) → i ≢ j
      → k ≡ some j
      → l ≡ some j
  Move-other (probe _) j n e = e
  Move-other (miss _) j n e = e
  Move-other lock j n e = absurd (n cc)
  Move-other (found _ _) j n e = cc
  Move-other (absent _ _ _) j n e = e
  Move-other (prepare _ _ _) j n e = e
  Move-other (refuse _ _ _) j n e = cc
  Move-other (link _) j n e = e
  Move-other (fail _) j n e = e
  Move-other (commit _) j n e = e
  Move-other (reject _ _) j n e = e
  Move-other remove j n e = cc
  Move-other answer j n e = cc

  Reachable-held :
      {w : W} {s : Threads sn key_of taken}
      → Reachable sn key_of taken w s
      → (j : ℕ) → s.holder ≡ some j
      → is_critical (s.phase j) ≡ true
  Reachable-held begin j e = cc
  Reachable-held (next {s} r (pick i {v} {l} {p} move)) j e = elim (Bool-cases (eqb i j)) [
    | inl f ↦
        let same : i ≡ j = ground arith in
        let c = Move-held move (Reachable-held r i) (e ∙ ap some (sym same)) in ground arith
    | inr f ↦
        let n : i ≢ j = λ g. ground arith in
        let c = Reachable-held r j (Move-other move j n e) in ground arith
  ]
  Reachable-held (next r (elsewhere _)) j e = Reachable-held r j e

  abbrev pub turn : Bool → ℕ
  turn true = 1
  turn false = 0

  -- The steps that thread `i` took.
  abbrev pub turns : ℕ → {w : W} → {s : Threads sn key_of taken} → Reachable sn key_of taken w s → ℕ
  turns i begin = 0
  turns i (next r (pick j _)) = turn (eqb j i) + turns i r
  turns i (next r (elsewhere _)) = turns i r

  turns-rank :
      (i : ℕ) {w : W} {s : Threads sn key_of taken} (r : Reachable sn key_of taken w s)
      → turns i r + rank (s.phase i) ≤ 7
  turns-rank i begin = omega arith
  turns-rank i (next {s} r (pick j {p = p} move)) =
      let before = turns-rank i r in
      let lower = Move-rank move in
      elim (Bool-cases (eqb j i)) [
        | inl e ↦
            let same : j ≡ i = ground arith in
            let below : 1 + rank p ≤ rank (s.phase i) =
              subst (λ n. 1 + rank p ≤ rank (s.phase n)) same lower in
            rw e (omega arith)
        | inr e ↦ rw e (omega arith)
      ]
  turns-rank i (next r (elsewhere _)) = turns-rank i r

  -- A step that thread `i` can take.
  abbrev pub Goes : ℕ → W → Option ℕ → Phase → Type 0
  Goes i w l p = (v : W) × (k : Option ℕ) × (q : Phase) × Move sn key_of taken i w l p v k q

  abbrev pub CanStep : Threads sn key_of taken → ℕ → Type 0
  CanStep s i = Goes i s.world s.holder (s.phase i)

  critical_lem : (i : ℕ) (w : W) (l : Option ℕ) (p : Phase) → is_critical p ≡ true → Goes i w l p
  critical_lem i w l probing c = cc
  critical_lem i w l waiting c = cc
  critical_lem i w l finished c = cc
  critical_lem i w l checking c = elim (Result-cases (sn.stat (key_of i) w).0) [
    | inl (info, e) ↦ (_, _, _, found info e)
    | inr (x, e) ↦ (_, _, _, absent x e (λ j. refl))
  ]
  critical_lem i w l preparing c = elim (Result-cases (sn.prepare (tmp_key (key_of i)) [] [] w).0) [
    | inl (ms, e) ↦ (_, _, _, prepare [] ms e)
    | inr (x, e) ↦ (_, _, _, refuse [] x e)
  ]
  critical_lem i w l linking c = (w, _, _, link (λ j. refl))
  critical_lem i w l committing c =
      elim (Result-cases (sn.commit (key_of i) (tmp_key (key_of i)) [] w).0) [
        | inl (_, e) ↦ (_, _, _, commit e)
        | inr (x, e) ↦ (_, _, _, reject x e)
      ]
  critical_lem i w l removing c = (_, _, _, remove)
  critical_lem i w l answering c = (_, _, _, answer)

  -- Thread `i` has returned, or it can take a step, or it waits for another thread, which can.
  abbrev pub IsLive : Threads sn key_of taken → ℕ → Type 0
  IsLive s i =
      (s.phase i ≡ finished)
      ⊎ (CanStep s i
          ⊎ ((j : ℕ) × (s.phase i ≡ waiting) × (s.holder ≡ some j) × (i ≢ j) × CanStep s j))

  move_or_wait :
      (i : ℕ) (w : W) (l : Option ℕ) (p : Phase)
      → (p ≡ finished) ⊎ (Goes i w l p ⊎ ((p ≡ waiting) × (j : ℕ) × (l ≡ some j)))
  move_or_wait i w l finished = inl refl
  move_or_wait i w l probing = inr (inl (w, _, _, probe (λ j. refl)))
  move_or_wait i w none waiting = inr (inl (_, _, _, lock))
  move_or_wait i w (some j) waiting = inr (inr (refl, j, refl))
  move_or_wait i w l checking = inr (inl (critical_lem i w l checking refl))
  move_or_wait i w l preparing = inr (inl (critical_lem i w l preparing refl))
  move_or_wait i w l linking = inr (inl (critical_lem i w l linking refl))
  move_or_wait i w l committing = inr (inl (critical_lem i w l committing refl))
  move_or_wait i w l removing = inr (inl (critical_lem i w l removing refl))
  move_or_wait i w l answering = inr (inl (critical_lem i w l answering refl))

  -- Of concurrent calls of Stat, in any order of their steps and with any answers of calls that
  -- return: a thread takes at most seven steps, and as long as it has not returned, it can take its next step,
  -- or it waits for the lock and the thread that has the lock, another one, can take its next step.
  pub Reachable-IsLive :
      {w : W} {s : Threads sn key_of taken} (r : Reachable sn key_of taken w s) (i : ℕ)
      → (turns i r ≤ 7) × IsLive s i
  Reachable-IsLive {s = s} r i =
      let few : turns i r ≤ 7 = omega (arith, turns-rank i r) in
      elim (move_or_wait i s.world s.holder (s.phase i)) [
        | inl e ↦ (few, inl e)
        | inr (inl moves) ↦ (few, inr (inl moves))
        | inr (inr (e, j, f)) ↦
            let c = Reachable-held r j f in
            let other : i ≢ j =
              λ g. cc (ap (λ n. is_critical (s.phase n)) g, ap is_critical e, c) in
            (few, inr (inr (j, e, f, other, critical_lem j s.world s.holder (s.phase j) c)))
      ]
