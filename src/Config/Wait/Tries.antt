-- ===== src/Config/Wait/Tries.antt =====
-- When the wait for the daemon ends.
use pv_snapshotter.Base.{
  ℕ, zero, suc, ◌<◌, ◌≡◌, ◌≢◌, ◌⊎◌, subst, [], Text, codes, eqb, wrapf, errorf, Bool-cases, ◌↔◌,
  inl, inr, some, arith, Error, ok, err, Result-cases,
}
use pv_snapshotter.Exec.{State, call}
use pv_snapshotter.Exec.Laws.{Returns}
use pv_snapshotter.Config.Wait.{wait_poll_interval, Probe, probe_readyz, wait_until_ready}

module _ {W : Type 0} (probe : Probe W) where
  abbrev url : Text
  url = codes "http://localhost/readyz"

  -- The daemon answers a request for the URL with the status 200.
  abbrev pub IsUp : State W → State W → Type 0
  IsUp s t = (probe.request url ≡ ok tt) × Returns (call (probe.get url)) s 200 t

  -- The request cannot be made, or it fails, or it is answered with another status.
  abbrev pub IsDown : State W → State W → Type 0
  IsDown s u =
      ((e : Error) × (probe.request url ≡ err e) × (s ≡ u))
      ⊎ ((probe.request url ≡ ok tt)
          × (((e : Error) × (call (probe.get url) s ≡ (err e, u)))
              ⊎ ((status : ℕ) × (status ≢ 200) × Returns (call (probe.get url)) s status u)))

  -- A number of probes find the daemon down, each is followed by a pause that is not cut short, and
  -- the next one finds it up.
  pub data Tries : ℕ → State W → State W → Type 0 where
    ready : {s t : State W} → IsUp s t → Tries 0 s t
    again :
        {n : ℕ} {s u v t : State W}
        → IsDown s u
        → Returns (call (probe.pause wait_poll_interval)) u tt v
        → Tries n v t
        → Tries (suc n) s t

  up_lem : (s t : State W) → IsUp s t → Returns (probe_readyz probe) s tt t
  unfolding probe_readyz
  up_lem s t (e, f) = ground arith

  down_lem : (s u : State W) → IsDown s u → (x : Error) × (probe_readyz probe s ≡ (err x, u))
  unfolding probe_readyz
  down_lem s u (inl (e, f, g)) = (wrapf "build request: %w" [] e, ground arith)
  down_lem s u (inr (r, inl (e, f))) = (wrapf "do request: %w" [] e, ground arith)
  down_lem s u (inr (r, inr (status, n, f))) = (errorf "readyz returned %d" [], ground arith)

  answer_cases : (s : State W) → IsUp s (probe_readyz probe s).1 ⊎ IsDown s (probe_readyz probe s).1
  unfolding probe_readyz
  answer_cases s = elim (Result-cases (probe.request url)) [
    | inr (e, f) ↦ inr (inl (e, f, ground arith))
    | inl (_, f) ↦ elim (Result-cases (call (probe.get url) s).0) [
      | inr (e, g) ↦ inr (inr (f, inl (e, ground arith)))
      | inl (status, g) ↦ elim (Bool-cases (eqb status 200)) [
        | inl h ↦ inl (f, ground arith)
        | inr h ↦ inr (inr (f, inr (status, (λ k. ground arith), ground arith)))
      ]
    ]
  ]

  Tries-complete :
      (n rounds : ℕ) (s t : State W)
      → n < rounds
      → Tries n s t
      → Returns (wait_until_ready probe rounds) s (some tt) t
  unfolding wait_until_ready
  Tries-complete n zero s t l x = absurd (omega arith)
  Tries-complete _ (suc rounds) s t l (ready up) = ground (arith, up_lem s t up)
  Tries-complete _ (suc rounds) s t l (again {n = n} {u = u} {v = v} down f x) =
      let (y, e) = down_lem s u down in
      ground (arith, e, Tries-complete n rounds v t (omega arith) x)

  Tries-sound :
      (rounds : ℕ) (s t : State W)
      → Returns (wait_until_ready probe rounds) s (some tt) t
      → (n : ℕ) × (n < rounds) × Tries n s t
  unfolding wait_until_ready
  Tries-sound zero s t f = absurd (ground arith)
  Tries-sound (suc rounds) s t f = elim (answer_cases s) [
    | inl up ↦
        let e = up_lem s (probe_readyz probe s).1 up in
        (0, omega arith, subst (λ v. Tries 0 s v) (ground arith) (ready up))
    | inr down ↦
        let u = (probe_readyz probe s).1 in
        let (x, e) = down_lem s u down in
        let pausing = call (probe.pause wait_poll_interval) u in
        elim (Result-cases pausing.0) [
          | inr (_, g) ↦ absurd (ground arith)
          | inl (tt, g) ↦
              let (n, l, tries) = Tries-sound rounds pausing.1 t (ground arith) in
              (suc n, omega arith, again {u = u} down (ground arith) tries)
        ]
  ]

  -- WaitUntilReady returns, within a number of rounds, exactly where fewer than this number of
  -- requests for /readyz get no answer or one of another status than 200, each followed by a pause
  -- that the context does not cut short, before one is answered with 200, which is the last request.
  pub wait_until_ready-Tries :
      (rounds : ℕ) (s t : State W)
      → Returns (wait_until_ready probe rounds) s (some tt) t
        ↔ ((n : ℕ) × (n < rounds) × Tries n s t)
  wait_until_ready-Tries rounds s t =
      (Tries-sound rounds s t, λ f. let (n, l, x) = f in Tries-complete n rounds s t l x)
