-- ===== src/Webhook/Bound/Terminates.antt =====
-- The wait for a claim ends, and within how many rounds.
use pv_snapshotter.Base.{
  ℕ, zero, suc, ◌+◌, ◌-◌, ◌*◌, ◌≤◌, ◌≡◌, ◌≢◌, ◌⊎◌, inl, inr, false, none, some, Text, arith, leb,
  ◌==◌, Error, Result, ok, err, Result-cases, Bool-cases,
}
use pv_snapshotter.Base.Int.{pos_part}
use pv_snapshotter.Exec.{State, call, observe}
use pv_snapshotter.Webhook.Kube.{Claim}
use pv_snapshotter.Webhook.Handler.{Handler}
use pv_snapshotter.Webhook.Bound.{
  claim_bound, bound_poll_interval, sleep_of, BoundVolume, wait_from, bound_volume, wait_bound,
}

module _ {W T : Type 0} (h : Handler W T) (ns : Text) where
  -- The clock never goes back, a reading lies between the times before and after it, and a pause
  -- that is not cut short lasts at least as long as it is asked to. `time` is the time at which a
  -- state of the world stands.
  pub record IsClock (time : W → ℕ) : Type 0 where
    pub now_after : (w : W) → time w ≤ (h.clock.now w).0
    pub now_before : (w : W) → (h.clock.now w).0 ≤ time (h.clock.now w).1
    pub pause_lasts :
        (d : ℕ) (w : W) → (h.clock.pause d w).0 ≡ ok tt → time w + d ≤ time (h.clock.pause d w).1
    pub fetch_later : (name : Text) (w : W) → time w ≤ time (h.client.get_claim ns name w).1

  module _ (time : W → ℕ) (clock : IsClock time) where
    module _ (deadline : ℕ) (pvc : Claim) (s : State W) where
      abbrev reading : Result ℕ × State W
      reading = observe h.clock.now s

      abbrev now : ℕ
      now = (h.clock.now s.world).0

      abbrev pausing : Result (Unit {0}) × State W
      pausing = call (h.clock.pause (sleep_of (deadline - now))) reading.1

      abbrev fetching : Result Claim × State W
      fetching = call (h.client.get_claim ns pvc.name) pausing.1

      -- A round that is not the last leaves a poll interval less, or nothing.
      pub round_lasts :
          (k : ℕ)
          → deadline ≤ time s.world + suc k * bound_poll_interval
          → leb deadline now ≡ false
          → pausing.0 ≡ ok tt
          → deadline ≤ time fetching.1.world + k * bound_poll_interval
      round_lasts k b e f = ground (
        arith,
        clock.now_after s.world,
        clock.now_before s.world,
        clock.pause_lasts (sleep_of (deadline - now)) (h.clock.now s.world).1 f,
        clock.fetch_later pvc.name pausing.1.world,
      )

    wait_from_ends :
        (k deadline : ℕ) (pvc : Claim) (s : State W)
        → deadline ≤ time s.world + k * bound_poll_interval
        → (wait_from h ns (suc k) deadline pvc s).0 ≢ ok none
    unfolding wait_from
    wait_from_ends zero deadline pvc s b e = elim (Bool-cases (pvc.phase == claim_bound)) [
      | inl f ↦ ground arith
      | inr f ↦ elim (Bool-cases (leb deadline (now deadline pvc s))) [
        | inl g ↦ ground arith
        | inr g ↦ ground (arith, clock.now_after s.world)
      ]
    ]
    wait_from_ends (suc k) deadline pvc s b e = elim (Bool-cases (pvc.phase == claim_bound)) [
      | inl f ↦ ground arith
      | inr f ↦ elim (Bool-cases (leb deadline (now deadline pvc s))) [
        | inl g ↦ ground arith
        | inr g ↦ elim (Result-cases (pausing deadline pvc s).0) [
          | inr (_, x) ↦ ground arith
          | inl (tt, x) ↦ elim (Result-cases (fetching deadline pvc s).0) [
            | inr (_, y) ↦ ground arith
            | inl (fetched, y) ↦
                wait_from_ends k deadline fetched (fetching deadline pvc s).1
                  (round_lasts deadline pvc s k b g x) (ground arith)
          ]
        ]
      ]
    ]

    -- Under a clock that does not go back, also over a fetch, and with pauses that last as long as
    -- they are asked to unless they fail, waitBound comes to an end within `k` + 1 rounds, by a
    -- bound volume or by an error, where the timeout is at most `k` poll intervals.
    pub wait_bound_ends :
        (k : ℕ) (pvc : Claim) (s : State W)
        → pos_part h.bound_timeout ≤ k * bound_poll_interval
        → ((v : BoundVolume) × ((wait_bound h ns (suc k) pvc s).0 ≡ ok (some v)))
          ⊎ ((e : Error) × ((wait_bound h ns (suc k) pvc s).0 ≡ err e))
    unfolding wait_bound
    wait_bound_ends k pvc s b =
        let start = (h.clock.now s.world).0 in
        let t = (observe h.clock.now s).1 in
        let deadline = start + pos_part h.bound_timeout in
        elim (Result-cases (wait_from h ns (suc k) deadline pvc t).0) [
          | inr (e, f) ↦ inr (e, ground arith)
          | inl (none, f) ↦
              absurd (wait_from_ends k deadline pvc t (ground (arith, clock.now_before s.world)) f)
          | inl (some c, f) ↦
              elim (Result-cases
                (bound_volume h ns c (wait_from h ns (suc k) deadline pvc t).1).0) [
                  | inr (e, g) ↦ inr (e, ground arith)
                  | inl (v, g) ↦ inl (v, ground arith)
                ]
        ]
