-- ===== src/Webhook/Bound/Polls.antt =====
-- What the wait for a claim has seen when it ends with a volume.
use pv_snapshotter.Base.{
  ℕ, zero, suc, ◌+◌, ◌-◌, ◌≡◌, ◌≢◌, refl, sym, inl, inr, false, none, some, [], Text, arith, leb,
  ◌==◌, eq_iff, eq_ne, eq_refl, Result-cases, Bool-cases, List-cases,
}
use pv_snapshotter.Base.Int.{pos_part}
use pv_snapshotter.Exec.{State, call, observe}
use pv_snapshotter.Exec.Laws.{Returns}
use pv_snapshotter.Webhook.Kube.{Claim, PersistentVolume}
use pv_snapshotter.Webhook.Handler.{Handler}
use pv_snapshotter.Webhook.Bound.{
  claim_bound, sleep_of, BoundVolume, handle_of, wait_from, bound_volume, wait_bound,
}

module _ {W T : Type 0} (h : Handler W T) (ns : Text) where
  -- From a claim and a state to the bound claim: each round that finds the claim in another phase
  -- comes before the deadline, pauses without a cancellation and fetches the claim again.
  pub data Polls (deadline : ℕ) : Claim → State W → Claim → State W → Type 0 where
    bound : (pvc : Claim) (s : State W) → pvc.phase ≡ claim_bound → Polls deadline pvc s pvc s
    again :
        (pvc fetched found : Claim) (now : ℕ) (s read paused after t : State W)
        → pvc.phase ≢ claim_bound
        → Returns (observe h.clock.now) s now read
        → leb deadline now ≡ false
        → Returns (call (h.clock.pause (sleep_of (deadline - now)))) read tt paused
        → Returns (call (h.client.get_claim ns pvc.name)) paused fetched after
        → Polls deadline fetched after found t
        → Polls deadline pvc s found t

  Polls-IsBound :
      (deadline : ℕ) (pvc : Claim) (s : State W) (found : Claim) (t : State W)
      → Polls deadline pvc s found t
      → found.phase ≡ claim_bound
  Polls-IsBound deadline pvc s found t (bound _ _ e) = e
  Polls-IsBound deadline pvc s found t (again _ fetched _ _ _ _ _ after _ _ _ _ _ _ p) =
      Polls-IsBound deadline fetched after found t p

  found_now :
      (deadline : ℕ) (pvc found : Claim) (s t : State W)
      → pvc ≡ found
      → s ≡ t
      → pvc.phase ≡ claim_bound
      → Polls deadline pvc s found t
  found_now deadline pvc found s t e f g = rw (sym e, sym f) (bound pvc s g)

  wait_from-Polls :
      (n deadline : ℕ) (pvc : Claim) (s : State W) (found : Claim) (t : State W)
      → Returns (wait_from h ns n deadline pvc) s (some found) t
      → Polls deadline pvc s found t
  unfolding wait_from
  wait_from-Polls zero deadline pvc s found t r = absurd (ground arith)
  wait_from-Polls (suc n) deadline pvc s found t r =
      let read = (observe h.clock.now s).1 in
      let now = (h.clock.now s.world).0 in
      let pausing = call (h.clock.pause (sleep_of (deadline - now))) read in
      let fetching = call (h.client.get_claim ns pvc.name) pausing.1 in
      elim (Bool-cases (pvc.phase == claim_bound)) [
        | inl f ↦
            found_now deadline pvc found s t (ground arith) (ground arith)
              (ground (arith, eq_iff pvc.phase claim_bound))
        | inr f ↦ elim (Bool-cases (leb deadline now)) [
          | inl g ↦ absurd (ground arith)
          | inr g ↦ elim (Result-cases pausing.0) [
            | inr (_, x) ↦ absurd (ground arith)
            | inl (tt, x) ↦ elim (Result-cases fetching.0) [
              | inr (_, y) ↦ absurd (ground arith)
              | inl (fetched, y) ↦
                  again pvc fetched found now s read pausing.1 fetching.1 t
                    (λ e. ground (arith, eq_refl pvc.phase)) refl g (ground arith) (ground arith)
                    (wait_from-Polls n deadline fetched fetching.1 found t (ground arith))
            ]
          ]
        ]
      ]

  -- A volume that is not named by the empty text, and its handle as the cluster gives it.
  pub record IsVolume (found : Claim) (t : State W) (v : BoundVolume) (u : State W) : Type 0 where
    pub named : found.volume_name ≢ []
    pub pv : PersistentVolume
    pub fetched : Returns (call (h.client.get_volume found.volume_name)) t pv u
    pub form : v ≡ record { pv_name = found.volume_name; volume_handle = handle_of pv }

  bound_volume-IsVolume :
      (found : Claim) (t : State W) (v : BoundVolume) (u : State W)
      → Returns (bound_volume h ns found) t v u
      → IsVolume found t v u
  unfolding bound_volume
  bound_volume-IsVolume found t v u r = elim (List-cases found.volume_name) [
    | inl e ↦ absurd (ground (arith, eq_iff found.volume_name []))
    | inr n ↦ elim (Result-cases (call (h.client.get_volume found.volume_name) t).0) [
      | inr (_, e) ↦ absurd (ground (arith, eq_ne found.volume_name [] n))
      | inl (pv, e) ↦ record {
        named = n;
        pv = pv;
        fetched = ground (arith, eq_ne found.volume_name [] n);
        form = ground (arith, eq_ne found.volume_name [] n);
      }
    ]
  ]

  -- The claim that was found, and the volume that it names.
  pub record IsReady (pvc : Claim) (s : State W) (v : BoundVolume) (u : State W) : Type 0 where
    pub found : Claim
    pub start : ℕ
    pub read : State W
    pub t : State W
    pub started : Returns (observe h.clock.now) s start read
    pub polls : Polls (start + pos_part h.bound_timeout) pvc read found t
    pub is_bound : found.phase ≡ claim_bound
    pub volume : IsVolume found t v u

  -- waitBound returns a volume only where the claim, or one fetched again under its name in a round
  -- that began before the timeout, is in the phase Bound and names that volume, which it has then
  -- fetched: its handle is that of the volume's CSI source, "" where it has none.
  pub wait_bound-IsReady :
      (rounds : ℕ) (pvc : Claim) (s : State W) (v : BoundVolume) (u : State W)
      → Returns (wait_bound h ns rounds pvc) s (some v) u
      → IsReady pvc s v u
  unfolding wait_bound
  wait_bound-IsReady rounds pvc s v u r =
      let start = (h.clock.now s.world).0 in
      let read = (observe h.clock.now s).1 in
      let waiting = wait_from h ns rounds (start + pos_part h.bound_timeout) pvc read in
      elim (Result-cases waiting.0) [
        | inr (_, e) ↦ absurd (ground arith)
        | inl (none, e) ↦ absurd (ground arith)
        | inl (some found, e) ↦
            let p =
              wait_from-Polls rounds (start + pos_part h.bound_timeout) pvc read found waiting.1
                (ground arith) in
            elim (Result-cases (bound_volume h ns found waiting.1).0) [
              | inr (_, f) ↦ absurd (ground arith)
              | inl (x, f) ↦ record {
                found = found;
                start = start;
                read = read;
                t = waiting.1;
                started = refl;
                polls = p;
                is_bound =
                    Polls-IsBound (start + pos_part h.bound_timeout) pvc read found waiting.1 p;
                volume = bound_volume-IsVolume found waiting.1 v u (ground arith);
              }
            ]
      ]
