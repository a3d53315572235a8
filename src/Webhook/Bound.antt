-- ===== src/Webhook/Bound.antt =====
-- The wait for a claim, waitBound of pkg/webhook/mutating.go. Log lines are not modelled.
pub mod Terminates
pub mod Polls
use pv_snapshotter.Base.{
  ℕ, zero, suc, ◌+◌, ◌-◌, Bool, true, false, Option, none, some, List, [], ◌∷◌, Text, codes, ◌==◌,
  leb, if◌then◌else◌, ok, err, errorf,
}
use pv_snapshotter.Base.Int.{ℤ, pos_part}
use pv_snapshotter.Exec.{Exec, pure, observe, raise_if, call, wrapping, ◌>>=◌, ◌>>◌}
use pv_snapshotter.Webhook.Kube.{Claim, PersistentVolume}
use pv_snapshotter.Webhook.Handler.{Handler}

abbrev pub claim_bound : Text
claim_bound = codes "Bound"

-- boundPollInterval, 2 seconds in nanoseconds.
abbrev pub bound_poll_interval : ℕ
bound_poll_interval = 2_000_000_000

-- The value of `sleep`.
abbrev pub sleep_of : ℕ → ℕ
sleep_of remaining = if leb remaining bound_poll_interval then remaining else bound_poll_interval

-- The name and the CSI handle of the bound volume.
pub record BoundVolume : Type 0 where
  pub pv_name : Text
  pub volume_handle : Text

abbrev pub handle_of : PersistentVolume → Text
handle_of pv = elim pv.csi [ none ↦ [] | some handle ↦ handle ]

module _ {W T : Type 0} (h : Handler W T) (ns : Text) where
  -- The loop, for a number of rounds: `none` where they were not enough. In the error of the timeout
  -- the duration is left out. The error of the fetch names the object that Get returned beside its
  -- error, since `pvc` is overwritten; that name is left out.
  unfoldable pub wait_from : ℕ → ℕ → Claim → Exec W (Option Claim)
  wait_from zero deadline pvc = pure none
  wait_from (suc n) deadline pvc = elim (pvc.phase == claim_bound) [
    | true ↦ pure (some pvc)
    | false ↦ do
      now ← observe h.clock.now
      raise_if (leb deadline now) (
          errorf "timed out after %s waiting for PVC %q to be bound (current phase: %s)"
            (pvc.name ∷ pvc.phase ∷ []))
      wrapping "context cancelled while waiting for PVC %q: %w" (pvc.name ∷ [])
          (call (h.clock.pause (sleep_of (deadline - now))))
      fetched ← wrapping "re-fetching PVC %q: %w" [] (call (h.client.get_claim ns pvc.name))
      wait_from n deadline fetched
  ]

  -- What follows the loop.
  unfoldable pub bound_volume : Claim → Exec W BoundVolume
  bound_volume pvc = do
    raise_if (pvc.volume_name == [])
        (errorf "PVC %q is Bound but spec.volumeName is empty" (pvc.name ∷ []))
    pv ←
        wrapping "fetching PV %q: %w" (pvc.volume_name ∷ [])
          (call (h.client.get_volume pvc.volume_name))
    pure (record { pv_name = pvc.volume_name; volume_handle = handle_of pv })

  -- A timeout below zero is over at once, as one of zero is.
  unfoldable pub wait_bound : ℕ → Claim → Exec W (Option BoundVolume)
  wait_bound rounds pvc = do
    start ← observe h.clock.now
    found ← wait_from rounds (start + pos_part h.bound_timeout) pvc
    elim found [
      | none ↦ pure none
      | some claim ↦ do volume ← bound_volume claim; pure (some volume)
    ]
