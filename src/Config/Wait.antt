-- ===== src/Config/Wait.antt =====
-- The wait for the daemon, pkg/containerd/config/wait.go. Log lines are not modelled.
pub mod Tries
use pv_snapshotter.Base.{
  ℕ, zero, suc, Option, none, some, [], ◌∷◌, Text, codes, not, eqb, errorf, Result, ok, err,
}
use pv_snapshotter.Exec.{Exec, Call, pure, lift, call, raise_if, wrapping, attempt, ◌>>=◌, ◌>>◌}

-- waitPollInterval, 2 seconds in nanoseconds.
abbrev pub wait_poll_interval : ℕ
wait_poll_interval = 2_000_000_000

-- Package net/http, for the daemon's socket: `request` is the error of NewRequestWithContext for a
-- URL, and `get` the status of the answer to it. `pause` is the select of ctx.Done() and time.After.
pub record Probe (W : Type 0) : Type 0 where
  pub request : Text → Result (Unit {0})
  pub get : Text → Call W ℕ
  pub pause : ℕ → Call W Unit

abbrev pub readyz_url : Text
readyz_url = codes "http://localhost/readyz"

module _ {W : Type 0} (probe : Probe W) where
  -- The error of a status that is not 200 names it, too.
  unfoldable pub probe_readyz : Exec W Unit
  probe_readyz = do
    wrapping "build request: %w" [] (lift (probe.request readyz_url))
    status ← wrapping "do request: %w" [] (call (probe.get readyz_url))
    raise_if (not (eqb status 200)) (errorf "readyz returned %d" [])

  -- The loop, for a number of rounds: `none` where they were not enough.
  unfoldable pub wait_until_ready : ℕ → Exec W (Option Unit)
  wait_until_ready zero = pure none
  wait_until_ready (suc n) = do
    ready ← attempt probe_readyz
    elim ready [
      | ok _ ↦ pure (some tt)
      | err _ ↦ do call (probe.pause wait_poll_interval); wait_until_ready n
    ]
