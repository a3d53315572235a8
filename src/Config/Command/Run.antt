-- ===== src/Config/Command/Run.antt =====
-- The order of the steps of the config subcommand.
use pv_snapshotter.Base.{
  ℕ, ◌<◌, ◌≡◌, ◌↔◌, refl, inl, inr, Bool, true, false, none, some, arith, Result-cases, Bool-cases,
}
use pv_snapshotter.Exec.{State, call, observe}
use pv_snapshotter.Exec.Laws.{Returns}
use pv_snapshotter.Config.Patcher.{apply, Params}
use pv_snapshotter.Config.Patcher.Patched.{IsPatched, apply-IsPatched}
use pv_snapshotter.Config.Flags.{get_params, get_socket_path}
use pv_snapshotter.Config.Wait.{wait_until_ready}
use pv_snapshotter.Config.Wait.Tries.{Tries, wait_until_ready-Tries}
use pv_snapshotter.Config.Restart.{restart_containerd}
use pv_snapshotter.Config.Command.{ConfigCommand, restart_if, configure, run_config}

module _ {W : Type 0} (c : ConfigCommand W) where
  abbrev params : Params
  params = get_params c.toml.trim_space c.flags

  -- The steps after the wait.
  pub record IsDone (s t : State W) : Type 0 where
    pub modified : Bool
    pub u : State W
    pub v : State W
    pub patched : IsPatched c.disk c.toml params s modified u
    pub restarted : modified ≡ true → Returns (restart_containerd c.processes) u tt v
    pub untouched : modified ≡ false → v ≡ u
    pub blocked : Returns (observe c.block) v tt t

  -- A number of probes, then the steps after the wait.
  pub record IsRun (rounds : ℕ) (s t : State W) : Type 0 where
    pub u : State W
    pub v : State W
    pub started : Returns (call c.base_context) s tt u
    pub n : ℕ
    pub within : n < rounds
    pub ready : Tries (c.probe (get_socket_path c.flags)) n u v
    pub done : IsDone v t

  configure_sound : (s t : State W) → Returns (configure c) s tt t → IsDone s t
  unfolding configure restart_if
  configure_sound s t f =
      let applied = apply c.disk c.toml params s in
      elim (Result-cases applied.0) [
        | inr (_, g) ↦ absurd (ground arith)
        | inl (false, g) ↦ record {
          modified = false;
          u = applied.1;
          v = applied.1;
          patched = (apply-IsPatched c.disk c.toml params s false applied.1).0 (ground arith);
          restarted = λ e. absurd (ground arith);
          untouched = λ e. refl;
          blocked = ground arith;
        }
        | inl (true, g) ↦
            let restarting = restart_containerd c.processes applied.1 in
            elim (Result-cases restarting.0) [
              | inr (_, h) ↦ absurd (ground arith)
              | inl (tt, h) ↦ record {
                modified = true;
                u = applied.1;
                v = restarting.1;
                patched = (apply-IsPatched c.disk c.toml params s true applied.1).0 (ground arith);
                restarted = λ e. ground arith;
                untouched = λ e. absurd (ground arith);
                blocked = ground arith;
              }
            ]
      ]

  configure_complete : (s t : State W) → IsDone s t → Returns (configure c) s tt t
  unfolding configure restart_if
  configure_complete s t d =
      let a = (apply-IsPatched c.disk c.toml params s d.modified d.u).1 d.patched in
      elim (Bool-cases d.modified) [
        | inl e ↦ ground (arith, a, e, d.restarted e, d.blocked)
        | inr e ↦ ground (arith, a, e, d.untouched e, d.blocked)
      ]

  run_config_sound :
      (rounds : ℕ) (s t : State W) → Returns (run_config c rounds) s (some tt) t → IsRun rounds s t
  unfolding run_config
  run_config_sound rounds s t f =
      let starting = call c.base_context s in
      let waiting = wait_until_ready (c.probe (get_socket_path c.flags)) rounds starting.1 in
      elim (Result-cases starting.0) [
        | inr (_, g) ↦ absurd (ground arith)
        | inl (tt, g) ↦ elim (Result-cases waiting.0) [
          | inr (_, h) ↦ absurd (ground arith)
          | inl (none, h) ↦ absurd (ground arith)
          | inl (some tt, h) ↦
              let (n, l, tries) =
                (wait_until_ready-Tries (c.probe (get_socket_path c.flags)) rounds starting.1
                    waiting.1).0
                  (ground arith) in
              elim (Result-cases (configure c waiting.1).0) [
                | inr (_, k) ↦ absurd (ground arith)
                | inl (tt, k) ↦ record {
                  u = starting.1;
                  v = waiting.1;
                  started = ground arith;
                  n = n;
                  within = l;
                  ready = tries;
                  done = configure_sound waiting.1 t (ground arith);
                }
              ]
        ]
      ]

  run_config_complete :
      (rounds : ℕ) (s t : State W) → IsRun rounds s t → Returns (run_config c rounds) s (some tt) t
  unfolding run_config
  run_config_complete rounds s t r = ground (
    arith,
    r.started,
    (wait_until_ready-Tries (c.probe (get_socket_path c.flags)) rounds r.u r.v).1
        (r.n, r.within, r.ready),
    configure_complete r.v t r.done,
  )

  -- The config subcommand ends without an error exactly where these steps succeed in their order:
  -- the daemon is ready after fewer failed probes than there are rounds, the configuration is read
  -- and what is missing in it is added, containerd is restarted where something was and is left
  -- alone where nothing was, and then the signal is awaited.
  pub run_config-IsRun :
      (rounds : ℕ) (s t : State W) → Returns (run_config c rounds) s (some tt) t ↔ IsRun rounds s t
  run_config-IsRun rounds s t = (run_config_sound rounds s t, run_config_complete rounds s t)
