-- ===== src/Config/Command.antt =====
-- The config subcommand, the function RunE of newConfigCommand in cmd/daemon/config.go. Log lines,
-- and runtimeNames that only one of them uses, are not modelled.
pub mod Run
use pv_snapshotter.Base.{ℕ, Bool, true, false, Option, none, some, [], Text}
use pv_snapshotter.Exec.{Exec, Call, pure, call, observe, wrapping, ◌>>=◌, ◌>>◌}
use pv_snapshotter.Config.Snippet.{Toml}
use pv_snapshotter.Config.Patcher.{Disk, apply}
use pv_snapshotter.Config.Flags.{ConfigFlags, get_params, get_socket_path}
use pv_snapshotter.Config.Wait.{Probe, wait_until_ready}
use pv_snapshotter.Config.Restart.{Processes, restart_containerd}

-- What the command uses: `base_context` is app.BaseContext, `probe` the HTTP client of a socket's
-- path, and `block` the receive from ctx.Done().
pub record ConfigCommand (W : Type 0) : Type 0 where
  pub flags : ConfigFlags
  pub base_context : Call W Unit
  pub probe : Text → Probe W
  pub disk : Disk W
  pub toml : Toml
  pub processes : Processes W
  pub block : W → Unit {0} × W

module _ {W : Type 0} (c : ConfigCommand W) where
  -- Step 3.
  unfoldable pub restart_if : Bool → Exec W Unit
  restart_if false = pure tt
  restart_if true = wrapping "restarting containerd: %w" [] (restart_containerd c.processes)

  -- Steps 2 to 4.
  unfoldable pub configure : Exec W Unit
  configure = do
    let params = get_params c.toml.trim_space c.flags
    modified ← wrapping "applying containerd config: %w" [] (apply c.disk c.toml params)
    restart_if modified
    observe c.block

  -- `none` where the rounds of the wait were not enough.
  unfoldable pub run_config : ℕ → Exec W (Option Unit)
  run_config rounds = do
    wrapping "initialising base context: %w" [] (call c.base_context)
    ready ←
        wrapping "waiting for pv-snapshotter daemon: %w" []
          (wait_until_ready (c.probe (get_socket_path c.flags)) rounds)
    elim ready [ none ↦ pure none | some _ ↦ do configure; pure (some tt) ]
