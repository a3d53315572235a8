-- ===== src/Config/Restart.antt =====
-- The restart of containerd: RestartContainerd of pkg/containerd/config/nsenter.go, and the C
-- constructor in it that runs in the process it starts.
pub mod Preamble
use pv_snapshotter.Base.{
  ℕ, Bool, Option, none, some, List, [], ◌∷◌, ◌++◌, Text, codes, if◌then◌else◌, Result, ok, err,
}
use pv_snapshotter.Exec.{State, Exec, Call, call, observe, wrapping, ◌>>=◌}

-- os and os/exec: `run` starts a program with an environment and waits for it.
pub record Processes (W : Type 0) : Type 0 where
  pub executable : Call W Text
  pub environ : W → List (Text × Text) × W
  pub run : Text → List (Text × Text) → Call W Unit

abbrev pub nsenter_env_key : Text
nsenter_env_key = codes "_PV_NSENTER"

unfoldable pub restart_containerd : {W : Type 0} → Processes W → Exec W Unit
restart_containerd processes = do
  self ← wrapping "resolving executable path: %w" [] (call processes.executable)
  environ ← observe processes.environ
  wrapping "containerd restart via nsenter preamble: %w" []
      (call (processes.run self (environ ++ (nsenter_env_key, codes "1") ∷ [])))

-- The system calls of the constructor. `open_read` opens a path to read it and gives a descriptor, `setns`
-- enters the namespace of a descriptor, `access` tests for X_OK, and a failed `exec` returns.
pub record Kernel (W : Type 0) : Type 0 where
  pub open_read : Text → Call W ℕ
  pub setns : ℕ → ℕ → Call W Unit
  pub access : Text → W → Bool × W
  -- The world after a failed call, none where the process is replaced.
  pub exec : Text → List Text → W → Option W

abbrev pub namespace_path : Text
namespace_path = codes "/proc/1/ns/mnt"

-- CLONE_NEWNS of sched.h.
abbrev pub clone_newns : ℕ
clone_newns = 0x20000

-- How the constructor ends: main is reached, the process exits with status 1, or it has become the
-- program of a path, with arguments, from a world.
pub data Outcome (W : Type 0) : Type 0 where
  continues : Outcome W
  failed : Outcome W
  replaced : Text → List Text → W → Outcome W

abbrev pub candidates : List Text
candidates = codes "/usr/bin/systemctl" ∷ codes "/bin/systemctl" ∷ []

abbrev pub restart_args : List Text
restart_args = codes "systemctl" ∷ codes "restart" ∷ codes "containerd" ∷ []

module _ {W : Type 0} (kernel : Kernel W) where
  -- The loop over the candidates.
  unfoldable pub locate : List Text → W → Option Text × W
  locate [] w = (none, w)
  locate (path ∷ paths) w =
      let rest = locate paths (kernel.access path w).1 in
      if (kernel.access path w).0 then (some path, (kernel.access path w).1) else rest

  -- From the entry into the namespace on. The closing of the descriptor is not modelled.
  unfoldable pub restart_from : W → Outcome W
  restart_from w = elim (locate candidates w).0 [
    | none ↦ failed
    | some systemctl ↦ elim (kernel.exec systemctl restart_args (locate candidates w).1) [
      | some _ ↦ failed
      | none ↦ replaced systemctl restart_args (locate candidates w).1
    ]
  ]

  -- The constructor, on the value of the environment's variable.
  unfoldable pub nsenter_preamble : Option Text → W → Outcome W
  nsenter_preamble none w = continues
  nsenter_preamble (some []) w = continues
  nsenter_preamble (some (c ∷ trigger)) w = elim (kernel.open_read namespace_path w).0 [
    | err _ ↦ failed
    | ok fd ↦ elim (kernel.setns fd clone_newns (kernel.open_read namespace_path w).1).0 [
      | err _ ↦ failed
      | ok _ ↦ restart_from (kernel.setns fd clone_newns (kernel.open_read namespace_path w).1).1
    ]
  ]
