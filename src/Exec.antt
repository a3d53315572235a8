-- ===== src/Exec.antt =====
-- The state of the daemon's process, and its calls: each takes the state and returns its result
-- with the next one. `world` is all that lies outside the process (containerd, its snapshotters,
-- the kernel); the other fields are the metrics of pkg/containerd/snapshotter/service.go, each the
-- series of the node on which the daemon runs.
pub mod Laws
use pv_snapshotter.Base.{ℕ, Bool, if◌then◌else◌, String, List, Text, Error, Result, ok, err, wrapf}
use pv_snapshotter.Base.Int.{ℤ}

pub record State (W : Type 0) : Type 0 where
  pub world : W
  -- pinnedSnapshotsTotal, unpinFailuresTotal, orphanLeasesTotal.
  pub pinned_snapshots : ℤ
  pub unpin_failures : ℕ
  pub orphan_leases : ℕ

-- A call of code that is not the program's.
abbrev pub Call : Type 0 → Type 0 → Type 0
Call W A = W → Result A × W

abbrev pub Exec : Type 0 → Type 0 → Type 0
Exec W A = State W → Result A × State W

module _ {W A : Type 0} where
  abbrev pub pure : A → Exec W A
  pure a s = (ok a, s)

  abbrev pub raise : Error → Exec W A
  raise e s = (err e, s)

  abbrev pub lift : Result A → Exec W A
  lift r s = (r, s)

  abbrev pub call : Call W A → Exec W A
  call m s = ((m s.world).0, record s { world = (m s.world).1 })

  -- A call that does not fail.
  abbrev pub observe : (W → A × W) → Exec W A
  observe m s = (ok (m s.world).0, record s { world = (m s.world).1 })

  -- `if err != nil { return ..., fmt.Errorf(format, args..., err) }`
  abbrev pub wrapping : String → List Text → Exec W A → Exec W A
  wrapping format args m s = elim (m s).0 [
    | ok a ↦ (ok a, (m s).1)
    | err e ↦ (err (wrapf format args e), (m s).1)
  ]

  -- The error of the call as a value, for the code that goes on after it.
  abbrev pub attempt : Exec W A → Exec W (Result A)
  attempt m s = (ok (m s).0, (m s).1)

module _ {W : Type 0} where
  abbrev pub raise_if : Bool → Error → Exec W Unit
  raise_if test e s = (if test then err e else ok tt, s)

infixl 5 ◌>>=◌ ◌>>◌
abbrev pub ◌>>=◌ : {W A B : Type 0} → Exec W A → (A → Exec W B) → Exec W B
◌>>=◌ m f s = elim (m s).0 [ ok a ↦ f a (m s).1 | err e ↦ (err e, (m s).1) ]

abbrev pub ◌>>◌ : {W A B : Type 0} → Exec W A → Exec W B → Exec W B
m >> k = m >>= λ _. k
