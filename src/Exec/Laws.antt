-- ===== src/Exec/Laws.antt =====
-- What the theorems say of a call.
use pv_snapshotter.Base.{◌≡◌, ap, ok}
use pv_snapshotter.Exec.{State, Exec, Call, call}

-- The call ends without an error, in a given state.
abbrev pub Returns : {W A : Type 0} → Exec W A → State W → A → State W → Type 0
Returns m s a t = m s ≡ (ok a, t)

-- What the call has done outside the process.
pub call_lem :
    {W A : Type 0} (m : Call W A) (s : State W) (a : A) (t : State W)
    → Returns (call m) s a t
    → m s.world ≡ (ok a, t.world)
call_lem m s a t e = ap (λ p. (p.0, p.1.world)) e
