-- ===== src/Service/Mounting.antt =====
-- When Mounts redirects, and what it has checked then.
use pv_snapshotter.Base.{
  ℕ, ◌≡◌, ◌≢◌, refl, ◌⊎◌, inl, inr, List, [], ◌∷◌, Text, arith, Error, Result, ok, err, panic,
  Result-cases,
}
use pv_snapshotter.Exec.{State, call}
use pv_snapshotter.Exec.Laws.{Returns}
use pv_snapshotter.Host.{Mount}
use pv_snapshotter.Mounts.{replace_upperdir_options, ensure_upperdir_ready}
use pv_snapshotter.Mounts.Ready.{IsReady, ensure_upperdir_ready-IsReady}
use pv_snapshotter.Resolver.{resolve_at_mounts_time}
use pv_snapshotter.Resolver.Routing.{IsRouted, resolve_at_mounts_time-IsRouted}
use pv_snapshotter.Service.{Snapshotter, first_read, mounts, redirect_mounts}

first_read_ok :
    (ms out : List Mount) (path : Text)
    → first_read (replace_upperdir_options ms path) ≡ ok out
    → (out ≡ replace_upperdir_options ms path) × (ms ≢ [])
unfolding replace_upperdir_options
first_read_ok [] out path h = cc
first_read_ok (m ∷ rest) out path h = (ground arith, λ e. cc)

module _ {W C T : Type 0} (sn : Snapshotter W C T) (key : Text) (s : State W) where
  abbrev native : Result (List Mount) × State W
  native = call (sn.sn.mounts key) s

  abbrev resolving : Result Text × State W
  resolving = resolve_at_mounts_time sn.resolver key native.1

  abbrev readying : Text → Result (Unit {0}) × State W
  readying path = ensure_upperdir_ready sn.files path resolving.1

  -- The mounts of the native snapshotter with their writable directories on the volume, which is
  -- mounted and has both directories.
  pub record IsRedirectedTo (ms : List Mount) (path : Text) (t : State W) : Type 0 where
    pub native_ms : List Mount
    pub answered : native.0 ≡ ok native_ms
    pub routed : IsRouted sn.resolver key path native.1 resolving.1
    pub ready : IsReady sn.files path resolving.1 t
    pub replaced : ms ≡ replace_upperdir_options native_ms path
    pub some_mount : native_ms ≢ []

  -- The mounts of the native snapshotter as they are: no path was resolved.
  pub record IsPassedThrough (ms : List Mount) (t : State W) : Type 0 where
    pub answered : native.0 ≡ ok ms
    pub not_routed : (resolving.0 ≡ ok []) ⊎ ((x : Error) × (resolving.0 ≡ err x))
    pub same_state : t ≡ resolving.1

  redirected :
      (ms native_ms : List Mount) (path : Text) (t : State W)
      → native.0 ≡ ok native_ms
      → resolving.0 ≡ ok path
      → path ≢ []
      → Returns (mounts sn key) s ms t
      → IsRedirectedTo ms path t
  unfolding mounts redirect_mounts
  redirected ms native_ms [] t e f n h = absurd (n refl)
  redirected ms native_ms (c ∷ path) t e f n h = elim (Result-cases (readying (c ∷ path)).0) [
    | inr (_, g) ↦ absurd (ground arith)
    | inl (_, g) ↦
        let (same, some_mount) = first_read_ok native_ms ms (c ∷ path) (ground arith) in
        record {
          native_ms = native_ms;
          answered = e;
          routed =
              (resolve_at_mounts_time-IsRouted sn.resolver key (c ∷ path) native.1 resolving.1 n).0
                (ground arith);
          ready =
              (ensure_upperdir_ready-IsReady sn.files (c ∷ path) resolving.1 t).0 (ground arith);
          replaced = same;
          some_mount = some_mount;
        }
  ]

  -- Whenever Mounts returns mounts, they are the native ones where no path was resolved for the
  -- key; otherwise the path is that of a routed workload container, the volume at the path was
  -- found mounted, both directories were made on it, and the mounts are the redirected ones.
  pub mounts_safe :
      (ms : List Mount) (t : State W)
      → Returns (mounts sn key) s ms t
      → IsPassedThrough ms t ⊎ ((path : Text) × IsRedirectedTo ms path t)
  unfolding mounts redirect_mounts
  mounts_safe ms t h = elim (Result-cases native.0) [
    | inr (_, e) ↦ absurd (ground arith)
    | inl (native_ms, e) ↦ elim (Result-cases resolving.0) [
      | inr (x, f) ↦
          inl
            (record { answered = ground arith; not_routed = inr (x, f); same_state = ground arith })
      | inl ([], f) ↦
          inl (record { answered = ground arith; not_routed = inl f; same_state = ground arith })
      | inl (c ∷ path, f) ↦ inr (c ∷ path, redirected ms native_ms (c ∷ path) t e f (λ g. cc) h)
    ]
  ]

  -- Where the native snapshotter answers, a path was resolved and the volume is not ready, Mounts
  -- fails with the error of the check and does nothing after it.
  pub mounts_not_ready :
      (native_ms : List Mount) (path : Text) (x : Error)
      → native.0 ≡ ok native_ms
      → resolving.0 ≡ ok path
      → path ≢ []
      → (readying path).0 ≡ err x
      → mounts sn key s ≡ (err x, (readying path).1)
  unfolding mounts redirect_mounts
  mounts_not_ready native_ms [] x e f n g = absurd (n refl)
  mounts_not_ready native_ms (c ∷ path) x e f n g = ground arith

  abbrev IsPassed : List Mount → Type 0
  IsPassed ms =
      ((resolving.0 ≡ ok []) ⊎ ((x : Error) × (resolving.0 ≡ err x)))
      × (mounts sn key s ≡ (ok ms, resolving.1))

  abbrev Answers : List Mount → Text → Type 0
  Answers ms path =
      ((ms ≢ []) × (mounts sn key s ≡ (ok (replace_upperdir_options ms path), (readying path).1)))
      ⊎ ((ms ≡ []) × (mounts sn key s ≡ (err (panic "index out of range"), (readying path).1)))

  abbrev IsChecked : List Mount → Text → Type 0
  IsChecked ms path =
      ((x : Error) × ((readying path).0 ≡ err x) × (mounts sn key s ≡ (err x, (readying path).1)))
      ⊎ (IsReady sn.files path resolving.1 (readying path).1 × Answers ms path)

  checked_lem :
      (ms : List Mount) (c : ℕ) (path : Text)
      → native.0 ≡ ok ms
      → resolving.0 ≡ ok (c ∷ path)
      → (readying (c ∷ path)).0 ≡ ok tt
      → Answers ms (c ∷ path)
  unfolding mounts redirect_mounts replace_upperdir_options
  checked_lem [] c path e f g = inr (refl, ground arith)
  checked_lem (m ∷ ms) c path e f g = inl ((λ h. cc), ground arith)

  abbrev pub MountsOutcome : Type 0
  MountsOutcome =
      ((x : Error) × (native.0 ≡ err x) × (mounts sn key s ≡ (err x, native.1)))
      ⊎ ((ms : List Mount) × (native.0 ≡ ok ms)
          × (IsPassed ms
              ⊎ ((path : Text) × (resolving.0 ≡ ok path) × (path ≢ []) × IsChecked ms path)))

  -- Mounts in all cases. Where the native snapshotter fails, its error is the answer and nothing else
  -- is called. Where no path was resolved for the key, or the resolution failed, the answer is the
  -- native mounts. Otherwise the volume at the path is checked: where it is not ready, the answer is
  -- the error of the check; where it is and the native snapshotter returned mounts, they are
  -- redirected; and where it returned none, Mounts panics. Nothing is called after the check.
  pub mounts_cases : MountsOutcome
  unfolding mounts redirect_mounts replace_upperdir_options
  mounts_cases = elim (Result-cases native.0) [
    | inr (x, e) ↦ inl (x, e, ground arith)
    | inl (ms, e) ↦ inr (
      ms,
      e,
      elim (Result-cases resolving.0) [
        | inr (x, f) ↦ inl (inr (x, f), ground arith)
        | inl ([], f) ↦ inl (inl f, ground arith)
        | inl (c ∷ path, f) ↦ inr (
          c ∷ path,
          f,
          (λ g. cc),
          elim (Result-cases (readying (c ∷ path)).0) [
            | inr (x, g) ↦ inl (x, g, ground arith)
            | inl (_, g) ↦ inr (
              (ensure_upperdir_ready-IsReady sn.files (c ∷ path) resolving.1
                    (readying (c ∷ path)).1).0
                  (ground arith),
              checked_lem ms c path e f (ground arith),
            )
          ],
        )
      ],
    )
  ]
