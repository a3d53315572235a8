-- ===== src/Config/Restart/Preamble.antt =====
-- How the process that restarts containerd ends.
use pv_snapshotter.Base.{
  ℕ, codes, ◌≡◌, ◌≢◌, refl, sym, subst, List-cases, ◌⊎◌, ◌↔◌, inl, inr, true, false, Option, none,
  some, List, [], ◌∷◌, Text, arith, ok, Result-cases, Bool-cases, Option-cases,
}
use pv_snapshotter.Config.Restart.{
  namespace_path, clone_newns, Kernel, replaced, candidates, restart_args, locate, restart_from,
  nsenter_preamble,
}

module _ {W : Type 0} (kernel : Kernel W) where
  -- The first path that is executable, after the others were tested.
  pub data IsLocated : List Text → W → Text → W → Type 0 where
    found :
        {path : Text} {paths : List Text} {w : W}
        → (kernel.access path w).0 ≡ true
        → IsLocated (path ∷ paths) w path (kernel.access path w).1
    later :
        {path other : Text} {paths : List Text} {w u : W}
        → (kernel.access other w).0 ≡ false
        → IsLocated paths (kernel.access other w).1 path u
        → IsLocated (other ∷ paths) w path u

  locate-IsLocated :
      (paths : List Text) (w : W) (path : Text) (u : W)
      → IsLocated paths w path u
      → locate kernel paths w ≡ (some path, u)
  unfolding locate
  locate-IsLocated _ _ _ _ (found e) = ground arith
  locate-IsLocated _ _ path u (later {other = other} {paths} {w} e x) =
      ground (arith, locate-IsLocated paths (kernel.access other w).1 path u x)

  locate_cases :
      (paths : List Text) (w : W)
      → ((locate kernel paths w).0 ≡ none)
        ⊎ ((path : Text) × ((locate kernel paths w).0 ≡ some path)
            × IsLocated paths w path (locate kernel paths w).1)
  unfolding locate
  locate_cases [] w = inl refl
  locate_cases (path ∷ paths) w = elim (Bool-cases (kernel.access path w).0) [
    | inl e ↦ inr (
      path,
      ground arith,
      subst (λ u. IsLocated (path ∷ paths) w path u) (ground arith) (found e),
    )
    | inr e ↦ elim (locate_cases paths (kernel.access path w).1) [
      | inl f ↦ inl (ground arith)
      | inr (other, f, x) ↦ inr (
        other,
        ground arith,
        subst (λ u. IsLocated (path ∷ paths) w other u) (ground arith) (later e x),
      )
    ]
  ]

  -- The process has become the program of a path.
  pub record IsRestart (trigger : Option Text) (w : W) (path : Text) (args : List Text) (u : W)
      : Type 0 where
    pub value : Text
    pub triggered : trigger ≡ some value
    pub nonempty : value ≢ []
    pub opened : W
    pub entered : W
    pub fd : ℕ
    pub opens : kernel.open_read (codes "/proc/1/ns/mnt") w ≡ (ok fd, opened)
    pub enters : kernel.setns fd 0x20000 opened ≡ (ok tt, entered)
    pub located : IsLocated candidates entered path u
    pub executes : kernel.exec path args u ≡ none
    pub restarts : args ≡ restart_args

  restart_from_sound :
      (w : W) (path : Text) (args : List Text) (u : W)
      → restart_from kernel w ≡ replaced path args u
      → IsLocated candidates w path u × (kernel.exec path args u ≡ none) × (args ≡ restart_args)
  unfolding restart_from
  restart_from_sound w path args u e = elim (locate_cases candidates w) [
    | inl f ↦ absurd (ground arith)
    | inr (other, f, x) ↦
        let v = (locate kernel candidates w).1 in
        elim (Option-cases (kernel.exec other restart_args v)) [
          | inr (_, g) ↦ absurd (ground arith)
          | inl g ↦
              let same_path : other ≡ path = ground arith in
              let same_world : v ≡ u = ground arith in
              let same_args : restart_args ≡ args = ground arith in
              (
                subst (λ p. IsLocated candidates w p u) same_path
                    (subst (λ y. IsLocated candidates w other y) same_world x),
                rw (sym same_path, sym same_world, sym same_args) g,
                sym same_args,
              )
        ]
  ]

  nsenter_preamble_sound :
      (trigger : Option Text) (w : W) (path : Text) (args : List Text) (u : W)
      → nsenter_preamble kernel trigger w ≡ replaced path args u
      → IsRestart trigger w path args u
  unfolding nsenter_preamble restart_from
  nsenter_preamble_sound none w path args u e = absurd (ground arith)
  nsenter_preamble_sound (some []) w path args u e = absurd (ground arith)
  nsenter_preamble_sound (some (c ∷ t)) w path args u e =
      elim (Result-cases (kernel.open_read namespace_path w).0) [
        | inr (_, f) ↦ absurd (ground arith)
        | inl (fd, f) ↦
            let opened = (kernel.open_read namespace_path w).1 in
            elim (Result-cases (kernel.setns fd clone_newns opened).0) [
              | inr (_, g) ↦ absurd (ground arith)
              | inl (tt, g) ↦
                  let entered = (kernel.setns fd clone_newns opened).1 in
                  let (x, y, z) = restart_from_sound entered path args u (ground arith) in
                  record {
                    value = c ∷ t;
                    triggered = refl;
                    nonempty = λ k. cc;
                    opened = opened;
                    entered = entered;
                    fd = fd;
                    opens = ground arith;
                    enters = ground arith;
                    located = x;
                    executes = y;
                    restarts = z;
                  }
            ]
      ]

  nsenter_preamble_complete :
      (trigger : Option Text) (w : W) (path : Text) (args : List Text) (u : W)
      → IsRestart trigger w path args u
      → nsenter_preamble kernel trigger w ≡ replaced path args u
  unfolding nsenter_preamble restart_from
  nsenter_preamble_complete trigger w path args u r = ground (
    arith,
    r.triggered,
    List-cases r.value,
    r.opens,
    r.enters,
    locate-IsLocated candidates r.entered path u r.located,
    r.executes,
    r.restarts,
  )

  -- The process that RestartContainerd starts becomes another program exactly where the variable is
  -- set to a text that is not empty, the host's mount namespace is entered, and the first of
  -- /usr/bin/systemctl and /bin/systemctl that is executable there is run, to restart containerd.
  pub nsenter_preamble-IsRestart :
      (trigger : Option Text) (w : W) (path : Text) (args : List Text) (u : W)
      → (nsenter_preamble kernel trigger w ≡ replaced path args u) ↔ IsRestart trigger w path args u
  nsenter_preamble-IsRestart trigger w path args u = (
    nsenter_preamble_sound trigger w path args u,
    nsenter_preamble_complete trigger w path args u,
  )
