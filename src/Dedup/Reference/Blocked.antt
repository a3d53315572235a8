-- ===== src/Dedup/Reference/Blocked.antt =====
-- Keys that a call of Stat left behind: what the probe view and the temporary snapshot do to the
-- calls after it.
use pv_snapshotter.Base.{
  ◌≡◌, ◌≢◌, refl, ap, ◌∙◌, ◌⊎◌, inl, inr, Bool, true, false, List, [], ◌∷◌, Text, arith, Error,
  Result, ok, err, wrapf, errorf, eq_ne, Result-cases, Bool-cases, List-cases, eq_iff,
}
use pv_snapshotter.Exec.{State, call}
use pv_snapshotter.Host.{Snapshots, Opt, Info}
use pv_snapshotter.Key.{is_chain_id}
use pv_snapshotter.Dedup.Defs.{DedupManager}
use pv_snapshotter.Dedup.Reference.{
  probe_key, tmp_key, or_k8s, overlayfs_layer_path, materialize_reference, resolve_parent_chain_id,
  materialise_locked, stat_with_lazy_materialise,
}
use pv_snapshotter.Dedup.Reference.Lazy.{overlayfs_layer_path_cases}

-- snapshots.Snapshotter: `taken` are the keys of its snapshots. Stat fails on any other key, and
-- View and Prepare on a key that is taken; no call touches a key that it is not given.
pub record IsKeyed {W : Type 0} (sn : Snapshots W) (taken : Text → W → Bool) : Type 0 where
  pub stat_missing :
      (key : Text) (w : W) → taken key w ≡ false → (x : Error) × ((sn.stat key w).0 ≡ err x)
  pub view_taken :
      (key parent : Text) (opts : List Opt) (w : W)
      → taken key w ≡ true
      → (x : Error) × ((sn.view key parent opts w).0 ≡ err x)
        × (taken key (sn.view key parent opts w).1 ≡ true)
  pub prepare_taken :
      (key parent : Text) (opts : List Opt) (w : W)
      → taken key w ≡ true
      → (x : Error) × ((sn.prepare key parent opts w).0 ≡ err x)
        × (taken key (sn.prepare key parent opts w).1 ≡ true)
  pub stat_keys : (k key : Text) (w : W) → taken k (sn.stat key w).1 ≡ taken k w
  pub prepare_keys :
      (k key parent : Text) (opts : List Opt) (w : W)
      → k ≢ key
      → taken k (sn.prepare key parent opts w).1 ≡ taken k w

-- The calls of one snapshotter that a Stat makes touch no key of another one.
pub record IsApart {W : Type 0} (sn : Snapshots W) (taken : Text → W → Bool) : Type 0 where
  pub stat_apart : (k key : Text) (w : W) → taken k (sn.stat key w).1 ≡ taken k w
  pub view_apart :
      (k key parent : Text) (opts : List Opt) (w : W)
      → taken k (sn.view key parent opts w).1 ≡ taken k w
  pub remove_apart : (k key : Text) (w : W) → taken k (sn.remove key w).1 ≡ taken k w

-- The layer's snapshot is not there, and the probe view or the temporary snapshot is.
abbrev pub IsBlocked : {W : Type 0} → (Text → W → Bool) → (Text → W → Bool) → Text → W → Type 0
IsBlocked host_taken taken key w =
    (taken key w ≡ false) × ((host_taken (probe_key key) w ≡ true) ⊎ (taken (tmp_key key) w ≡ true))

module _ {W : Type 0} (m : DedupManager W) (ns key : Text) (taken : Text → W → Bool)
    (apart : IsApart (m.overlayfs ns) taken) where
  pub path_apart :
      (k : Text) (s : State W) → taken k (overlayfs_layer_path m ns key s).1.world ≡ taken k s.world
  path_apart k s =
      let w = s.world in
      let found = ((m.overlayfs ns).stat key w).1 in
      let viewed = ((m.overlayfs ns).view (probe_key key) key [] found).1 in
      let a = apart.stat_apart k key w in
      let b = apart.view_apart k (probe_key key) key [] found ∙ a in
      elim (overlayfs_layer_path_cases m ns key s) [
        | inl (_, _, e) ↦ rw e a
        | inr (inl (_, _, _, _, _, e)) ↦ rw e b
        | inr (inr (_, _, _, _, e)) ↦ rw e (apart.remove_apart k (probe_key key) viewed ∙ b)
      ]

module _ {W : Type 0} (m : DedupManager W) (ns key : Text) (host_taken taken : Text → W → Bool)
    (host : IsKeyed (m.overlayfs ns) host_taken) (keyed : IsKeyed m.local_sn taken)
    (apart : IsApart (m.overlayfs ns) taken) where
  probe_blocked :
      (s : State W)
      → host_taken (probe_key key) s.world ≡ true
      → (((overlayfs_layer_path m ns key s).0 ≡ ok [])
          ⊎ ((x : Error) × ((overlayfs_layer_path m ns key s).0 ≡ err x)))
        × (host_taken (probe_key key) (overlayfs_layer_path m ns key s).1.world ≡ true)
  probe_blocked s b =
      let found = call ((m.overlayfs ns).stat key) s in
      let kept = host.stat_keys (probe_key key) key s.world ∙ b in
      let (x, refused, there) = host.view_taken (probe_key key) key [] found.1.world kept in
      elim (overlayfs_layer_path_cases m ns key s) [
        | inl (_, _, e) ↦ rw e (inl refl, kept)
        | inr (inl (_, _, y, _, _, e)) ↦ rw e (inr (y, refl), there)
        | inr (inr (_, _, _, f, _)) ↦ cc
      ]

  -- The state in which the temporary snapshot is prepared.
  abbrev asking : State W → State W
  asking s = (call ((m.overlayfs ns).stat key) (call (m.local_sn.stat key) s).1).1

  abbrev not_prepared : Error → Error
  not_prepared y =
      wrapf "materialising reference for %s: %w" (key ∷ [])
        (wrapf "preparing reference snapshot for chainID %s: %w" (key ∷ []) y)

  -- Where the snapshot is missing and its temporary one cannot be prepared, that is the last call.
  locked_fails :
      (path : Text) (s : State W) (x : Error)
      → (m.local_sn.stat key s.world).0 ≡ err x
      → ((parent : Text)
          → (y : Error) × ((m.local_sn.prepare (tmp_key key) parent [] (asking s).world).0 ≡ err y))
      → (parent : Text) × (y : Error) × (materialise_locked m ns key path m.local_sn s ≡ (
        err (not_prepared y),
        (call (m.local_sn.prepare (tmp_key key) parent []) (asking s)).1,
      ))
  unfolding materialise_locked materialize_reference resolve_parent_chain_id
  locked_fails path s x missing refuses =
      elim (Result-cases (call ((m.overlayfs ns).stat key) (call (m.local_sn.stat key) s).1).0) [
        | inl (info, e) ↦ let (y, refused) = refuses info.parent in (info.parent, y, ground arith)
        | inr (_, e) ↦ let (y, refused) = refuses [] in ([], y, ground arith)
      ]

  locked_blocked :
      (path : Text) (s : State W)
      → taken (tmp_key key) s.world ≡ true
      → taken key s.world ≡ false
      → (x : Error) × ((materialise_locked m ns key path m.local_sn s).0 ≡ err x)
        × (taken (tmp_key key) (materialise_locked m ns key path m.local_sn s).1.world ≡ true)
        × (taken key (materialise_locked m ns key path m.local_sn s).1.world ≡ false)
  locked_blocked path s t f =
      let w = s.world in
      let (x, missing) = keyed.stat_missing key w f in
      let seen = (m.local_sn.stat key w).1 in
      let asked = (asking s).world in
      let t' : taken (tmp_key key) asked ≡ true =
        apart.stat_apart (tmp_key key) key seen ∙ keyed.stat_keys (tmp_key key) key w ∙ t in
      let f' : taken key asked ≡ false =
        apart.stat_apart key key seen ∙ keyed.stat_keys key key w ∙ f in
      let other : key ≢ tmp_key key = λ e. cc (ap (λ k. taken k w) e, t, f) in
      let refuses = λ (parent : Text). keyed.prepare_taken (tmp_key key) parent [] asked t' in
      let (parent, y, e) =
        locked_fails path s x missing (λ parent. ((refuses parent).0, (refuses parent).1)) in
      rw e (
        not_prepared y,
        refl,
        (refuses parent).2,
        keyed.prepare_keys key (tmp_key key) parent [] asked other ∙ f',
      )

module _ {W : Type 0} (m : DedupManager W) (ns key : Text) (s : State W) where
  abbrev probing : Result Text × State W
  probing = overlayfs_layer_path m (or_k8s ns) key s

  -- The host's snapshotter has no layer, or cannot say where it is.
  abbrev pub HasNoPath : Type 0
  HasNoPath = (probing.0 ≡ ok []) ⊎ ((x : Error) × (probing.0 ≡ err x))

  abbrev LazyCases : Result Info × State W → Type 0
  LazyCases r =
      ((x : Error) × (is_chain_id key ≡ false) × (r ≡ (err x, s)))
      ⊎ ((x : Error) × HasNoPath × (r ≡ (err x, probing.1)))
      ⊎ ((path : Text) × (probing.0 ≡ ok path)
          × (path ≢ [])
          × (r ≡ materialise_locked m (or_k8s ns) key path m.local_sn probing.1))

  pub lazy_cases : LazyCases (stat_with_lazy_materialise m ns key m.local_sn s)
  unfolding stat_with_lazy_materialise
  lazy_cases = elim (Bool-cases (is_chain_id key)) [
    | inr e ↦ inl (errorf "not a chainID: %s" (key ∷ []), e, ground arith)
    | inl e ↦ elim (Result-cases probing.0) [
      | inr (x, f) ↦ inr (
          inl (
            wrapf "resolving overlayfs layer path for %s: %w" (key ∷ []) x,
            inr (x, f),
            ground arith,
          ))
      | inl (path, f) ↦ elim (List-cases path) [
        | inl g ↦ inr (
            inl (
              errorf "chainID %s not found in overlayfs (dedup miss)" (key ∷ []),
              inl (f ∙ ap ok g),
              ground (arith, eq_iff path []),
            ))
        | inr n ↦ inr (inr (path, f, n, ground (arith, eq_ne path [] n)))
      ]
    ]
  ]

module _ {W : Type 0} (m : DedupManager W) (ns key : Text) (host_taken taken : Text → W → Bool)
    (host : IsKeyed (m.overlayfs (or_k8s ns)) host_taken) (keyed : IsKeyed m.local_sn taken)
    (apart : IsApart (m.overlayfs (or_k8s ns)) taken) where
  -- A Stat that goes to the host's layers, while it is blocked.
  pub lazy_stat-IsBlocked :
      (s : State W)
      → IsBlocked host_taken taken key s.world
      → (x : Error) × ((stat_with_lazy_materialise m ns key m.local_sn s).0 ≡ err x)
        × IsBlocked host_taken taken key (stat_with_lazy_materialise m ns key m.local_sn s).1.world
  lazy_stat-IsBlocked s (f, inl b) =
      let (outcome, there) =
        probe_blocked m (or_k8s ns) key host_taken taken host keyed apart s b in
      let f' = path_apart m (or_k8s ns) key taken apart key s ∙ f in
      elim (lazy_cases m ns key s) [
        | inl (x, _, e) ↦ rw e (x, refl, (f, inl b))
        | inr (inl (x, _, e)) ↦ rw e (x, refl, (f', inl there))
        | inr (inr (path, g, n, _)) ↦ elim outcome [
          | inl missing ↦ absurd (n cc)
          | inr (x, failed) ↦ cc
        ]
      ]
  lazy_stat-IsBlocked s (f, inr t) =
      let t' = path_apart m (or_k8s ns) key taken apart (tmp_key key) s ∙ t in
      let f' = path_apart m (or_k8s ns) key taken apart key s ∙ f in
      elim (lazy_cases m ns key s) [
        | inl (x, _, e) ↦ rw e (x, refl, (f, inr t))
        | inr (inl (x, _, e)) ↦ rw e (x, refl, (f', inr t'))
        | inr (inr (path, _, _, e)) ↦
            let (x, failed, t'', f'') =
              locked_blocked m (or_k8s ns) key host_taken taken host keyed apart path
                (probing m ns key s).1 t' f' in
            rw e (x, failed, (f'', inr t''))
      ]
