-- ===== src/Service/Blocked.antt =====
-- Stat after a call of it was cut short.
use pv_snapshotter.Base.{◌≡◌, subst, ◌∙◌, ◌⊎◌, inl, inr, Bool, true, some, Text, arith, Error, err}
use pv_snapshotter.Exec.{State, call}
use pv_snapshotter.Host.{Snapshots}
use pv_snapshotter.Dedup.{DedupManager}
use pv_snapshotter.Dedup.Reference.{or_k8s, probe_key, tmp_key, stat_with_lazy_materialise}
use pv_snapshotter.Dedup.Reference.Blocked.{IsKeyed, IsApart, IsBlocked, lazy_stat-IsBlocked}
use pv_snapshotter.Service.{Snapshotter, stat}

module _ {W C T : Type 0} (sn : Snapshotter W C T) (m : DedupManager W) (ns : Text)
    (host_taken taken : Text → W → Bool) where
  -- The dedup path is enabled, over the native snapshotter itself, and both snapshotters behave as
  -- documented.
  pub record IsShared : Type 0 where
    pub enabled : sn.dedup ≡ some m
    pub same : m.local_sn ≡ sn.sn
    pub host : IsKeyed (m.overlayfs (or_k8s ns)) host_taken
    pub keyed : IsKeyed m.local_sn taken
    pub host_apart : IsApart m.local_sn host_taken
    pub apart : IsApart (m.overlayfs (or_k8s ns)) taken

  went_to_host :
      (key : Text) (s : State W) (x : Error)
      → sn.dedup ≡ some m
      → (sn.sn.stat key s.world).0 ≡ err x
      → stat sn ns key s ≡ stat_with_lazy_materialise m ns key sn.sn (call (sn.sn.stat key) s).1
  unfolding stat
  went_to_host key s x e f = ground (arith, e, f)

  -- With the dedup path enabled and snapshotters that behave as documented: as long as the layer's
  -- snapshot is missing and the probe view or the temporary snapshot of an earlier call of Stat is
  -- still there, Stat of the layer fails, and leaves it so.
  pub stat-IsBlocked :
      (key : Text) (s : State W)
      → IsShared
      → IsBlocked host_taken taken key s.world
      → (x : Error) × ((stat sn ns key s).0 ≡ err x)
        × IsBlocked host_taken taken key (stat sn ns key s).1.world
  stat-IsBlocked key s h (f, b) =
      let w = s.world in
      let (x, missing) = h.keyed.stat_missing key w f in
      let missed = subst (λ d. (d.stat key w).0 ≡ err x) h.same missing in
      let seen = (m.local_sn.stat key w).1 in
      let b' : (host_taken (probe_key key) seen ≡ true) ⊎ (taken (tmp_key key) seen ≡ true) =
        elim b [
          | inl probe ↦ inl (h.host_apart.stat_apart (probe_key key) key w ∙ probe)
          | inr tmp ↦ inr (h.keyed.stat_keys (tmp_key key) key w ∙ tmp)
        ] in
      rw (went_to_host key s x h.enabled missed) (
        subst Blocked h.same (
          lazy_stat-IsBlocked m ns key host_taken taken h.host h.keyed h.apart
            (call (m.local_sn.stat key) s).1 (h.keyed.stat_keys key key w ∙ f, b')))
    where
      Blocked : Snapshots W → Type 0
      Blocked d =
          (x : Error) × ((stat_with_lazy_materialise m ns key d (call (d.stat key) s).1).0 ≡ err x)
          × IsBlocked host_taken taken key
              (stat_with_lazy_materialise m ns key d (call (d.stat key) s).1).1.world
