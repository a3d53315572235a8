-- ===== src/Service/Gauge.antt =====
-- The gauge of pinned snapshots over the life of the daemon: the operations that change it, in any
-- order, and all that happens between them.
use pv_snapshotter.Base.{
  ℕ, ◌≡◌, refl, ap, subst, sym, ◌⊎◌, inl, inr, true, some, List, [], ◌∷◌, Text, arith, length,
  filter, Error, ok, err, Result-cases,
}
use mathlib.Core.List.{Memᴰ}
use pv_snapshotter.Base.Int.{pos, pos_part, neg_part, ◌+ℤ◌, int_laws}
use pv_snapshotter.Exec.{State, call}
use pv_snapshotter.Host.{Lease, Opt}
use pv_snapshotter.Key.{parse_snapshot_key}
use pv_snapshotter.Dedup.{DedupManager, k8s_namespace}
use pv_snapshotter.Dedup.Store.{IsLeaseStore, is_managed}
use pv_snapshotter.Dedup.Leases.{pin_layer, delete_lease, gc_orphan_leases}
use pv_snapshotter.Dedup.Leases.Metrics.{gc_orphan_leases-Released}
use pv_snapshotter.Dedup.Gauge.{IsCounted, managed, Drifts, Lags, Lags-same, Lags-trans}
use pv_snapshotter.Dedup.Gauge.Releasing.{
  refused_Lags, pin_layer-Lags, unpin_by_active_key-Lags, delete_lease-Lags,
}
use pv_snapshotter.Dedup.Gauge.Sweeping.{gc_orphan_leases-Lags}
use pv_snapshotter.Service.{Snapshotter, prepare, remove, handle_delete_lease, handle_gc_leases}
use pv_snapshotter.Service.Dedup.{prepare_cases, remove_cases, unpinned}

-- The key is of no namespace but the one of Kubernetes.
abbrev pub IsKubernetes : Text → Type 0
IsKubernetes key =
    (ns : Text) (id : Text) → parse_snapshot_key key ≡ some (ns, id) → ns ≡ k8s_namespace

module _ {W C T : Type 0} (sn : Snapshotter W C T) (held : W → List Lease) where
  -- A step of the daemon or of anything else on the node: the operations that change the gauge, with
  -- any arguments, and all that leaves it, be it another operation of the daemon or a change of the
  -- world that it does not make.
  pub data DaemonStep : State W → State W → Type 0 where
    by_prepare :
        (key parent : Text) (opts : List Opt) (s : State W)
        → DaemonStep s (prepare sn key parent opts s).1
    by_remove : (key : Text) (s : State W) → DaemonStep s (remove sn key s).1
    by_delete : (id : Text) (s : State W) → DaemonStep s (handle_delete_lease sn id s).1
    by_sweep : (s : State W) → DaemonStep s (handle_gc_leases sn s).1
    by_others : {s t : State W} → t.pinned_snapshots ≡ s.pinned_snapshots → DaemonStep s t

  pub data DaemonRun (s : State W) : State W → Type 0 where
    start : DaemonRun s s
    later : {t u : State W} → DaemonRun s t → DaemonStep t u → DaemonRun s u

  -- The native snapshotter makes and deletes no lease.
  pub record IsNative : Type 0 where
    pub prepare_held :
        (key parent : Text) (opts : List Opt) (w : W)
        → held (sn.sn.prepare key parent opts w).1 ≡ held w
    pub remove_held : (key : Text) (w : W) → held (sn.sn.remove key w).1 ≡ held w

module _ {W C T : Type 0} (sn : Snapshotter W C T) (m : DedupManager W)
    (held : W → List Lease) where
  -- The conditions on a step: its key is of the namespace of Kubernetes; what is deleted by its
  -- identifier is a managed lease that is held, or the service refuses; and others neither make nor
  -- delete managed leases.
  abbrev pub IsOwnStep : {s t : State W} → DaemonStep sn held s t → Type 0
  IsOwnStep (by_prepare key _ _ _) = IsKubernetes key
  IsOwnStep (by_remove key _) = IsKubernetes key
  IsOwnStep (by_delete id s) =
      ((l : Lease) × Memᴰ l (held s.world) × (is_managed l ≡ true) × (l.id ≡ id))
      ⊎ ((x : Error) × (((m.leases_service k8s_namespace).delete id s.world).0 ≡ err x))
  IsOwnStep (by_sweep _) = Unit {0}
  IsOwnStep (by_others {s} {t} _) = managed held t ≡ managed held s

  -- Every step of the run meets them.
  abbrev pub IsOwnRun : {s t : State W} → DaemonRun sn held s t → Type 0
  IsOwnRun start = Unit {0}
  IsOwnRun (later run step) = IsOwnRun run × IsOwnStep step

module _ {W C T : Type 0} (sn : Snapshotter W C T) (m : DedupManager W) (held : W → List Lease)
    (enabled : sn.dedup ≡ some m) (native : IsNative sn held)
    (store : IsLeaseStore m k8s_namespace held) (counted : IsCounted m k8s_namespace held) where
  abbrev Trails : State W → State W → Type 0
  Trails = Lags m k8s_namespace held

  prepare-Trails :
      (key parent : Text) (opts : List Opt) (s : State W)
      → IsKubernetes key
      → Trails s (prepare sn key parent opts s).1
  prepare-Trails key parent opts s k =
      let t = (call (sn.sn.prepare key parent opts) s).1 in
      let same = native.prepare_held key parent opts s.world in
      let idle : Trails s t =
        Lags-same m k8s_namespace held s t refl (ap (λ ks. length (filter is_managed ks)) same) in
      elim (prepare_cases sn key parent opts s) [
        | inr (_, e) ↦ rw e idle
        | inl (p, e) ↦
            let same_m : m ≡ p.manager = cc (enabled, p.enabled) in
            let same_ns : k8s_namespace ≡ p.ns = sym (k p.ns p.active_id p.is_active) in
            let pinned = pin_layer-Lags m k8s_namespace held store counted p.chain_id key t in
            rw e (
              Lags-trans m k8s_namespace held s t _ idle (
                subst (λ n. Trails t (pin_layer p.manager n p.chain_id key t).1) same_ns
                  (subst (λ d. Trails t (pin_layer d k8s_namespace p.chain_id key t).1) same_m
                    pinned)))
      ]

  remove-Trails : (key : Text) (s : State W) → IsKubernetes key → Trails s (remove sn key s).1
  remove-Trails key s k =
      let t = (call (sn.sn.remove key) s).1 in
      let same = native.remove_held key s.world in
      let idle : Trails s t =
        Lags-same m k8s_namespace held s t refl (ap (λ ks. length (filter is_managed ks)) same) in
      elim (remove_cases sn key s) [
        | inr (_, e) ↦ rw e idle
        | inl (d, ns, id, f, g, e) ↦
            let same_m : m ≡ d = cc (enabled, f) in
            let same_ns : k8s_namespace ≡ ns = sym (k ns id g) in
            let freed = unpin_by_active_key-Lags m k8s_namespace held store counted key t in
            rw e (
              Lags-trans m k8s_namespace held s t _ idle (
                subst (λ n. Trails t (unpinned sn d n key t)) same_ns
                  (subst (λ d. Trails t (unpinned sn d k8s_namespace key t)) same_m freed)))
      ]

  swept_state : (s : State W) → (handle_gc_leases sn s).1 ≡ (gc_orphan_leases m k8s_namespace s).1
  unfolding handle_gc_leases
  swept_state s =
      let (n, e, _) = gc_orphan_leases-Released m k8s_namespace s in ground (arith, enabled, e)

  -- Without an identifier the handler answers 400, and does nothing.
  deleted_state :
      (id : Text) (s : State W)
      → ((handle_delete_lease sn id s).1 ≡ s)
        ⊎ ((handle_delete_lease sn id s).1 ≡ (delete_lease m k8s_namespace id s).1)
  unfolding handle_delete_lease
  deleted_state [] s = inl (rw enabled refl)
  deleted_state (c ∷ id) s = inr (elim (Result-cases (delete_lease m k8s_namespace (c ∷ id) s).0) [
    | inl (_, e) ↦ ground (arith, enabled, e)
    | inr (x, e) ↦ ground (arith, enabled, e)
  ])

  delete-Trails :
      (id : Text) (s : State W) (l : Lease)
      → Memᴰ l (held s.world)
      → is_managed l ≡ true
      → l.id ≡ id
      → Trails s (handle_delete_lease sn id s).1
  delete-Trails id s l i g same = elim (deleted_state id s) [
    | inl e ↦ rw e (Lags-same m k8s_namespace held s s refl refl)
    | inr e ↦ rw e (
        subst (λ x. Trails s (delete_lease m k8s_namespace x s).1) same
          (delete_lease-Lags m k8s_namespace held store counted l s i g))
  ]

  DaemonStep-Trails :
      {s t : State W} (step : DaemonStep sn held s t) → IsOwnStep sn m held step → Trails s t
  DaemonStep-Trails (by_prepare key parent opts s) k = prepare-Trails key parent opts s k
  DaemonStep-Trails (by_remove key s) k = remove-Trails key s k
  DaemonStep-Trails (by_delete id s) (inl (l, i, g, same)) = delete-Trails id s l i g same
  DaemonStep-Trails (by_delete id s) (inr (x, refused)) = elim (deleted_state id s) [
    | inl e ↦ rw e (Lags-same m k8s_namespace held s s refl refl)
    | inr e ↦ rw e (refused_Lags m k8s_namespace held store counted id s x refused)
  ]
  DaemonStep-Trails (by_sweep s) k =
      rw (swept_state s) (gc_orphan_leases-Lags m k8s_namespace held store counted s)
  DaemonStep-Trails (by_others {s} {t} e) f = Lags-same m k8s_namespace held s t e f

  DaemonRun-Trails :
      {s t : State W} (run : DaemonRun sn held s t) → IsOwnRun sn m held run → Trails s t
  DaemonRun-Trails {s} start k = Lags-same m k8s_namespace held s s refl refl
  DaemonRun-Trails {s} {t} (later {t = mid} run step) (k, h) =
      Lags-trans m k8s_namespace held s mid t (DaemonRun-Trails run k) (DaemonStep-Trails step h)

  -- Along a run of the daemon in which every key is of the namespace k8s.io, every DELETE request
  -- names a held and managed lease or is refused by the lease service, and nobody but the daemon
  -- makes or deletes managed leases: with services that behave as documented, whichever of their
  -- calls fail, the number of managed leases less the gauge of pinned snapshots never falls.
  pub DaemonRun-Drifts :
      {s t : State W} (run : DaemonRun sn held s t)
      → IsOwnRun sn m held run
      → (n : ℕ) × Drifts held n s t
  DaemonRun-Drifts run own = let (n, d, _) = DaemonRun-Trails run own in (n, d)

  -- Along a run of the daemon in which every key is of the namespace k8s.io, every DELETE request
  -- names a held and managed lease or is refused by the lease service, and nobody but the daemon
  -- makes or deletes managed leases: with services that behave as documented and of which no Delete
  -- of a lease that is held fails, the distance of the gauge of pinned snapshots from the number of
  -- managed leases stays the same, whichever other calls fail.
  pub DaemonRun-balanced :
      ((l : Lease) (w : W)
        → Memᴰ l (held w)
        → ((m.leases_service k8s_namespace).delete l.id w).0 ≡ ok tt)
      → {s t : State W} (run : DaemonRun sn held s t) → IsOwnRun sn m held run
      → t.pinned_snapshots +ℤ pos (managed held s) ≡ s.pinned_snapshots +ℤ pos (managed held t)
  DaemonRun-balanced deletes {s} {t} run own =
      let (n, d, e) = DaemonRun-Trails run own in
      elim e [
        | inl none_lost ↦ omega (int_laws, ap pos_part d.drift, ap neg_part d.drift, none_lost)
        | inr (l, w, i, x, refused) ↦ cc (deletes l w i, refused)
      ]
