-- ===== src/Dedup/Store.antt =====
-- What the theorems on leases assume of containerd's lease service and of the local snapshotter:
-- the documented behaviour of leases.Manager and snapshots.Snapshotter, as laws on the leases that
-- the service holds. Every call may fail; one that fails leaves the leases as they were.
use pv_snapshotter.Base.{
  ◌≡◌, ◌⊎◌, Bool, true, false, not, List, ◌∷◌, Text, ◌==◌, lookup, filter, All, Error, ok, err,
  none, some,
}
use pv_snapshotter.Host.{Lease, Info, Resource}
use pv_snapshotter.Dedup.Defs.{DedupManager}
use pv_snapshotter.Dedup.Leases.{label_filter, owner_key, managed_by, managed_by_value, pin_labels}

abbrev pub has_label : Text → Text → Lease → Bool
has_label key value l = elim (lookup key l.labels) [ none ↦ false | some v ↦ v == value ]

abbrev pub is_managed : Lease → Bool
is_managed = has_label managed_by managed_by_value

abbrev pub without : Text → List Lease → List Lease
without id = filter (λ l. not (l.id == id))

-- A lease is the only one with its identifier.
abbrev pub IsUnique : Lease → List Lease → Type 0
IsUnique l ls = All (λ k. k.id ≡ l.id → k ≡ l) ls

module _ {W : Type 0} (m : DedupManager W) (ns : Text) where
  -- The service lists the leases that have the label, or fails.
  abbrev pub Lists : Text → Text → (W → List Lease) → W → Type 0
  Lists key value held w =
      (((m.leases_service ns).list (label_filter m ns key value) w).0
        ≡ ok (filter (has_label key value) (held w)))
      ⊎ ((x : Error) × (((m.leases_service ns).list (label_filter m ns key value) w).0 ≡ err x))

  -- `held` are the leases of the namespace.
  pub record IsLeaseStore (held : W → List Lease) : Type 0 where
    pub unique : (w : W) → All (λ l. IsUnique l (held w)) (held w)
    -- leases.Manager.List, for the two filters that the program writes.
    pub owned_result : (owner : Text) (w : W) → Lists owner_key owner held w
    pub managed_result : (w : W) → Lists managed_by managed_by_value held w
    pub list_held : (query : Text) (w : W) → held ((m.leases_service ns).list query w).1 ≡ held w
    -- leases.Manager.Delete.
    pub delete_result :
        (id : Text) (w : W)
        → ((((m.leases_service ns).delete id w).0 ≡ ok tt)
            × (held ((m.leases_service ns).delete id w).1 ≡ without id (held w)))
          ⊎ ((x : Error) × (((m.leases_service ns).delete id w).0 ≡ err x)
              × (held ((m.leases_service ns).delete id w).1 ≡ held w))
    -- snapshots.Snapshotter.Stat of the local snapshotter.
    pub stat_held : (key : Text) (w : W) → held (m.local_sn.stat key w).1 ≡ held w

  -- Stat succeeds on these keys, whenever it is called.
  abbrev pub Steady : (Text → Bool) → Type 0
  Steady alive =
      (key : Text) (w : W) → alive key ≡ true → (i : Info) × ((m.local_sn.stat key w).0 ≡ ok i)

  -- No call of the two services fails on a sound request: every List and every Delete succeeds, and
  -- Stat succeeds on the snapshots that exist, which are `alive`, and on no other one.
  pub record Answers (held : W → List Lease) (alive : Text → Bool) : Type 0 where
    pub owned_answer :
        (owner : Text) (w : W)
        → ((m.leases_service ns).list (label_filter m ns owner_key owner) w).0
          ≡ ok (filter (has_label owner_key owner) (held w))
    pub managed_answer :
        (w : W)
        → ((m.leases_service ns).list (label_filter m ns managed_by managed_by_value) w).0
          ≡ ok (filter is_managed (held w))
    pub delete_answer : (id : Text) (w : W) → ((m.leases_service ns).delete id w).0 ≡ ok tt
    pub stat_alive : Steady alive
    pub stat_missing :
        (key : Text) (w : W) → alive key ≡ false → (x : Error) × ((m.local_sn.stat key w).0 ≡ err x)
    -- The lease that `create` returns has the labels that it was given, and is the new one.
    pub create_answer :
        (owner : Text) (w : W)
        → (l : Lease) × (((m.leases_service ns).create (pin_labels owner) w).0 ≡ ok l)
          × (l.labels ≡ pin_labels owner)
          × (held ((m.leases_service ns).create (pin_labels owner) w).1 ≡ l ∷ held w)
    pub add_answer :
        (l : Lease) (r : Resource) (w : W)
        → (((m.leases_service ns).add_resource l r w).0 ≡ ok tt)
          × (held ((m.leases_service ns).add_resource l r w).1 ≡ held w)
