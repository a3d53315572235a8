-- ===== src/Tests/Gauge.antt =====
-- The gauge of pinned snapshots in a small world, in which every lease has an identifier of its own.
use pv_snapshotter.Base.{
  ℕ, zero, suc, ◌≤◌, ◌<◌, ◌≡◌, ◌≢◌, refl, sym, ap, inl, inr, true, none, some, Option, List, [],
  ◌∷◌, Text, codes, ◌==◌, if◌then◌else◌, filter, All, length, lookup, lookup_or, cut_prefix,
  has_prefix, cut, contains, split_n, ok, Bool-cases, arith,
}
use pv_snapshotter.Base.Int.{pos, negsuc, ◌+ℤ◌, ◌-ℤ◌}
use pv_snapshotter.Exec.{State}
use pv_snapshotter.Key.{parse_snapshot_key, is_chain_id, key_of_parts, is_digest}
use pv_snapshotter.Host.{Lease, LeaseService}
use pv_snapshotter.Dedup.{DedupManager, k8s_namespace}
use pv_snapshotter.Dedup.Leases.{owner_key, pin_labels, pin_layer, unpin_by_active_key, unpin_each}
use pv_snapshotter.Dedup.Store.{IsLeaseStore, has_label, is_managed, without}
use pv_snapshotter.Dedup.Gauge.Counting.{distinct-IsUnique}
use pv_snapshotter.Service.{Snapshotter, prepare, remove, pin_parent, unpin_key}
use pv_snapshotter.Service.Gauge.{
  IsKubernetes, IsNative, IsOwnRun, DaemonRun, start, later, by_prepare, by_remove,
  DaemonRun-Drifts, DaemonRun-balanced,
}
use pv_snapshotter.Tests.World.{answer, snapshots, files}
use pv_snapshotter.Tests.Daemon.{daemon_with}
use pv_snapshotter.Tests.Serving.{workload_key, layer_key}
use pv_snapshotter.Dedup.Gauge.{IsCounted, HasDistinctIds, managed, Drifts}

-- The owners of the leases that were made, the last one first; none where the lease is deleted.
abbrev Slots : Type 0
Slots = List (Option Text)

abbrev unary : ℕ → Text
unary zero = []
unary (suc n) = 1 ∷ unary n

abbrev lease_at : Slots → Text → Lease
lease_at below owner = record {
  id = unary (length below);
  created_at = 0;
  labels = pin_labels owner;
}

abbrev held : Slots → List Lease
held [] = []
held (none ∷ slots) = held slots
held (some owner ∷ slots) = lease_at slots owner ∷ held slots

abbrev deleted : Text → Slots → Slots
deleted id [] = []
deleted id (slot ∷ slots) = (if unary (length slots) == id then none else slot) ∷ deleted id slots

abbrev slot_service : LeaseService Slots
slot_service = record {
  create =
      λ labels w. let owner = lookup_or owner_key labels in (ok (lease_at w owner), some owner ∷ w);
  add_resource = λ l r w. (ok tt, w);
  list = λ query w. (answer query (held w), w);
  delete = λ id w. (ok tt, deleted id w);
}

abbrev slot_manager : DedupManager Slots
slot_manager = record {
  overlayfs = λ ns. snapshots;
  leases_service = λ ns. slot_service;
  local_sn = snapshots;
  files = files;
  quote = λ t. t;
}

abbrev slot_daemon : Snapshotter Slots Text Text
slot_daemon = daemon_with (some slot_manager)

length-unary : (n : ℕ) → length (unary n) ≡ n
length-unary zero = refl
length-unary (suc n) = ap suc (length-unary n)

unary_apart : (a b : ℕ) → a < b → unary a ≢ unary b
unary_apart a b h e = omega (arith, ap length e, length-unary a, length-unary b, h)

ids_below : (n : ℕ) (slots : Slots) → length slots ≤ n → All (λ l. l.id ≢ unary n) (held slots)
ids_below n [] h = tt
ids_below n (none ∷ slots) h = ids_below n slots (omega (arith, h))
ids_below n (some owner ∷ slots) h =
    (unary_apart (length slots) n (omega (arith, h)), ids_below n slots (omega (arith, h)))

distinct_held : (slots : Slots) → HasDistinctIds (held slots)
distinct_held [] = tt
distinct_held (none ∷ slots) = distinct_held slots
distinct_held (some owner ∷ slots) =
    (ids_below (length slots) slots (omega arith), distinct_held slots)

length-deleted : (id : Text) (slots : Slots) → length (deleted id slots) ≡ length slots
length-deleted id [] = refl
length-deleted id (slot ∷ slots) = ap suc (length-deleted id slots)

held-deleted : (id : Text) (slots : Slots) → held (deleted id slots) ≡ without id (held slots)
held-deleted id [] = refl
held-deleted id (none ∷ slots) = elim (Bool-cases (unary (length slots) == id)) [
  | inl e ↦ rw e (held-deleted id slots)
  | inr e ↦ rw e (held-deleted id slots)
]
held-deleted id (some owner ∷ slots) = elim (Bool-cases (unary (length slots) == id)) [
  | inl e ↦ rw e (held-deleted id slots)
  | inr e ↦
      rw (e, length-deleted id slots) (ap (λ ls. lease_at slots owner ∷ ls) (held-deleted id slots))
]

all_managed : (slots : Slots) → filter is_managed (held slots) ≡ held slots
unfolding lookup ◌==◌
all_managed [] = refl
all_managed (none ∷ slots) = all_managed slots
all_managed (some owner ∷ slots) = ap (λ ls. lease_at slots owner ∷ ls) (all_managed slots)

owners_managed :
    (owner : Text) (slots : Slots)
    → All (λ l. has_label owner_key owner l ≡ true → is_managed l ≡ true) (held slots)
unfolding lookup ◌==◌
owners_managed owner [] = tt
owners_managed owner (none ∷ slots) = owners_managed owner slots
owners_managed owner (some o ∷ slots) = ((λ e. refl), owners_managed owner slots)

slot_store : IsLeaseStore slot_manager k8s_namespace held
unfolding cut_prefix ◌==◌
slot_store = record {
  unique = λ w. distinct-IsUnique (held w) (distinct_held w);
  owned_result = λ owner w. inl refl;
  managed_result = λ w. inl (ap ok (sym (all_managed w)));
  list_held = λ query w. refl;
  delete_result = λ id w. inl (refl, held-deleted id w);
  stat_held = λ key w. refl;
}

slot_laws : IsCounted slot_manager k8s_namespace held
unfolding lookup ◌==◌
slot_laws = record {
  distinct = distinct_held;
  owned_managed = owners_managed;
  create_result = λ owner w. inl (lease_at w owner, refl, refl, refl);
  add_held = λ l r w. refl;
}

slot_native : IsNative slot_daemon held
slot_native = record { prepare_held = λ key parent opts w. refl; remove_held = λ key w. refl }

-- The daemon starts on a node on which a lease of an earlier process is held.
abbrev restarted : State Slots
restarted = record {
  world = some workload_key ∷ [];
  pinned_snapshots = pos 0;
  unpin_failures = 0;
  orphan_leases = 0;
}

parsed : parse_snapshot_key workload_key ≡ some (k8s_namespace, codes "abc")
unfolding parse_snapshot_key split_n cut contains has_prefix cut_prefix ◌==◌ key_of_parts
parsed = refl

workload_namespace : IsKubernetes workload_key
workload_namespace ns id e = cc (parsed, e)

abbrev pinned_state : State Slots
pinned_state = (prepare slot_daemon workload_key layer_key [] restarted).1

abbrev one_day :
    DaemonRun slot_daemon held restarted (remove slot_daemon workload_key pinned_state).1
one_day =
    later (later start (by_prepare workload_key layer_key [] restarted))
      (by_remove workload_key pinned_state)

own_day : IsOwnRun slot_daemon slot_manager held one_day
own_day = ((tt, workload_namespace), workload_namespace)

DaemonRun-Drifts_example :
    (n : ℕ) × Drifts held n restarted (remove slot_daemon workload_key pinned_state).1
DaemonRun-Drifts_example =
    DaemonRun-Drifts slot_daemon slot_manager held refl slot_native slot_store slot_laws one_day
      own_day

DaemonRun-balanced_example :
    (remove slot_daemon workload_key pinned_state).1.pinned_snapshots
      +ℤ pos (managed held restarted)
    ≡ restarted.pinned_snapshots
      +ℤ pos (managed held (remove slot_daemon workload_key pinned_state).1)
DaemonRun-balanced_example =
    DaemonRun-balanced slot_daemon slot_manager held refl slot_native slot_store slot_laws
      (λ l w i. refl) one_day own_day

-- Both leases are gone in the end, and the gauge is below zero.
below_zero : (remove slot_daemon workload_key pinned_state).1.pinned_snapshots ≡ negsuc 0
unfolding prepare remove pin_parent unpin_key pin_layer unpin_by_active_key unpin_each
    parse_snapshot_key is_chain_id split_n cut contains has_prefix cut_prefix lookup ◌==◌ ◌+ℤ◌ ◌-ℤ◌
    key_of_parts is_digest
below_zero = refl
