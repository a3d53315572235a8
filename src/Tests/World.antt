-- ===== src/Tests/World.antt =====
-- A small world: the owners of the leases that the lease service holds, and services that answer
-- for it.
use pv_snapshotter.Base.{
  ◌≡◌, refl, sym, ap, inl, inr, Bool, not, none, some, List, [], ◌∷◌, ◌++◌, map, Text, codes, ◌==◌,
  if◌then◌else◌, filter, All, host, not_found, Result, ok, err, lookup, lookup_or, cut_prefix,
  Bool-cases,
}
use pv_snapshotter.Exec.{State}
use pv_snapshotter.Base.Int.{pos}
use pv_snapshotter.Host.{Info, Mount, Snapshots, Lease, LeaseService, Files}
use pv_snapshotter.Dedup.{DedupManager}
use pv_snapshotter.Dedup.Leases.{owner_key, managed_by, managed_by_value, pin_labels}
use pv_snapshotter.Dedup.Store.{IsLeaseStore, Answers, IsUnique, has_label, without}

abbrev pub World : Type 0
World = List Text

abbrev pub lease_of : Text → Lease
lease_of owner = record { id = owner; created_at = 0; labels = pin_labels owner }

abbrev pub held : World → List Lease
held w = map lease_of w

abbrev pub owners_without : Text → World → World
owners_without id = filter (λ o. not (o == id))

abbrev owned_query : Text
owned_query = codes "labels." ++ (owner_key ++ codes "==")

abbrev pub answer : Text → List Lease → Result (List Lease)
answer query ls = elim (cut_prefix query owned_query) [
  | some owner ↦ ok (filter (has_label owner_key owner) ls)
  | none ↦ if query == label_query then ok ls else err (host (codes "bad filter"))
]
  where
    label_query : Text
    label_query = codes "labels." ++ (managed_by ++ (codes "==" ++ managed_by_value))

abbrev pub lease_service : LeaseService World
lease_service = record {
  create = λ labels w. (ok (lease_of (lookup_or owner_key labels)), lookup_or owner_key labels ∷ w);
  add_resource = λ l r w. (ok tt, w);
  list = λ query w. (answer query (held w), w);
  delete = λ id w. (ok tt, owners_without id w);
}

abbrev pub alive_key : Text
alive_key = codes "k8s.io/1/alive"

abbrev pub info_of : Text → Info
info_of key = record { name = key; parent = []; labels = [] }

abbrev pub is_alive : Text → Bool
is_alive key = key == alive_key

abbrev pub native_mount : Mount
native_mount = record {
  type = codes "overlay";
  source = codes "overlay";
  options =
      codes "index=off"
      ∷ codes "workdir=/n/work"
      ∷ codes "upperdir=/n/fs"
      ∷ codes "lowerdir=/a:/b"
      ∷ [];
}

-- Only `alive_key` is there; every key has the native mounts.
abbrev pub snapshots : {W : Type 0} → Snapshots W
snapshots = record {
  stat = λ key w. (if is_alive key then ok (info_of key) else err (not_found key), w);
  mounts = λ key w. (ok (native_mount ∷ []), w);
  prepare = λ key parent opts w. (ok (native_mount ∷ []), w);
  view = λ key parent opts w. (ok (native_mount ∷ []), w);
  commit = λ name key opts w. (ok tt, w);
  remove = λ key w. (err (host (codes "busy")), w);
  update = λ info paths w. (ok info, w);
  usage = λ key w. (ok (record { inodes = 0; size = 0 }), w);
  walk = λ fn filters w. (ok tt, w);
  close = λ w. (ok tt, w);
}

-- "/vol" is a mountpoint: its device is 2, and that of every other path is 1.
abbrev pub files : {W : Type 0} → Files W
files = record {
  stat = λ path w. (ok tt, w);
  device = λ path w. (ok (if path == codes "/vol" then 2 else 1), w);
  mkdir_all = λ path mode w. (ok tt, w);
  remove_all = λ path w. (ok tt, w);
  symlink = λ target path w. (ok tt, w);
}

abbrev pub manager : DedupManager World
manager = record {
  overlayfs = λ ns. snapshots;
  leases_service = λ ns. lease_service;
  local_sn = snapshots;
  files = files;
  quote = λ t. t;
}

abbrev pub state : World → State World
state w = record { world = w; pinned_snapshots = pos 2; unpin_failures = 0; orphan_leases = 0 }

map-without : (id : Text) (w : World) → held (owners_without id w) ≡ without id (held w)
map-without id [] = refl
map-without id (o ∷ w) = elim (Bool-cases (o == id)) [
  | inl e ↦ rw e (map-without id w)
  | inr e ↦ rw e (ap (λ ls. lease_of o ∷ ls) (map-without id w))
]

IsUnique-among : (o : Text) (w : World) → IsUnique (lease_of o) (held w)
IsUnique-among o [] = tt
IsUnique-among o (p ∷ w) = ((λ e. ap lease_of e), IsUnique-among o w)

All-IsUnique : (v w : World) → All (λ l. IsUnique l (held w)) (held v)
All-IsUnique [] w = tt
All-IsUnique (o ∷ v) w = (IsUnique-among o w, All-IsUnique v w)

all_managed : (w : World) → filter (has_label managed_by managed_by_value) (held w) ≡ held w
unfolding lookup ◌==◌
all_managed [] = refl
all_managed (o ∷ w) = ap (λ ls. lease_of o ∷ ls) (all_managed w)

-- The lease service of this world behaves as the theorems assume.
pub store : IsLeaseStore manager (codes "k8s.io") held
unfolding cut_prefix ◌==◌
store = record {
  unique = λ w. All-IsUnique w w;
  owned_result = λ owner w. inl refl;
  managed_result = λ w. inl (ap ok (sym (all_managed w)));
  list_held = λ query w. refl;
  delete_result = λ id w. inl (refl, map-without id w);
  stat_held = λ key w. refl;
}

-- No call of these services fails.
pub answers : Answers manager (codes "k8s.io") held is_alive
unfolding cut_prefix lookup ◌==◌
answers = record {
  owned_answer = λ owner w. refl;
  managed_answer = λ w. ap ok (sym (all_managed w));
  delete_answer = λ id w. refl;
  stat_alive = λ key w e. (info_of key, rw e);
  stat_missing = λ key w e. (not_found key, rw e refl);
  create_answer = λ owner w. (lease_of owner, refl, refl, refl);
  add_answer = λ l r w. (refl, refl);
}
