-- ===== src/Webhook/Owner.antt =====
-- The traversal of a pod's owners, resolveOwner of pkg/webhook/mutating.go. Log lines are not
-- modelled.
pub mod Chain
use pv_snapshotter.Base.{
  ℕ, zero, suc, Bool, true, false, Option, none, some, List, [], ◌∷◌, Text, codes, ◌==◌,
  if◌then◌else◌, filter, Result, ok, err, errorf,
}
use pv_snapshotter.Base.Int.{ℤ, pos_part}
use pv_snapshotter.Exec.{Exec, Call, pure, call, wrapping, ◌>>=◌}

-- metav1.OwnerReference, and the name and the owners of an object, with the fields that are read;
-- a pointer is an Option.
pub record OwnerReference : Type 0 where
  pub kind : Text
  pub name : Text
  pub controller : Option Bool

pub record Object : Type 0 where
  pub name : Text
  pub owner_references : List OwnerReference

-- schema.GroupVersionResource.
pub record GroupVersionResource : Type 0 where
  pub group : Text
  pub version : Text
  pub resource : Text

-- The fields of Handler that the traversal uses: `get` is the dynamic client's Get of a resource in
-- a namespace.
pub record OwnerLookup (W : Type 0) : Type 0 where
  pub get : GroupVersionResource → Text → Text → Call W Object
  pub max_owner_depth : ℤ

abbrev pub is_controller : OwnerReference → Bool
is_controller ref = elim ref.controller [ none ↦ false | some c ↦ c ]

unfoldable pub controller_refs : List OwnerReference → List OwnerReference
controller_refs refs = filter is_controller refs

abbrev pub apps : Text → GroupVersionResource
apps resource = record { group = codes "apps"; version = codes "v1"; resource = resource }

abbrev pub batch : Text → GroupVersionResource
batch resource = record { group = codes "batch"; version = codes "v1"; resource = resource }

unfoldable pub owner_ref_to_gvr : OwnerReference → Result GroupVersionResource
owner_ref_to_gvr ref =
    if ref.kind == codes "ReplicaSet"
    then ok (apps (codes "replicasets"))
    else if ref.kind == codes "StatefulSet"
    then ok (apps (codes "statefulsets"))
    else if ref.kind == codes "Deployment"
    then ok (apps (codes "deployments"))
    else if ref.kind == codes "DaemonSet"
    then ok (apps (codes "daemonsets"))
    else if ref.kind == codes "Job"
    then ok (batch (codes "jobs"))
    else if ref.kind == codes "CronJob"
    then ok (batch (codes "cronjobs"))
    else err (errorf "unrecognised owner kind %q" (ref.kind ∷ []))

module _ {W : Type 0} (h : OwnerLookup W) (ns : Text) where
  -- The loop, with the rounds that are left; its error names the depth, too.
  unfoldable pub resolve_from : ℕ → Text → List OwnerReference → Exec W Text
  resolve_from zero name refs = pure name
  resolve_from (suc n) name refs = elim (controller_refs refs) [
    | [] ↦ pure name
    | ref ∷ _ ↦ elim (owner_ref_to_gvr ref) [
      | err _ ↦ pure name
      | ok gvr ↦ do
        obj ←
            wrapping "getting %s/%s (depth %d): %w" (ref.kind ∷ ref.name ∷ [])
              (call (h.get gvr ns ref.name))
        resolve_from n obj.name obj.owner_references
    ]
  ]

  -- A depth below 1 leaves no round.
  unfoldable pub resolve_owner : Object → Exec W Text
  resolve_owner pod = resolve_from (pos_part h.max_owner_depth) pod.name pod.owner_references
