-- ===== src/Webhook/Patch/Apply.antt =====
-- How the API server applies a patch: JSON Patch (RFC 6902) on a pod, with paths read as JSON
-- pointers (RFC 6901). An operation on a place that is not there fails.
use pv_snapshotter.Base.{
  split_all, Option, none, some, List, [], ◌∷◌, ◌++◌, Text, codes, eqb, ◌==◌, ◌&&◌, if◌then◌else◌,
  insert,
}
use pv_snapshotter.Webhook.Kube.{Pod}
use pv_snapshotter.Webhook.Pointer.{evaluate, slash}
use pv_snapshotter.Webhook.Patch.{
  PatchValue, empty_map, empty_list, text, volume, mount, mounts, JsonPatchOp,
}

-- The places of a pod that the pointers of a patch name.
pub data Place : Type 0 where
  annotation_map : Place
  annotation : Text → Place
  volume_list : Place
  volume_end : Place
  mount_list : Place
  mount_end : Place
  runtime_class : Place

unfoldable pub evaluate_all : List Text → Option (List Text)
evaluate_all [] = some []
evaluate_all (t ∷ ts) = elim (evaluate t) [
  | none ↦ none
  | some key ↦ elim (evaluate_all ts) [ none ↦ none | some keys ↦ some (key ∷ keys) ]
]

unfoldable pub place : List Text → Option Place
place (a ∷ b ∷ []) =
    if a == codes "metadata" && b == codes "annotations"
    then some annotation_map
    else if a == codes "spec" && b == codes "volumes"
    then some volume_list
    else if a == codes "spec" && b == codes "runtimeClassName"
    then some runtime_class
    else none
place (a ∷ b ∷ c ∷ []) =
    if a == codes "metadata" && b == codes "annotations"
    then some (annotation c)
    else if a == codes "spec" && (b == codes "volumes" && c == codes "-")
    then some volume_end
    else none
place (a ∷ b ∷ c ∷ d ∷ []) =
    if a == codes "spec"
      && (b == codes "containers" && (c == codes "0" && d == codes "volumeMounts"))
    then some mount_list
    else none
place (a ∷ b ∷ c ∷ d ∷ e ∷ []) =
    if a == codes "spec"
      && (b == codes "containers"
          && (c == codes "0" && (d == codes "volumeMounts" && e == codes "-")))
    then some mount_end
    else none
place _ = none

unfoldable pub place_of : Text → Option Place
place_of [] = none
place_of (c ∷ path) =
    if eqb c slash
    then elim (evaluate_all (split_all slash path)) [ none ↦ none | some keys ↦ place keys ]
    else none

unfoldable pub add : Place → PatchValue → Pod → Option Pod
add annotation_map empty_map pod = some (record pod { annotations = some [] })
add (annotation key) (text v) pod = elim pod.annotations [
  | none ↦ none
  | some m ↦ some (record pod { annotations = some (insert key v m) })
]
add volume_list empty_list pod = some (record pod { volumes = some [] })
add volume_end (volume v) pod = elim pod.volumes [
  | none ↦ none
  | some vs ↦ some (record pod { volumes = some (vs ++ v ∷ []) })
]
add mount_list (mounts ms) pod = elim pod.containers [
  | [] ↦ none
  | c ∷ cs ↦ some (record pod { containers = record c { volume_mounts = some ms } ∷ cs })
]
add mount_end (mount v) pod = elim pod.containers [
  | [] ↦ none
  | c ∷ cs ↦ elim c.volume_mounts [
    | none ↦ none
    | some ms ↦
        some (record pod { containers = record c { volume_mounts = some (ms ++ v ∷ []) } ∷ cs })
  ]
]
add runtime_class (text v) pod = some (record pod { runtime_class_name = some v })
add _ _ _ = none

unfoldable pub replace : Place → PatchValue → Pod → Option Pod
replace runtime_class (text v) pod = elim pod.runtime_class_name [
  | none ↦ none
  | some _ ↦ some (record pod { runtime_class_name = some v })
]
replace _ _ _ = none

unfoldable pub apply_at : Text → Place → PatchValue → Pod → Option Pod
apply_at op at value pod =
    if op == codes "add"
    then add at value pod
    else if op == codes "replace"
    then replace at value pod
    else none

unfoldable pub apply_op : JsonPatchOp → Pod → Option Pod
apply_op o pod = elim (place_of o.path) [ none ↦ none | some at ↦ apply_at o.op at o.value pod ]

unfoldable pub apply_all : List JsonPatchOp → Pod → Option Pod
apply_all [] pod = some pod
apply_all (o ∷ os) pod = elim (apply_op o pod) [ none ↦ none | some next ↦ apply_all os next ]
