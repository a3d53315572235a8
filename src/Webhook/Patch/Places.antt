-- ===== src/Webhook/Patch/Places.antt =====
-- The places of the pointers in a patch, and what its operations do there.
use pv_snapshotter.Base.{
  split_all, ℕ, ◌≡◌, refl, ap, inl, inr, some, List, [], ◌∷◌, ◌++◌, Text, codes, arith, ◌==◌, Lacks,
  Option-cases,
}
use pv_snapshotter.Webhook.Kube.{Pod}
use pv_snapshotter.Webhook.Pointer.{json_key, evaluate, slash, evaluate-json_key, json_key-Lacks}
use pv_snapshotter.Webhook.Patch.{
  PatchValue, JsonPatchOp, add_op, replace_op, annotations_path, volumes_path, mounts_path,
  runtime_class_path,
}
use pv_snapshotter.Webhook.Patch.Apply.{
  Place, annotation_map, annotation, volume_list, volume_end, mount_list, mount_end, runtime_class,
  evaluate_all, place, place_of, add, replace, apply_at, apply_op, apply_all,
}

split_all-Lacks : (b : ℕ) (s : Text) → Lacks b s → split_all b s ≡ s ∷ []
unfolding split_all
split_all-Lacks b [] h = refl
split_all-Lacks b (c ∷ s) h = ground (arith, split_all-Lacks b s h.1)

-- The pointers that the patch writes.
pub place_of-annotations : place_of annotations_path ≡ some annotation_map
unfolding place_of split_all evaluate_all evaluate place ◌==◌
place_of-annotations = refl

pub place_of-volumes : place_of volumes_path ≡ some volume_list
unfolding place_of split_all evaluate_all evaluate place ◌==◌
place_of-volumes = refl

pub place_of_volume_end : place_of (volumes_path ++ codes "/-") ≡ some volume_end
unfolding place_of split_all evaluate_all evaluate place ◌==◌
place_of_volume_end = refl

pub place_of-mounts : place_of mounts_path ≡ some mount_list
unfolding place_of split_all evaluate_all evaluate place ◌==◌
place_of-mounts = refl

pub place_of_mount_end : place_of (mounts_path ++ codes "/-") ≡ some mount_end
unfolding place_of split_all evaluate_all evaluate place ◌==◌
place_of_mount_end = refl

pub place_of-runtime_class : place_of runtime_class_path ≡ some runtime_class
unfolding place_of split_all evaluate_all evaluate place ◌==◌
place_of-runtime_class = refl

pub place_of_annotation :
    (key : Text)
    → place_of (annotations_path ++ (codes "/" ++ json_key key)) ≡ some (annotation key)
unfolding place_of split_all evaluate_all evaluate place ◌==◌
place_of_annotation key =
    rw (split_all-Lacks slash (json_key key) (json_key-Lacks key), evaluate-json_key key) refl

pub apply_add :
    (path : Text) (value : PatchValue) (at : Place) (pod : Pod)
    → place_of path ≡ some at
    → apply_op (add_op path value) pod ≡ add at value pod
unfolding apply_op apply_at ◌==◌
apply_add path value at pod e = rw (apply_op, e) refl

pub apply_replace :
    (path : Text) (value : PatchValue) (at : Place) (pod : Pod)
    → place_of path ≡ some at
    → apply_op (replace_op path value) pod ≡ replace at value pod
unfolding apply_op apply_at ◌==◌
apply_replace path value at pod e = rw (apply_op, e) refl

pub apply_all-append :
    (os ps : List JsonPatchOp) (pod next : Pod)
    → apply_all os pod ≡ some next
    → apply_all (os ++ ps) pod ≡ apply_all ps next
unfolding apply_all
apply_all-append [] ps pod next e = let same : pod ≡ next = cc in ap (apply_all ps) same
apply_all-append (o ∷ os) ps pod next e = elim (Option-cases (apply_op o pod)) [
  | inl f ↦ absurd (ground arith)
  | inr (mid, f) ↦ rw (apply_all, f) (apply_all-append os ps mid next (ground arith))
]
