-- ===== src/Webhook/Patch/Applied.antt =====
-- What the patch of buildPatch makes of a pod.
use pv_snapshotter.Base.{
  ◌≡◌, refl, ◌∙◌, ◌⊎◌, inl, inr, Option, none, some, List, [], ◌∷◌, ◌++◌, Text, codes, arith,
  insert, Error, ok, err, wrapf, Result-cases,
}
use pv_snapshotter.Webhook.Kube.{Pod, Container}
use pv_snapshotter.Webhook.Handler.{Handler, TemplateData, render_template}
use pv_snapshotter.Webhook.Pointer.{json_key}
use pv_snapshotter.Webhook.Patch.{
  empty_map, empty_list, text, volume, mount, mounts, JsonPatchOp, add_op, state_volume_name,
  annotations_path, volumes_path, mounts_path, runtime_class_path, annotations_map_ops, volume_ops,
  annotation_ops, state_mount, mount_ops, base_runtime_class, runtime_class_ops, build_patch,
}
use pv_snapshotter.Webhook.Patch.Apply.{
  annotation_map, annotation, volume_list, volume_end, mount_list, mount_end, runtime_class, add,
  replace, apply_all,
}
use pv_snapshotter.Webhook.Patch.Places.{
  place_of-annotations, place_of-volumes, place_of_volume_end, place_of-mounts, place_of_mount_end,
  place_of-runtime_class, place_of_annotation, apply_add, apply_replace, apply_all-append,
}

-- A map or a list that the patch finds, or makes.
abbrev pub or_nothing {ℓ} : {A : Type ℓ} → Option (List A) → List A
or_nothing none = []
or_nothing (some xs) = xs

abbrev pub insert_all : List (Text × Text) → List (Text × Text) → List (Text × Text)
insert_all [] m = m
insert_all ((k, v) ∷ vs) m = insert_all vs (insert k v m)

apply-annotations_map_ops :
    (pod : Pod)
    → apply_all (annotations_map_ops pod) pod
      ≡ some (record pod { annotations = some (or_nothing pod.annotations) })
unfolding apply_all annotations_map_ops add
apply-annotations_map_ops pod =
    ground (arith, apply_add annotations_path empty_map annotation_map pod place_of-annotations)

-- The annotations that the templates give.
pub data Renders {W T : Type 0} (h : Handler W T) (fields : TemplateData)
    : List (Text × Option T) → List (Text × Text) → Type 0 where
  nothing : Renders h fields [] []
  rendered :
      {key val : Text} {tmpl : Option T} {tmpls : List (Text × Option T)} {vs : List (Text × Text)}
      → render_template h.templates tmpl fields ≡ ok val
      → Renders h fields tmpls vs
      → Renders h fields ((key, tmpl) ∷ tmpls) ((key, val) ∷ vs)

module _ {W T : Type 0} (h : Handler W T) (fields : TemplateData) where
  abbrev Stamps : List JsonPatchOp → List (Text × Text) → Type 0
  Stamps ops vs =
      (pod : Pod) (m : List (Text × Text))
      → pod.annotations ≡ some m
      → apply_all ops pod ≡ some (record pod { annotations = some (insert_all vs m) })

  no_render :
      (key : Text) (tmpl : Option T) (tmpls : List (Text × Option T)) (vs : List (Text × Text))
      (e : Error)
      → render_template h.templates tmpl fields ≡ err e
      → ¬ Renders h fields ((key, tmpl) ∷ tmpls) vs
  no_render key tmpl tmpls vs e f (rendered g r) = cc

  no_render_later :
      (key : Text) (tmpl : Option T) (tmpls : List (Text × Option T)) (vs : List (Text × Text))
      → ((us : List (Text × Text)) → ¬ Renders h fields tmpls us)
      → ¬ Renders h fields ((key, tmpl) ∷ tmpls) vs
  no_render_later key tmpl tmpls vs n (rendered g r) = n _ r

  Stamps-cons :
      (key val : Text) (ops : List JsonPatchOp) (vs : List (Text × Text))
      → Stamps ops vs
      → Stamps
          (add_op (annotations_path ++ (codes "/" ++ json_key key)) (text val) ∷ ops)
          ((key, val) ∷ vs)
  unfolding apply_all add
  Stamps-cons key val ops vs stamps pod m k = ground (
    arith,
    apply_add (annotations_path ++ (codes "/" ++ json_key key)) (text val) (annotation key) pod
        (place_of_annotation key),
    stamps (record pod { annotations = some (insert key val m) }) (insert key val m) refl,
  )

  Stamps-nothing : Stamps [] []
  unfolding apply_all
  Stamps-nothing pod m k = ground arith

  -- The operations of the loop stamp the rendered values; it fails where a template does.
  annotation_ops_cases :
      (tmpls : List (Text × Option T))
      → ((ops : List JsonPatchOp) × (vs : List (Text × Text)) × (annotation_ops h tmpls fields
            ≡ ok ops)
          × Renders h fields tmpls vs
          × Stamps ops vs)
        ⊎ ((e : Error) × (annotation_ops h tmpls fields ≡ err e)
            × ((vs : List (Text × Text)) → ¬ Renders h fields tmpls vs))
  unfolding annotation_ops
  annotation_ops_cases [] = inl ([], [], refl, nothing, Stamps-nothing)
  annotation_ops_cases ((key, tmpl) ∷ tmpls) =
      elim (Result-cases (render_template h.templates tmpl fields)) [
        | inr (e, f) ↦ inr (
          wrapf "rendering annotation template for key %q: %w" (key ∷ []) e,
          rw (annotation_ops, f) refl,
          λ vs. no_render key tmpl tmpls vs e f,
        )
        | inl (val, f) ↦ elim (annotation_ops_cases tmpls) [
          | inr (e, g, n) ↦
              inr (e, rw (annotation_ops, f, g) refl, λ vs. no_render_later key tmpl tmpls vs n)
          | inl (ops, vs, g, r, stamps) ↦ inl (
            add_op (annotations_path ++ (codes "/" ++ json_key key)) (text val) ∷ ops,
            (key, val) ∷ vs,
            rw (annotation_ops, f, g) refl,
            rendered f r,
            Stamps-cons key val ops vs stamps,
          )
        ]
      ]

apply-volume_ops :
    (pod q : Pod) (pvc_name : Text)
    → q.volumes ≡ pod.volumes
    → apply_all (volume_ops pod pvc_name) q
      ≡ some (record q {
        volumes = some (
            or_nothing pod.volumes
            ++ record { name = state_volume_name; claim_name = some pvc_name } ∷ []);
      })
unfolding apply_all volume_ops add
apply-volume_ops pod q pvc_name e =
    let v = volume (record { name = state_volume_name; claim_name = some pvc_name }) in
    ground (
      arith,
      apply_add volumes_path empty_list volume_list q place_of-volumes,
      apply_add (volumes_path ++ codes "/-") v volume_end q place_of_volume_end,
      apply_add (volumes_path ++ codes "/-") v volume_end (record q { volumes = some [] })
          place_of_volume_end,
    )

module _ {W T : Type 0} (h : Handler W T) where
  abbrev pub with_mount : List Container → List Container
  with_mount [] = []
  with_mount (c ∷ cs) =
      record c { volume_mounts = some (or_nothing c.volume_mounts ++ state_mount h ∷ []) } ∷ cs

  apply-mount_ops :
      (pod q : Pod)
      → q.containers ≡ pod.containers
      → apply_all (mount_ops h pod) q ≡ some (record q { containers = with_mount pod.containers })
  unfolding apply_all mount_ops add
  apply-mount_ops pod q e = ground (
    arith,
    apply_add mounts_path (mounts (state_mount h ∷ [])) mount_list q place_of-mounts,
    apply_add (mounts_path ++ codes "/-") (mount (state_mount h)) mount_end q place_of_mount_end,
  )

  abbrev pub with_suffix : Pod → Option Text
  with_suffix pod = elim (base_runtime_class h pod) [
    | [] ↦ pod.runtime_class_name
    | c ∷ name ↦ some ((c ∷ name) ++ h.runtime_class_suffix)
  ]

  apply-runtime_class_ops :
      (pod q : Pod)
      → q.runtime_class_name ≡ pod.runtime_class_name
      → apply_all (runtime_class_ops h pod) q
        ≡ some (record q { runtime_class_name = with_suffix pod })
  unfolding apply_all runtime_class_ops add replace
  apply-runtime_class_ops pod q e =
      let v = text (base_runtime_class h pod ++ h.runtime_class_suffix) in
      ground (
        arith,
        apply_add runtime_class_path v runtime_class q place_of-runtime_class,
        apply_replace runtime_class_path v runtime_class q place_of-runtime_class,
      )

  -- The pod that the API server stores: the rendered values among its annotations, the claim's
  -- volume after its volumes, the mount after the mounts of its first container, and the suffix
  -- after its runtime class, or after the default one.
  abbrev pub patched : List (Text × Text) → Text → Pod → Pod
  patched vs pvc_name pod = record pod {
    annotations = some (insert_all vs (or_nothing pod.annotations));
    volumes = some (
        or_nothing pod.volumes
        ++ record { name = state_volume_name; claim_name = some pvc_name } ∷ []);
    containers = with_mount pod.containers;
    runtime_class_name = with_suffix pod;
  }

  apply_parts :
      (pod : Pod) (pvc_name : Text) (ops : List JsonPatchOp) (vs : List (Text × Text))
      (fields : TemplateData)
      → Stamps h fields ops vs
      → apply_all
          (annotations_map_ops pod
            ++ (ops ++ (volume_ops pod pvc_name ++ (mount_ops h pod ++ runtime_class_ops h pod))))
          pod
        ≡ some (patched vs pvc_name pod)
  apply_parts pod pvc_name ops vs fields stamps =
      let m = or_nothing pod.annotations in
      let a : Pod = record pod { annotations = some m } in
      let b : Pod = record pod { annotations = some (insert_all vs m) } in
      let c : Pod = record b { volumes = (patched vs pvc_name pod).volumes } in
      let d : Pod = record c { containers = with_mount pod.containers } in
      apply_all-append (annotations_map_ops pod) _ pod a (apply-annotations_map_ops pod)
      ∙ apply_all-append ops _ a b (stamps a m refl)
      ∙ apply_all-append (volume_ops pod pvc_name) _ b c (apply-volume_ops pod b pvc_name refl)
      ∙ apply_all-append (mount_ops h pod) _ c d (apply-mount_ops pod c refl)
      ∙ apply-runtime_class_ops pod d refl

  -- buildPatch fails exactly where a template of an annotation does. The patch that it returns
  -- otherwise applies to the pod without an error, and makes of it the pod with the rendered values
  -- among its annotations, the claim's volume after its other volumes, the mount after the other
  -- mounts of its first container only, and the suffixed runtime class; nothing else changes.
  pub build_patch-patched :
      (pod : Pod) (pvc_name : Text) (fields : TemplateData)
      → ((ops : List JsonPatchOp) × (vs : List (Text × Text)) × (build_patch h pod pvc_name fields
            ≡ ok ops)
          × Renders h fields h.annotation_tmpls vs
          × (apply_all ops pod ≡ some (patched vs pvc_name pod)))
        ⊎ ((e : Error) × (build_patch h pod pvc_name fields ≡ err e)
            × ((vs : List (Text × Text)) → ¬ Renders h fields h.annotation_tmpls vs))
  unfolding build_patch
  build_patch-patched pod pvc_name fields =
      elim (annotation_ops_cases h fields h.annotation_tmpls) [
        | inr (e, f, n) ↦ inr (e, rw (build_patch, f) refl, n)
        | inl (ops, vs, f, r, stamps) ↦ inl (
          annotations_map_ops pod
              ++ (ops ++ (volume_ops pod pvc_name ++ (mount_ops h pod ++ runtime_class_ops h pod))),
          vs,
          rw (build_patch, f) refl,
          r,
          apply_parts pod pvc_name ops vs fields stamps,
        )
      ]
