-- ===== src/Webhook/Patch.antt =====
-- The JSON patch of a pod, buildPatch of pkg/webhook/mutating.go.
pub mod Apply
mod Places
pub mod Applied
use pv_snapshotter.Base.{
  Option, none, some, List, [], ◌∷◌, ◌++◌, Text, codes, ◌==◌, if◌then◌else◌, Result, ok, err, wrapf,
}
use pv_snapshotter.Webhook.Kube.{Pod, Container, Volume, VolumeMount}
use pv_snapshotter.Webhook.Handler.{Handler, TemplateData, render_template}
use pv_snapshotter.Webhook.Pointer.{json_key}

-- The values of the operations: {} and [] are the empty map and list.
pub data PatchValue : Type 0 where
  empty_map : PatchValue
  empty_list : PatchValue
  text : Text → PatchValue
  volume : Volume → PatchValue
  mount : VolumeMount → PatchValue
  mounts : List VolumeMount → PatchValue

-- jsonPatchOp.
pub record JsonPatchOp : Type 0 where
  pub op : Text
  pub path : Text
  pub value : PatchValue

abbrev pub add_op : Text → PatchValue → JsonPatchOp
add_op path value = record { op = codes "add"; path = path; value = value }

abbrev pub replace_op : Text → PatchValue → JsonPatchOp
replace_op path value = record { op = codes "replace"; path = path; value = value }

abbrev pub state_volume_name : Text
state_volume_name = codes "pv-snapshotter--state"

abbrev pub annotations_path : Text
annotations_path = codes "/metadata/annotations"

abbrev pub volumes_path : Text
volumes_path = codes "/spec/volumes"

abbrev pub mounts_path : Text
mounts_path = codes "/spec/containers/0/volumeMounts"

abbrev pub runtime_class_path : Text
runtime_class_path = codes "/spec/runtimeClassName"

unfoldable pub annotations_map_ops : Pod → List JsonPatchOp
annotations_map_ops pod = elim pod.annotations [
  | none ↦ add_op annotations_path empty_map ∷ []
  | some _ ↦ []
]

unfoldable pub volume_ops : Pod → Text → List JsonPatchOp
volume_ops pod pvc_name =
    let state_volume =
      add_op (volumes_path ++ codes "/-")
        (volume (record { name = state_volume_name; claim_name = some pvc_name })) in
    elim pod.volumes [
      | none ↦ add_op volumes_path empty_list ∷ state_volume ∷ []
      | some _ ↦ state_volume ∷ []
    ]

abbrev pub or_empty : Option Text → Text
or_empty none = []
or_empty (some t) = t

module _ {W T : Type 0} (h : Handler W T) where
  -- The loop over the annotation templates; the map's order is the list's.
  unfoldable pub annotation_ops : List (Text × Option T) → TemplateData → Result (List JsonPatchOp)
  annotation_ops [] fields = ok []
  annotation_ops ((key, tmpl) ∷ tmpls) fields = elim (render_template h.templates tmpl fields) [
    | err e ↦ err (wrapf "rendering annotation template for key %q: %w" (key ∷ []) e)
    | ok val ↦ elim (annotation_ops tmpls fields) [
      | err e ↦ err e
      | ok ops ↦ ok (add_op (annotations_path ++ (codes "/" ++ json_key key)) (text val) ∷ ops)
    ]
  ]

  abbrev pub state_mount : VolumeMount
  state_mount = record { name = state_volume_name; mount_path = h.state_mount_path }

  unfoldable pub mount_ops : Pod → List JsonPatchOp
  mount_ops pod = elim pod.containers [
    | [] ↦ []
    | c ∷ _ ↦ elim c.volume_mounts [
      | none ↦ add_op mounts_path (mounts (state_mount ∷ [])) ∷ []
      | some _ ↦ add_op (mounts_path ++ codes "/-") (mount state_mount) ∷ []
    ]
  ]

  -- baseRC.
  unfoldable pub base_runtime_class : Pod → Text
  base_runtime_class pod = elim (or_empty pod.runtime_class_name) [
    | [] ↦ h.default_runtime_class
    | c ∷ name ↦ c ∷ name
  ]

  unfoldable pub runtime_class_ops : Pod → List JsonPatchOp
  runtime_class_ops pod = elim (base_runtime_class pod) [
    | [] ↦ []
    | c ∷ name ↦
        let pv_rc = text ((c ∷ name) ++ h.runtime_class_suffix) in
        elim pod.runtime_class_name [
          | none ↦ add_op runtime_class_path pv_rc ∷ []
          | some _ ↦ replace_op runtime_class_path pv_rc ∷ []
        ]
  ]

  unfoldable pub build_patch : Pod → Text → TemplateData → Result (List JsonPatchOp)
  build_patch pod pvc_name fields = elim (annotation_ops h.annotation_tmpls fields) [
    | err e ↦ err e
    | ok ops ↦ ok (
        annotations_map_ops pod
        ++ (ops ++ (volume_ops pod pvc_name ++ (mount_ops pod ++ runtime_class_ops pod))))
  ]
