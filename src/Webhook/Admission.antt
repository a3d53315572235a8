-- ===== src/Webhook/Admission.antt =====
-- The admission of a pod: mutate, deny and handle of pkg/webhook/mutating.go. Log lines are not
-- modelled.
pub mod Allowed
pub mod Answers
pub mod Calls
use pv_snapshotter.Base.{
  ℕ, Bool, true, false, Option, none, some, List, [], ◌∷◌, Text, codes, lookup_or, Error, errorf,
  Result, ok, err,
}
use pv_snapshotter.Exec.{State, Exec, pure, lift, wrapping, ◌>>=◌}
use pv_snapshotter.Webhook.Kube.{Pod, AdmissionRequest}
use pv_snapshotter.Webhook.Handler.{Handler, TemplateData}
use pv_snapshotter.Webhook.Owner.{resolve_owner}
use pv_snapshotter.Webhook.Claim.{resolve_pvc}
use pv_snapshotter.Webhook.Bound.{BoundVolume, wait_bound}
use pv_snapshotter.Webhook.Patch.{JsonPatchOp, build_patch}

-- metav1.Status of a denial: its message is the text that the error prints.
pub record Status : Type 0 where
  pub code : ℕ
  pub message : Error

-- admissionv1.AdmissionResponse.
pub record AdmissionResponse : Type 0 where
  pub uid : Text
  pub allowed : Bool
  pub result : Option Status
  pub patch : Option Text
  pub patch_type : Option Text

unfoldable pub deny : Text → Error → AdmissionResponse
deny uid message = record {
  uid = uid;
  allowed = false;
  result = some (record { code = 422; message = message });
  patch = none;
  patch_type = none;
}

abbrev pub patch_type_json_patch : Text
patch_type_json_patch = codes "JSONPatch"

-- The response at the end of mutate.
abbrev pub allow : Text → Text → AdmissionResponse
allow uid patch = record {
  uid = uid;
  allowed = true;
  result = none;
  patch = some patch;
  patch_type = some patch_type_json_patch;
}

abbrev pub pod_index_label : Text
pod_index_label = codes "apps.kubernetes.io/pod-index"

-- `data` before the volume is known.
unfoldable pub initial_data : Text → AdmissionRequest → Pod → TemplateData
initial_data owner_name req pod = record {
  owner_name = owner_name;
  pod_name = req.name;
  pv_name = [];
  volume_handle = [];
  pod_index = lookup_or pod_index_label pod.labels;
  pod_uid = codes "{{.PodUID}}";
  pod_namespace = codes "{{.PodNamespace}}";
}

abbrev pub with_volume : TemplateData → BoundVolume → TemplateData
with_volume fields v = record fields { pv_name = v.pv_name; volume_handle = v.volume_handle }

-- admissionv1.AdmissionReview of a request; in the answer, `response` takes the request's place.
pub record AdmissionReview : Type 0 where
  pub api_version : Text
  pub kind : Text
  pub request : Option AdmissionRequest

-- What handle writes: a status of apierrors with its cause, or a review with a response.
pub data Reply : Type 0 where
  bad_request : Error → Reply
  reviewed : Text → Text → AdmissionResponse → Reply

abbrev pub status_of : Reply → ℕ
status_of (bad_request cause) = 400
status_of (reviewed api_version kind response) = 200

-- `decode` is json.Unmarshal into a Pod, and `marshal` json.Marshal of the patch.
module _ {W T : Type 0} (h : Handler W T) (decode : Text → Result Pod)
    (marshal : List JsonPatchOp → Result Text) where
  -- mutate up to the marshalled patch: each early return `deny(req.UID, message)` is the error that
  -- prints this message. The number of rounds is that of the loop of waitBound, and `none` stands
  -- for a number too small.
  unfoldable pub patch_of : ℕ → AdmissionRequest → Exec W (Option Text)
  patch_of rounds req = do
    pod ← wrapping "decoding pod: %v" [] (lift (decode req.raw))
    owner_name ←
        wrapping "resolving controlling owner: %v" []
          (resolve_owner h.owners req.namespace pod.meta)
    let fields = initial_data owner_name req pod
    pvc ←
        wrapping "resolving PVC for owner %q: %v" (owner_name ∷ [])
          (resolve_pvc h req.namespace pod fields)
    waited ←
        wrapping "waiting for PVC %q to be bound: %v" (pvc.name ∷ [])
          (wait_bound h req.namespace rounds pvc)
    elim waited [
      | none ↦ pure none
      | some v ↦ do
        ops ←
            wrapping "building patch: %v" []
              (lift (build_patch h pod pvc.name (with_volume fields v)))
        patch ← wrapping "marshaling patch: %v" [] (lift (marshal ops))
        pure (some patch)
    ]

  unfoldable pub mutate : ℕ → AdmissionRequest → State W → Option AdmissionResponse × State W
  mutate rounds req s = elim (patch_of rounds req s).0 [
    | err message ↦ (some (deny req.uid message), (patch_of rounds req s).1)
    | ok none ↦ (none, (patch_of rounds req s).1)
    | ok (some patch) ↦ (some (allow req.uid patch), (patch_of rounds req s).1)
  ]

  -- `bind` is ShouldBindBodyWithJSON, on the body of the request.
  unfoldable pub handle :
      (Text → Result AdmissionReview) → ℕ → Text → State W → Option Reply × State W
  handle bind rounds body s = elim (bind body) [
    | err e ↦ (some (bad_request e), s)
    | ok review ↦ elim review.request [
      | none ↦ (some (bad_request (errorf "AdmissionReview.request is nil" [])), s)
      | some req ↦ elim (mutate rounds req s).0 [
        | none ↦ (none, (mutate rounds req s).1)
        | some response ↦
            (some (reviewed review.api_version review.kind response), (mutate rounds req s).1)
      ]
    ]
  ]
