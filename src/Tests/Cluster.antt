-- ===== src/Tests/Cluster.antt =====
-- A small cluster: a StatefulSet with one pod, whose claim is bound after three seconds. The world is
-- the time, and a template is a text, of which only {{.OwnerName}} and {{.PVName}} as a whole are
-- actions.
use pv_snapshotter.Base.{
  ℕ, ◌+◌, ◌*◌, true, none, some, List, [], ◌∷◌, Text, codes, ◌==◌, leb, if◌then◌else◌, Result, ok,
  err, not_found,
}
use pv_snapshotter.Base.Int.{pos}
use pv_snapshotter.Exec.{State}
use pv_snapshotter.Host.{Templates}
use pv_snapshotter.Webhook.Owner.{OwnerLookup}
use pv_snapshotter.Webhook.Kube.{Pod, Claim, Client, Clock, AdmissionRequest}
use pv_snapshotter.Webhook.Handler.{Handler, TemplateData}
use pv_snapshotter.Webhook.Bound.{claim_bound, BoundVolume}
use pv_snapshotter.Webhook.Patch.{JsonPatchOp}
use pv_snapshotter.Webhook.Admission.{AdmissionReview, initial_data}

abbrev pub at : ℕ → State ℕ
at time = record { world = time; pinned_snapshots = pos 0; unpin_failures = 0; orphan_leases = 0 }

abbrev pub second : ℕ
second = 1_000_000_000

abbrev pub namespace : Text
namespace = codes "n"

abbrev pub templates : Templates Text TemplateData
templates = record {
  parse = λ name text. ok text;
  execute = λ tmpl fields.
      if tmpl == codes "{{.OwnerName}}"
      then ok fields.owner_name
      else if tmpl == codes "{{.PVName}}"
      then ok fields.pv_name
      else ok tmpl;
}

abbrev pub claim_at : ℕ → Claim
claim_at time =
    if leb (3 * second) time
    then record { name = codes "db"; phase = claim_bound; volume_name = codes "pv-1" }
    else record { name = codes "db"; phase = codes "Pending"; volume_name = [] }

abbrev pub client : Client ℕ
client = record {
  get_claim =
      λ ns name w. (if name == codes "db" then ok (claim_at w) else err (not_found name), w);
  list_claims = λ ns selector w. (ok [], w);
  get_volume = λ name w. (ok (record { csi = some (codes "handle-1") }), w);
}

abbrev pub clock : Clock ℕ
clock = record { now = λ w. (w, w); pause = λ d w. (ok tt, w + d) }

abbrev pub owners : OwnerLookup ℕ
owners = record {
  get = λ gvr ns name w. (ok (record { name = name; owner_references = [] }), w);
  max_owner_depth = pos 2;
}

abbrev pub handler : Handler ℕ Text
handler = record {
  owners = owners;
  client = client;
  clock = clock;
  templates = templates;
  parse_selector = λ selector. ok selector;
  pvc_name_tmpl = some (codes "{{.OwnerName}}");
  pvc_selector_tmpl = some [];
  pvc_name_tmpl_annotation = codes "x.io/pvc-name-template";
  annotation_tmpls = (codes "x.io/var.PVName", some (codes "{{.PVName}}")) ∷ [];
  default_runtime_class = [];
  runtime_class_suffix = codes "-pv";
  state_mount_path = codes "/state";
  bound_timeout = pos (30 * second);
}

abbrev pub pod : Pod
pod = record {
  meta = record {
    name = codes "db-0";
    owner_references =
        record { kind = codes "StatefulSet"; name = codes "db"; controller = some true } ∷ [];
  };
  labels = (codes "apps.kubernetes.io/pod-index", codes "0") ∷ [];
  annotations = none;
  volumes = some (record { name = codes "tmp"; claim_name = none } ∷ []);
  containers =
      record { name = codes "main"; volume_mounts = none }
      ∷ record { name = codes "sidecar"; volume_mounts = some [] }
      ∷ [];
  runtime_class_name = some (codes "runc");
}

abbrev pub request : AdmissionRequest
request = record { uid = codes "u"; name = codes "db-0"; namespace = namespace; raw = codes "pod" }

abbrev pub decode : Text → Result Pod
decode raw = ok pod

abbrev pub marshal : List JsonPatchOp → Result Text
marshal ops = ok (codes "patch")

abbrev pub bind : Text → Result AdmissionReview
bind body =
    ok (record { api_version = codes "v1"; kind = codes "AdmissionReview"; request = some request })

abbrev pub fields : TemplateData
fields = initial_data (codes "db") request pod

abbrev pub volume : BoundVolume
volume = record { pv_name = codes "pv-1"; volume_handle = codes "handle-1" }
