-- ===== src/Tests/Daemon.antt =====
-- A daemon over the small world: one pod with a workload container, routed to "/vol".
use pv_snapshotter.Base.{some, [], ◌∷◌, Option, Text, codes, ◌==◌, if◌then◌else◌, ok}
use pv_snapshotter.Host.{ContainerClient, SandboxMetadata, Templates, PodSandboxConfig}
use pv_snapshotter.Resolver.{
  Resolver, Data, sandbox_extension, kind_label, kind_container, kind_sandbox,
}
use pv_snapshotter.Service.{Snapshotter}
use pv_snapshotter.Dedup.{DedupManager}
use pv_snapshotter.Tests.World.{World, snapshots, files, manager}

abbrev pub pod : PodSandboxConfig
pod = record {
  metadata = some (record { name = codes "p"; uid = codes "u1"; namespace = codes "n" });
  annotations = (codes "x/upperdir-path", codes "/vol") ∷ (codes "x/var.PVName", codes "pv7") ∷ [];
}

abbrev pub metadata : SandboxMetadata
metadata = record { config = some pod }

abbrev pub workload_id : Text
workload_id = codes "abc"

-- Containers are their identifiers; "abc" is the workload container of the sandbox "pod".
abbrev pub client : {W : Type 0} → ContainerClient W Text
client = record {
  containers = λ ns query w. (
    ok (
        if query == codes "id==abc"
        then workload_id ∷ []
        else if query == codes "id==pod"
        then codes "pod" ∷ []
        else []),
    w,
  );
  info = λ ns ctr w. (
    ok (record {
      labels = (kind_label, if ctr == workload_id then kind_container else kind_sandbox) ∷ [];
      sandbox_id = codes "pod";
    }),
    w,
  );
  extensions = λ ns ctr w. (ok ((sandbox_extension, codes "raw") ∷ []), w);
  close = λ w. (ok tt, w);
}

-- A template is its text, which renders to itself.
abbrev pub templates : Templates Text Data
templates = record { parse = λ name text. ok text; execute = λ text fields. ok text }

abbrev pub resolver_of : {W : Type 0} → Resolver W Text Text
resolver_of = record {
  client = client;
  templates = templates;
  unmarshal = λ raw. ok metadata;
  key_literal = codes "x/upperdir-path";
  key_template = codes "x/upperdir-path-template";
  key_var_prefix = codes "x/var.";
}

abbrev pub resolver : Resolver World Text Text
resolver = resolver_of

abbrev pub daemon_with : {W : Type 0} → Option (DedupManager W) → Snapshotter W Text Text
daemon_with dedup = record {
  sn = snapshots;
  resolver = resolver_of;
  dedup = dedup;
  files = files;
  cleaner = λ w. (ok tt, w);
  format_time = λ t. [];
}

abbrev pub daemon : Snapshotter World Text Text
daemon = daemon_with (some manager)
