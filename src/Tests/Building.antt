-- ===== src/Tests/Building.antt =====
-- The construction of a webhook for the small cluster.
use pv_snapshotter.Base.{
  ℕ, refl, List, [], ◌∷◌, Text, codes, ◌==◌, ok, has_suffix, has_prefix, cut_prefix, Result,
}
use pv_snapshotter.Base.Int.{pos}
use pv_snapshotter.Exec.Laws.{Returns}
use pv_snapshotter.Annotation
use pv_snapshotter.Annotation.{validate_prefix, resolve_prefix, is_reserved}
use pv_snapshotter.Webhook.New.{WebhookFlags, Connect, parse_annotations, new_handler}
use pv_snapshotter.Tests.Cluster.{at, client, clock, owners, templates, handler}

abbrev pub connect : Connect ℕ Text
connect = record {
  get_config = λ w. (ok (codes "cluster"), w);
  new_client = λ cfg w. (ok client, w);
  new_dynamic = λ cfg w. (ok owners.get, w);
}

abbrev pub subdomains : Text → List Text
subdomains prefix = []

abbrev pub parse_selector : Text → Result Text
parse_selector selector = ok selector

abbrev pub flags : WebhookFlags
flags = record {
  pvc_name_template = codes "{{.OwnerName}}";
  pvc_selector_template = [];
  max_owner_depth = pos 2;
  default_runtime_class = [];
  runtime_class_suffix = codes "-pv";
  annotation_templates = (codes "x.io/var.PVName", codes "{{.PVName}}") ∷ [];
  state_mount_path = codes "/state";
  bound_timeout = pos 30_000_000_000;
  annotation_prefix = codes "x.io";
}

built :
    Returns
      (new_handler connect templates clock parse_selector subdomains flags)
      (at 0)
      handler
      (at 0)
unfolding new_handler parse_annotations resolve_prefix validate_prefix is_reserved Annotation.key
    has_suffix has_prefix cut_prefix ◌==◌
built = refl
