-- ===== src/Resolver.antt =====
-- The resolver, pkg/containerd/snapshotter/resolver.go: from a snapshot key to the directory that
-- the pod's annotations name, "" where they name none. Log lines are not modelled.
pub mod TemplateData
pub mod Routing
pub mod Keys
use pv_snapshotter.Base.{
  Option, none, some, List, [], ◌∷◌, ◌++◌, Text, codes, ◌==◌, if◌then◌else◌, cut_prefix, lookup,
  lookup_or, insert, Result, ok, err, wrap,
}
use pv_snapshotter.Exec.{Exec, pure, lift, call, wrapping, ◌>>=◌}
use pv_snapshotter.Host.{
  ContainerInfo, PodObjectMeta, PodSandboxConfig, SandboxMetadata, ContainerClient, Templates,
}
use pv_snapshotter.Annotation
use pv_snapshotter.Key.{parse_snapshot_key}

abbrev pub sandbox_extension : Text
sandbox_extension = codes "io.cri-containerd.sandbox.metadata"

abbrev pub kind_label : Text
kind_label = codes "io.cri-containerd.kind"

abbrev pub kind_sandbox : Text
kind_sandbox = codes "sandbox"

abbrev pub kind_container : Text
kind_container = codes "container"

-- The data of a template, map[string]string.
abbrev pub Data : Type 0
Data = List (Text × Text)

-- resolver. `unmarshal` is json.Unmarshal into sandboxMetadata.
pub record Resolver (W C T : Type 0) : Type 0 where
  pub client : ContainerClient W C
  pub templates : Templates T Data
  pub unmarshal : Text → Result SandboxMetadata
  pub key_literal : Text
  pub key_template : Text
  pub key_var_prefix : Text

-- newResolver, on the resolved prefix.
unfoldable pub new_resolver :
    {W C T : Type 0}
    → ContainerClient W C
    → Templates T Data
    → (Text → Result SandboxMetadata)
    → Text
    → Resolver W C T
new_resolver client templates unmarshal prefix = record {
  client = client;
  templates = templates;
  unmarshal = unmarshal;
  key_literal = Annotation.key prefix (codes "upperdir-path");
  key_template = Annotation.key prefix (codes "upperdir-path-template");
  key_var_prefix = Annotation.key prefix (codes "var.");
}

-- The built-in fields of the pod's identity.
unfoldable pub builtins : Option PodObjectMeta → Data
builtins none = []
builtins (some meta) =
    insert (codes "PodNamespace") meta.namespace
      (insert (codes "PodName") meta.name (insert (codes "PodUID") meta.uid []))

-- One round of the loop over the annotations.
unfoldable pub add_var : Text → Text → Text → Data → Data
add_var prefix k v fields = elim (cut_prefix k prefix) [
  | none ↦ fields
  | some name ↦ insert name v fields
]

-- The loop over the annotations; the map's order is the list's.
unfoldable pub add_vars : Text → List (Text × Text) → Data → Data
add_vars prefix [] fields = fields
add_vars prefix ((k, v) ∷ annotations) fields =
    add_vars prefix annotations (add_var prefix k v fields)

module _ {W C T : Type 0} (r : Resolver W C T) where
  unfoldable pub template_data : PodSandboxConfig → Data
  template_data cfg = add_vars r.key_var_prefix cfg.annotations (builtins cfg.metadata)

  unfoldable pub render_upperdir_template : Text → PodSandboxConfig → Text → Result Text
  render_upperdir_template text cfg key =
      elim (wrap "parsing upperdir-path-template (key=%s): %w" (key ∷ [])
        (r.templates.parse (codes "upperdir-path") text)) [
          | err e ↦ err e
          | ok tmpl ↦
              wrap "rendering upperdir-path-template (key=%s): %w" (key ∷ [])
                (r.templates.execute tmpl (template_data cfg))
        ]

  -- upperdirFromSandboxContainer, on the pod's configuration.
  unfoldable pub upperdir_from_config : PodSandboxConfig → Text → Result Text
  upperdir_from_config cfg key = elim (lookup_or r.key_literal cfg.annotations) [
    | c ∷ path ↦ ok (c ∷ path)
    | [] ↦ elim (lookup_or r.key_template cfg.annotations) [
      | [] ↦ ok []
      | c ∷ text ↦ render_upperdir_template (c ∷ text) cfg key
    ]
  ]

  unfoldable pub upperdir_from_metadata : SandboxMetadata → Text → Result Text
  upperdir_from_metadata meta key = elim meta.config [
    | none ↦ ok []
    | some cfg ↦ upperdir_from_config cfg key
  ]

  unfoldable pub upperdir_from_sandbox_container : Text → C → Text → Exec W Text
  upperdir_from_sandbox_container ns ctr key = do
    exts ←
        wrapping "reading extensions for sandbox (key=%s): %w" (key ∷ [])
          (call (r.client.extensions ns ctr))
    elim (lookup sandbox_extension exts) [
      | none ↦ pure []
      | some raw ↦ do
        meta ←
            wrapping "unmarshaling sandbox metadata (key=%s): %w" (key ∷ [])
              (lift (r.unmarshal raw))
        lift (upperdir_from_metadata meta key)
    ]

  unfoldable pub upperdir_from_sandbox_id : Text → Text → Text → Exec W Text
  upperdir_from_sandbox_id ns sandbox_id key = do
    ctrs ←
        wrapping "querying sandbox container %s: %w" (sandbox_id ∷ [])
          (call (r.client.containers ns (codes "id==" ++ sandbox_id)))
    elim ctrs [ [] ↦ pure [] | ctr ∷ _ ↦ upperdir_from_sandbox_container ns ctr key ]

  -- The switch on the kind of the container.
  unfoldable pub upperdir_of_kind : Text → ContainerInfo → Text → Exec W Text
  upperdir_of_kind ns info key =
      if lookup_or kind_label info.labels == kind_sandbox
      then pure []
      else if lookup_or kind_label info.labels == kind_container
      then elim info.sandbox_id [ [] ↦ pure [] | c ∷ id ↦ upperdir_from_sandbox_id ns (c ∷ id) key ]
      else pure []

  unfoldable pub resolve_at_mounts_time : Text → Exec W Text
  resolve_at_mounts_time key = elim (parse_snapshot_key key) [
    | none ↦ pure []
    | some (ns, container_id) ↦ do
      ctrs ←
          wrapping "querying container %s: %w" (container_id ∷ [])
            (call (r.client.containers ns (codes "id==" ++ container_id)))
      elim ctrs [
        | [] ↦ pure []
        | ctr ∷ _ ↦ do
          info ←
              wrapping "getting container info %s: %w" (container_id ∷ [])
                (call (r.client.info ns ctr))
          upperdir_of_kind ns info key
      ]
  ]
