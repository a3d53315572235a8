-- ===== src/Resolver/Routing.antt =====
-- Which containers are routed to a directory of their pod.
use pv_snapshotter.Base.{
  ◌≡◌, ◌≢◌, inl, inr, ◌↔◌, some, List, [], ◌∷◌, ◌++◌, Text, codes, arith, ok, eq_iff, ◌==◌, lookup,
  lookup_or, Result-cases, Option-cases,
}
use pv_snapshotter.Exec.{State, call}
use pv_snapshotter.Exec.Laws.{Returns}
use pv_snapshotter.Host.{ContainerInfo, PodSandboxConfig, SandboxMetadata}
use pv_snapshotter.Key.{parse_snapshot_key}
use pv_snapshotter.Resolver.{
  Resolver, sandbox_extension, kind_label, kind_container, upperdir_from_config,
  upperdir_from_metadata, upperdir_from_sandbox_container, upperdir_from_sandbox_id,
  upperdir_of_kind, resolve_at_mounts_time,
}

module _ {W C T : Type 0} (r : Resolver W C T) where
  -- The pod's configuration, read from the sandbox container, names the path.
  pub record IsSandboxPath (ns sandbox_id key path : Text) (s t : State W) : Type 0 where
    pub ctr : C
    pub others : List C
    pub exts : List (Text × Text)
    pub raw : Text
    pub meta : SandboxMetadata
    pub cfg : PodSandboxConfig
    pub after_query : State W
    pub queried :
        Returns
          (call (r.client.containers ns (codes "id==" ++ sandbox_id)))
          s
          (ctr ∷ others)
          after_query
    pub extended : Returns (call (r.client.extensions ns ctr)) after_query exts t
    pub present : lookup sandbox_extension exts ≡ some raw
    pub decoded : r.unmarshal raw ≡ ok meta
    pub configured : meta.config ≡ some cfg
    pub named : upperdir_from_config r cfg key ≡ ok path

  -- The key is that of a workload container with a sandbox, whose pod names the path.
  pub record IsRouted (key path : Text) (s t : State W) : Type 0 where
    pub ns : Text
    pub container_id : Text
    pub ctr : C
    pub others : List C
    pub info : ContainerInfo
    pub after_query : State W
    pub after_info : State W
    pub parsed : parse_snapshot_key key ≡ some (ns, container_id)
    pub queried :
        Returns
          (call (r.client.containers ns (codes "id==" ++ container_id)))
          s
          (ctr ∷ others)
          after_query
    pub informed : Returns (call (r.client.info ns ctr)) after_query info after_info
    pub workload : lookup_or kind_label info.labels ≡ kind_container
    pub has_sandbox : info.sandbox_id ≢ []
    pub sandbox : IsSandboxPath ns info.sandbox_id key path after_info t

  from_container :
      (ns : Text) (ctr : C) (key path : Text) (s t : State W)
      → Returns (upperdir_from_sandbox_container r ns ctr key) s path t
      → path ≢ []
      → (exts : List (Text × Text)) × (raw : Text) × (meta : SandboxMetadata)
        × (cfg : PodSandboxConfig) × Returns (call (r.client.extensions ns ctr)) s exts t
        × (lookup sandbox_extension exts ≡ some raw)
        × (r.unmarshal raw ≡ ok meta)
        × (meta.config ≡ some cfg)
        × (upperdir_from_config r cfg key ≡ ok path)
  unfolding upperdir_from_sandbox_container upperdir_from_metadata
  from_container ns ctr key path s t h n =
      elim (Result-cases (call (r.client.extensions ns ctr) s).0) [
        | inr (_, e) ↦ absurd (ground arith)
        | inl (exts, e) ↦ elim (Option-cases (lookup sandbox_extension exts)) [
          | inl f ↦ absurd (ground arith)
          | inr (raw, f) ↦ elim (Result-cases (r.unmarshal raw)) [
            | inr (_, g) ↦ absurd (ground arith)
            | inl (meta, g) ↦ elim (Option-cases meta.config) [
              | inl k ↦ absurd (ground arith)
              | inr (cfg, k) ↦ (exts, raw, meta, cfg, ground arith, f, g, k, ground arith)
            ]
          ]
        ]
      ]

  from_sandbox_id :
      (ns sandbox_id key path : Text) (s t : State W)
      → Returns (upperdir_from_sandbox_id r ns sandbox_id key) s path t
      → path ≢ []
      → IsSandboxPath ns sandbox_id key path s t
  unfolding upperdir_from_sandbox_id
  from_sandbox_id ns sandbox_id key path s t h n =
      let query = call (r.client.containers ns (codes "id==" ++ sandbox_id)) s in
      elim (Result-cases query.0) [
        | inr (_, e) ↦ absurd (ground arith)
        | inl ([], e) ↦ absurd (ground arith)
        | inl (ctr ∷ others, e) ↦
            let (exts, raw, meta, cfg, extended, present, decoded, configured, named) =
              from_container ns ctr key path query.1 t (ground arith) n in
            record {
              ctr = ctr;
              others = others;
              exts = exts;
              raw = raw;
              meta = meta;
              cfg = cfg;
              after_query = query.1;
              queried = ground arith;
              extended = extended;
              present = present;
              decoded = decoded;
              configured = configured;
              named = named;
            }
      ]

  of_kind :
      (ns key path : Text) (info : ContainerInfo) (s t : State W)
      → Returns (upperdir_of_kind r ns info key) s path t
      → path ≢ []
      → (lookup_or kind_label info.labels ≡ kind_container)
        × (info.sandbox_id ≢ [])
        × Returns (upperdir_from_sandbox_id r ns info.sandbox_id key) s path t
  unfolding upperdir_of_kind
  of_kind ns key path info s t h n =
      let kind = lookup_or kind_label info.labels in ground (arith, eq_iff kind kind_container)

  resolve_sound :
      (key path : Text) (s t : State W)
      → Returns (resolve_at_mounts_time r key) s path t
      → path ≢ []
      → IsRouted key path s t
  unfolding resolve_at_mounts_time
  resolve_sound key path s t h n = elim (Option-cases (parse_snapshot_key key)) [
    | inl e ↦ absurd (ground arith)
    | inr ((ns, id), e) ↦
        let query = call (r.client.containers ns (codes "id==" ++ id)) s in
        elim (Result-cases query.0) [
          | inr (_, f) ↦ absurd (ground arith)
          | inl ([], f) ↦ absurd (ground arith)
          | inl (ctr ∷ others, f) ↦
              let informing = call (r.client.info ns ctr) query.1 in
              elim (Result-cases informing.0) [
                | inr (_, g) ↦ absurd (ground arith)
                | inl (info, g) ↦
                    let (workload, has_sandbox, k) =
                      of_kind ns key path info informing.1 t (ground arith) n in
                    record {
                      ns = ns;
                      container_id = id;
                      ctr = ctr;
                      others = others;
                      info = info;
                      after_query = query.1;
                      after_info = informing.1;
                      parsed = e;
                      queried = ground arith;
                      informed = ground arith;
                      workload = workload;
                      has_sandbox = has_sandbox;
                      sandbox = from_sandbox_id ns info.sandbox_id key path informing.1 t k n;
                    }
              ]
        ]
  ]

  from_sandbox_id_complete :
      (ns sandbox_id key path : Text) (s t : State W)
      → IsSandboxPath ns sandbox_id key path s t
      → Returns (upperdir_from_sandbox_id r ns sandbox_id key) s path t
  unfolding upperdir_from_sandbox_id upperdir_from_sandbox_container upperdir_from_metadata
  from_sandbox_id_complete ns sandbox_id key path s t p = ground arith

  of_kind_complete :
      (ns key path : Text) (info : ContainerInfo) (s t : State W)
      → lookup_or kind_label info.labels ≡ kind_container
      → info.sandbox_id ≢ []
      → Returns (upperdir_from_sandbox_id r ns info.sandbox_id key) s path t
      → Returns (upperdir_of_kind r ns info key) s path t
  unfolding upperdir_of_kind ◌==◌
  of_kind_complete ns key path info s t e n h = rw e (ground arith)

  resolve_complete :
      (key path : Text) (s t : State W)
      → IsRouted key path s t
      → Returns (resolve_at_mounts_time r key) s path t
  unfolding resolve_at_mounts_time
  resolve_complete key path s t p = ground (
    arith,
    of_kind_complete p.ns key path p.info p.after_info t p.workload p.has_sandbox
        (from_sandbox_id_complete p.ns p.info.sandbox_id key path p.after_info t p.sandbox),
  )

  -- resolveAtMountsTime returns a path other than "" exactly for the key of a container of the kind
  -- "container" with a sandbox, whose sandbox container has the metadata of a pod with a literal
  -- path or a template that renders to it; each record is the first that containerd lists.
  pub resolve_at_mounts_time-IsRouted :
      (key path : Text) (s t : State W)
      → path ≢ []
      → Returns (resolve_at_mounts_time r key) s path t ↔ IsRouted key path s t
  resolve_at_mounts_time-IsRouted key path s t n =
      ((λ h. resolve_sound key path s t h n), resolve_complete key path s t)
