-- ===== src/Service/Wiring/Released.antt =====
-- The service's construction leaves nothing open when it fails.
use pv_snapshotter.Base.{
  ℕ, ◌+◌, ◌-◌, ◌⊎◌, ◌≡◌, subst, inl, inr, List, Text, arith, Error, ok, err, Result-cases,
}
use pv_snapshotter.Exec.{State}
use pv_snapshotter.Host.{Snapshots}
use pv_snapshotter.Annotation
use pv_snapshotter.Resolver.{Resolver, new_resolver}
use pv_snapshotter.Service
use pv_snapshotter.Service.{Snapshotter}
use pv_snapshotter.Service.Wiring.{
  OverlayOpt, Containerd, Setup, overlay_options, or_default, close_all, or_close,
  create_native_overlay_snapshotter, make_resolver, service_of, register_grpc_service,
}

module _ {W C T : Type 0} (setup : Setup W C T) where
  -- What is open in the world, where a snapshotter counts `a` and a client `b`: a constructor that
  -- fails leaves nothing open, and closing one releases it, also where this reports an error.
  pub record Counts (opened : W → ℕ) (a b : ℕ) : Type 0 where
    pub asks : (w : W) → opened (setup.supports_id_mapped_mounts w).1 ≡ opened w
    pub snapshotter_opens :
        (root : Text) (opts : List OverlayOpt) (sn : Snapshots W) (w : W)
        → (setup.new_snapshotter root opts w).0 ≡ ok sn
        → opened (setup.new_snapshotter root opts w).1 ≡ a + opened w
    pub snapshotter_fails :
        (root : Text) (opts : List OverlayOpt) (e : Error) (w : W)
        → (setup.new_snapshotter root opts w).0 ≡ err e
        → opened (setup.new_snapshotter root opts w).1 ≡ opened w
    pub client_opens :
        (socket : Text) (client : Containerd W C) (w : W)
        → (setup.new_client socket w).0 ≡ ok client
        → opened (setup.new_client socket w).1 ≡ b + opened w
    pub client_fails :
        (socket : Text) (e : Error) (w : W)
        → (setup.new_client socket w).0 ≡ err e
        → opened (setup.new_client socket w).1 ≡ opened w
    pub snapshotter_closes :
        (root : Text) (opts : List OverlayOpt) (sn : Snapshots W) (v w : W)
        → (setup.new_snapshotter root opts v).0 ≡ ok sn
        → opened (sn.close w).1 ≡ opened w - a
    pub client_closes :
        (socket : Text) (client : Containerd W C) (v w : W)
        → (setup.new_client socket v).0 ≡ ok client
        → opened (client.client.close w).1 ≡ opened w - b

  module _ (opened : W → ℕ) (a b : ℕ) (counts : Counts opened a b) where
    create_native_balances :
        (s : State W)
        → ((sn : Snapshots W) × ((create_native_overlay_snapshotter setup s).0 ≡ ok sn)
            × (opened (create_native_overlay_snapshotter setup s).1.world ≡ a + opened s.world)
            × ((w : W) → opened (sn.close w).1 ≡ opened w - a))
          ⊎ ((e : Error) × ((create_native_overlay_snapshotter setup s).0 ≡ err e)
              × (opened (create_native_overlay_snapshotter setup s).1.world ≡ opened s.world))
    unfolding create_native_overlay_snapshotter
    create_native_balances s = elim (Result-cases setup.overlay_config) [
      | inr (e, f) ↦ inr (e, ground arith, ground arith)
      | inl (cfg, f) ↦
          let w = (setup.supports_id_mapped_mounts s.world).1 in
          let root = or_default cfg.root_path in
          let opts = overlay_options cfg (setup.supports_id_mapped_mounts s.world).0 in
          elim (Result-cases (setup.new_snapshotter root opts w).0) [
            | inr (e, g) ↦ inr (
              e,
              ground arith,
              ground (arith, counts.asks s.world, counts.snapshotter_fails root opts e w g),
            )
            | inl (sn, g) ↦ inl (
              sn,
              ground arith,
              ground (arith, counts.asks s.world, counts.snapshotter_opens root opts sn w g),
              λ u. counts.snapshotter_closes root opts sn w u g,
            )
          ]
    ]

    close_releases :
        (sn : Snapshots W) (client : Containerd W C) (res : Resolver W C T)
        → make_resolver setup client.client ≡ ok res
        → ((w : W) → opened (sn.close w).1 ≡ opened w - a)
        → ((w : W) → opened (client.client.close w).1 ≡ opened w - b)
        → (x : State W)
        → opened (Service.close (service_of setup client sn res) x).1.world
          ≡ (opened x.world - b) - a
    unfolding Service.close make_resolver new_resolver
    close_releases sn client res l f g x =
        elim (Result-cases (Annotation.resolve_prefix setup.is_subdomain setup.annotation_prefix)) [
          | inr (_, e) ↦ absurd (ground arith)
          | inl (prefix, e) ↦
              let same : client.client ≡ res.client = ground arith in
              let u = (client.client.close x.world).1 in
              let closed : opened (res.client.close x.world).1 ≡ opened x.world - b =
                subst (λ c. opened (c.close x.world).1 ≡ opened x.world - b) same (g x.world) in
              ground (arith, closed, f (res.client.close x.world).1)
        ]

    -- RegisterGRPCService ends with a service, for which a snapshotter and a client are open that
    -- its Close closes, or with an error, and then as much is open as before: what it has opened it
    -- closes, wherever it fails.
    pub register_grpc_service_balances :
        (s : State W)
        → ((service : Snapshotter W C T) × ((register_grpc_service setup s).0 ≡ ok service)
            × (opened (register_grpc_service setup s).1.world ≡ b + (a + opened s.world))
            × ((x : State W) → opened (Service.close service x).1.world ≡ (opened x.world - b) - a))
          ⊎ ((e : Error) × ((register_grpc_service setup s).0 ≡ err e)
              × (opened (register_grpc_service setup s).1.world ≡ opened s.world))
    unfolding register_grpc_service or_close close_all
    register_grpc_service_balances s = elim (create_native_balances s) [
      | inr (e, f, g) ↦ inr (e, ground arith, ground arith)
      | inl (sn, f, g, closes) ↦
          let v = (create_native_overlay_snapshotter setup s).1.world in
          let connecting = setup.new_client setup.containerd_socket v in
          elim (Result-cases connecting.0) [
            | inr (e, k) ↦ inr (
              e,
              ground arith,
              ground
                  (arith, counts.client_fails setup.containerd_socket e v k, closes connecting.1),
            )
            | inl (client, k) ↦
                let opens = counts.client_opens setup.containerd_socket client v k in
                elim (Result-cases (make_resolver setup client.client)) [
                  | inr (e, l) ↦
                      let u = (client.client.close connecting.1).1 in
                      inr (
                        e,
                        ground arith,
                        ground (
                          arith,
                          opens,
                          counts.client_closes setup.containerd_socket client v connecting.1 k,
                          closes u,
                        ),
                      )
                  | inl (res, l) ↦ inl (
                    service_of setup client sn res,
                    ground arith,
                    ground (arith, opens),
                    close_releases sn client res l closes
                        (λ w. counts.client_closes setup.containerd_socket client v w k),
                  )
                ]
          ]
    ]
