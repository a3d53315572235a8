-- ===== src/Daemon/Released.antt =====
-- The daemon leaves nothing open.
use pv_snapshotter.Base.{ℕ, ◌≡◌, inl, inr, Bool, true, false, codes, arith, Result-cases}
use pv_snapshotter.Annotation
use pv_snapshotter.Exec.{State, call}
use pv_snapshotter.Service.Wiring.{Setup, register_grpc_service}
use pv_snapshotter.Service.Wiring.Released.{Counts, register_grpc_service_balances}
use pv_snapshotter.Webhook.New.{parse_annotations, new_handler}
use pv_snapshotter.Daemon.{WebhookSetup, Platform, deferring, start_webhook, serve, run_daemon}

module _ {W C S R T : Type 0} (platform : Platform W) (setup : Setup W C S)
    (webhook : WebhookSetup W R T) (opened : W → ℕ) where
  -- The other calls open and close none of the service's snapshotters and clients.
  pub record IsNeutral : Type 0 where
    pub bases : (w : W) → opened (platform.base_context w).1 ≡ opened w
    pub starts : (w : W) → opened (platform.start w).1 ≡ opened w
    pub blocks : (w : W) → opened (platform.block w).1 ≡ opened w
    pub configures : (w : W) → opened (webhook.connect.get_config w).1 ≡ opened w
    pub connects : (cfg : R) (w : W) → opened (webhook.connect.new_client cfg w).1 ≡ opened w
    pub connects_dynamic :
        (cfg : R) (w : W) → opened (webhook.connect.new_dynamic cfg w).1 ≡ opened w

  module _ (neutral : IsNeutral) where
    start_webhook_keeps :
        (b : Bool) (s : State W)
        → opened (start_webhook platform setup webhook b s).1.world ≡ opened s.world
    unfolding start_webhook new_handler
    start_webhook_keeps false s = ground arith
    start_webhook_keeps true s =
        let c = webhook.connect in
        let flags = webhook.flags in
        let one = c.get_config s.world in
        let a = neutral.configures s.world in
        elim (Result-cases one.0) [
          | inr (_, e) ↦ ground arith
          | inl (cfg, e) ↦
              let two = c.new_client cfg one.1 in
              let b = neutral.connects cfg one.1 in
              elim (Result-cases two.0) [
                | inr (_, f) ↦ ground arith
                | inl (kc, f) ↦
                    let d = neutral.connects_dynamic cfg two.1 in
                    elim (Result-cases (c.new_dynamic cfg two.1).0) [
                      | inr (_, g) ↦ ground arith
                      | inl (dc, g) ↦ ground (
                        arith,
                        Result-cases
                            (webhook.templates.parse (codes "pvc-name") flags.pvc_name_template),
                        Result-cases (
                            webhook.templates.parse (codes "pvc-selector")
                              flags.pvc_selector_template),
                        Result-cases (
                            Annotation.resolve_prefix webhook.is_subdomain flags.annotation_prefix),
                        Result-cases
                            (parse_annotations webhook.templates flags.annotation_templates),
                      )
                    ]
              ]
        ]

    serve_keeps : (s : State W) → opened (serve platform setup webhook s).1.world ≡ opened s.world
    unfolding serve
    serve_keeps s =
        let t = (start_webhook platform setup webhook platform.webhook_enabled s).1 in
        let k = start_webhook_keeps platform.webhook_enabled s in
        elim (Result-cases (start_webhook platform setup webhook platform.webhook_enabled s).0) [
          | inr (_, e) ↦ ground arith
          | inl (tt, e) ↦ elim (Result-cases (platform.start t.world).0) [
            | inr (_, f) ↦ ground (arith, neutral.starts t.world)
            | inl (tt, f) ↦
                ground (arith, neutral.starts t.world, neutral.blocks (platform.start t.world).1)
          ]
        ]

    run_daemon_keeps :
        (a b : ℕ)
        → Counts setup opened a b
        → (s : State W) → opened (run_daemon platform setup webhook s).1.world ≡ opened s.world
    unfolding run_daemon deferring
    run_daemon_keeps a b counts s =
        let based = call platform.base_context s in
        let n = neutral.bases s.world in
        elim (Result-cases based.0) [
          | inr (_, e) ↦ ground arith
          | inl (tt, e) ↦ elim (register_grpc_service_balances setup opened a b counts based.1) [
            | inr (_, f, g) ↦ ground arith
            | inl (service, f, g, closes) ↦
                let registered = (register_grpc_service setup based.1).1 in
                ground (
                  arith,
                  closes (serve platform setup webhook registered).1,
                  serve_keeps registered,
                )
          ]
        ]

module _ {W C S R T : Type 0} (platform : Platform W) (setup : Setup W C S)
    (webhook : WebhookSetup W R T) where
  -- When the daemon ends, with or without an error, as many native snapshotters are open as when it
  -- began, and as many clients of containerd: each that it has opened is closed, on every path,
  -- where closing one releases it and nothing else, and the other calls open and close none.
  pub run_daemon_balances :
      (snapshotters clients : W → ℕ)
      → IsNeutral platform setup webhook snapshotters
      → IsNeutral platform setup webhook clients
      → Counts setup snapshotters 1 0
      → Counts setup clients 0 1
      → (s : State W)
      → (snapshotters (run_daemon platform setup webhook s).1.world ≡ snapshotters s.world)
        × (clients (run_daemon platform setup webhook s).1.world ≡ clients s.world)
  run_daemon_balances snapshotters clients n k c d s = (
    run_daemon_keeps platform setup webhook snapshotters n 1 0 c s,
    run_daemon_keeps platform setup webhook clients k 0 1 d s,
  )
