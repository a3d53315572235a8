-- ===== src/Daemon.antt =====
-- The daemon, the function RunE of newRootCommand in cmd/daemon/main.go. Log lines and the registration
-- of the routes and of the scrape hook are not modelled.
pub mod Released
use pv_snapshotter.Base.{Bool, true, false, Text, List, Result}
use pv_snapshotter.Exec.{Exec, Call, pure, call, observe, ◌>>=◌, ◌>>◌}
use pv_snapshotter.Host.{Templates}
use pv_snapshotter.Service
use pv_snapshotter.Service.Wiring.{Setup, register_grpc_service}
use pv_snapshotter.Webhook.Kube.{Clock}
use pv_snapshotter.Webhook.Handler.{TemplateData}
use pv_snapshotter.Webhook.New.{WebhookFlags, Connect, new_handler}

-- What the construction of the webhook uses.
pub record WebhookSetup (W R T : Type 0) : Type 0 where
  pub connect : Connect W R
  pub templates : Templates T TemplateData
  pub clock : Clock W
  pub parse_selector : Text → Result Text
  pub is_subdomain : Text → List Text
  pub flags : WebhookFlags

-- `base_context` is app.BaseContext, `start` the HTTP engine's Start, and `block` the receive from
-- Ctx.Done().
pub record Platform (W : Type 0) : Type 0 where
  pub webhook_enabled : Bool
  pub base_context : Call W Unit
  pub start : Call W Unit
  pub block : W → Unit {0} × W

-- `defer func() { ... }()`, whose error is only logged.
unfoldable pub deferring : {W A : Type 0} → Exec W Unit → Exec W A → Exec W A
deferring later m s = ((m s).0, (later (m s).1).1)

module _ {W C S R T : Type 0} (platform : Platform W) (setup : Setup W C S)
    (webhook : WebhookSetup W R T) where
  unfoldable pub start_webhook : Bool → Exec W Unit
  start_webhook false = pure tt
  start_webhook true = do
    h ←
        new_handler webhook.connect webhook.templates webhook.clock webhook.parse_selector
          webhook.is_subdomain webhook.flags
    pure tt

  -- What runs before the deferred Close.
  unfoldable pub serve : Exec W Unit
  serve = do start_webhook platform.webhook_enabled; call platform.start; observe platform.block

  unfoldable pub run_daemon : Exec W Unit
  run_daemon = do
    call platform.base_context
    svc ← register_grpc_service setup
    deferring (Service.close svc) serve
