-- ===== src/Tests/Wiring.antt =====
-- A daemon without the webhook, in a world that counts what is open, and whose HTTP server does not start.
use pv_snapshotter.Base.{
  ℕ, suc, ◌-◌, ◌≡◌, refl, true, false, none, [], Text, codes, ok, err, host, arith,
}
use pv_snapshotter.Base.Int.{pos}
use pv_snapshotter.Exec.{State, Call}
use pv_snapshotter.Host.{Snapshots, LeaseService, ContainerClient}
use pv_snapshotter.Service.Wiring.{Setup}
use pv_snapshotter.Service.Wiring.Released.{Counts}
use pv_snapshotter.Daemon.{WebhookSetup, Platform, run_daemon}
use pv_snapshotter.Daemon.Released.{IsNeutral, run_daemon_balances}
use pv_snapshotter.Tests.Cluster.{templates}
use pv_snapshotter.Tests.Building.{subdomains, parse_selector, flags}

-- The snapshotters and the clients that are open.
abbrev World : Type 0
World = ℕ × ℕ

abbrev fails : {A : Type 0} → Call World A
fails w = (err (host (codes "unused")), w)

abbrev close_snapshotter : Call World Unit
close_snapshotter w = (ok tt, (w.0 - 1, w.1))

abbrev close_client : Call World Unit
close_client w = (ok tt, (w.0, w.1 - 1))

abbrev snapshots : Snapshots World
snapshots = record {
  stat = λ key. fails;
  mounts = λ key. fails;
  prepare = λ key parent opts. fails;
  view = λ key parent opts. fails;
  commit = λ name key opts. fails;
  remove = λ key. fails;
  update = λ info paths. fails;
  usage = λ key. fails;
  walk = λ fn filters. fails;
  close = close_snapshotter;
}

abbrev leases_service : LeaseService World
leases_service = record {
  create = λ labels. fails;
  add_resource = λ lease resource. fails;
  list = λ query. fails;
  delete = λ id. fails;
}

abbrev client : ContainerClient World Text
client = record {
  containers = λ ns query. fails;
  info = λ ns ctr. fails;
  extensions = λ ns ctr. fails;
  close = close_client;
}

abbrev setup : Setup World Text Text
setup = record {
  overlay_config = ok (record {
    root_path = [];
    upper_dir_label = true;
    sync_remove = false;
    slow_chown = false;
    mount_options = [];
  });
  supports_id_mapped_mounts = λ w. (ok true, w);
  new_snapshotter = λ root opts w. (ok snapshots, (suc w.0, w.1));
  new_client = λ socket w. (
    ok (record {
      client = client;
      overlayfs = λ ns. snapshots;
      leases_service = λ ns. leases_service;
    }),
    (w.0, suc w.1),
  );
  containerd_socket = codes "containerd.sock";
  share_overlayfs_lowers = true;
  annotation_prefix = codes "x.io";
  is_subdomain = λ prefix. [];
  templates = record { parse = λ name text. ok text; execute = λ tmpl fields. ok tmpl };
  unmarshal = λ raw. ok (record { config = none });
  files = record {
    stat = λ path. fails;
    device = λ path. fails;
    mkdir_all = λ path mode. fails;
    remove_all = λ path. fails;
    symlink = λ target path. fails;
  };
  cleaner = λ sn. fails;
  quote = λ text. text;
  format_time = λ time. [];
}

abbrev at : World → State World
at w = record { world = w; pinned_snapshots = pos 0; unpin_failures = 0; orphan_leases = 0 }

counted_snapshotters : Counts setup (λ w. w.0) 1 0
counted_snapshotters = record {
  asks = λ w. refl;
  snapshotter_opens = λ root opts sn w e. omega arith;
  snapshotter_fails = λ root opts e w f. absurd (ground arith);
  client_opens = λ socket client w e. omega arith;
  client_fails = λ socket e w f. absurd (ground arith);
  snapshotter_closes = λ root opts sn v w e. ground arith;
  client_closes = λ socket client v w e. ground arith;
}

counted_clients : Counts setup (λ w. w.1) 0 1
counted_clients = record {
  asks = λ w. refl;
  snapshotter_opens = λ root opts sn w e. omega arith;
  snapshotter_fails = λ root opts e w f. absurd (ground arith);
  client_opens = λ socket client w e. omega arith;
  client_fails = λ socket e w f. absurd (ground arith);
  snapshotter_closes = λ root opts sn v w e. ground arith;
  client_closes = λ socket client v w e. ground arith;
}

abbrev platform : Platform World
platform = record {
  webhook_enabled = false;
  base_context = λ w. (ok tt, w);
  start = λ w. (err (host (codes "address in use")), w);
  block = λ w. (tt, w);
}

abbrev webhook : WebhookSetup World Text Text
webhook = record {
  connect = record { get_config = fails; new_client = λ cfg. fails; new_dynamic = λ cfg. fails };
  templates = templates;
  clock = record { now = λ w. (0, w); pause = λ d w. (ok tt, w) };
  parse_selector = parse_selector;
  is_subdomain = subdomains;
  flags = flags;
}

untouched : (n : World → ℕ) → IsNeutral platform setup webhook n
untouched n = record {
  bases = λ w. refl;
  starts = λ w. refl;
  blocks = λ w. refl;
  configures = λ w. refl;
  connects = λ cfg w. refl;
  connects_dynamic = λ cfg w. refl;
}

run_daemon_balances_example :
    ((run_daemon platform setup webhook (at (5, 2))).1.world.0 ≡ 5)
    × ((run_daemon platform setup webhook (at (5, 2))).1.world.1 ≡ 2)
run_daemon_balances_example =
    run_daemon_balances platform setup webhook (λ w. w.0) (λ w. w.1) (untouched (λ w. w.0))
      (untouched (λ w. w.1)) counted_snapshotters counted_clients (at (5, 2))
