-- ===== src/Tests/Config.antt =====
-- The config subcommand on an empty configuration. The world is the text of the file and the number
-- of probes; the daemon is ready at the third. TOML is a parser that knows only whether the file ends
-- in the footer of the snippet.
use pv_snapshotter.Base.{
  All, ℕ, suc, ◌<◌, ◌≡◌, refl, ◌↔◌, ◌||◌, true, none, some, [], ◌∷◌, ◌++◌, Text, codes, ◌==◌, leb,
  if◌then◌else◌, has_suffix, has_prefix, cut_prefix, ok,
}
use pv_snapshotter.Base.Int.{pos}
use pv_snapshotter.Exec.{State}
use pv_snapshotter.Exec.Laws.{Returns}
use pv_snapshotter.Config.Tree.{
  table, Table, nothing, entry, find, has_key, has_runtime_entry, cri_key_v2, cri_key_v3,
}
use pv_snapshotter.Config.Tree.Search.{runtime_path, has_runtime_entry-has_key}
use pv_snapshotter.Config.Snippet.{Toml, snippet_footer, build_snippet}
use pv_snapshotter.Config.Patcher.{
  Params, Disk, collect_missing, missing_runtimes, append_to_file, apply,
}
use pv_snapshotter.Config.Patcher.Patched.{IsPatched, apply-IsPatched}
use pv_snapshotter.Config.Patcher.Headers.{HasLine, header_of, path_of, build_snippet-HasLine}
use pv_snapshotter.Config.Flags.{get_params, runtime_entries}
use pv_snapshotter.Config.Wait.{Probe, probe_readyz, wait_until_ready}
use pv_snapshotter.Config.Wait.Tries.{Tries, wait_until_ready-Tries}
use pv_snapshotter.Config.Restart.{
  Processes, restart_containerd, Kernel, replaced, restart_args, nsenter_preamble,
}
use pv_snapshotter.Config.Restart.Preamble.{IsRestart, nsenter_preamble-IsRestart}
use pv_snapshotter.Config.Command.{ConfigCommand, run_config, configure, restart_if}
use pv_snapshotter.Config.Command.Run.{IsRun, run_config-IsRun}

abbrev World : Type 0
World = Text × ℕ

abbrev at : Text → ℕ → State World
at text probes = record {
  world = (text, probes);
  pinned_snapshots = pos 0;
  unpin_failures = 0;
  orphan_leases = 0;
}

abbrev disk : Disk World
disk = record {
  read_file = λ path w. (ok w.0, w);
  open_append = λ path w. (ok tt, w);
  write = λ path text w. (ok tt, (w.0 ++ text, w.1));
}

abbrev runtimes_table : Table
runtimes_table = entry (codes "runc-pv") (table nothing) nothing

abbrev one : Text → Table → Table
one key t = entry key (table t) nothing

abbrev pub configured : Table
configured = entry (codes "proxy_plugins") (table (one (codes "pv-snapshotter") nothing)) (
    one (codes "plugins")
      (one cri_key_v2 (one (codes "containerd") (one (codes "runtimes") runtimes_table))))

abbrev tree_of : Text → Table
tree_of text = if has_suffix text snippet_footer then configured else nothing

abbrev toml : Toml
toml = record {
  unmarshal = λ text. ok (tree_of text);
  marshal = λ t. ok [];
  quote = λ text. text;
  trim_space = λ text. text;
}

abbrev params : Params
params = record {
  config_path = codes "config.toml";
  socket_path = codes "daemon.sock";
  runtimes = record { name = codes "runc-pv"; base_runtime_name = codes "runc" } ∷ [];
}

abbrev patched : Text
patched = build_snippet toml params.socket_path (collect_missing nothing params)

run : Returns (apply disk toml params) (at [] 3) true (at patched 3)
unfolding apply append_to_file collect_missing missing_runtimes has_runtime_entry has_key find
    has_suffix has_prefix cut_prefix ◌==◌
run = refl

abbrev probe : Text → Probe World
probe socket_path = record {
  request = λ url. ok tt;
  get = λ url w. (ok (if leb 2 w.1 then 200 else 503), (w.0, suc w.1));
  pause = λ d w. (ok tt, w);
}

abbrev processes : Processes World
processes = record {
  executable = λ w. (ok (codes "daemon"), w);
  environ = λ w. ([], w);
  run = λ self environ w. (ok tt, w);
}

abbrev command : ConfigCommand World
command = record {
  flags = record {
    config_path = codes "config.toml";
    runtime_classes = codes "runc" ∷ [];
    runtime_class_suffix = codes "-pv";
    socket_path = codes "daemon.sock";
  };
  base_context = λ w. (ok tt, w);
  probe = probe;
  disk = disk;
  toml = toml;
  processes = processes;
  block = λ w. (tt, w);
}

abbrev kernel : Kernel World
kernel = record {
  open_read = λ path w. (ok 3, w);
  setns = λ fd flag w. (ok tt, w);
  access = λ path w. (path == codes "/bin/systemctl", w);
  exec = λ path args w. none;
}

build_snippet-HasLine_example :
    All
      (λ s.
        HasLine
          (header_of (path_of s))
          (build_snippet toml params.socket_path (collect_missing nothing params)))
      (collect_missing nothing params)
unfolding ◌==◌
build_snippet-HasLine_example = build_snippet-HasLine toml nothing params (refl, tt)

apply-IsPatched_example :
    Returns (apply disk toml params) (at [] 3) true (at patched 3)
    ↔ IsPatched disk toml params (at [] 3) true (at patched 3)
apply-IsPatched_example = apply-IsPatched disk toml params (at [] 3) true (at patched 3)

has_runtime_entry-has_key_example :
    has_runtime_entry configured (codes "runc-pv")
    ≡ has_key (runtime_path cri_key_v2 (codes "runc-pv")) configured
      || has_key (runtime_path cri_key_v3 (codes "runc-pv")) configured
has_runtime_entry-has_key_example = has_runtime_entry-has_key configured (codes "runc-pv")

wait_until_ready-Tries_example :
    Returns (wait_until_ready (probe (codes "daemon.sock")) 3) (at [] 0) (some tt) (at [] 3)
    ↔ ((n : ℕ) × (n < 3) × Tries (probe (codes "daemon.sock")) n (at [] 0) (at [] 3))
wait_until_ready-Tries_example =
    wait_until_ready-Tries (probe (codes "daemon.sock")) 3 (at [] 0) (at [] 3)

run_config-IsRun_example :
    Returns (run_config command 3) (at [] 0) (some tt) (at patched 3)
    ↔ IsRun command 3 (at [] 0) (at patched 3)
run_config-IsRun_example = run_config-IsRun command 3 (at [] 0) (at patched 3)

nsenter_preamble-IsRestart_example :
    (nsenter_preamble kernel (some (codes "1")) ([], 0)
      ≡ replaced (codes "/bin/systemctl") restart_args ([], 0))
    ↔ IsRestart kernel (some (codes "1")) ([], 0) (codes "/bin/systemctl") restart_args ([], 0)
nsenter_preamble-IsRestart_example =
    nsenter_preamble-IsRestart kernel (some (codes "1")) ([], 0) (codes "/bin/systemctl")
      restart_args ([], 0)

ran : Returns (run_config command 3) (at [] 0) (some tt) (at patched 3)
unfolding run_config wait_until_ready probe_readyz configure get_params runtime_entries restart_if
    restart_containerd apply append_to_file collect_missing missing_runtimes has_runtime_entry
    has_key find has_suffix has_prefix cut_prefix ◌==◌
ran = refl
