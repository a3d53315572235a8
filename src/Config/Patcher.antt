-- ===== src/Config/Patcher.antt =====
-- The patch of containerd's configuration: collectMissing, appendToFile and Apply of
-- pkg/containerd/config/patcher.go.
pub mod Missing
pub mod Patched
pub mod Headers
use pv_snapshotter.Base.{
  Bool, true, false, Option, none, some, List, [], ◌∷◌, ◌++◌, Text, codes, if◌then◌else◌, Result,
}
use pv_snapshotter.Exec.{Exec, Call, pure, lift, call, wrapping, ◌>>=◌, ◌>>◌}
use pv_snapshotter.Config.Tree.{Table, has_key, has_runtime_entry, lookup_base_runtime}
use pv_snapshotter.Config.Snippet.{Toml, MissingSection, build_snippet}

pub record RuntimeEntry : Type 0 where
  pub name : Text
  pub base_runtime_name : Text

pub record Params : Type 0 where
  pub config_path : Text
  pub socket_path : Text
  pub runtimes : List RuntimeEntry

abbrev pub proxy_plugin_path : List Text
proxy_plugin_path = codes "proxy_plugins" ∷ codes "pv-snapshotter" ∷ []

abbrev pub proxy_plugin : MissingSection
proxy_plugin = record { kind = codes "proxy_plugin"; runtime_name = []; base_config = none }

abbrev pub missing_runtime : Table → RuntimeEntry → MissingSection
missing_runtime tree rt = record {
  kind = codes "runtime";
  runtime_name = rt.name;
  base_config = lookup_base_runtime tree rt.base_runtime_name;
}

-- The loop over params.Runtimes.
unfoldable pub missing_runtimes : Table → List RuntimeEntry → List MissingSection
missing_runtimes tree [] = []
missing_runtimes tree (rt ∷ rts) =
    let rest = missing_runtimes tree rts in
    if has_runtime_entry tree rt.name then rest else missing_runtime tree rt ∷ rest

unfoldable pub collect_missing : Table → Params → List MissingSection
collect_missing tree params =
    (if has_key proxy_plugin_path tree then [] else proxy_plugin ∷ [])
    ++ missing_runtimes tree params.runtimes

-- os: `open_append` is OpenFile of an existing file in append mode, and `write` writes to the file
-- that was opened.
pub record Disk (W : Type 0) : Type 0 where
  pub read_file : Text → Call W Text
  pub open_append : Text → Call W Unit
  pub write : Text → Text → Call W Unit

module _ {W : Type 0} (disk : Disk W) (toml : Toml) where
  unfoldable pub append_to_file : Text → Text → Exec W Unit
  append_to_file path text = do
    wrapping "opening %s for append: %w" (path ∷ []) (call (disk.open_append path))
    wrapping "writing to %s: %w" (path ∷ []) (call (disk.write path text))

  unfoldable pub apply : Params → Exec W Bool
  apply params = do
    raw ←
        wrapping "reading %s: %w" (params.config_path ∷ [])
          (call (disk.read_file params.config_path))
    tree ← wrapping "parsing %s: %w" (params.config_path ∷ []) (lift (toml.unmarshal raw))
    elim (collect_missing tree params) [
      | [] ↦ pure false
      | s ∷ missing ↦ do
        append_to_file params.config_path (build_snippet toml params.socket_path (s ∷ missing))
        pure true
    ]
