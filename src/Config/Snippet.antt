-- ===== src/Config/Snippet.antt =====
-- The text that is appended to containerd's configuration: buildSnippet, proxyPluginSnippet,
-- runtimeSnippet and indentTOML of pkg/containerd/config/patcher.go.
use pv_snapshotter.Base.{
  ℕ, Option, none, some, List, [], ◌∷◌, ◌++◌, Text, codes, ◌==◌, if◌then◌else◌, split_all, Result,
  ok, err,
}
use pv_snapshotter.Config.Tree.{string, other, table, Table, nothing, entry, put}

-- missingSection; a nil map is `none`.
pub record MissingSection : Type 0 where
  pub kind : Text
  pub runtime_name : Text
  pub base_config : Option Table

abbrev pub newline : ℕ
newline = 0x0A

abbrev pub line_end : Text
line_end = newline ∷ []

abbrev pub snippet_header : Text
snippet_header = line_end ++ (codes "# BEGIN pv-snapshotter managed block" ++ line_end)

abbrev pub snippet_footer : Text
snippet_footer = codes "# END pv-snapshotter managed block" ++ line_end

abbrev pub cri_prefix : Text
cri_prefix =
    codes "plugins."
    ++ (b'"' ∷ codes "io.containerd.grpc.v1.cri" ++ b'"' ∷ codes ".containerd.runtimes.")

abbrev pub default_config : Table
default_config = entry (codes "runtime_type") (string (codes "io.containerd.runc.v2")) nothing

-- The two maps that the loop over cfg makes; a map's order is the list's.
unfoldable pub scalars_of : Table → Table
scalars_of nothing = nothing
scalars_of (entry k v t) = elim v [
  | string s ↦ entry k (string s) (scalars_of t)
  | other s ↦ entry k (other s) (scalars_of t)
  | table _ ↦ scalars_of t
]

unfoldable pub subtables_of : Table → List (Text × Table)
subtables_of nothing = []
subtables_of (entry k v t) = elim v [
  | string _ ↦ subtables_of t
  | other _ ↦ subtables_of t
  | table sub ↦ (k, sub) ∷ subtables_of t
]

-- go-toml: `marshal` is Marshal of a map. `quote` is the verb %q of a text, and `trim_space`
-- TrimSpace of packages bytes and strings.
pub record Toml : Type 0 where
  pub unmarshal : Text → Result Table
  pub marshal : Table → Result Text
  pub quote : Text → Text
  pub trim_space : Text → Text

module _ (toml : Toml) where
  unfoldable pub indent_lines : Text → List Text → Text
  indent_lines prefix [] = []
  indent_lines prefix (line ∷ lines) = elim (toml.trim_space line) [
    | [] ↦ newline ∷ indent_lines prefix lines
    | _ ∷ _ ↦ prefix ++ (line ++ newline ∷ indent_lines prefix lines)
  ]

  unfoldable pub indent_toml : Text → Text → Text
  indent_toml b prefix = indent_lines prefix (split_all newline b)

  -- The marshalled table, nothing where this fails.
  unfoldable pub body_of : Table → Text
  body_of t = elim (toml.marshal t) [ err _ ↦ [] | ok b ↦ indent_toml b (codes "  ") ]

  unfoldable pub proxy_plugin_snippet : Text → Text
  proxy_plugin_snippet socket_path =
      line_end
      ++ (codes "[proxy_plugins.pv-snapshotter]"
          ++ (line_end
              ++ (codes "  type    = "
                  ++ (b'"' ∷ codes "snapshot"
                      ++ (b'"' ∷ line_end
                          ++ (codes "  address = "
                              ++ (toml.quote socket_path ++ (line_end ++ line_end))))))))

  -- cfg, after the override.
  unfoldable pub config_of : Option Table → Table
  config_of base_config =
      put (codes "snapshotter") (string (codes "pv-snapshotter"))
        (elim base_config [ none ↦ default_config | some base ↦ base ])

  -- A table of the file: its name, in brackets, and its body.
  abbrev pub section : Text → Text → Text
  section name body =
      codes "[" ++ (cri_prefix ++ (name ++ (codes "]" ++ (line_end ++ (body ++ line_end)))))

  -- The loop over the sub-tables.
  unfoldable pub subtable_snippets : Text → List (Text × Table) → Text
  subtable_snippets name [] = []
  subtable_snippets name ((sub_key, sub_map) ∷ subs) =
      section (name ++ (codes "." ++ sub_key)) (body_of sub_map) ++ subtable_snippets name subs

  unfoldable pub runtime_snippet : Text → Option Table → Text
  runtime_snippet name base_config =
      let scalars = scalars_of (config_of base_config) in
      line_end
      ++ (section name (elim scalars [ nothing ↦ [] | entry k v t ↦ body_of (entry k v t) ])
          ++ subtable_snippets name (subtables_of (config_of base_config)))

  unfoldable pub section_snippets : Text → List MissingSection → Text
  section_snippets socket_path [] = []
  section_snippets socket_path (s ∷ sections) =
      (if s.kind == codes "proxy_plugin"
        then proxy_plugin_snippet socket_path
        else if s.kind == codes "runtime"
        then runtime_snippet s.runtime_name s.base_config
        else [])
      ++ section_snippets socket_path sections

  unfoldable pub build_snippet : Text → List MissingSection → Text
  build_snippet socket_path sections =
      snippet_header ++ (section_snippets socket_path sections ++ snippet_footer)
