-- ===== src/Config/Tree.antt =====
-- The parsed TOML tree, and the searches in it of pkg/containerd/config/patcher.go.
pub mod Search
use pv_snapshotter.Base.{
  Bool, true, false, Option, none, some, List, [], ◌∷◌, Text, codes, ◌==◌, if◌then◌else◌,
}

-- The values of map[string]any: a string, a table, or any other value by its text in TOML. A map
-- has the first of two entries with one key.
mutual
  pub data Value : Type 0 where
    string : Text → Value
    other : Text → Value
    table : Table → Value

  pub data Table : Type 0 where
    nothing : Table
    entry : Text → Value → Table → Table

unfoldable pub find : Text → Table → Option Value
find key nothing = none
find key (entry k v t) = if k == key then some v else find key t

-- `t[key] = v`.
unfoldable pub put : Text → Value → Table → Table
put key v nothing = entry key v nothing
put key v (entry k w t) = let rest = put key v t in if k == key then entry k v t else entry k w rest

-- v.(map[string]any), for a value that may be missing.
abbrev pub as_table : Option Value → Option Table
as_table (some (table t)) = some t
as_table _ = none

-- `sub, ok := t[key].(map[string]any)`.
abbrev pub sub_table : Text → Table → Option Table
sub_table key t = as_table (find key t)

unfoldable pub has_key : List Text → Table → Bool
has_key [] cur = true
has_key (seg ∷ path) cur = elim (find seg cur) [
  | none ↦ false
  | some v ↦ elim path [
    | [] ↦ true
    | _ ∷ _ ↦ elim (as_table (some v)) [ none ↦ false | some next ↦ has_key path next ]
  ]
]

abbrev pub plugins_key : Text
plugins_key = codes "plugins"

abbrev pub cri_key_v2 : Text
cri_key_v2 = codes "io.containerd.grpc.v1.cri"

abbrev pub cri_key_v3 : Text
cri_key_v3 = codes "io.containerd.cri.v1.runtime"

-- The list over which both loops run.
abbrev pub cri_keys : List Text
cri_keys = cri_key_v2 ∷ cri_key_v3 ∷ []

-- The three tests of a round: the table of runtimes below one of the plugins.
unfoldable pub runtimes_of : Table → Text → Option Table
runtimes_of plugins cri_key = elim (sub_table cri_key plugins) [
  | none ↦ none
  | some cri ↦ elim (sub_table (codes "containerd") cri) [
    | none ↦ none
    | some ctrd ↦ sub_table (codes "runtimes") ctrd
  ]
]

unfoldable pub has_runtime_in : List Text → Table → Text → Bool
has_runtime_in [] plugins name = false
has_runtime_in (cri_key ∷ keys) plugins name =
    let rest = has_runtime_in keys plugins name in
    elim (runtimes_of plugins cri_key) [
      | none ↦ rest
      | some runtimes ↦ elim (find name runtimes) [ none ↦ rest | some _ ↦ true ]
    ]

unfoldable pub has_runtime_entry : Table → Text → Bool
has_runtime_entry tree name = elim (sub_table plugins_key tree) [
  | none ↦ false
  | some plugins ↦ has_runtime_in cri_keys plugins name
]

-- deepCopyMap, and its step for one value.
unfoldable mutual
  pub deep_copy_map : Table → Table
  deep_copy_map nothing = nothing
  deep_copy_map (entry k v t) = entry k (deep_copy_value v) (deep_copy_map t)

  pub deep_copy_value : Value → Value
  deep_copy_value (string s) = string s
  deep_copy_value (other s) = other s
  deep_copy_value (table t) = table (deep_copy_map t)

unfoldable pub lookup_base_in : List Text → Table → Text → Option Table
lookup_base_in [] plugins base_name = none
lookup_base_in (cri_key ∷ keys) plugins base_name =
    let rest = lookup_base_in keys plugins base_name in
    elim (runtimes_of plugins cri_key) [
      | none ↦ rest
      | some runtimes ↦ elim (sub_table base_name runtimes) [
        | none ↦ rest
        | some base ↦ some (deep_copy_map base)
      ]
    ]

-- A nil map is `none`.
unfoldable pub lookup_base_runtime : Table → Text → Option Table
lookup_base_runtime tree base_name =
    if base_name == [] then none else elim (sub_table plugins_key tree) [
      | none ↦ none
      | some plugins ↦ lookup_base_in cri_keys plugins base_name
    ]
