-- ===== src/Config/Flags.antt =====
-- The parameters of the config subcommand, pkg/containerd/config/flags.go.
pub mod Names
use pv_snapshotter.Base.{List, [], ◌∷◌, ◌++◌, Text}
use pv_snapshotter.Config.Patcher.{RuntimeEntry, Params}

-- The values of the flags, as viper has them.
pub record ConfigFlags : Type 0 where
  pub config_path : Text
  pub runtime_classes : List Text
  pub runtime_class_suffix : Text
  pub socket_path : Text

-- `trim_space` is strings.TrimSpace.
module _ (trim_space : Text → Text) where
  -- The loop over the bases.
  unfoldable pub runtime_entries : Text → List Text → List RuntimeEntry
  runtime_entries suffix [] = []
  runtime_entries suffix (base ∷ bases) = elim (trim_space base) [
    | [] ↦ runtime_entries suffix bases
    | c ∷ name ↦
        record { name = (c ∷ name) ++ suffix; base_runtime_name = c ∷ name }
        ∷ runtime_entries suffix bases
  ]

  unfoldable pub get_params : ConfigFlags → Params
  get_params flags = record {
    config_path = flags.config_path;
    socket_path = flags.socket_path;
    runtimes = runtime_entries flags.runtime_class_suffix flags.runtime_classes;
  }

abbrev pub get_socket_path : ConfigFlags → Text
get_socket_path flags = flags.socket_path
