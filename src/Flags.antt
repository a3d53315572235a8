-- ===== src/Flags.antt =====
-- The flags of the two commands, with their defaults, and what is read of them: RegisterFlags of
-- pkg/annotation/prefix.go, pkg/containerd/snapshotter/service.go, pkg/webhook/mutating.go and
-- pkg/containerd/config/flags.go, and the calls of viper there and in New. Usage texts are left out.
pub mod Names
pub mod Defaults
pub mod Prefix
pub mod Suffix
use pv_snapshotter.Base.{◌≡◌, Bool, true, false, List, [], ◌∷◌, ◌++◌, Text, codes}
use pv_snapshotter.Base.Int.{ℤ, pos}
use pv_snapshotter.Flags.Names.{
  flag_pvc_name_template, flag_pvc_selector_template, flag_max_owner_depth,
  flag_default_runtime_class, flag_runtime_class_suffix, flag_annotation_templates,
  flag_state_mount_path, flag_bound_timeout, flag_enabled, flag_prefix, flag_unix_socket_path,
  flag_containerd_socket, flag_share_overlayfs_lowers, flag_config_path, flag_runtime_classes,
  flag_config_suffix, flag_socket_path, default_pvc_name_template, default_pvc_selector_template,
  default_max_owner_depth, default_default_runtime_class, default_state_mount_path,
  default_bound_timeout, default_enabled, default_containerd_socket, default_config_path,
  default_prefix, default_unix_socket_path, default_config_socket, default_runtime_class_suffix,
  default_config_suffix, default_annotation_templates,
}
use pv_snapshotter.Webhook.New.{WebhookFlags}
use pv_snapshotter.Config.Flags.{ConfigFlags}

-- The default of a flag, by its type; a duration is in nanoseconds.
pub data FlagValue : Type 0 where
  string_flag : Text → FlagValue
  int_flag duration_flag : ℤ → FlagValue
  bool_flag : Bool → FlagValue
  strings_flag : List Text → FlagValue
  map_flag : List (Text × Text) → FlagValue

pub record Flag : Type 0 where
  pub name : Text
  pub default : FlagValue

abbrev flag : Text → FlagValue → Flag
flag name default = record { name = name; default = default }

-- annotation.RegisterFlags.
abbrev pub annotation_flags : List Flag
annotation_flags = flag flag_prefix (string_flag default_prefix) ∷ []

-- snapshotter.RegisterFlags.
abbrev pub snapshotter_flags : List Flag
snapshotter_flags =
    flag flag_unix_socket_path (string_flag default_unix_socket_path)
    ∷ flag flag_containerd_socket (string_flag default_containerd_socket)
    ∷ flag flag_share_overlayfs_lowers (bool_flag false)
    ∷ []

-- webhook.RegisterFlags.
abbrev pub webhook_flags : List Flag
webhook_flags =
    flag flag_pvc_name_template (string_flag default_pvc_name_template)
    ∷ flag flag_pvc_selector_template (string_flag default_pvc_selector_template)
    ∷ flag flag_max_owner_depth (int_flag default_max_owner_depth)
    ∷ flag flag_default_runtime_class (string_flag default_default_runtime_class)
    ∷ flag flag_runtime_class_suffix (string_flag default_runtime_class_suffix)
    ∷ flag flag_annotation_templates (map_flag default_annotation_templates)
    ∷ flag flag_state_mount_path (string_flag default_state_mount_path)
    ∷ flag flag_bound_timeout (duration_flag default_bound_timeout)
    ∷ flag flag_enabled (bool_flag default_enabled)
    ∷ []

-- RegisterFlags of the config subcommand.
abbrev pub config_flags : List Flag
config_flags =
    flag flag_config_path (string_flag default_config_path)
    ∷ flag flag_runtime_classes (strings_flag [])
    ∷ flag flag_config_suffix (string_flag default_config_suffix)
    ∷ flag flag_socket_path (string_flag default_config_socket)
    ∷ []

-- The flags of the daemon, as newRootCommand registers them.
abbrev pub daemon_flags : List Flag
daemon_flags = annotation_flags ++ (snapshotter_flags ++ webhook_flags)

-- viper, on one process's flags, environment and configuration file.
pub record Viper : Type 0 where
  pub get_string : Text → Text
  pub get_int : Text → ℤ
  pub get_duration : Text → ℤ
  pub get_bool : Text → Bool
  pub get_string_slice : Text → List Text
  pub get_string_map_string : Text → List (Text × Text)

module _ (viper : Viper) where
  -- What New reads, with the prefix that ResolvePrefix reads.
  unfoldable pub webhook_settings : WebhookFlags
  webhook_settings = record {
    pvc_name_template = viper.get_string flag_pvc_name_template;
    pvc_selector_template = viper.get_string flag_pvc_selector_template;
    max_owner_depth = viper.get_int flag_max_owner_depth;
    default_runtime_class = viper.get_string flag_default_runtime_class;
    runtime_class_suffix = viper.get_string flag_runtime_class_suffix;
    annotation_templates = viper.get_string_map_string flag_annotation_templates;
    state_mount_path = viper.get_string flag_state_mount_path;
    bound_timeout = viper.get_duration flag_bound_timeout;
    annotation_prefix = viper.get_string flag_prefix;
  }

  -- What GetParams and GetSocketPath read.
  unfoldable pub config_settings : ConfigFlags
  config_settings = record {
    config_path = viper.get_string flag_config_path;
    runtime_classes = viper.get_string_slice flag_runtime_classes;
    runtime_class_suffix = viper.get_string flag_config_suffix;
    socket_path = viper.get_string flag_socket_path;
  }

  abbrev pub enabled : Bool
  enabled = viper.get_bool flag_enabled

  abbrev pub get_unix_socket_path : Text
  get_unix_socket_path = viper.get_string flag_unix_socket_path
