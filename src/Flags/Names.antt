-- ===== src/Flags/Names.antt =====
-- The names of the flags and their defaults: the constants of pkg/annotation/prefix.go,
-- pkg/containerd/snapshotter/service.go, pkg/webhook/mutating.go and pkg/containerd/config/flags.go. A
-- duration is in nanoseconds.
use pv_snapshotter.Base.{Bool, true, List, [], ◌∷◌, Text, codes}
use pv_snapshotter.Base.Int.{ℤ, pos}

abbrev pub flag_pvc_name_template : Text
flag_pvc_name_template = codes "webhook-pvc-name-template"

abbrev pub flag_pvc_selector_template : Text
flag_pvc_selector_template = codes "webhook-pvc-selector-template"

abbrev pub flag_max_owner_depth : Text
flag_max_owner_depth = codes "webhook-max-owner-depth"

abbrev pub flag_default_runtime_class : Text
flag_default_runtime_class = codes "webhook-default-runtime-class"

abbrev pub flag_runtime_class_suffix : Text
flag_runtime_class_suffix = codes "webhook-runtime-class-suffix"

abbrev pub flag_annotation_templates : Text
flag_annotation_templates = codes "webhook-annotation-templates"

abbrev pub flag_state_mount_path : Text
flag_state_mount_path = codes "webhook-state-mount-path"

abbrev pub flag_bound_timeout : Text
flag_bound_timeout = codes "webhook-bound-timeout"

abbrev pub flag_enabled : Text
flag_enabled = codes "webhook-enabled"

abbrev pub flag_prefix : Text
flag_prefix = codes "annotation-prefix"

abbrev pub flag_unix_socket_path : Text
flag_unix_socket_path = codes "unix-socket-path"

abbrev pub flag_containerd_socket : Text
flag_containerd_socket = codes "containerd-socket"

abbrev pub flag_share_overlayfs_lowers : Text
flag_share_overlayfs_lowers = codes "share-overlayfs-lowers"

abbrev pub flag_config_path : Text
flag_config_path = codes "config-path"

abbrev pub flag_runtime_classes : Text
flag_runtime_classes = codes "runtime-classes"

abbrev pub flag_config_suffix : Text
flag_config_suffix = codes "runtime-class-suffix"

abbrev pub flag_socket_path : Text
flag_socket_path = codes "socket-path"

abbrev pub default_pvc_name_template : Text
default_pvc_name_template = codes "{{.OwnerName}}"

abbrev pub default_pvc_selector_template : Text
default_pvc_selector_template = []

abbrev pub default_max_owner_depth : ℤ
default_max_owner_depth = pos 2

abbrev pub default_default_runtime_class : Text
default_default_runtime_class = []

abbrev pub default_state_mount_path : Text
default_state_mount_path = codes "/.platform/state"

abbrev pub default_bound_timeout : ℤ
default_bound_timeout = pos 30_000_000_000

abbrev pub default_enabled : Bool
default_enabled = true

abbrev pub default_containerd_socket : Text
default_containerd_socket = codes "/run/containerd/containerd.sock"

abbrev pub default_config_path : Text
default_config_path = codes "/etc/containerd/config.toml"

abbrev pub default_prefix : Text
default_prefix = codes "pv-snapshotter.humble-mun.io"

abbrev pub default_unix_socket_path : Text
default_unix_socket_path = codes "/var/run/pv-snapshotter/daemon.sock"

abbrev pub default_config_socket : Text
default_config_socket = codes "/var/run/pv-snapshotter/daemon.sock"

abbrev pub default_runtime_class_suffix : Text
default_runtime_class_suffix = codes "-pv"

abbrev pub default_config_suffix : Text
default_config_suffix = codes "-pv"

abbrev pub default_upperdir_template : Text
default_upperdir_template =
    codes "/var/lib/kubelet/pods/{{.PodUID}}/volumes/kubernetes.io~csi/{{.PVName}}/mount"

-- defaultAnnotationTemplates.
abbrev pub default_annotation_templates : List (Text × Text)
default_annotation_templates =
    (codes "pv-snapshotter.humble-mun.io/upperdir-path-template", default_upperdir_template)
    ∷ (codes "pv-snapshotter.humble-mun.io/var.PVName", codes "{{.PVName}}")
    ∷ []
