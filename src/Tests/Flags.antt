-- ===== src/Tests/Flags.antt =====
-- The two commands with the defaults of their flags, on the pod of the small cluster.
use pv_snapshotter.Base.{
  ℕ, length, arith, ap, ◌≡◌, ◌≢◌, refl, none, some, List, [], ◌∷◌, Text, codes, ◌==◌, ok, err,
  lookup, insert, split_all, if◌then◌else◌, true, false, map, HasDistinctKeys, Lacks, has_suffix,
  has_prefix, cut_prefix,
}
use mathlib.Core.List.Memᴰ.{head}
use pv_snapshotter.Base.Int.{pos}
use pv_snapshotter.Exec.Laws.{Returns}
use pv_snapshotter.Host.{PodSandboxConfig}
use pv_snapshotter.Annotation
use pv_snapshotter.Annotation.{validate_prefix, resolve_prefix, is_reserved}
use pv_snapshotter.Resolver.{
  Resolver, new_resolver, template_data, render_upperdir_template, upperdir_from_config,
}
use pv_snapshotter.Webhook.Kube.{Pod}
use pv_snapshotter.Webhook.Handler.{Handler, render_template}
use pv_snapshotter.Webhook.Pointer.{json_key, replace_all, evaluate}
use pv_snapshotter.Webhook.New.{parse_annotations, new_handler}
use pv_snapshotter.Webhook.Patch.{
  JsonPatchOp, build_patch, annotation_ops, annotations_map_ops, volume_ops, mount_ops,
  runtime_class_ops, base_runtime_class,
}
use pv_snapshotter.Webhook.Patch.Apply.{
  apply_all, apply_op, apply_at, place_of, place, evaluate_all, add, replace,
}
use pv_snapshotter.Webhook.Patch.Applied.{or_nothing}
use pv_snapshotter.Config.Tree.{has_key, has_runtime_entry, has_runtime_in, runtimes_of, find}
use pv_snapshotter.Config.Patcher.{collect_missing, missing_runtimes}
use pv_snapshotter.Config.Flags.{get_params, runtime_entries}
use pv_snapshotter.Flags.Names.{default_prefix, default_upperdir_template}
use pv_snapshotter.Flags.{
  FlagValue, string_flag, int_flag, duration_flag, bool_flag, strings_flag, map_flag, Flag, Viper,
  webhook_flags, config_flags, daemon_flags, webhook_settings, config_settings,
}
use pv_snapshotter.Flags.Defaults.{AreUnset}
use pv_snapshotter.Flags.Prefix.{prefix_of, defaults_miss, defaults_route}
use pv_snapshotter.Flags.Suffix.{named_runtime_exists}
use pv_snapshotter.Tests.Cluster.{at, pod, templates, clock, handler}
use pv_snapshotter.Tests.Building.{connect, subdomains, parse_selector}
use pv_snapshotter.Tests.Pipeline.{all_fields}
use pv_snapshotter.Tests.Daemon.{metadata}
use pv_snapshotter.Tests.Daemon as Daemon
use pv_snapshotter.Tests.Config.{configured}

-- No flag is defined twice on the flag set of one command.
no_flag_twice :
    HasDistinctKeys (map (λ f. (f.name, f.default)) daemon_flags)
    × HasDistinctKeys (map (λ f. (f.name, f.default)) config_flags)
unfolding lookup ◌==◌
no_flag_twice = (
  (
    refl,
    (
      refl,
      (refl, (refl, (refl, (refl, (refl, (refl, (refl, (refl, (refl, (refl, (refl, tt))))))))))),
    ),
  ),
  (refl, (refl, (refl, (refl, tt)))),
)

abbrev default_of : Text → List Flag → FlagValue
default_of name [] = bool_flag false
default_of name (f ∷ flags) = if f.name == name then f.default else default_of name flags

-- viper on flags that nobody sets, but for the annotation prefix.
abbrev viper_of : Text → List Flag → Viper
viper_of prefix flags = record {
  get_string = λ name.
      if name == codes "annotation-prefix"
      then prefix
      else elim (default_of name flags) [ string_flag v ↦ v | _ ↦ [] ];
  get_int = λ name. elim (default_of name flags) [ int_flag v ↦ v | _ ↦ pos 0 ];
  get_duration = λ name. elim (default_of name flags) [ duration_flag v ↦ v | _ ↦ pos 0 ];
  get_bool = λ name. elim (default_of name flags) [ bool_flag v ↦ v | _ ↦ false ];
  get_string_slice = λ name. elim (default_of name flags) [ strings_flag v ↦ v | _ ↦ [] ];
  get_string_map_string = λ name. elim (default_of name flags) [ map_flag v ↦ v | _ ↦ [] ];
}

abbrev daemon : Viper
daemon = viper_of default_prefix daemon_flags

abbrev renamed : Viper
renamed = viper_of (codes "x.io") daemon_flags

daemon_unset : AreUnset daemon webhook_flags
unfolding ◌==◌
daemon_unset = (refl, (refl, (refl, (refl, (refl, (refl, (refl, (refl, (refl, tt)))))))))

renamed_unset : AreUnset renamed webhook_flags
unfolding ◌==◌
renamed_unset = (refl, (refl, (refl, (refl, (refl, (refl, (refl, (refl, (refl, tt)))))))))

-- A handler as New makes it of a process's flags; where it made none, that of the small cluster.
abbrev handler_of : Viper → Handler ℕ Text
handler_of viper =
    elim (new_handler connect templates clock parse_selector subdomains (webhook_settings viper)
      (at 0)).0 [ ok h ↦ h | err _ ↦ handler ]

abbrev ops_of : Viper → List JsonPatchOp
ops_of viper = elim (build_patch (handler_of viper) pod (codes "db") all_fields) [
  | err _ ↦ []
  | ok done ↦ done
]

abbrev stamped : Viper → Pod
stamped viper = elim (apply_all (ops_of viper) pod) [ none ↦ pod | some q ↦ q ]

abbrev cfg_of : Viper → PodSandboxConfig
cfg_of viper = record { metadata = none; annotations = or_nothing (stamped viper).annotations }

abbrev resolver_of : Viper → Resolver (List Text) Text Text
resolver_of viper =
    new_resolver Daemon.client Daemon.templates (λ raw. ok metadata) (prefix_of viper)

daemon_built :
    Returns
      (new_handler connect templates clock parse_selector subdomains (webhook_settings daemon))
      (at 0)
      (handler_of daemon)
      (at 0)
unfolding new_handler webhook_settings parse_annotations resolve_prefix validate_prefix is_reserved
    Annotation.key has_suffix has_prefix cut_prefix ◌==◌
daemon_built = refl

renamed_built :
    Returns
      (new_handler connect templates clock parse_selector subdomains (webhook_settings renamed))
      (at 0)
      (handler_of renamed)
      (at 0)
unfolding new_handler webhook_settings parse_annotations resolve_prefix validate_prefix is_reserved
    Annotation.key has_suffix has_prefix cut_prefix ◌==◌
renamed_built = refl

abbrev IsStamped : Viper → Type 0
IsStamped viper =
    (build_patch (handler_of viper) pod (codes "db") all_fields ≡ ok (ops_of viper))
    × (apply_all (ops_of viper) pod ≡ some (stamped viper))
    × ((stamped viper).annotations ≡ some (cfg_of viper).annotations)

daemon_stamps : IsStamped daemon
unfolding new_handler webhook_settings parse_annotations resolve_prefix validate_prefix is_reserved
    Annotation.key has_suffix has_prefix cut_prefix build_patch annotation_ops render_template
    annotations_map_ops volume_ops mount_ops runtime_class_ops base_runtime_class apply_all apply_op
    apply_at place_of place evaluate_all evaluate split_all json_key replace_all add replace insert
    ◌==◌
daemon_stamps = (refl, refl, refl)

renamed_stamps : IsStamped renamed
unfolding new_handler webhook_settings parse_annotations resolve_prefix validate_prefix is_reserved
    Annotation.key has_suffix has_prefix cut_prefix build_patch annotation_ops render_template
    annotations_map_ops volume_ops mount_ops runtime_class_ops base_runtime_class apply_all apply_op
    apply_at place_of place evaluate_all evaluate split_all json_key replace_all add replace insert
    ◌==◌
renamed_stamps = (refl, refl, refl)

other_prefix : prefix_of renamed ≢ default_prefix
unfolding ◌==◌
other_prefix e = omega (arith, ap length e)

no_slash : Lacks b'/' (prefix_of renamed)
unfolding ◌==◌
no_slash = (
  (λ e. omega (arith, e)),
  ((λ e. omega (arith, e)), ((λ e. omega (arith, e)), ((λ e. omega (arith, e)), tt))),
)

rendered :
    (render_template (handler_of daemon).templates (some default_upperdir_template) all_fields
      ≡ ok default_upperdir_template)
    × (render_template (handler_of daemon).templates (some (codes "{{.PVName}}")) all_fields
        ≡ ok (codes "pv-1"))
unfolding new_handler webhook_settings parse_annotations resolve_prefix validate_prefix is_reserved
    Annotation.key has_suffix has_prefix cut_prefix render_template ◌==◌
rendered = (refl, refl)

defaults_miss_example :
    upperdir_from_config (resolver_of renamed) (cfg_of renamed) (codes "k") ≡ ok []
unfolding lookup
defaults_miss_example =
    defaults_miss connect templates clock parse_selector subdomains Daemon.client Daemon.templates
      (λ raw. ok metadata) renamed renamed_unset (at 0) (at 0) (handler_of renamed) pod
      (stamped renamed) (codes "db") all_fields (ops_of renamed) (cfg_of renamed) (codes "k")
      other_prefix no_slash renamed_built tt renamed_stamps.0 renamed_stamps.1 renamed_stamps.2 refl
      refl

defaults_route_example :
    (upperdir_from_config (resolver_of daemon) (cfg_of daemon) (codes "k")
      ≡ render_upperdir_template
          (resolver_of daemon)
          default_upperdir_template
          (cfg_of daemon)
          (codes "k"))
    × (lookup (codes "PVName") (template_data (resolver_of daemon) (cfg_of daemon))
        ≡ some (codes "pv-1"))
unfolding lookup ◌==◌
defaults_route_example =
    defaults_route connect templates clock parse_selector subdomains Daemon.client Daemon.templates
      (λ raw. ok metadata) daemon daemon_unset (at 0) (at 0) (handler_of daemon) pod
      (stamped daemon) (codes "db") all_fields (ops_of daemon) (cfg_of daemon)
      default_upperdir_template (codes "{{.PVName}}") default_upperdir_template (codes "pv-1")
      (codes "k") refl daemon_built tt daemon_stamps.0 daemon_stamps.1 daemon_stamps.2 refl refl
      refl rendered.0 (λ e. cc) rendered.1

-- The config command of the same node, for the class of the pod.
abbrev command : Viper
command = record (viper_of [] config_flags) { get_string_slice = λ name. codes "runc" ∷ [] }

nothing_missing : collect_missing configured (get_params (λ t. t) (config_settings command)) ≡ []
unfolding collect_missing missing_runtimes has_runtime_entry has_runtime_in runtimes_of has_key find
    get_params runtime_entries config_settings ◌==◌
nothing_missing = refl

named_runtime_exists_example :
    (name : Text) × ((stamped daemon).runtime_class_name ≡ some name)
    × (has_runtime_entry configured name ≡ true)
unfolding base_runtime_class webhook_settings lookup ◌==◌
named_runtime_exists_example =
    named_runtime_exists connect templates clock parse_selector subdomains (λ t. t) daemon command
      (at 0) (at 0) (handler_of daemon) pod (stamped daemon) (codes "db") all_fields (ops_of daemon)
      configured (codes "runc") (refl, (refl, tt)) refl refl daemon_built daemon_stamps.0
      daemon_stamps.1 (λ e. cc) (head refl) refl nothing_missing
