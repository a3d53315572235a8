-- ===== src/Flags/Defaults.antt =====
-- What viper answers for a flag that nobody sets.
use pv_snapshotter.Base.{
  ◌≡◌, refl, sym, subst, List, Text, codes, All, Result, lookup, ◌==◌, HasDistinctKeys,
}
use pv_snapshotter.Exec.{State}
use pv_snapshotter.Exec.Laws.{Returns}
use pv_snapshotter.Host.{Templates}
use pv_snapshotter.Webhook.Kube.{Clock}
use pv_snapshotter.Webhook.Handler.{Handler, TemplateData}
use pv_snapshotter.Webhook.New.{Connect, new_handler}
use pv_snapshotter.Webhook.New.Built.{IsBuilt, new_handler-IsBuilt}
use pv_snapshotter.Flags.Names.{default_annotation_templates, default_runtime_class_suffix}
use pv_snapshotter.Flags.{
  FlagValue, string_flag, int_flag, duration_flag, bool_flag, strings_flag, map_flag, Flag, Viper,
  webhook_flags, webhook_settings,
}

abbrev Answers : Viper → Flag → FlagValue → Type 0
Answers viper f (string_flag v) = viper.get_string f.name ≡ v
Answers viper f (int_flag v) = viper.get_int f.name ≡ v
Answers viper f (duration_flag v) = viper.get_duration f.name ≡ v
Answers viper f (bool_flag v) = viper.get_bool f.name ≡ v
Answers viper f (strings_flag v) = viper.get_string_slice f.name ≡ v
Answers viper f (map_flag v) = viper.get_string_map_string f.name ≡ v

-- The flag is not set, neither by the command line, the environment nor the configuration file:
-- viper falls through to its default.
abbrev pub IsUnset : Viper → Flag → Type 0
IsUnset viper f = Answers viper f f.default

abbrev pub AreUnset : Viper → List Flag → Type 0
AreUnset viper = All (IsUnset viper)

module _ (viper : Viper) (unset : AreUnset viper webhook_flags) where
  pub unset_templates :
      viper.get_string_map_string (codes "webhook-annotation-templates")
      ≡ default_annotation_templates
  unset_templates = unset.1.1.1.1.1.0

  pub unset_suffix :
      viper.get_string (codes "webhook-runtime-class-suffix") ≡ default_runtime_class_suffix
  unset_suffix = unset.1.1.1.1.0

  pub default_handler-IsBuilt :
      {W R T : Type 0} (connect : Connect W R) (templates : Templates T TemplateData)
      (clock : Clock W) (parse_selector : Text → Result Text) (is_subdomain : Text → List Text)
      (s t : State W) (h : Handler W T)
      → Returns
          (new_handler connect templates clock parse_selector is_subdomain (webhook_settings viper))
          s
          h
          t
      → IsBuilt connect templates clock parse_selector is_subdomain (webhook_settings viper) h
  unfolding webhook_settings lookup ◌==◌
  default_handler-IsBuilt connect templates clock parse_selector is_subdomain s t h r =
      new_handler-IsBuilt connect templates clock parse_selector is_subdomain
        (webhook_settings viper) s h t
        (subst (λ ts. HasDistinctKeys ts) (sym unset_templates) (refl, (refl, tt))) r
