-- ===== src/Flags/Suffix.antt =====
-- The runtime classes that the webhook names are runtimes that the config command adds.
use pv_snapshotter.Base.{
  ℕ, ◌≡◌, ◌≢◌, first_cases, HasDistinctKeys, refl, sym, ap, subst, ◌∙◌, inl, inr, true, some, List,
  [], ◌∷◌, ◌++◌, Text, codes, All, ok, Result,
}
use mathlib.Core.List.{Memᴰ}
use mathlib.Core.List.Memᴰ.{head, tail}
use pv_snapshotter.Exec.{State}
use pv_snapshotter.Exec.Laws.{Returns}
use pv_snapshotter.Host.{Templates}
use pv_snapshotter.Webhook.Kube.{Pod, Clock}
use pv_snapshotter.Webhook.Handler.{Handler, TemplateData}
use pv_snapshotter.Webhook.New.{Connect, new_handler}
use pv_snapshotter.Webhook.Patch.{JsonPatchOp, build_patch, base_runtime_class}
use pv_snapshotter.Webhook.Patch.Apply.{apply_all}
use pv_snapshotter.Webhook.Patch.Applied.{patched, with_suffix, build_patch-patched}
use pv_snapshotter.Config.Tree.{Table, has_runtime_entry}
use pv_snapshotter.Config.Patcher.{RuntimeEntry, collect_missing}
use pv_snapshotter.Config.Patcher.Missing.{
  HasRuntime, has_runtime_entry_iff, collect_missing-IsConfigured,
}
use pv_snapshotter.Config.Flags.{runtime_entries, get_params}
use pv_snapshotter.Flags.Names.{default_config_suffix, default_runtime_class_suffix}
use pv_snapshotter.Flags.{Viper, webhook_settings, config_settings}
use pv_snapshotter.Webhook.New.Built.{new_handler-IsBuilt}

module _ (trim_space : Text → Text) where
  runtime_entries_blank :
      (suffix base : Text) (bases : List Text)
      → trim_space base ≡ []
      → runtime_entries trim_space suffix (base ∷ bases) ≡ runtime_entries trim_space suffix bases
  unfolding runtime_entries
  runtime_entries_blank suffix base bases e = rw (runtime_entries, e) refl

  runtime_entries_kept :
      (suffix base name : Text) (c : ℕ) (bases : List Text)
      → trim_space base ≡ c ∷ name
      → runtime_entries trim_space suffix (base ∷ bases)
        ≡ record { name = (c ∷ name) ++ suffix; base_runtime_name = c ∷ name }
          ∷ runtime_entries trim_space suffix bases
  unfolding runtime_entries
  runtime_entries_kept suffix base name c bases e = rw (runtime_entries, e) refl

  -- Each listed base has its entry.
  every_base :
      (P : RuntimeEntry → Type 0) (suffix base name : Text) (c : ℕ) (bases : List Text)
      → Memᴰ base bases
      → trim_space base ≡ c ∷ name
      → All P (runtime_entries trim_space suffix bases)
      → P (record { name = (c ∷ name) ++ suffix; base_runtime_name = c ∷ name })
  unfolding runtime_entries
  every_base P suffix base name c [] i e a = elim i [ ]
  every_base P suffix base name c (b ∷ bases) (head same) e a =
      let here : trim_space b ≡ c ∷ name = sym (ap trim_space same) ∙ e in
      (subst (λ rts. All P rts) (runtime_entries_kept suffix b name c bases here) a).0
  every_base P suffix base name c (b ∷ bases) (tail i) e a = elim (first_cases (trim_space b)) [
    | inl f ↦
        every_base P suffix base name c bases i e
          (subst (λ rts. All P rts) (runtime_entries_blank suffix b bases f) a)
    | inr (d, other, f) ↦
        every_base P suffix base name c bases i e
          (subst (λ rts. All P rts) (runtime_entries_kept suffix b other d bases f) a).1
  ]

class_patched :
    {W T : Type 0} (h : Handler W T) (pod q : Pod) (pvc_name : Text) (fields : TemplateData)
    (ops : List JsonPatchOp) (name : Text) (c : ℕ)
    → build_patch h pod pvc_name fields ≡ ok ops
    → apply_all ops pod ≡ some q
    → base_runtime_class h pod ≡ c ∷ name
    → q.runtime_class_name ≡ some ((c ∷ name) ++ h.runtime_class_suffix)
class_patched h pod q pvc_name fields ops name c b a f =
    elim (build_patch-patched h pod pvc_name fields) [
      | inr (_, x, _) ↦ cc
      | inl (done, vs, x, renders, applied) ↦
          let same : q ≡ patched h vs pvc_name pod = cc in
          ap (λ p. p.runtime_class_name) same ∙ rw (with_suffix, f) refl
    ]

module _ {W R T : Type 0} (connect : Connect W R) (templates : Templates T TemplateData)
    (clock : Clock W) (parse_selector : Text → Result Text) (is_subdomain : Text → List Text)
    (trim_space : Text → Text) (daemon config : Viper) where
  -- Where --webhook-runtime-class-suffix and the config command's --runtime-class-suffix have their
  -- defaults, whatever the other flags are (the annotation templates a map, without a key twice), and
  -- containerd's configuration lacks nothing that the config command adds for its runtime classes: the runtime class that the webhook gives to a pod
  -- is a runtime of containerd, if the base class of the pod, or else the value of
  -- --webhook-default-runtime-class, is among the classes of the config command, up to spaces around
  -- it.
  pub named_runtime_exists :
      (s t : State W) (h : Handler W T) (pod q : Pod) (pvc_name : Text) (fields : TemplateData)
      (ops : List JsonPatchOp) (tree : Table) (base : Text)
      → HasDistinctKeys (webhook_settings daemon).annotation_templates
      → daemon.get_string (codes "webhook-runtime-class-suffix") ≡ default_runtime_class_suffix
      → config.get_string (codes "runtime-class-suffix") ≡ default_config_suffix
      → Returns
          (new_handler connect templates clock parse_selector is_subdomain
            (webhook_settings daemon))
          s
          h
          t
      → build_patch h pod pvc_name fields ≡ ok ops
      → apply_all ops pod ≡ some q
      → base_runtime_class h pod ≢ []
      → Memᴰ base (config.get_string_slice (codes "runtime-classes"))
      → trim_space base ≡ base_runtime_class h pod
      → collect_missing tree (get_params trim_space (config_settings config)) ≡ []
      → (name : Text) × (q.runtime_class_name ≡ some name) × (has_runtime_entry tree name ≡ true)
  unfolding get_params config_settings webhook_settings
  named_runtime_exists s t h pod q pvc_name fields ops tree base keys unset suffix r b a n i e m =
      elim (first_cases (base_runtime_class h pod)) [
        | inl f ↦ absurd (n f)
        | inr (c, name, f) ↦
            let built =
              new_handler-IsBuilt connect templates clock parse_selector is_subdomain
                (webhook_settings daemon) s h t keys r in
            let same : h.runtime_class_suffix ≡ default_runtime_class_suffix =
              built.suffixed ∙ unset in
            let params = get_params trim_space (config_settings config) in
            let runtimes = ((collect_missing-IsConfigured tree params).0 m).1 in
            let runtime =
              every_base trim_space (HasRuntime tree) default_runtime_class_suffix base name c
                (config.get_string_slice (codes "runtime-classes")) i (e ∙ f)
                (subst
                  (λ x. All (HasRuntime tree) (
                    runtime_entries trim_space x
                      (config.get_string_slice (codes "runtime-classes"))))
                  suffix runtimes) in
            let rt : RuntimeEntry = record {
              name = (c ∷ name) ++ default_runtime_class_suffix;
              base_runtime_name = c ∷ name;
            } in
            (
              (c ∷ name) ++ default_runtime_class_suffix,
              class_patched h pod q pvc_name fields ops name c b a f
                  ∙ ap (λ x. some ((c ∷ name) ++ x)) same,
              (has_runtime_entry_iff tree rt).1 runtime,
            )
      ]
