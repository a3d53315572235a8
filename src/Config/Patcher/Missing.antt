-- ===== src/Config/Patcher/Missing.antt =====
-- When nothing is missing in containerd's configuration.
use pv_snapshotter.Base.{◌≡◌, refl, ◌⊎◌, ◌↔◌, inl, inr, true, List, [], ◌∷◌, arith, All, Bool-cases}
use pv_snapshotter.Config.Tree.{Table, has_key, has_runtime_entry, cri_key_v2, cri_key_v3}
use pv_snapshotter.Config.Tree.Search.{runtime_path, has_runtime_entry-has_key}
use pv_snapshotter.Config.Patcher.{
  RuntimeEntry, Params, proxy_plugin_path, missing_runtimes, collect_missing,
}

-- The runtime stands below the plugin of version 2 or that of version 3.
abbrev pub HasRuntime : Table → RuntimeEntry → Type 0
HasRuntime tree rt =
    (has_key (runtime_path cri_key_v2 rt.name) tree ≡ true)
    ⊎ (has_key (runtime_path cri_key_v3 rt.name) tree ≡ true)

abbrev pub IsConfigured : Params → Table → Type 0
IsConfigured params tree =
    (has_key proxy_plugin_path tree ≡ true) × All (HasRuntime tree) params.runtimes

pub has_runtime_entry_iff :
    (tree : Table) (rt : RuntimeEntry)
    → (has_runtime_entry tree rt.name ≡ true) ↔ HasRuntime tree rt
has_runtime_entry_iff tree rt =
    let e = has_runtime_entry-has_key tree rt.name in
    ground (
      arith,
      e,
      Bool-cases (has_key (runtime_path cri_key_v2 rt.name) tree),
      Bool-cases (has_key (runtime_path cri_key_v3 rt.name) tree),
    )

missing_runtimes_iff :
    (tree : Table) (rts : List RuntimeEntry)
    → (missing_runtimes tree rts ≡ []) ↔ All (HasRuntime tree) rts
unfolding missing_runtimes
missing_runtimes_iff tree [] = ((λ _. tt), λ _. refl)
missing_runtimes_iff tree (rt ∷ rts) =
    let i = has_runtime_entry_iff tree rt in
    let r = missing_runtimes_iff tree rts in
    elim (Bool-cases (has_runtime_entry tree rt.name)) [
      | inl e ↦ ((λ f. (i.0 e, r.0 (ground arith))), λ f. ground (arith, r.1 f.1))
      | inr e ↦ ((λ f. absurd (ground arith)), λ f. absurd (ground (arith, i.1 f.0)))
    ]

-- collectMissing returns nothing exactly where the plugin's entry is there, and each runtime is below
-- one of the two plugins.
pub collect_missing-IsConfigured :
    (tree : Table) (params : Params) → (collect_missing tree params ≡ []) ↔ IsConfigured params tree
unfolding collect_missing
collect_missing-IsConfigured tree params =
    let r = missing_runtimes_iff tree params.runtimes in
    elim (Bool-cases (has_key proxy_plugin_path tree)) [
      | inl e ↦ ((λ f. (e, r.0 (ground arith))), λ f. ground (arith, r.1 f.1))
      | inr e ↦ ((λ f. absurd (ground arith)), λ f. absurd (ground arith))
    ]
