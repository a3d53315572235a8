-- ===== src/Config/Tree/Search.antt =====
-- What the searches of the tree find.
use pv_snapshotter.Base.{
  ◌≡◌, refl, ◌↔◌, inl, inr, Bool, true, false, ◌||◌, Option, none, some, List, [], ◌∷◌, Text, codes,
  arith, ◌==◌, if◌then◌else◌, Option-cases, Bool-cases,
}
use pv_snapshotter.Config.Tree.{
  Value, string, other, table, Table, nothing, entry, find, sub_table, has_key, plugins_key,
  cri_key_v2, cri_key_v3, cri_keys, runtimes_of, has_runtime_in, has_runtime_entry, deep_copy_map,
  deep_copy_value, lookup_base_in, lookup_base_runtime,
}

-- A value stands in the tree at a path.
pub data At : List Text → Table → Value → Type 0 where
  here : {seg : Text} {t : Table} {v : Value} → find seg t ≡ some v → At (seg ∷ []) t v
  below :
      {seg : Text} {path : List Text} {t u : Table} {v : Value}
      → find seg t ≡ some (table u)
      → At path u v
      → At (seg ∷ path) t v

-- The path of a runtime below one of the plugins.
abbrev pub runtime_path : Text → Text → List Text
runtime_path cri_key name =
    plugins_key ∷ cri_key ∷ codes "containerd" ∷ codes "runtimes" ∷ name ∷ []

-- The search goes on in a table, if there is one.
abbrev in_table : Option Table → List Text → Bool
in_table none path = false
in_table (some t) path = has_key path t

has_key_below :
    (seg next : Text) (path : List Text) (t : Table)
    → has_key (seg ∷ next ∷ path) t ≡ in_table (sub_table seg t) (next ∷ path)
unfolding has_key
has_key_below seg next path t = elim (Option-cases (find seg t)) [
  | inl e ↦ rw (has_key, e) refl
  | inr (string _, e) ↦ rw (has_key, e) refl
  | inr (other _, e) ↦ rw (has_key, e) refl
  | inr (table _, e) ↦ rw (has_key, e) refl
]

has_key-runtimes_of :
    (cri_key name : Text) (plugins : Table)
    → has_key (cri_key ∷ codes "containerd" ∷ codes "runtimes" ∷ name ∷ []) plugins
      ≡ in_table (runtimes_of plugins cri_key) (name ∷ [])
unfolding runtimes_of
has_key-runtimes_of cri_key name plugins = elim (Option-cases (sub_table cri_key plugins)) [
  | inl e ↦
      ground
        (arith, has_key_below cri_key (codes "containerd") (codes "runtimes" ∷ name ∷ []) plugins)
  | inr (cri, e) ↦ elim (Option-cases (sub_table (codes "containerd") cri)) [
    | inl f ↦ ground (
      arith,
      has_key_below cri_key (codes "containerd") (codes "runtimes" ∷ name ∷ []) plugins,
      has_key_below (codes "containerd") (codes "runtimes") (name ∷ []) cri,
    )
    | inr (ctrd, f) ↦ ground (
      arith,
      has_key_below cri_key (codes "containerd") (codes "runtimes" ∷ name ∷ []) plugins,
      has_key_below (codes "containerd") (codes "runtimes") (name ∷ []) cri,
      has_key_below (codes "runtimes") name [] ctrd,
    )
  ]
]

has_runtime_in-in_table :
    (plugins : Table) (name : Text)
    → has_runtime_in cri_keys plugins name
      ≡ in_table (runtimes_of plugins cri_key_v2) (name ∷ [])
        || in_table (runtimes_of plugins cri_key_v3) (name ∷ [])
unfolding has_runtime_in has_key
has_runtime_in-in_table plugins name = elim (Option-cases (runtimes_of plugins cri_key_v2)) [
  | inl e ↦ elim (Option-cases (runtimes_of plugins cri_key_v3)) [
    | inl f ↦ ground arith
    | inr (u, f) ↦ ground arith
  ]
  | inr (t, e) ↦ elim (Option-cases (runtimes_of plugins cri_key_v3)) [
    | inl f ↦ ground arith
    | inr (u, f) ↦ ground arith
  ]
]

-- hasRuntimeEntry finds a runtime exactly where hasKey finds it below the plugin of version 2 or
-- below that of version 3.
pub has_runtime_entry-has_key :
    (tree : Table) (name : Text)
    → has_runtime_entry tree name
      ≡ has_key (runtime_path cri_key_v2 name) tree || has_key (runtime_path cri_key_v3 name) tree
unfolding has_runtime_entry
has_runtime_entry-has_key tree name =
    rw
      (
        has_key_below plugins_key cri_key_v2 (codes "containerd" ∷ codes "runtimes" ∷ name ∷ [])
            tree,
        has_key_below plugins_key cri_key_v3 (codes "containerd" ∷ codes "runtimes" ∷ name ∷ [])
            tree,
      )
      (elim (Option-cases (sub_table plugins_key tree)) [
        | inl e ↦ rw (has_runtime_entry, e) refl
        | inr (plugins, e) ↦
            rw
              (
                has_runtime_entry,
                e,
                has_key-runtimes_of cri_key_v2 name plugins,
                has_key-runtimes_of cri_key_v3 name plugins,
              )
              (has_runtime_in-in_table plugins name)
      ])

mutual
  unfolding deep_copy_map

  deep_copy_map-id : (t : Table) → deep_copy_map t ≡ t
  deep_copy_map-id nothing = refl
  deep_copy_map-id (entry k v t) = rw (deep_copy_value-id v, deep_copy_map-id t) refl

  deep_copy_value-id : (v : Value) → deep_copy_value v ≡ v
  deep_copy_value-id (string s) = refl
  deep_copy_value-id (other s) = refl
  deep_copy_value-id (table t) = rw (deep_copy_map-id t) refl

has_key_sound :
    (seg : Text) (path : List Text) (t : Table)
    → has_key (seg ∷ path) t ≡ true
    → (v : Value) × At (seg ∷ path) t v
unfolding has_key
has_key_sound seg [] t e = elim (Option-cases (find seg t)) [
  | inl f ↦ absurd (ground arith)
  | inr (v, f) ↦ (v, here f)
]
has_key_sound seg (next ∷ path) t e = elim (Option-cases (find seg t)) [
  | inl f ↦ absurd (ground arith)
  | inr (string _, f) ↦ absurd (ground arith)
  | inr (other _, f) ↦ absurd (ground arith)
  | inr (table u, f) ↦ let (v, at) = has_key_sound next path u (ground arith) in (v, below f at)
]

has_key_complete : (path : List Text) (t : Table) (v : Value) → At path t v → has_key path t ≡ true
unfolding has_key
has_key_complete _ _ _ (here e) = ground arith
has_key_complete _ _ _ (below e (here f)) = ground arith
has_key_complete _ _ _ (below e (below f a)) = ground (arith, has_key_complete _ _ _ (below f a))

-- hasKey is true exactly where a value stands at the path, which has a segment.
pub has_key-At :
    (seg : Text) (path : List Text) (t : Table)
    → (has_key (seg ∷ path) t ≡ true) ↔ ((v : Value) × At (seg ∷ path) t v)
has_key-At seg path t =
    (has_key_sound seg path t, λ f. let (v, at) = f in has_key_complete (seg ∷ path) t v at)

-- The table at a path.
abbrev pub table_at : List Text → Table → Option Table
table_at [] t = some t
table_at (seg ∷ path) t = elim (sub_table seg t) [ none ↦ none | some u ↦ table_at path u ]

-- The first of two optional tables.
abbrev pub or_else : Option Table → Option Table → Option Table
or_else none t = t
or_else (some t) u = some t

runtimes_of-table_at :
    (cri_key name : Text) (plugins : Table)
    → table_at (cri_key ∷ codes "containerd" ∷ codes "runtimes" ∷ name ∷ []) plugins
      ≡ elim (runtimes_of plugins cri_key) [
        | none ↦ none
        | some runtimes ↦ table_at (name ∷ []) runtimes
      ]
unfolding runtimes_of
runtimes_of-table_at cri_key name plugins = elim (Option-cases (sub_table cri_key plugins)) [
  | inl e ↦ ground arith
  | inr (cri, e) ↦ elim (Option-cases (sub_table (codes "containerd") cri)) [
    | inl f ↦ ground arith
    | inr (ctrd, f) ↦ ground (arith, Option-cases (sub_table (codes "runtimes") ctrd))
  ]
]

or_else-none : (t : Option Table) → or_else t none ≡ t
or_else-none none = refl
or_else-none (some t) = refl

lookup_base_in_step :
    (cri_key : Text) (keys : List Text) (plugins : Table) (name : Text)
    → lookup_base_in (cri_key ∷ keys) plugins name
      ≡ or_else
          (table_at (cri_key ∷ codes "containerd" ∷ codes "runtimes" ∷ name ∷ []) plugins)
          (lookup_base_in keys plugins name)
unfolding lookup_base_in
lookup_base_in_step cri_key keys plugins name =
    rw (runtimes_of-table_at cri_key name plugins)
      (elim (Option-cases (runtimes_of plugins cri_key)) [
        | inl e ↦ ground arith
        | inr (runtimes, e) ↦ elim (Option-cases (sub_table name runtimes)) [
          | inl f ↦ ground arith
          | inr (base, f) ↦ ground (arith, deep_copy_map-id base)
        ]
      ])

-- lookupBaseRuntime returns the base runtime's table below the plugin of version 2, or else the one
-- below that of version 3, if either is there; the name "" has none.
pub lookup_base_runtime-table_at :
    (tree : Table) (base_name : Text)
    → lookup_base_runtime tree base_name ≡ (
        if base_name == []
        then none
        else or_else
            (table_at (runtime_path cri_key_v2 base_name) tree)
            (table_at (runtime_path cri_key_v3 base_name) tree))
unfolding lookup_base_runtime lookup_base_in
lookup_base_runtime-table_at tree base_name = elim (Bool-cases (base_name == [])) [
  | inl n ↦ ground arith
  | inr n ↦ elim (Option-cases (sub_table plugins_key tree)) [
    | inl e ↦ ground arith
    | inr (plugins, e) ↦ ground (
      arith,
      lookup_base_in_step cri_key_v2 (cri_key_v3 ∷ []) plugins base_name,
      lookup_base_in_step cri_key_v3 [] plugins base_name,
      or_else-none
          (table_at (cri_key_v3 ∷ codes "containerd" ∷ codes "runtimes" ∷ base_name ∷ []) plugins),
    )
  ]
]
