-- ===== src/Config/Patcher/Headers.antt =====
-- The headers of the text that Apply appends.
use pv_snapshotter.Base.{
  ℕ, ◌≡◌, refl, ap, sym, ◌∙◌, ◌⊎◌, ◌||◌, ◌&&◌, inl, inr, Bool, true, List, [], ◌∷◌, ◌++◌,
  append_assoc, Text, codes, ◌==◌, not, eqb, leb, Option, if◌then◌else◌, All, Bool-cases, subst,
}
use pv_snapshotter.Config.Tree.{Table, has_key, has_runtime_entry, cri_key_v2}
use pv_snapshotter.Config.Tree.Search.{runtime_path}
use pv_snapshotter.Config.Snippet.{
  section, MissingSection, Toml, newline, line_end, snippet_header, snippet_footer, cri_prefix,
  build_snippet, section_snippets, runtime_snippet, proxy_plugin_snippet,
}
use pv_snapshotter.Config.Patcher.{
  RuntimeEntry, Params, proxy_plugin_path, missing_runtimes, collect_missing,
}

-- TOML: a bare key has letters, digits, underscores and dashes; any other key is quoted.
abbrev is_bare_char : ℕ → Bool
is_bare_char c =
    (leb 0x30 c && leb c 0x39)
    || ((leb 0x41 c && leb c 0x5A) || ((leb 0x61 c && leb c 0x7A) || (eqb c 0x5F || eqb c 0x2D)))

abbrev all_bare : Text → Bool
all_bare [] = true
all_bare (c ∷ s) = is_bare_char c && all_bare s

abbrev pub is_bare : Text → Bool
is_bare s = not (s == []) && all_bare s

abbrev key_text : Text → Text
key_text key = if is_bare key then key else b'"' ∷ (key ++ b'"' ∷ [])

abbrev dotted : Text → List Text → Text
dotted key [] = key_text key
dotted key (k ∷ keys) = key_text key ++ b'.' ∷ dotted k keys

-- The header of the table at a path.
abbrev pub header_of : List Text → Text
header_of [] = []
header_of (key ∷ keys) = b'[' ∷ (dotted key keys ++ b']' ∷ [])

-- The table that a section is for: it is the one that collectMissing looks for.
abbrev pub path_of : MissingSection → List Text
path_of s =
    if s.kind == codes "proxy_plugin"
    then proxy_plugin_path
    else runtime_path cri_key_v2 s.runtime_name

abbrev pub HasLine : Text → Text → Type 0
HasLine line text =
    (before : Text) × (after : Text) × (text ≡ before ++ newline ∷ (line ++ newline ∷ after))

HasLine-before : (line a b : Text) → HasLine line b → HasLine line (a ++ b)
HasLine-before line a b (before, after, e) = (
  a ++ before,
  after,
  ap (λ t. a ++ t) e ∙ sym (append_assoc a before (newline ∷ (line ++ newline ∷ after))),
)

HasLine-after : (line a b : Text) → HasLine line a → HasLine line (a ++ b)
HasLine-after line a b (before, after, e) = (
  before,
  after ++ b,
  ap (λ t. t ++ b) e
      ∙ append_assoc before (newline ∷ (line ++ newline ∷ after)) b
      ∙ ap (λ t. before ++ newline ∷ t) (append_assoc line (newline ∷ after) b),
)

-- The name of the runtime is a bare key, where the section is one of a runtime.
abbrev IsWritable : MissingSection → Type 0
IsWritable s =
    (s.kind ≡ codes "proxy_plugin") ⊎ ((s.kind ≡ codes "runtime") × (is_bare s.runtime_name ≡ true))

module _ (toml : Toml) (socket_path : Text) where
  proxy_plugin_snippet-HasLine :
      HasLine (header_of proxy_plugin_path) (proxy_plugin_snippet toml socket_path)
  unfolding proxy_plugin_snippet ◌==◌
  proxy_plugin_snippet-HasLine = ([], _, refl)

  runtime_header :
      (name : Text)
      → is_bare name ≡ true
      → header_of (runtime_path cri_key_v2 name) ≡ codes "[" ++ (cri_prefix ++ (name ++ codes "]"))
  unfolding ◌==◌
  runtime_header name e = rw e refl

  section-HasLine :
      (name body subs : Text)
      → HasLine
          (codes "[" ++ (cri_prefix ++ (name ++ codes "]")))
          (line_end ++ (section toml name body ++ subs))
  section-HasLine name body subs =
      let after = (body ++ line_end) ++ subs in
      (
        [],
        after,
        ap (λ t. newline ∷ (codes "[" ++ (cri_prefix ++ t)))
            (append_assoc name (codes "]" ++ (line_end ++ (body ++ line_end))) subs
              ∙ sym (append_assoc name (codes "]") (newline ∷ after))),
      )

  runtime_snippet-HasLine :
      (name : Text) (base_config : Option Table)
      → is_bare name ≡ true
      → HasLine (header_of (runtime_path cri_key_v2 name)) (runtime_snippet toml name base_config)
  unfolding runtime_snippet
  runtime_snippet-HasLine name base_config e =
      subst (λ line. HasLine line (runtime_snippet toml name base_config))
        (sym (runtime_header name e)) (section-HasLine name _ _)

  -- What the loop of buildSnippet writes for one section.
  abbrev snippet_of : MissingSection → Text
  snippet_of s =
      if s.kind == codes "proxy_plugin"
      then proxy_plugin_snippet toml socket_path
      else if s.kind == codes "runtime"
      then runtime_snippet toml s.runtime_name s.base_config
      else []

  abbrev HasHeader : Text → MissingSection → Type 0
  HasHeader text s = HasLine (header_of (path_of s)) text

  snippet-HasHeader : (s : MissingSection) → IsWritable s → HasHeader (snippet_of s) s
  unfolding ◌==◌
  snippet-HasHeader s (inl e) = rw e proxy_plugin_snippet-HasLine
  snippet-HasHeader s (inr (e, b)) = rw e (runtime_snippet-HasLine s.runtime_name s.base_config b)

  HasHeader-before :
      (a b : Text) (ss : List MissingSection) → All (HasHeader b) ss → All (HasHeader (a ++ b)) ss
  HasHeader-before a b [] h = tt
  HasHeader-before a b (s ∷ ss) h =
      (HasLine-before (header_of (path_of s)) a b h.0, HasHeader-before a b ss h.1)

  HasHeader-after :
      (a b : Text) (ss : List MissingSection) → All (HasHeader a) ss → All (HasHeader (a ++ b)) ss
  HasHeader-after a b [] h = tt
  HasHeader-after a b (s ∷ ss) h =
      (HasLine-after (header_of (path_of s)) a b h.0, HasHeader-after a b ss h.1)

  section_snippets-HasHeader :
      (ss : List MissingSection)
      → All IsWritable ss
      → All (HasHeader (section_snippets toml socket_path ss)) ss
  unfolding section_snippets
  section_snippets-HasHeader [] h = tt
  section_snippets-HasHeader (s ∷ ss) h =
      let rest = section_snippets toml socket_path ss in
      (
        HasLine-after (header_of (path_of s)) (snippet_of s) rest (snippet-HasHeader s h.0),
        HasHeader-before (snippet_of s) rest ss (section_snippets-HasHeader ss h.1),
      )

missing_runtimes-IsWritable :
    (tree : Table) (rts : List RuntimeEntry)
    → All (λ rt. is_bare rt.name ≡ true) rts
    → All IsWritable (missing_runtimes tree rts)
unfolding missing_runtimes
missing_runtimes-IsWritable tree [] h = tt
missing_runtimes-IsWritable tree (rt ∷ rts) h = elim (Bool-cases (has_runtime_entry tree rt.name)) [
  | inl e ↦ rw e (missing_runtimes-IsWritable tree rts h.1)
  | inr e ↦ rw e (inr (refl, h.0), missing_runtimes-IsWritable tree rts h.1)
]

collect_missing-IsWritable :
    (tree : Table) (params : Params)
    → All (λ rt. is_bare rt.name ≡ true) params.runtimes
    → All IsWritable (collect_missing tree params)
unfolding collect_missing
collect_missing-IsWritable tree params h = elim (Bool-cases (has_key proxy_plugin_path tree)) [
  | inl e ↦ rw e (missing_runtimes-IsWritable tree params.runtimes h)
  | inr e ↦ rw e (inl refl, missing_runtimes-IsWritable tree params.runtimes h)
]

-- The text that Apply appends has, for each missing section, on a line of its own the header of the
-- table that collectMissing looks for (of a runtime, the one below the plugin of version 2), with the
-- keys of its path quoted as TOML asks, where the names of the runtimes are bare keys: letters,
-- digits, underscores and dashes.
pub build_snippet-HasLine :
    (toml : Toml) (tree : Table) (params : Params)
    → All (λ rt. is_bare rt.name ≡ true) params.runtimes
    → All
        (λ s.
          HasLine
            (header_of (path_of s))
            (build_snippet toml params.socket_path (collect_missing tree params)))
        (collect_missing tree params)
unfolding build_snippet
build_snippet-HasLine toml tree params h =
    let missing = collect_missing tree params in
    let sections = section_snippets toml params.socket_path missing in
    HasHeader-before toml params.socket_path snippet_header (sections ++ snippet_footer) missing (
      HasHeader-after toml params.socket_path sections snippet_footer missing (
        section_snippets-HasHeader toml params.socket_path missing
          (collect_missing-IsWritable tree params h)))
