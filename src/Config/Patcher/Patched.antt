-- ===== src/Config/Patcher/Patched.antt =====
-- What Apply reads and writes.
use pv_snapshotter.Base.{
  ◌≡◌, refl, ◌⊎◌, ◌↔◌, inl, inr, Bool, true, false, List, [], ◌∷◌, Text, arith, ok, Result-cases,
  List-cases,
}
use pv_snapshotter.Exec.{State, call}
use pv_snapshotter.Exec.Laws.{Returns}
use pv_snapshotter.Config.Tree.{Table}
use pv_snapshotter.Config.Snippet.{MissingSection, Toml, build_snippet}
use pv_snapshotter.Config.Patcher.{Params, collect_missing, Disk, append_to_file, apply}
use pv_snapshotter.Config.Patcher.Missing.{IsConfigured, collect_missing-IsConfigured}

module _ {W : Type 0} (disk : Disk W) (toml : Toml) (params : Params) where
  -- The file is opened and the sections that are missing are written at its end.
  pub record IsExtended (tree : Table) (r t : State W) : Type 0 where
    pub unconfigured : ¬ IsConfigured params tree
    pub opened_state : State W
    pub opened : Returns (call (disk.open_append params.config_path)) r tt opened_state
    pub written :
        Returns
          (call (
            disk.write params.config_path
              (build_snippet toml params.socket_path (collect_missing tree params))))
          opened_state
          tt
          t

  pub record IsPatched (s : State W) (modified : Bool) (t : State W) : Type 0 where
    pub raw : Text
    pub tree : Table
    pub r : State W
    pub read : Returns (call (disk.read_file params.config_path)) s raw r
    pub parsed : toml.unmarshal raw ≡ ok tree
    pub ending :
        ((modified ≡ false) × IsConfigured params tree × (t ≡ r))
        ⊎ ((modified ≡ true) × IsExtended tree r t)

  append_to_file_sound :
      (tree : Table) (text : Text) (r t : State W)
      → text ≡ build_snippet toml params.socket_path (collect_missing tree params)
      → ¬ IsConfigured params tree
      → Returns (append_to_file disk toml params.config_path text) r tt t
      → IsExtended tree r t
  unfolding append_to_file
  append_to_file_sound tree text r t e n f =
      elim (Result-cases (call (disk.open_append params.config_path) r).0) [
        | inr (_, g) ↦ absurd (ground arith)
        | inl (tt, g) ↦ record {
          unconfigured = n;
          opened_state = (call (disk.open_append params.config_path) r).1;
          opened = ground arith;
          written = ground (
            arith,
            Result-cases
                (call (disk.write params.config_path text)
                  (call (disk.open_append params.config_path) r).1).0,
          );
        }
      ]

  apply_ends :
      (s : State W) (modified : Bool) (t : State W) (raw : Text) (tree : Table)
      (missing : List MissingSection)
      → (call (disk.read_file params.config_path) s).0 ≡ ok raw
      → toml.unmarshal raw ≡ ok tree
      → collect_missing tree params ≡ missing
      → Returns (apply disk toml params) s modified t
      → ((modified ≡ false)
          × IsConfigured params tree
          × (t ≡ (call (disk.read_file params.config_path) s).1))
        ⊎ ((modified ≡ true) × IsExtended tree (call (disk.read_file params.config_path) s).1 t)
  unfolding apply
  apply_ends s modified t raw tree [] g k e f =
      inl (ground arith, (collect_missing-IsConfigured tree params).0 e, ground arith)
  apply_ends s modified t raw tree (x ∷ missing) g k e f =
      let r = (call (disk.read_file params.config_path) s).1 in
      let snippet = build_snippet toml params.socket_path (x ∷ missing) in
      elim (Result-cases (append_to_file disk toml params.config_path snippet r).0) [
        | inr (_, h) ↦ absurd (ground arith)
        | inl (tt, h) ↦ inr (
          ground arith,
          append_to_file_sound tree snippet r t (ground arith)
              (λ c. cc (e, (collect_missing-IsConfigured tree params).1 c)) (ground arith),
        )
      ]

  apply_sound :
      (s : State W) (modified : Bool) (t : State W)
      → Returns (apply disk toml params) s modified t
      → IsPatched s modified t
  unfolding apply
  apply_sound s modified t f =
      let reading = call (disk.read_file params.config_path) s in
      elim (Result-cases reading.0) [
        | inr (_, g) ↦ absurd (ground arith)
        | inl (raw, g) ↦ elim (Result-cases (toml.unmarshal raw)) [
          | inr (_, k) ↦ absurd (ground arith)
          | inl (tree, k) ↦ record {
            raw = raw;
            tree = tree;
            r = reading.1;
            read = ground arith;
            parsed = k;
            ending = apply_ends s modified t raw tree (collect_missing tree params) g k refl f;
          }
        ]
      ]

  apply_complete :
      (s : State W) (modified : Bool) (t : State W)
      → IsPatched s modified t
      → Returns (apply disk toml params) s modified t
  unfolding apply append_to_file
  apply_complete s modified t p =
      let c = collect_missing-IsConfigured p.tree params in
      elim p.ending [
        | inl (e, f, g) ↦ ground (arith, p.read, p.parsed, c.1 f)
        | inr (e, x) ↦ elim (List-cases (collect_missing p.tree params)) [
          | inl f ↦ absurd (x.unconfigured (c.0 f))
          | inr f ↦ ground (arith, p.read, p.parsed, x.opened, x.written)
        ]
      ]

  -- Apply returns exactly where it has read and parsed the file and either every section is there,
  -- when it changes nothing more and returns false, or one is not, when it opens the file, writes
  -- the snippet of the sections that are missing at its end and returns true.
  pub apply-IsPatched :
      (s : State W) (modified : Bool) (t : State W)
      → Returns (apply disk toml params) s modified t ↔ IsPatched s modified t
  apply-IsPatched s modified t = (apply_sound s modified t, apply_complete s modified t)
