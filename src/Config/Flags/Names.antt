-- ===== src/Config/Flags/Names.antt =====
-- Which runtimes are asked for.
use pv_snapshotter.Base.{
  ◌≡◌, refl, List, [], ◌∷◌, ◌++◌, Text, arith, map, filter, not, ◌==◌, List-cases,
}
use pv_snapshotter.Config.Patcher.{RuntimeEntry}
use pv_snapshotter.Config.Flags.{runtime_entries}

module _ (trim_space : Text → Text) where
  -- The trimmed names that are not empty.
  abbrev pub names_of : List Text → List Text
  names_of bases = filter (λ t. not (t == [])) (map trim_space bases)

  abbrev pub entry_of : Text → Text → RuntimeEntry
  entry_of suffix base = record { name = base ++ suffix; base_runtime_name = base }

  runtime_entries_lem :
      (suffix : Text) (bases : List Text)
      → runtime_entries trim_space suffix bases ≡ map (entry_of suffix) (names_of bases)
  unfolding runtime_entries ◌==◌
  runtime_entries_lem suffix [] = refl
  runtime_entries_lem suffix (base ∷ bases) =
      ground (arith, runtime_entries_lem suffix bases, List-cases (trim_space base))
