-- ===== src/Key.antt =====
-- Snapshot keys and chain IDs: parseSnapshotKey of pkg/containerd/snapshotter/resolver.go and
-- isChainID of pkg/containerd/snapshotter/dedup.go. The proofs are in the modules below.
pub mod Parsing
pub mod ChainId
use pv_snapshotter.Base.{
  ℕ, Bool, false, not, ◌&&◌, ◌||◌, Option, none, some, List, [], ◌∷◌, Text, codes, ltb, eqb,
  if◌then◌else◌, length, all, split_n, contains, has_prefix, cut_prefix,
}

abbrev pub slash : ℕ
slash = b'/'

abbrev pub space : ℕ
space = 0x20

abbrev pub extract_prefix : Text
extract_prefix = codes "extract-"

-- What follows the call of strings.SplitN; the container is the third part.
unfoldable pub key_of_parts : List Text → Option (Text × Text)
key_of_parts (ns ∷ seq ∷ container_id ∷ []) =
    if contains container_id space || has_prefix container_id extract_prefix
    then none
    else some (ns, container_id)
key_of_parts _ = none

-- The result `ok == false` is `none`.
unfoldable pub parse_snapshot_key : Text → Option (Text × Text)
parse_snapshot_key key = key_of_parts (split_n slash 3 key)

abbrev pub chain_id_prefix : Text
chain_id_prefix = codes "sha256:"

-- The test of the loop's body, negated.
abbrev pub is_hex : ℕ → Bool
is_hex c = not ((ltb c b'0' || ltb b'9' c) && (ltb c b'a' || ltb b'f' c))

unfoldable pub is_digest : Text → Bool
is_digest hex = eqb (length hex) 64 && all is_hex hex

unfoldable pub is_chain_id : Text → Bool
is_chain_id s = elim (cut_prefix s chain_id_prefix) [ none ↦ false | some hex ↦ is_digest hex ]
