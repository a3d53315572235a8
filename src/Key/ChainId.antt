-- ===== src/Key/ChainId.antt =====
-- Which texts are chain IDs.
use pv_snapshotter.Base.{
  ℕ, ◌≤◌, ◌≡◌, refl, some, ◌↔◌, ◌⊎◌, inl, inr, true, false, [], ◌∷◌, ◌++◌, arith, Text, length, All,
  all, cut_prefix, cut_prefix_cases, Lacks, Option-cases, Bool-cases, subst,
}
use pv_snapshotter.Key.{parse_snapshot_key, is_chain_id, is_digest, is_hex, chain_id_prefix, slash}
use pv_snapshotter.Key.Parsing.{parse_snapshot_key_sound}

abbrev pub IsHexDigit : ℕ → Type 0
IsHexDigit c = ((b'0' ≤ c) × (c ≤ b'9')) ⊎ ((b'a' ≤ c) × (c ≤ b'f'))

all-is_hex_iff : (s : Text) → (all is_hex s ≡ true) ↔ All IsHexDigit s
all-is_hex_iff [] = ((λ _. tt), λ _. refl)
all-is_hex_iff (c ∷ s) = ground (arith, all-is_hex_iff s)

pub record IsDigestRef (s hex : Text) : Type 0 where
  pub form : s ≡ chain_id_prefix ++ hex
  pub size : length hex ≡ 64
  pub digits : All IsHexDigit hex

is_digest_iff :
    (s hex : Text) → s ≡ chain_id_prefix ++ hex → (is_digest hex ≡ true) ↔ IsDigestRef s hex
unfolding is_digest
is_digest_iff s hex e = ground (arith, all-is_hex_iff hex)

is_chain_id_sound : (s : Text) → is_chain_id s ≡ true → (hex : Text) × IsDigestRef s hex
unfolding is_chain_id
is_chain_id_sound s h = elim (Option-cases (cut_prefix s chain_id_prefix)) [
  | inl e ↦ cc
  | inr (hex, e) ↦
      (hex, (is_digest_iff s hex ((cut_prefix_cases s chain_id_prefix hex).0 e)).0 (ground arith))
]

is_chain_id_complete : (s hex : Text) → IsDigestRef s hex → is_chain_id s ≡ true
unfolding is_chain_id
is_chain_id_complete s hex d =
    rw ((cut_prefix_cases s chain_id_prefix hex).1 d.form, is_chain_id)
      ((is_digest_iff s hex d.form).1 d)

-- isChainID accepts exactly "sha256:" followed by 64 digits, each of 0 to 9 or a to f.
pub is_chain_id_iff : (s : Text) → (is_chain_id s ≡ true) ↔ ((hex : Text) × IsDigestRef s hex)
is_chain_id_iff s = (is_chain_id_sound s, λ r. is_chain_id_complete s r.0 r.1)

hex-Lacks-slash : (hex : Text) → All IsHexDigit hex → Lacks slash hex
hex-Lacks-slash [] h = tt
hex-Lacks-slash (c ∷ hex) h = (omega arith, hex-Lacks-slash hex h.1)

chain_id-Lacks-slash : (s hex : Text) → IsDigestRef s hex → Lacks slash s
chain_id-Lacks-slash s hex d = rw d.form (ground (arith, hex-Lacks-slash hex d.digits))

not-Lacks : (b : ℕ) (s t : Text) → ¬ Lacks b (s ++ b ∷ t)
not-Lacks b [] t h = h.0 refl
not-Lacks b (c ∷ s) t h = not-Lacks b s t h.1

-- A key that parseSnapshotKey accepts is no chain ID itself, even where its third part is one.
pub is_chain_id_of_key :
    (key ns id : Text) → parse_snapshot_key key ≡ some (ns, id) → is_chain_id key ≡ false
is_chain_id_of_key key ns id h = elim (Bool-cases (is_chain_id key)) [
  | inr e ↦ e
  | inl e ↦
      let (hex, d) = is_chain_id_sound key e in
      let k = parse_snapshot_key_sound key ns id h in
      absurd (
        not-Lacks slash ns (k.seq ++ slash ∷ id)
          (subst (Lacks slash) k.form (chain_id-Lacks-slash key hex d)))
]
