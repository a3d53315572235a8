-- ===== src/Key/Parsing.antt =====
-- Which texts parseSnapshotKey accepts, and what it makes of them.
use pv_snapshotter.Base.{
  ◌≡◌, refl, sym, subst, ◌∙◌, ◌↔◌, inl, inr, false, none, some, [], ◌∷◌, ◌++◌, arith, Text, Lacks,
  contains_iff, cut_cases, cut-append, has_prefix, cut, split_n,
}
use pv_snapshotter.Key.{parse_snapshot_key, key_of_parts, slash, space, extract_prefix}

-- A container's identifier, as opposed to the tag of an image layer that is being unpacked.
pub record IsContainerId (id : Text) : Type 0 where
  pub no_space : Lacks space id
  pub no_extract : has_prefix id extract_prefix ≡ false

-- `<ns>/<seq>/<container-id>`, where the identifier may hold further slashes.
pub record IsKey (key ns id : Text) : Type 0 where
  pub seq : Text
  pub form : key ≡ ns ++ slash ∷ (seq ++ slash ∷ id)
  pub ns_lacks : Lacks slash ns
  pub seq_lacks : Lacks slash seq
  pub container : IsContainerId id

key_of_parts_iff :
    (ns seq id n i : Text)
    → (key_of_parts (ns ∷ seq ∷ id ∷ []) ≡ some (n, i)) ↔ ((ns ≡ n) × (id ≡ i) × IsContainerId id)
unfolding key_of_parts
key_of_parts_iff ns seq id n i = ground (arith, contains_iff id space)

parse_of_cuts :
    (key ns rest seq id : Text)
    → cut slash key ≡ some (ns, rest)
    → cut slash rest ≡ some (seq, id)
    → parse_snapshot_key key ≡ key_of_parts (ns ∷ seq ∷ id ∷ [])
unfolding parse_snapshot_key split_n
parse_of_cuts key ns rest seq id e f = rw (e, split_n) (rw (f, split_n))

parse_of_one_cut :
    (key ns rest : Text)
    → cut slash key ≡ some (ns, rest)
    → cut slash rest ≡ none
    → parse_snapshot_key key ≡ none
unfolding parse_snapshot_key split_n key_of_parts
parse_of_one_cut key ns rest e f = rw (e, split_n) (rw (f, split_n))

parse_of_no_cut : (key : Text) → cut slash key ≡ none → parse_snapshot_key key ≡ none
unfolding parse_snapshot_key split_n key_of_parts
parse_of_no_cut key e = rw (e, split_n)

pub parse_snapshot_key_sound :
    (key ns id : Text) → parse_snapshot_key key ≡ some (ns, id) → IsKey key ns id
parse_snapshot_key_sound key ns id h = elim (cut_cases slash key) [
  | inl (e, _) ↦ cc (parse_of_no_cut key e)
  | inr (n, rest, e, lacks, same) ↦ elim (cut_cases slash rest) [
    | inl (f, _) ↦ cc (parse_of_one_cut key n rest e f)
    | inr (seq, i, f, seq_lacks, same') ↦
        let (same_ns, same_id, c) =
          (key_of_parts_iff n seq i ns id).0 (sym (parse_of_cuts key n rest seq i e f) ∙ h) in
        record {
          seq = seq;
          form = cc;
          ns_lacks = subst (Lacks slash) same_ns lacks;
          seq_lacks = seq_lacks;
          container = subst IsContainerId same_id c;
        }
  ]
]

parse_snapshot_key_complete :
    (key ns id : Text) → IsKey key ns id → parse_snapshot_key key ≡ some (ns, id)
parse_snapshot_key_complete key ns id k =
    parse_of_cuts key ns (k.seq ++ slash ∷ id) k.seq id
      (rw k.form (cut-append slash ns (k.seq ++ slash ∷ id) k.ns_lacks))
      (cut-append slash k.seq id k.seq_lacks)
    ∙ (key_of_parts_iff ns k.seq id ns id).1 (refl, refl, k.container)

-- parseSnapshotKey succeeds exactly on the keys `<ns>/<seq>/<container-id>` whose first two parts
-- hold no slash and whose third holds no space and does not begin with "extract-", and it returns
-- the first and the third part.
pub parse_snapshot_key_iff :
    (key ns id : Text) → (parse_snapshot_key key ≡ some (ns, id)) ↔ IsKey key ns id
parse_snapshot_key_iff key ns id =
    (parse_snapshot_key_sound key ns id, parse_snapshot_key_complete key ns id)
