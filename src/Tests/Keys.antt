-- ===== src/Tests/Keys.antt =====
-- Snapshot keys, chain IDs and mount options on concrete texts.
use pv_snapshotter.Base.{
  ◌≡◌, refl, ◌↔◌, ◌⊎◌, true, false, none, some, [], ◌∷◌, ◌++◌, Text, codes, ok, has_prefix,
  cut_prefix, contains, split_n, cut, ◌==◌,
}
use pv_snapshotter.Host.{Mount}
use pv_snapshotter.Key.{parse_snapshot_key, key_of_parts, is_chain_id, is_digest}
use pv_snapshotter.Key.Parsing.{IsKey, parse_snapshot_key_iff}
use pv_snapshotter.Key.ChainId.{IsDigestRef, is_chain_id_iff}
use pv_snapshotter.Mounts.{
  replace_upperdir_options, redirect, upperdir_from_mounts, layer_path_from_mounts, find_option,
  parent_of, trim_right, cut_last,
}
use pv_snapshotter.Mounts.Redirect.{
  IsRedirected, is_writable, replace_upperdir_options-IsRedirected,
}
use pv_snapshotter.Tests.World.{native_mount}

abbrev container_key : Text
container_key = codes "k8s.io/42/abc"

abbrev digest : Text
digest = codes "0123456789abcdef0123456789abcdef0123456789abcdef0123456789abcdef"

abbrev layer_key : Text
layer_key = codes "k8s.io/8/sha256:" ++ digest

keys :
    (parse_snapshot_key container_key ≡ some (codes "k8s.io", codes "abc"))
    × (parse_snapshot_key (codes "k8s.io/8/extract-1-z sha256:00") ≡ none)
    × (parse_snapshot_key (codes "k8s.io/abc") ≡ none)
    × (is_chain_id (codes "sha256:" ++ digest) ≡ true)
    × (is_chain_id (codes "sha256:" ++ codes "00") ≡ false)
    × (is_chain_id container_key ≡ false)
unfolding parse_snapshot_key key_of_parts split_n cut contains has_prefix cut_prefix is_chain_id
    is_digest
keys = (refl, refl, refl, refl, refl, refl)

parse_snapshot_key_iff_example :
    (parse_snapshot_key container_key ≡ some (codes "k8s.io", codes "abc"))
    ↔ IsKey container_key (codes "k8s.io") (codes "abc")
parse_snapshot_key_iff_example = parse_snapshot_key_iff container_key (codes "k8s.io") (codes "abc")

is_chain_id_iff_example :
    (is_chain_id (codes "sha256:" ++ digest) ≡ true)
    ↔ ((hex : Text) × IsDigestRef (codes "sha256:" ++ digest) hex)
is_chain_id_iff_example = is_chain_id_iff (codes "sha256:" ++ digest)

options :
    replace_upperdir_options (native_mount ∷ []) (codes "/vol")
    ≡ record native_mount {
      options =
          codes "index=off"
          ∷ codes "workdir=/vol/work"
          ∷ codes "upperdir=/vol/upper"
          ∷ codes "lowerdir=/a:/b"
          ∷ [];
    }
      ∷ []
unfolding replace_upperdir_options redirect has_prefix cut_prefix ◌==◌
options = refl

layer_paths :
    (layer_path_from_mounts (native_mount ∷ []) ≡ ok (codes "/a"))
    × (upperdir_from_mounts (native_mount ∷ []) ≡ ok (codes "/n/fs"))
unfolding layer_path_from_mounts upperdir_from_mounts find_option cut_prefix cut ◌==◌
layer_paths = (refl, refl)

replace_upperdir_options-IsRedirected_example :
    ((is_writable native_mount ≡ true)
      × (m : Mount) × (replace_upperdir_options (native_mount ∷ []) (codes "/vol") ≡ m ∷ [])
      × IsRedirected (codes "/vol") native_mount m)
    ⊎ ((is_writable native_mount ≡ false)
        × (replace_upperdir_options (native_mount ∷ []) (codes "/vol") ≡ native_mount ∷ []))
replace_upperdir_options-IsRedirected_example =
    replace_upperdir_options-IsRedirected native_mount [] (codes "/vol")

parents :
    (parent_of (codes "/pv/vol//") ≡ codes "/pv")
    × (parent_of (codes "/vol") ≡ codes "/")
    × (parent_of (codes "/") ≡ codes "/")
    × (parent_of (codes "vol/") ≡ codes "vol")
unfolding parent_of trim_right cut_last
parents = (refl, refl, refl, refl)
