-- ===== src/Mounts.antt =====
-- Mount options: pkg/containerd/snapshotter/mount.go, and the functions on mounts of
-- pkg/containerd/snapshotter/dedup.go. The proofs are in the modules below.
pub mod Redirect
pub mod Reading
pub mod Ready
pub mod Parent
use pv_snapshotter.Base.{
  ℕ, Bool, true, false, ◌&&◌, Option, none, some, List, [], ◌∷◌, ◌++◌, map, Text, codes, eqb, ◌==◌,
  if◌then◌else◌, any, has_prefix, cut_prefix, cut, Result, ok, err, errorf, panic,
}
use pv_snapshotter.Exec.{Exec, pure, raise_if, call, wrapping, ◌>>=◌, ◌>>◌}
use pv_snapshotter.Host.{Mount, Files}

abbrev pub upperdir_option : Text
upperdir_option = codes "upperdir="

abbrev pub workdir_option : Text
workdir_option = codes "workdir="

abbrev pub lowerdir_option : Text
lowerdir_option = codes "lowerdir="

abbrev pub overlay_type : Text
overlay_type = codes "overlay"

abbrev pub bind_type : Text
bind_type = codes "bind"

abbrev pub upper_of : Text → Text
upper_of root = root ++ codes "/upper"

abbrev pub work_of : Text → Text
work_of root = root ++ codes "/work"

abbrev pub is_upperdir : Text → Bool
is_upperdir opt = has_prefix opt upperdir_option

abbrev pub is_workdir : Text → Bool
is_workdir opt = has_prefix opt workdir_option

-- One round of the loop that builds newOpts.
unfoldable pub redirect : Text → Text → Text
redirect root opt =
    if is_upperdir opt
    then upperdir_option ++ upper_of root
    else if is_workdir opt
    then workdir_option ++ work_of root
    else opt

unfoldable pub replace_upperdir_options : List Mount → Text → List Mount
replace_upperdir_options [] root = []
replace_upperdir_options (m ∷ rest) root =
    if m.type == overlay_type
    then if any is_upperdir m.options
      then record m { options = map (redirect root) m.options } ∷ rest
      else m ∷ rest
    else m ∷ rest

-- The loops of layerPathFromMounts and upperdirFromMounts: the first option with a prefix.
unfoldable pub find_option : Text → List Text → Option Text
find_option prefix [] = none
find_option prefix (opt ∷ opts) = elim (cut_prefix opt prefix) [
  | some after ↦ some after
  | none ↦ find_option prefix opts
]

-- The first result of strings.Cut.
abbrev pub before : ℕ → Text → Text
before sep s = elim (cut sep s) [ none ↦ s | some (head, _) ↦ head ]

unfoldable pub layer_path_from_mounts : List Mount → Result Text
layer_path_from_mounts [] = err (panic "index out of range")
layer_path_from_mounts (m ∷ rest) =
    if m.type == overlay_type
    then elim (find_option lowerdir_option m.options) [
      | some after ↦ ok (before b':' after)
      | none ↦ err (errorf "overlay mount missing lowerdir option: %v" m.options)
    ]
    else if m.type == bind_type
    then ok m.source
    else err (errorf "unexpected mount type %q for probe view" (m.type ∷ []))

unfoldable pub upperdir_from_mounts : List Mount → Result Text
upperdir_from_mounts [] = err (errorf "no mounts" [])
upperdir_from_mounts (m ∷ rest) = elim (find_option upperdir_option m.options) [
  | some after ↦ ok after
  | none ↦ err (errorf "no upperdir option in mounts: %v" m.options)
]

-- strings.TrimRight at one byte.
unfoldable pub trim_right : ℕ → Text → Text
trim_right b [] = []
trim_right b (c ∷ s) = elim (trim_right b s) [
  | [] ↦ if eqb c b then [] else c ∷ []
  | d ∷ t ↦ c ∷ d ∷ t
]

-- What stands before the last occurrence of a byte: s[:strings.LastIndex(s, b)].
unfoldable pub cut_last : ℕ → Text → Option Text
cut_last b [] = none
cut_last b (c ∷ s) = elim (cut_last b s) [
  | some t ↦ some (c ∷ t)
  | none ↦ if eqb c b then some [] else none
]

abbrev pub or_root : Text → Text
or_root [] = codes "/"
or_root (c ∷ s) = c ∷ s

-- The path whose device ensureUpperdirReady compares with the root's.
unfoldable pub parent_of : Text → Text
parent_of root =
    let parent = trim_right b'/' root in
    or_root (elim (cut_last b'/' parent) [ none ↦ parent | some dir ↦ dir ])

module _ {W : Type 0} (files : Files W) where
  unfoldable pub make_dirs : Text → List Text → Exec W Unit
  make_dirs root [] = pure tt
  make_dirs root (sub ∷ subs) = do
    let dir = root ++ (codes "/" ++ sub)
    wrapping "creating %s dir %q: %w" (sub ∷ dir ∷ []) (call (files.mkdir_all dir 0o755))
    make_dirs root subs

  unfoldable pub ensure_upperdir_ready : Text → Exec W Unit
  ensure_upperdir_ready root = do
    wrapping "upperdir root %q not accessible: %w" (root ∷ []) (call (files.stat root))
    root_dev ← wrapping "stat upperdir root %q: %w" (root ∷ []) (call (files.device root))
    parent_dev ←
        wrapping "stat parent of upperdir root %q: %w" (root ∷ [])
          (call (files.device (parent_of root)))
    raise_if (eqb root_dev parent_dev)
        (errorf "upperdir root %q is not a mountpoint (CSI volume not yet mounted)" (root ∷ []))
    make_dirs root (codes "upper" ∷ codes "work" ∷ [])
