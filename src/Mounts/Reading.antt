-- ===== src/Mounts/Reading.antt =====
-- What the readers of mounts see of redirected mounts.
use pv_snapshotter.Base.{
  ◌≡◌, refl, ◌↔◌, inl, inr, true, some, List, [], ◌∷◌, map, arith, Text, any, cut_prefix, ok,
  Bool-cases,
}
use pv_snapshotter.Host.{Mount}
use pv_snapshotter.Mounts.{
  upperdir_option, lowerdir_option, is_upperdir, upper_of, redirect, replace_upperdir_options,
  find_option, layer_path_from_mounts, upperdir_from_mounts,
}
use pv_snapshotter.Mounts.Redirect.{
  cut_none, redirect_upperdir, lowerdir-redirect, is_upperdir-redirect, is_writable,
}

find_upperdir-redirect :
    (root : Text) (opts : List Text)
    → any is_upperdir opts ≡ true
    → find_option upperdir_option (map (redirect root) opts) ≡ some (upper_of root)
unfolding find_option cut_prefix
find_upperdir-redirect root [] h = cc
find_upperdir-redirect root (opt ∷ opts) h = elim (Bool-cases (is_upperdir opt)) [
  | inl up ↦ rw (redirect_upperdir root opt up)
  | inr not_up ↦ ground (
    arith,
    cut_none upperdir_option (redirect root opt),
    is_upperdir-redirect root opt,
    find_upperdir-redirect root opts,
  )
]

-- Where the first mount is a writable overlay mount, what upperdirFromMounts reads from the
-- redirected mounts is `upper` below the root.
pub upperdir_from_mounts-replace :
    (m : Mount) (rest : List Mount) (root : Text)
    → is_writable m ≡ true
    → upperdir_from_mounts (replace_upperdir_options (m ∷ rest) root) ≡ ok (upper_of root)
unfolding upperdir_from_mounts replace_upperdir_options
upperdir_from_mounts-replace m rest root h = ground (arith, find_upperdir-redirect root m.options)

find_lowerdir-redirect :
    (root : Text) (opts : List Text)
    → find_option lowerdir_option (map (redirect root) opts) ≡ find_option lowerdir_option opts
unfolding find_option
find_lowerdir-redirect root [] = refl
find_lowerdir-redirect root (opt ∷ opts) =
    ground (arith, lowerdir-redirect root opt, find_lowerdir-redirect root opts)

-- Redirection does not change the layer directory that layerPathFromMounts reads from the mounts,
-- nor whether it finds one.
pub layer_path_from_mounts-replace :
    (ms : List Mount) (root path : Text)
    → (layer_path_from_mounts (replace_upperdir_options ms root) ≡ ok path)
      ↔ (layer_path_from_mounts ms ≡ ok path)
unfolding layer_path_from_mounts replace_upperdir_options
layer_path_from_mounts-replace [] root path = ((λ h. h), λ h. h)
layer_path_from_mounts-replace (m ∷ rest) root path =
    ground (arith, find_lowerdir-redirect root m.options)
