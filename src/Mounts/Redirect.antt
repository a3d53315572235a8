-- ===== src/Mounts/Redirect.antt =====
-- What replaceUpperdirOptions does to the mounts.
use pv_snapshotter.Base.{
  ◌≡◌, refl, sym, ap, ◌∙◌, ◌⊎◌, inl, inr, Bool, true, false, not, ◌&&◌, ◌||◌, none, some, List, [],
  ◌∷◌, ◌++◌, map, arith, Text, filter, any, has_prefix, has_prefix-append, has_prefix_iff,
  cut_prefix, cut_prefix_cases, ◌==◌, Bool-cases,
}
use pv_snapshotter.Host.{Mount}
use pv_snapshotter.Mounts.{
  upperdir_option, workdir_option, lowerdir_option, overlay_type, is_upperdir, is_workdir, upper_of,
  work_of, redirect, replace_upperdir_options,
}

-- An option begins with one keyword at most.
upperdir_only :
    (opt : Text)
    → is_upperdir opt ≡ true
    → (is_workdir opt ≡ false) × (cut_prefix opt lowerdir_option ≡ none)
unfolding has_prefix cut_prefix
upperdir_only opt h = let (rest, e) = (has_prefix_iff opt upperdir_option).0 h in rw e (refl, refl)

workdir_only : (opt : Text) → is_workdir opt ≡ true → cut_prefix opt lowerdir_option ≡ none
unfolding has_prefix cut_prefix
workdir_only opt h = let (rest, e) = (has_prefix_iff opt workdir_option).0 h in rw e

upper_is_upperdir : (x : Text) → is_upperdir (upperdir_option ++ x) ≡ true
upper_is_upperdir x = has_prefix-append upperdir_option x

work_is_workdir : (x : Text) → is_workdir (workdir_option ++ x) ≡ true
work_is_workdir x = has_prefix-append workdir_option x

work_not_upperdir : (x : Text) → is_upperdir (workdir_option ++ x) ≡ false
unfolding has_prefix cut_prefix
work_not_upperdir x = refl

not_upperdir : (opt : Text) → is_workdir opt ≡ true → is_upperdir opt ≡ false
not_upperdir opt h = ground (arith, upperdir_only opt)

cut_upperdir : (x : Text) → cut_prefix (upperdir_option ++ x) upperdir_option ≡ some x
cut_upperdir x = (cut_prefix_cases (upperdir_option ++ x) upperdir_option x).1 refl

pub cut_none : (prefix opt : Text) → has_prefix opt prefix ≡ false → cut_prefix opt prefix ≡ none
unfolding has_prefix
cut_none prefix opt h = ground arith

module _ (root opt : Text) where
  pub redirect_upperdir :
      is_upperdir opt ≡ true → redirect root opt ≡ upperdir_option ++ upper_of root
  unfolding redirect
  redirect_upperdir h = rw h

  redirect_workdir :
      is_upperdir opt ≡ false
      → is_workdir opt ≡ true
      → redirect root opt ≡ workdir_option ++ work_of root
  unfolding redirect
  redirect_workdir h k = rw (h, k)

  redirect_other : is_upperdir opt ≡ false → is_workdir opt ≡ false → redirect root opt ≡ opt
  unfolding redirect
  redirect_other h k = rw (h, k)

module _ (root : Text) where
  pub is_upperdir-redirect : (opt : Text) → is_upperdir (redirect root opt) ≡ is_upperdir opt
  unfolding redirect
  is_upperdir-redirect opt =
      ground (arith, upper_is_upperdir (upper_of root), work_not_upperdir (work_of root))

  is_workdir-redirect : (opt : Text) → is_workdir (redirect root opt) ≡ is_workdir opt
  unfolding redirect
  is_workdir-redirect opt = ground (
    arith,
    upperdir_only opt,
    upperdir_only (upperdir_option ++ upper_of root) (upper_is_upperdir (upper_of root)),
    work_is_workdir (work_of root),
  )

  pub lowerdir-redirect :
      (opt : Text) → cut_prefix (redirect root opt) lowerdir_option ≡ cut_prefix opt lowerdir_option
  unfolding redirect
  lowerdir-redirect opt = ground (
    arith,
    upperdir_only opt,
    workdir_only opt,
    upperdir_only (upperdir_option ++ upper_of root) (upper_is_upperdir (upper_of root)),
    workdir_only (workdir_option ++ work_of root) (work_is_workdir (work_of root)),
  )

redirect-redirect : (root other opt : Text) → redirect root (redirect other opt) ≡ redirect root opt
redirect-redirect root other opt = elim (Bool-cases (is_upperdir opt)) [
  | inl up ↦
      redirect_upperdir root _ (is_upperdir-redirect other opt ∙ up)
      ∙ sym (redirect_upperdir root opt up)
  | inr not_up ↦ elim (Bool-cases (is_workdir opt)) [
    | inl work ↦
        redirect_workdir root _ (is_upperdir-redirect other opt ∙ not_up)
          (is_workdir-redirect other opt ∙ work)
        ∙ sym (redirect_workdir root opt not_up work)
    | inr not_work ↦ ap (redirect root) (redirect_other other opt not_up not_work)
  ]
]

map-redirect-redirect :
    (root other : Text) (opts : List Text)
    → map (redirect root) (map (redirect other) opts) ≡ map (redirect root) opts
map-redirect-redirect root other [] = refl
map-redirect-redirect root other (opt ∷ opts) =
    cc (redirect-redirect root other opt, map-redirect-redirect root other opts)

any-redirect :
    (root : Text) (opts : List Text)
    → any is_upperdir (map (redirect root) opts) ≡ any is_upperdir opts
any-redirect root [] = refl
any-redirect root (opt ∷ opts) =
    ground (arith, is_upperdir-redirect root opt, any-redirect root opts)

-- Redirecting mounts a second time leaves nothing of the first: what counts is the last root.
pub replace_twice :
    (ms : List Mount) (root other : Text)
    → replace_upperdir_options (replace_upperdir_options ms other) root
      ≡ replace_upperdir_options ms root
unfolding replace_upperdir_options
replace_twice [] root other = refl
replace_twice (m ∷ rest) root other =
    ground (arith, any-redirect other m.options, map-redirect-redirect root other m.options)

abbrev pub is_writable : Mount → Bool
is_writable m = (m.type == overlay_type) && any is_upperdir m.options

abbrev pub is_other : Text → Bool
is_other opt = not (is_upperdir opt || is_workdir opt)

-- The mount with its writable directories moved below the root, each in its place, and the rest
-- of it as it was.
pub record IsRedirected (root : Text) (m m' : Mount) : Type 0 where
  pub same_type : m'.type ≡ m.type
  pub same_source : m'.source ≡ m.source
  pub upper_places : map is_upperdir m'.options ≡ map is_upperdir m.options
  pub work_places : map is_workdir m'.options ≡ map is_workdir m.options
  pub others : filter is_other m'.options ≡ filter is_other m.options
  pub uppers :
      filter is_upperdir m'.options
      ≡ map (λ _. upperdir_option ++ upper_of root) (filter is_upperdir m.options)
  pub works :
      filter is_workdir m'.options
      ≡ map (λ _. workdir_option ++ work_of root) (filter is_workdir m.options)

module _ (root : Text) where
  upper_places_lem :
      (opts : List Text) → map is_upperdir (map (redirect root) opts) ≡ map is_upperdir opts
  upper_places_lem [] = refl
  upper_places_lem (opt ∷ opts) = cc (is_upperdir-redirect root opt, upper_places_lem opts)

  work_places_lem :
      (opts : List Text) → map is_workdir (map (redirect root) opts) ≡ map is_workdir opts
  work_places_lem [] = refl
  work_places_lem (opt ∷ opts) = cc (is_workdir-redirect root opt, work_places_lem opts)

  others_lem :
      (opts : List Text) → filter is_other (map (redirect root) opts) ≡ filter is_other opts
  others_lem [] = refl
  others_lem (opt ∷ opts) = ground (
    arith,
    is_upperdir-redirect root opt,
    is_workdir-redirect root opt,
    redirect_other root opt,
    others_lem opts,
  )

  uppers_lem :
      (opts : List Text)
      → filter is_upperdir (map (redirect root) opts)
        ≡ map (λ _. upperdir_option ++ upper_of root) (filter is_upperdir opts)
  uppers_lem [] = refl
  uppers_lem (opt ∷ opts) =
      ground (arith, is_upperdir-redirect root opt, redirect_upperdir root opt, uppers_lem opts)

  works_lem :
      (opts : List Text)
      → filter is_workdir (map (redirect root) opts)
        ≡ map (λ _. workdir_option ++ work_of root) (filter is_workdir opts)
  works_lem [] = refl
  works_lem (opt ∷ opts) = ground (
    arith,
    is_workdir-redirect root opt,
    not_upperdir opt,
    redirect_workdir root opt,
    works_lem opts,
  )

-- replaceUpperdirOptions moves the upperdir and the workdir of a writable overlay mount to `upper`
-- and `work` below the root, keeps their places, the lower directories, all other options and all
-- other mounts, and returns the mounts as they are where the first is not such a mount.
pub replace_upperdir_options-IsRedirected :
    (m : Mount) (rest : List Mount) (root : Text)
    → ((is_writable m ≡ true)
        × (m' : Mount) × (replace_upperdir_options (m ∷ rest) root ≡ m' ∷ rest)
        × IsRedirected root m m')
      ⊎ ((is_writable m ≡ false) × (replace_upperdir_options (m ∷ rest) root ≡ m ∷ rest))
unfolding replace_upperdir_options
replace_upperdir_options-IsRedirected m rest root = elim (Bool-cases (is_writable m)) [
  | inr h ↦ inr (h, ground arith)
  | inl h ↦ inl (
    h,
    record m { options = map (redirect root) m.options },
    ground arith,
    record {
      same_type = refl;
      same_source = refl;
      upper_places = upper_places_lem root m.options;
      work_places = work_places_lem root m.options;
      others = others_lem root m.options;
      uppers = uppers_lem root m.options;
      works = works_lem root m.options;
    },
  )
]
