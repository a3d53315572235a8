-- ===== src/Annotation.antt =====
-- The annotation prefix, pkg/annotation/prefix.go.
pub mod Prefix
use pv_snapshotter.Base.{
  Bool, ◌||◌, List, [], ◌∷◌, ◌++◌, Text, codes, ◌==◌, if◌then◌else◌, has_suffix, Result, ok, err,
  errorf, wrap,
}

-- Key.
unfoldable pub key : Text → Text → Text
key prefix suffix = prefix ++ (codes "/" ++ suffix)

abbrev pub reserved_kubernetes : Text
reserved_kubernetes = codes "kubernetes.io"

abbrev pub reserved_k8s : Text
reserved_k8s = codes "k8s.io"

unfoldable pub is_reserved : Text → Bool
is_reserved prefix =
    prefix == reserved_kubernetes
    || (prefix == reserved_k8s
        || (has_suffix prefix (codes "." ++ reserved_kubernetes)
            || has_suffix prefix (codes "." ++ reserved_k8s)))

-- `is_subdomain` is validation.IsDNS1123Subdomain: the list of what is wrong with a text.
module _ (is_subdomain : Text → List Text) where
  unfoldable pub validate_prefix : Text → Result (Unit {0})
  validate_prefix prefix =
      if has_suffix prefix (codes "/")
      then err (errorf "annotation prefix must not include a trailing slash: %q" (prefix ∷ []))
      else elim (is_subdomain prefix) [
        | e ∷ es ↦
            err (errorf "annotation prefix %q is not a valid DNS subdomain: %s" (prefix ∷ e ∷ es))
        | [] ↦
            if is_reserved prefix
            then err (errorf "annotation prefix %q uses a reserved Kubernetes domain" (prefix ∷ []))
            else ok tt
      ]

  -- ResolvePrefix, on the flag's value.
  unfoldable pub resolve_prefix : Text → Result Text
  resolve_prefix prefix =
      elim (wrap "invalid --%s: %w" (codes "annotation-prefix" ∷ []) (validate_prefix prefix)) [
        | ok _ ↦ ok prefix
        | err e ↦ err e
      ]
