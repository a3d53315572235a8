-- ===== src/Annotation/Prefix.antt =====
-- Which prefixes are accepted, and the keys made from them.
use pv_snapshotter.Base.{
  ◌≡◌, ◌≢◌, refl, ◌⊎◌, ◌↔◌, inl, inr, true, List, [], ◌++◌, Text, codes, arith, eq_iff, has_suffix,
  has_suffix_iff, ok, Bool-cases, Result-cases, List-cases,
}
use pv_snapshotter.Annotation.{
  reserved_kubernetes, reserved_k8s, is_reserved, validate_prefix, resolve_prefix,
}

-- One of the two reserved domains, or a subdomain of one.
abbrev pub IsReserved : Text → Type 0
IsReserved p =
    (p ≡ reserved_kubernetes)
    ⊎ ((p ≡ reserved_k8s)
        ⊎ (((sub : Text) × (p ≡ sub ++ (codes "." ++ reserved_kubernetes)))
            ⊎ ((sub : Text) × (p ≡ sub ++ (codes "." ++ reserved_k8s)))))

is_reserved_iff : (p : Text) → (is_reserved p ≡ true) ↔ IsReserved p
unfolding is_reserved
is_reserved_iff p = ground (
  arith,
  eq_iff p reserved_kubernetes,
  eq_iff p reserved_k8s,
  has_suffix_iff p (codes "." ++ reserved_kubernetes),
  has_suffix_iff p (codes "." ++ reserved_k8s),
)

module _ (is_subdomain : Text → List Text) where
  -- A DNS subdomain that ends in no slash and is not reserved.
  pub record IsPrefix (p : Text) : Type 0 where
    pub no_slash : (head : Text) → p ≢ head ++ codes "/"
    pub subdomain : is_subdomain p ≡ []
    pub free : ¬ IsReserved p

  prefix_sound : (p : Text) → validate_prefix is_subdomain p ≡ ok tt → IsPrefix p
  unfolding validate_prefix
  prefix_sound p h = elim (Bool-cases (has_suffix p (codes "/"))) [
    | inl e ↦ absurd (ground arith)
    | inr e ↦ elim (Bool-cases (is_reserved p)) [
      | inl f ↦ absurd (refused f h)
      | inr f ↦ record {
        no_slash = λ head g. cc ((has_suffix_iff p (codes "/")).1 (head, g), e);
        subdomain = ground arith;
        free = λ g. cc ((is_reserved_iff p).1 g, f);
      }
    ]
  ]
    where
      refused : is_reserved p ≡ true → ¬ (validate_prefix is_subdomain p ≡ ok tt)
      refused f g = elim (List-cases (is_subdomain p)) [
        | inl e ↦ ground arith
        | inr e ↦ ground arith
      ]

  prefix_complete : (p : Text) → IsPrefix p → validate_prefix is_subdomain p ≡ ok tt
  unfolding validate_prefix
  prefix_complete p r = elim (Bool-cases (has_suffix p (codes "/"))) [
    | inl e ↦ absurd (r.no_slash _ ((has_suffix_iff p (codes "/")).0 e).1)
    | inr e ↦ elim (Bool-cases (is_reserved p)) [
      | inl f ↦ absurd (r.free ((is_reserved_iff p).0 f))
      | inr f ↦ rw (e, r.subdomain, f) refl
    ]
  ]

  -- ResolvePrefix accepts exactly the DNS subdomains that end in no slash and are neither one of
  -- the two reserved domains nor a subdomain of one, and returns the flag's value unchanged.
  pub resolve_prefix_iff :
      (p out : Text) → (resolve_prefix is_subdomain p ≡ ok out) ↔ ((out ≡ p) × IsPrefix p)
  unfolding resolve_prefix
  resolve_prefix_iff p out = (
    (λ h. elim (Result-cases (validate_prefix is_subdomain p)) [
      | inl (_, e) ↦ (ground arith, prefix_sound p e)
      | inr (x, e) ↦ absurd (ground arith)
    ]),
    λ r. ground (arith, prefix_complete p r.1, r.0),
  )
