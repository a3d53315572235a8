-- ===== src/Webhook/Owner/Chain.antt =====
-- Which owner the traversal ends at.
use pv_snapshotter.Base.{
  ◌≢◌, ap, ◌∙◌, ◌++◌, true, false, some, All, Option-cases, ℕ, zero, suc, ◌≡◌, refl, subst, ◌⊎◌,
  ◌↔◌, inl, inr, List, [], ◌∷◌, Text, arith, Error, ok, err, Result-cases,
}
use pv_snapshotter.Base.Int.{pos_part}
use pv_snapshotter.Exec.{State, call, pure}
use pv_snapshotter.Exec.Laws.{Returns}
use pv_snapshotter.Webhook.Owner.{
  OwnerReference, Object, GroupVersionResource, OwnerLookup, is_controller, controller_refs,
  owner_ref_to_gvr, resolve_from, resolve_owner,
}

abbrev NotControlling : OwnerReference → Type 0
NotControlling ref = ref.controller ≢ some true

-- The owner reference is the first one that controls the object.
pub record IsFirst (refs : List OwnerReference) (ref : OwnerReference) : Type 0 where
  pub earlier : List OwnerReference
  pub later : List OwnerReference
  pub form : refs ≡ earlier ++ ref ∷ later
  pub none_earlier : All NotControlling earlier
  pub controls : ref.controller ≡ some true

-- The first controlling owner, of a kind that has a resource.
abbrev pub IsOwner : List OwnerReference → OwnerReference → GroupVersionResource → Type 0
IsOwner refs ref gvr = IsFirst refs ref × (owner_ref_to_gvr ref ≡ ok gvr)

-- No controlling owner at all, or the first one is of another kind.
abbrev pub IsTop : List OwnerReference → Type 0
IsTop refs =
    All NotControlling refs
    ⊎ ((ref : OwnerReference) × (x : Error) × IsFirst refs ref × (owner_ref_to_gvr ref ≡ err x))

is_controller-NotControlling : (r : OwnerReference) → NotControlling r → is_controller r ≡ false
is_controller-NotControlling r n = elim (Option-cases r.controller) [
  | inl e ↦ rw e refl
  | inr (true, e) ↦ absurd (n e)
  | inr (false, e) ↦ rw e refl
]

NotControlling-cases : (r : OwnerReference) → NotControlling r ⊎ (r.controller ≡ some true)
NotControlling-cases r = elim (Option-cases r.controller) [
  | inl e ↦ inl (λ f. cc)
  | inr (true, e) ↦ inr e
  | inr (false, e) ↦ inl (λ f. cc)
]

controller_refs-append :
    (earlier refs : List OwnerReference)
    → All NotControlling earlier
    → controller_refs (earlier ++ refs) ≡ controller_refs refs
unfolding controller_refs
controller_refs-append [] refs n = refl
controller_refs-append (r ∷ earlier) refs n =
    rw (is_controller-NotControlling r n.0) (controller_refs-append earlier refs n.1)

controller_refs_none :
    (refs : List OwnerReference) → All NotControlling refs → controller_refs refs ≡ []
unfolding controller_refs
controller_refs_none [] n = refl
controller_refs_none (r ∷ refs) n =
    rw (is_controller-NotControlling r n.0) (controller_refs_none refs n.1)

controller_refs-IsFirst :
    (refs : List OwnerReference) (ref : OwnerReference)
    → IsFirst refs ref
    → (rest : List OwnerReference) × (controller_refs refs ≡ ref ∷ rest)
unfolding controller_refs
controller_refs-IsFirst refs ref f = (
  controller_refs f.later,
  ap controller_refs f.form
      ∙ controller_refs-append f.earlier (ref ∷ f.later) f.none_earlier
      ∙ rw f.controls refl,
)

IsFirst-cases :
    (refs : List OwnerReference)
    → All NotControlling refs ⊎ ((ref : OwnerReference) × IsFirst refs ref)
IsFirst-cases [] = inl tt
IsFirst-cases (r ∷ refs) = elim (NotControlling-cases r) [
  | inr c ↦
      inr (r, record { earlier = []; later = refs; form = refl; none_earlier = tt; controls = c })
  | inl n ↦ elim (IsFirst-cases refs) [
    | inl none_later ↦ inl (n, none_later)
    | inr (ref, f) ↦ inr (
      ref,
      record {
        earlier = r ∷ f.earlier;
        later = f.later;
        form = ap (λ l. r ∷ l) f.form;
        none_earlier = (n, f.none_earlier);
        controls = f.controls;
      },
    )
  ]
]

module _ {W : Type 0} (h : OwnerLookup W) (ns : Text) where
  -- From an object's name and owners, with at most so many steps, to the name at which the climb
  -- ends; each step reads one object.
  pub data Climbs : ℕ → Text → List OwnerReference → State W → Text → State W → Type 0 where
    out_of_steps :
        {name : Text} {refs : List OwnerReference} {s : State W} → Climbs 0 name refs s name s
    top :
        {n : ℕ} {name : Text} {refs : List OwnerReference} {s : State W}
        → IsTop refs
        → Climbs (suc n) name refs s name s
    up :
        {n : ℕ} {name : Text} {refs : List OwnerReference} {s : State W} {ref : OwnerReference}
        {gvr : GroupVersionResource} {obj : Object} {u : State W} {owner : Text} {t : State W}
        → IsOwner refs ref gvr
        → Returns (call (h.get gvr ns ref.name)) s obj u
        → Climbs n obj.name obj.owner_references u owner t
        → Climbs (suc n) name refs s owner t

  Climbs-complete :
      {n : ℕ} {name : Text} {refs : List OwnerReference} {s : State W} {owner : Text} {t : State W}
      → Climbs n name refs s owner t
      → Returns (resolve_from h ns n name refs) s owner t
  unfolding resolve_from
  Climbs-complete out_of_steps = refl
  Climbs-complete (top {refs = refs} (inl none_first)) =
      ground (arith, controller_refs_none refs none_first)
  Climbs-complete (top {refs = refs} (inr (ref, x, f, g))) =
      ground (arith, (controller_refs-IsFirst refs ref f).1, g)
  Climbs-complete (up {refs = refs} {ref = ref} (f, g) k c) =
      ground (arith, (controller_refs-IsFirst refs ref f).1, g, k, Climbs-complete c)

  stopped :
      {n : ℕ} {name : Text} {refs : List OwnerReference} {s : State W} {owner : Text} {t : State W}
      → Climbs n name refs s name s
      → Returns (pure name) s owner t
      → Climbs n name refs s owner t
  stopped {n = n} {name} {refs} {s} {owner} {t} c e =
      let same_name : name ≡ owner = cc in
      let same_state : s ≡ t = cc in
      subst (λ v. Climbs n name refs s owner v) same_state
        (subst (λ o. Climbs n name refs s o s) same_name c)

  Climbs-sound :
      (n : ℕ) (name : Text) (refs : List OwnerReference) (s : State W) (owner : Text) (t : State W)
      → Returns (resolve_from h ns n name refs) s owner t
      → Climbs n name refs s owner t
  unfolding resolve_from
  Climbs-sound zero name refs s owner t e = stopped out_of_steps e
  Climbs-sound (suc n) name refs s owner t e = elim (IsFirst-cases refs) [
    | inl f ↦ let none_first = controller_refs_none refs f in stopped (top (inl f)) (ground arith)
    | inr (ref, f) ↦
        let (rest, is_first) = controller_refs-IsFirst refs ref f in
        elim (Result-cases (owner_ref_to_gvr ref)) [
          | inr (x, g) ↦ stopped (top (inr (ref, x, f, g))) (ground arith)
          | inl (gvr, g) ↦ elim (Result-cases (call (h.get gvr ns ref.name) s).0) [
            | inr (x, k) ↦ absurd (ground arith)
            | inl (obj, k) ↦
                let u = (call (h.get gvr ns ref.name) s).1 in
                up (f, g) (ground arith)
                  (Climbs-sound n obj.name obj.owner_references u owner t (ground arith))
          ]
        ]
  ]

  -- resolveOwner returns a name exactly where the climb from the pod ends at it: it follows the
  -- first controlling owner of each object, reading each once and nothing else, until there is none,
  -- or it is of an unknown kind, or maxOwnerDepth objects are read; a depth below 1 gives the pod's
  -- own name.
  pub resolve_owner-Climbs :
      (pod : Object) (s : State W) (owner : Text) (t : State W)
      → Returns (resolve_owner h ns pod) s owner t
        ↔ Climbs (pos_part h.max_owner_depth) pod.name pod.owner_references s owner t
  unfolding resolve_owner
  resolve_owner-Climbs pod s owner t = (
    Climbs-sound (pos_part h.max_owner_depth) pod.name pod.owner_references s owner t,
    Climbs-complete,
  )
