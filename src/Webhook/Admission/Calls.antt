-- ===== src/Webhook/Admission/Calls.antt =====
-- How many calls of Kubernetes' API one admission makes.
use pv_snapshotter.Base.{
  ℕ, zero, suc, ◌+◌, ◌-◌, ◌*◌, ◌≤◌, inl, inr, none, some, List, [], ◌∷◌, Text, codes, arith, leb,
  ◌==◌, Result, Result-cases, Bool-cases, Option-cases, first_cases,
}
use pv_snapshotter.Base.Int.{pos_part}
use pv_snapshotter.Exec.{State, Exec, call, observe}
use pv_snapshotter.Webhook.Kube.{Pod, Claim, AdmissionRequest}
use pv_snapshotter.Webhook.Handler.{Handler, TemplateData, render_template}
use pv_snapshotter.Webhook.Owner.{
  OwnerReference, GroupVersionResource, resolve_from, resolve_owner, controller_refs,
  owner_ref_to_gvr,
}
use pv_snapshotter.Webhook.Claim.{
  override_of, resolve_pvc, resolve_pvc_from_annotation, resolve_pvc_by_templates, select_pvc,
}
use pv_snapshotter.Webhook.Bound.{
  claim_bound, bound_poll_interval, sleep_of, wait_from, bound_volume, wait_bound,
}
use pv_snapshotter.Webhook.Bound.Terminates.{IsClock, round_lasts}
use pv_snapshotter.Webhook.Patch.{JsonPatchOp, build_patch}
use pv_snapshotter.Webhook.Admission.{initial_data, with_volume, patch_of, mutate}

-- `calls` counts the requests to the API: a call of a client is one, or none where it fails before
-- it is sent, and the clock makes none.
pub record IsCallCount {W T : Type 0} (h : Handler W T) (calls : W → ℕ) : Type 0 where
  pub one_get :
      (gvr : GroupVersionResource) (ns name : Text) (w : W)
      → calls (h.owners.get gvr ns name w).1 ≤ calls w + 1
  pub one_get_claim :
      (ns name : Text) (w : W) → calls (h.client.get_claim ns name w).1 ≤ calls w + 1
  pub one_list_claims :
      (ns selector : Text) (w : W) → calls (h.client.list_claims ns selector w).1 ≤ calls w + 1
  pub one_get_volume : (name : Text) (w : W) → calls (h.client.get_volume name w).1 ≤ calls w + 1
  pub no_now : (w : W) → calls (h.clock.now w).1 ≤ calls w
  pub no_pause : (d : ℕ) (w : W) → calls (h.clock.pause d w).1 ≤ calls w

module _ {W : Type 0} (calls : W → ℕ) where
  -- At most `n` requests are sent.
  abbrev pub Costs : {A : Type 0} → ℕ → Exec W A → State W → Type 0
  Costs n m s = calls (m s).1.world ≤ calls s.world + n

module _ {W T : Type 0} (h : Handler W T) (calls : W → ℕ) (counts : IsCallCount h calls)
    (ns : Text) where
  resolve_from-Costs :
      (n : ℕ) (name : Text) (refs : List OwnerReference) (s : State W)
      → Costs calls n (resolve_from h.owners ns n name refs) s
  unfolding resolve_from
  resolve_from-Costs zero name refs s = omega arith
  resolve_from-Costs (suc n) name refs s = elim (first_cases (controller_refs refs)) [
    | inl e ↦ ground arith
    | inr (ref, _, e) ↦ elim (Result-cases (owner_ref_to_gvr ref)) [
      | inr (_, f) ↦ ground arith
      | inl (gvr, f) ↦
          let getting = call (h.owners.get gvr ns ref.name) s in
          let one = counts.one_get gvr ns ref.name s.world in
          elim (Result-cases getting.0) [
            | inr (_, x) ↦ ground (arith, one)
            | inl (obj, x) ↦
                let rest = resolve_from-Costs n obj.name obj.owner_references getting.1 in
                ground (arith, one, rest)
          ]
    ]
  ]

  select_pvc-Costs :
      (fields : TemplateData) (s : State W) → Costs calls 1 (select_pvc h ns fields) s
  unfolding select_pvc
  select_pvc-Costs fields s =
      elim (Result-cases (render_template h.templates h.pvc_selector_tmpl fields)) [
        | inr (_, e) ↦ ground arith
        | inl (selector, e) ↦ elim (Result-cases (h.parse_selector selector)) [
          | inr (_, f) ↦ ground arith
          | inl (sel, f) ↦
              let listing = call (h.client.list_claims ns sel) s in
              let one = counts.one_list_claims ns sel s.world in
              elim (Result-cases listing.0) [
                | inr (_, x) ↦ ground (arith, one)
                | inl ([], x) ↦ ground (arith, one)
                | inl (pvc ∷ _, x) ↦ ground (arith, one)
              ]
        ]
      ]

  by_templates-Costs :
      (fields : TemplateData) (s : State W) → Costs calls 1 (resolve_pvc_by_templates h ns fields) s
  unfolding resolve_pvc_by_templates
  by_templates-Costs fields s =
      elim (Result-cases (render_template h.templates h.pvc_name_tmpl fields)) [
        | inr (_, e) ↦ ground arith
        | inl ([], e) ↦ ground (arith, select_pvc-Costs fields s)
        | inl (c ∷ name, e) ↦
            let one = counts.one_get_claim ns (c ∷ name) s.world in ground (arith, one)
      ]

  from_annotation-Costs :
      (tmpl_text : Text) (fields : TemplateData) (s : State W)
      → Costs calls 1 (resolve_pvc_from_annotation h ns tmpl_text fields) s
  unfolding resolve_pvc_from_annotation
  from_annotation-Costs tmpl_text fields s =
      elim (Result-cases (h.templates.parse (codes "pvc-name-annotation") tmpl_text)) [
        | inr (_, e) ↦ ground arith
        | inl (tmpl, e) ↦ elim (Result-cases (render_template h.templates (some tmpl) fields)) [
          | inr (_, f) ↦ ground arith
          | inl (pvc_name, f) ↦
              let one = counts.one_get_claim ns pvc_name s.world in ground (arith, one)
        ]
      ]

  resolve_pvc-Costs :
      (pod : Pod) (fields : TemplateData) (s : State W)
      → Costs calls 1 (resolve_pvc h ns pod fields) s
  unfolding resolve_pvc
  resolve_pvc-Costs pod fields s = elim (Option-cases (override_of h ns pod)) [
    | inl e ↦ ground (arith, by_templates-Costs fields s)
    | inr (tmpl_text, e) ↦ ground (arith, from_annotation-Costs tmpl_text fields s)
  ]

  bound_volume-Costs : (pvc : Claim) (s : State W) → Costs calls 1 (bound_volume h ns pvc) s
  unfolding bound_volume
  bound_volume-Costs pvc s =
      let one = counts.one_get_volume pvc.volume_name s.world in ground (arith, one)

  module _ (time : W → ℕ) (clock : IsClock h ns time) where
    -- Every round but the last fetches once.
    wait_from-Costs :
        (n k deadline : ℕ) (pvc : Claim) (s : State W)
        → deadline ≤ time s.world + k * bound_poll_interval
        → Costs calls k (wait_from h ns n deadline pvc) s
    unfolding wait_from
    wait_from-Costs zero k deadline pvc s b = omega arith
    wait_from-Costs (suc n) zero deadline pvc s b = ground (
      arith,
      counts.no_now s.world,
      clock.now_after s.world,
      Bool-cases (pvc.phase == claim_bound),
      Bool-cases (leb deadline (h.clock.now s.world).0),
    )
    wait_from-Costs (suc n) (suc k) deadline pvc s b =
        let now = (h.clock.now s.world).0 in
        let read = (observe h.clock.now s).1 in
        let pausing = call (h.clock.pause (sleep_of (deadline - now))) read in
        let fetching = call (h.client.get_claim ns pvc.name) pausing.1 in
        let free = counts.no_now s.world in
        let idle = counts.no_pause (sleep_of (deadline - now)) read.world in
        let one = counts.one_get_claim ns pvc.name pausing.1.world in
        elim (Bool-cases (pvc.phase == claim_bound)) [
          | inl f ↦ ground arith
          | inr f ↦ elim (Bool-cases (leb deadline now)) [
            | inl g ↦ ground (arith, free)
            | inr g ↦ elim (Result-cases pausing.0) [
              | inr (_, x) ↦ ground (arith, free, idle)
              | inl (_, x) ↦ elim (Result-cases fetching.0) [
                | inr (_, y) ↦ ground (arith, free, idle, one)
                | inl (fetched, y) ↦
                    let fewer = round_lasts h ns time clock deadline pvc s k b g x in
                    let rest = wait_from-Costs n k deadline fetched fetching.1 fewer in
                    ground (arith, free, idle, one, rest)
              ]
            ]
          ]
        ]

    wait_bound-Costs :
        (n k : ℕ) (pvc : Claim) (s : State W)
        → pos_part h.bound_timeout ≤ k * bound_poll_interval
        → Costs calls (k + 1) (wait_bound h ns n pvc) s
    unfolding wait_bound
    wait_bound-Costs n k pvc s b =
        let start = (h.clock.now s.world).0 in
        let t = (observe h.clock.now s).1 in
        let deadline = start + pos_part h.bound_timeout in
        let free = counts.no_now s.world in
        let waits = wait_from-Costs n k deadline pvc t (ground (arith, clock.now_before s.world)) in
        elim (Result-cases (wait_from h ns n deadline pvc t).0) [
          | inr (e, f) ↦ ground (arith, free, waits)
          | inl (none, f) ↦ ground (arith, free, waits)
          | inl (some c, f) ↦
              let last = bound_volume-Costs c (wait_from h ns n deadline pvc t).1 in
              elim (Result-cases (bound_volume h ns c (wait_from h ns n deadline pvc t).1).0) [
                | inr (e, g) ↦ ground (arith, free, waits, last)
                | inl (v, g) ↦ ground (arith, free, waits, last)
              ]
        ]

module _ {W T : Type 0} (h : Handler W T) (calls : W → ℕ) (counts : IsCallCount h calls)
    (decode : Text → Result Pod) (marshal : List JsonPatchOp → Result Text) (time : W → ℕ) where
  patch_of-Costs :
      (rounds k : ℕ) (req : AdmissionRequest) (s : State W)
      → IsClock h req.namespace time
      → pos_part h.bound_timeout ≤ k * bound_poll_interval
      → Costs calls
          (pos_part h.owners.max_owner_depth + k + 2)
          (patch_of h decode marshal rounds req)
          s
  unfolding patch_of resolve_owner
  patch_of-Costs rounds k req s c b = elim (Result-cases (decode req.raw)) [
    | inr (_, a) ↦ ground arith
    | inl (pod, a) ↦
        let climbs =
          resolve_from-Costs h calls counts req.namespace (pos_part h.owners.max_owner_depth)
            pod.meta.name pod.meta.owner_references s in
        elim (Result-cases (resolve_owner h.owners req.namespace pod.meta s).0) [
          | inr (_, d) ↦ ground (arith, climbs)
          | inl (owner_name, d) ↦
              let fields = initial_data owner_name req pod in
              let owned = (resolve_owner h.owners req.namespace pod.meta s).1 in
              let resolving = resolve_pvc h req.namespace pod fields owned in
              let one = resolve_pvc-Costs h calls counts req.namespace pod fields owned in
              elim (Result-cases resolving.0) [
                | inr (_, e) ↦ ground (arith, climbs, one)
                | inl (pvc, e) ↦
                    let waits =
                      wait_bound-Costs h calls counts req.namespace time c rounds k pvc resolving.1
                        b in
                    elim (Result-cases (wait_bound h req.namespace rounds pvc resolving.1).0) [
                      | inr (_, f) ↦ ground (arith, climbs, one, waits)
                      | inl (none, f) ↦ ground (arith, climbs, one, waits)
                      | inl (some v, f) ↦
                          elim (Result-cases (build_patch h pod pvc.name (with_volume fields v))) [
                            | inr (_, g) ↦ ground (arith, climbs, one, waits)
                            | inl (ops, g) ↦
                                ground (arith, climbs, one, waits, Result-cases (marshal ops))
                          ]
                    ]
              ]
        ]
  ]

  -- Under the conditions on the clock of the end of waitBound (IsClock), and where a call of a
  -- client sends at most one request, mutate sends for every request that it answers, whatever the
  -- answers of the API, at most two requests more than maxOwnerDepth (none for a depth below 0) and
  -- the number of poll intervals in the timeout, which is rounded up.
  pub mutate_bounded :
      (rounds k : ℕ) (req : AdmissionRequest) (s : State W)
      → IsClock h req.namespace time
      → pos_part h.bound_timeout ≤ k * bound_poll_interval
      → calls (mutate h decode marshal rounds req s).1.world
        ≤ calls s.world + (pos_part h.owners.max_owner_depth + k + 2)
  unfolding mutate
  mutate_bounded rounds k req s c b =
      let costs = patch_of-Costs rounds k req s c b in
      elim (Result-cases (patch_of h decode marshal rounds req s).0) [
        | inr (e, f) ↦ ground (arith, costs)
        | inl (none, f) ↦ ground (arith, costs)
        | inl (some patch, f) ↦ ground (arith, costs)
      ]
