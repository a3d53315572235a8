-- ===== src/Webhook/Claim.antt =====
-- The claim of a pod's volume: resolvePVC and resolvePVCFromAnnotation of pkg/webhook/mutating.go.
-- Log lines are not modelled.
pub mod Resolved
use pv_snapshotter.Base.{
  Option, none, some, List, [], ◌∷◌, Text, codes, ◌==◌, lookup, Result, ok, err, errorf,
  if◌then◌else◌,
}
use pv_snapshotter.Exec.{Exec, pure, raise, raise_if, lift, call, wrapping, ◌>>=◌, ◌>>◌}
use pv_snapshotter.Webhook.Kube.{Pod, Claim}
use pv_snapshotter.Webhook.Handler.{Handler, TemplateData, render_template}

module _ {W T : Type 0} (h : Handler W T) (ns : Text) where
  -- The per-pod override, where the handler has a key for it; a nil map has no entry.
  unfoldable pub override_of : Pod → Option Text
  override_of pod =
      if h.pvc_name_tmpl_annotation == []
      then none
      else elim pod.annotations [ none ↦ none | some m ↦ lookup h.pvc_name_tmpl_annotation m ]

  unfoldable pub resolve_pvc_from_annotation : Text → TemplateData → Exec W Claim
  resolve_pvc_from_annotation tmpl_text fields = do
    let key = h.pvc_name_tmpl_annotation
    tmpl ←
        wrapping "parsing pod annotation %q as template: %w" (key ∷ [])
          (lift (h.templates.parse (codes "pvc-name-annotation") tmpl_text))
    pvc_name ←
        wrapping "rendering pod annotation %q: %w" (key ∷ [])
          (lift (render_template h.templates (some tmpl) fields))
    raise_if (pvc_name == []) (errorf "pod annotation %q rendered an empty PVC name" (key ∷ []))
    wrapping "fetching PVC %q (from pod annotation %q): %w" (pvc_name ∷ key ∷ [])
        (call (h.client.get_claim ns pvc_name))

  -- The fallback to the label selector.
  unfoldable pub select_pvc : TemplateData → Exec W Claim
  select_pvc fields = do
    selector ←
        wrapping "rendering pvc-selector-template: %w" []
          (lift (render_template h.templates h.pvc_selector_tmpl fields))
    raise_if (selector == []) (
        errorf
          "neither pvc-name-template nor pvc-selector-template produced a value (ownerName=%q, podName=%q)"
          (fields.owner_name ∷ fields.pod_name ∷ []))
    sel ←
        wrapping "parsing PVC label selector %q: %w" (selector ∷ [])
          (lift (h.parse_selector selector))
    items ←
        wrapping "listing PVCs with selector %q: %w" (selector ∷ [])
          (call (h.client.list_claims ns sel))
    elim items [
      | [] ↦ raise (errorf "no PVC matched selector %q" (selector ∷ []))
      | pvc ∷ _ ↦ pure pvc
    ]

  -- What follows the test for the override.
  unfoldable pub resolve_pvc_by_templates : TemplateData → Exec W Claim
  resolve_pvc_by_templates fields = do
    pvc_name ←
        wrapping "rendering pvc-name-template: %w" []
          (lift (render_template h.templates h.pvc_name_tmpl fields))
    elim pvc_name [
      | c ∷ name ↦
          wrapping "fetching PVC %q: %w" ((c ∷ name) ∷ []) (call (h.client.get_claim ns (c ∷ name)))
      | [] ↦ select_pvc fields
    ]

  unfoldable pub resolve_pvc : Pod → TemplateData → Exec W Claim
  resolve_pvc pod fields = elim (override_of pod) [
    | some tmpl_text ↦ resolve_pvc_from_annotation tmpl_text fields
    | none ↦ resolve_pvc_by_templates fields
  ]
