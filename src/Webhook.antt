-- ===== src/Webhook.antt =====
-- The mutating webhook, pkg/webhook/mutating.go: the owner of a pod (Owner.antt), the claim of its
-- volume (Claim.antt), the wait for the claim (Bound.antt), the patch (Patch.antt, and Pointer.antt
-- for the keys in it), the handlers (Admission.antt) and the construction of them (New.antt).
pub mod Kube
pub mod Handler
pub mod Owner
pub mod Pointer
pub mod Claim
pub mod Bound
pub mod Patch
pub mod New
pub mod Admission
