-- ===== src/Webhook/Kube.antt =====
-- What the webhook reads and writes of Kubernetes' objects: the types of corev1 and admissionv1 with
-- the fields that pkg/webhook/mutating.go uses, and its clients. A map, a slice or a pointer that may
-- be nil is an Option.
use pv_snapshotter.Base.{ℕ, Option, List, Text}
use pv_snapshotter.Exec.{Call}
use pv_snapshotter.Webhook.Owner.{Object}

-- corev1.Volume of a claim; other volumes keep their source as `claim_name` none.
pub record Volume : Type 0 where
  pub name : Text
  pub claim_name : Option Text

pub record VolumeMount : Type 0 where
  pub name : Text
  pub mount_path : Text

pub record Container : Type 0 where
  pub name : Text
  pub volume_mounts : Option (List VolumeMount)

pub record Pod : Type 0 where
  pub meta : Object
  pub labels : List (Text × Text)
  pub annotations : Option (List (Text × Text))
  pub volumes : Option (List Volume)
  pub containers : List Container
  pub runtime_class_name : Option Text

-- corev1.PersistentVolumeClaim; `phase` is Status.Phase and `volume_name` Spec.VolumeName.
pub record Claim : Type 0 where
  pub name : Text
  pub phase : Text
  pub volume_name : Text

-- corev1.PersistentVolume, by Spec.CSI.VolumeHandle.
pub record PersistentVolume : Type 0 where
  pub csi : Option Text

-- kubernetes.Interface: claims by namespace and name, claims by namespace and label selector, and
-- volumes by name.
pub record Client (W : Type 0) : Type 0 where
  pub get_claim : Text → Text → Call W Claim
  pub list_claims : Text → Text → Call W (List Claim)
  pub get_volume : Text → Call W PersistentVolume

-- Package time, in nanoseconds: `now` reads the clock, and `pause` is the select of ctx.Done() and
-- time.After, which fails with ctx.Err().
pub record Clock (W : Type 0) : Type 0 where
  pub now : W → ℕ × W
  pub pause : ℕ → Call W Unit

pub record AdmissionRequest : Type 0 where
  pub uid : Text
  pub name : Text
  pub namespace : Text
  pub raw : Text
