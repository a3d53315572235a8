-- ===== src/Host.antt =====
-- What the daemon calls and does not implement: the values that pass between them and one
-- interface for each service. A call may change the state `W` of the world in any way; what a
-- theorem assumes of a call is among its hypotheses.
use pv_snapshotter.Base.{ℕ, Option, List, Text, Result}
use pv_snapshotter.Exec.{Call}

-- mount.Mount and snapshots.Info of containerd, with the fields that the program reads; a map is
-- an association list.
pub record Mount : Type 0 where
  pub type : Text
  pub source : Text
  pub options : List Text

pub record Info : Type 0 where
  pub name : Text
  pub parent : Text
  pub labels : List (Text × Text)

-- A snapshots.Opt adds to the Info that it is given.
abbrev pub Opt : Type 0
Opt = Info → Result Info

pub record Usage : Type 0 where
  pub inodes : ℕ
  pub size : ℕ

-- snapshots.Snapshotter. The context of a call is its namespace, which is the interface's own.
pub record Snapshots (W : Type 0) : Type 0 where
  pub stat : Text → Call W Info
  pub mounts : Text → Call W (List Mount)
  pub prepare : Text → Text → List Opt → Call W (List Mount)
  pub view : Text → Text → List Opt → Call W (List Mount)
  pub commit : Text → Text → List Opt → Call W Unit
  pub remove : Text → Call W Unit
  pub update : Info → List Text → Call W Info
  pub usage : Text → Call W Usage
  pub walk : (Info → Call W Unit) → List Text → Call W Unit
  pub close : Call W Unit

pub record Lease : Type 0 where
  pub id : Text
  pub created_at : ℕ
  pub labels : List (Text × Text)

pub record Resource : Type 0 where
  pub id : Text
  pub type : Text

-- leases.Manager. `create` makes a lease with a random identifier and no expiration.
pub record LeaseService (W : Type 0) : Type 0 where
  pub create : List (Text × Text) → Call W Lease
  pub add_resource : Lease → Resource → Call W Unit
  pub list : Text → Call W (List Lease)
  pub delete : Text → Call W Unit

-- os and syscall. `device` is the field Dev of syscall.Stat.
pub record Files (W : Type 0) : Type 0 where
  pub stat : Text → Call W Unit
  pub device : Text → Call W ℕ
  pub mkdir_all : Text → ℕ → Call W Unit
  pub remove_all : Text → Call W Unit
  pub symlink : Text → Text → Call W Unit

-- The CRI container of containerd's client, and the sandbox metadata as encoding/json reads it; a
-- pointer is an Option.
pub record ContainerInfo : Type 0 where
  pub labels : List (Text × Text)
  pub sandbox_id : Text

pub record PodObjectMeta : Type 0 where
  pub name : Text
  pub uid : Text
  pub namespace : Text

pub record PodSandboxConfig : Type 0 where
  pub metadata : Option PodObjectMeta
  pub annotations : List (Text × Text)

pub record SandboxMetadata : Type 0 where
  pub config : Option PodSandboxConfig

-- containerd.Client with containers `C`; an extension is the raw value of its protobuf message.
pub record ContainerClient (W C : Type 0) : Type 0 where
  pub containers : Text → Text → Call W (List C)
  pub info : Text → C → Call W ContainerInfo
  pub extensions : Text → C → Call W (List (Text × Text))
  pub close : Call W Unit

-- text/template with templates `T` (of a name and a text), on data of type `D`.
pub record Templates (T D : Type 0) : Type 0 where
  pub parse : Text → Text → Result T
  pub execute : T → D → Result Text
