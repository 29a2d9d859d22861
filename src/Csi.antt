-- ===== src/Csi.antt =====
-- The requests and responses of the Container Storage Interface that the driver reads and writes.
use csi_driver_smb_hardend.Base.{ℕ, Bool, List, [], Option, none, some, Str}
use csi_driver_smb_hardend.Maps.{Map}

-- `VolumeCapability_MountVolume`
pub record MountVolume : Type 0 where
  pub mount_flags : List Str
  pub volume_mount_group : Str

-- The access type of a capability, of which at most one is set.
pub data VolumeCapability : Type 0 where
  mount_access : MountVolume → VolumeCapability
  block_access : VolumeCapability
  no_access : VolumeCapability

-- `GetMount().GetMountFlags()` and `GetMount().GetVolumeMountGroup()`: empty on a nil pointer.
unfoldable pub get_mount_flags : VolumeCapability → List Str
get_mount_flags (mount_access m) = m.mount_flags
get_mount_flags _ = []

unfoldable pub get_volume_mount_group : VolumeCapability → Str
get_volume_mount_group (mount_access m) = m.volume_mount_group
get_volume_mount_group _ = []

-- The context of a volume, empty where it is nil.
unfoldable pub entries : Option Map → Map
entries none = []
entries (some m) = m

pub record NodeStageVolumeRequest : Type 0 where
  pub volume_id : Str
  pub staging_target_path : Str
  pub volume_capability : Option VolumeCapability
  pub secrets : Map
  pub volume_context : Option Map

pub record NodeUnstageVolumeRequest : Type 0 where
  pub volume_id : Str
  pub staging_target_path : Str

pub record NodePublishVolumeRequest : Type 0 where
  pub volume_id : Str
  pub staging_target_path : Str
  pub target_path : Str
  pub volume_capability : Option VolumeCapability
  pub readonly : Bool
  pub volume_context : Option Map

pub record NodeUnpublishVolumeRequest : Type 0 where
  pub volume_id : Str
  pub target_path : Str

pub record NodeGetVolumeStatsRequest : Type 0 where
  pub volume_id : Str
  pub volume_path : Str

-- `VolumeContentSource`: its type may be unset.
pub data VolumeContentSource : Type 0 where
  snapshot_source : VolumeContentSource
  volume_source : Str → VolumeContentSource
  unset_source : VolumeContentSource

pub record CreateVolumeRequest : Type 0 where
  pub name : Str
  pub required_bytes : ℕ
  pub volume_capabilities : List VolumeCapability
  pub parameters : Option Map
  pub secrets : Map
  pub volume_content_source : Option VolumeContentSource

-- `csi.Volume`, of which a `CreateVolumeResponse` consists.
pub record Volume : Type 0 where
  pub capacity_bytes : ℕ
  pub volume_id : Str
  pub volume_context : Map
  pub content_source : Option VolumeContentSource

pub record DeleteVolumeRequest : Type 0 where
  pub volume_id : Str
  pub secrets : Map

pub record ValidateVolumeCapabilitiesRequest : Type 0 where
  pub volume_id : Str
  pub volume_capabilities : List VolumeCapability

-- `none` is a capacity range that is not set.
pub record ControllerExpandVolumeRequest : Type 0 where
  pub volume_id : Str
  pub capacity_range : Option ℕ
