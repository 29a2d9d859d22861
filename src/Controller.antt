-- ===== src/Controller.antt =====
-- pkg/smb/controllerserver.go: the controller service.
pub mod Create
pub mod Delete
pub mod Frees
pub mod Keeps
pub mod Requests
pub mod RoundTrip
use csi_driver_smb_hardend.Base.{Option, none, some, List, [], ◌∷◌, Str, is_empty}
use csi_driver_smb_hardend.Errors.{plain, status, Result, ok, err}
use csi_driver_smb_hardend.Constants.{source_field}
use csi_driver_smb_hardend.Maps.{Map}
use csi_driver_smb_hardend.Csi.{VolumeCapability, mount_access, block_access, no_access}
use csi_driver_smb_hardend.Volume.{SmbVolume, get_internal_mount_path}
use csi_driver_smb_hardend.Action.{Action}
use csi_driver_smb_hardend.Env.{Env, Driver}
use csi_driver_smb_hardend.Node.Stage.{node_stage_volume, node_unstage_volume}

-- The loop of `isValidVolumeCapabilities`.
unfoldable pub lacks_block : List VolumeCapability → Result (Unit {0})
lacks_block [] = ok tt
lacks_block (block_access ∷ caps) = err (plain "block volume capability not supported")
lacks_block (mount_access m ∷ caps) = lacks_block caps
lacks_block (no_access ∷ caps) = lacks_block caps

-- `isValidVolumeCapabilities`
unfoldable pub is_valid_volume_capabilities : List VolumeCapability → Result (Unit {0})
unfolding lacks_block
is_valid_volume_capabilities [] = err (plain "volume capabilities missing in request")
is_valid_volume_capabilities (cap ∷ caps) = lacks_block (cap ∷ caps)

-- `if volCap == nil { volCap = … }`
unfoldable pub mount_capability : Option VolumeCapability → VolumeCapability
mount_capability none = mount_access (record { mount_flags = []; volume_mount_group = [] })
mount_capability (some cap) = cap

module _ (E : Env) where
  -- `internalMount`
  unfoldable pub internal_mount :
      Driver → SmbVolume → Option VolumeCapability → Map → Action E.World (Unit {0})
  unfolding mount_capability get_internal_mount_path
  internal_mount d vol cap secrets = node_stage_volume E d (record {
    volume_id = vol.id;
    staging_target_path = get_internal_mount_path d.working_mount_dir (some vol);
    volume_capability = some (mount_capability cap);
    secrets = secrets;
    volume_context = some ((source_field, vol.source) ∷ []);
  })

  -- `internalUnmount`
  unfoldable pub internal_unmount : Driver → SmbVolume → Action E.World (Unit {0})
  unfolding get_internal_mount_path
  internal_unmount d vol = node_unstage_volume E d (record {
    volume_id = vol.id;
    staging_target_path = get_internal_mount_path d.working_mount_dir (some vol);
  })
