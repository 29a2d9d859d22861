-- ===== src/Controller/Create.antt =====
-- `CreateVolume`
pub mod Laws
use csi_driver_smb_hardend.Base.{
  Bool, ◌||◌, not, List, [], ◌∷◌, ◌++◌, Option, none, some, Str, codes, is_empty, if◌then◌else◌,
}
use csi_driver_smb_hardend.Errors.{status, invalid_argument, internal, not_found}
use csi_driver_smb_hardend.Constants.{sub_dir_field}
use csi_driver_smb_hardend.Maps.{Map, set_key_value_in_map}
use csi_driver_smb_hardend.Options.{has_guest_mount_options, append_mount_options, default_modes}
use csi_driver_smb_hardend.Volume.{
  SmbVolume, new_smb_volume, get_smb_vol_from_id, get_internal_volume_path,
}
use csi_driver_smb_hardend.Csi.{
  VolumeCapability, mount_access, block_access, no_access, get_mount_flags, entries,
  VolumeContentSource, snapshot_source, volume_source, unset_source, CreateVolumeRequest, Volume,
}
use csi_driver_smb_hardend.Action.{
  Action, pure, fail, lift, call, or_status, or_code, deferred, locked, ◌>>=◌, ◌>>◌,
}
use csi_driver_smb_hardend.Env.{Env, Driver}
use csi_driver_smb_hardend.Node.Stage.{operation_exists}
use csi_driver_smb_hardend.Controller.{
  is_valid_volume_capabilities, internal_mount, internal_unmount,
}

-- The default modes are written into the first capability of the request.
unfoldable pub with_default_modes : Map → VolumeCapability → VolumeCapability
unfolding append_mount_options
with_default_modes modes (mount_access m) =
    mount_access (record m { mount_flags = append_mount_options m.mount_flags modes })
with_default_modes modes block_access = block_access
with_default_modes modes no_access = no_access

-- `volumeCapabilities[0]`, which the check of the capabilities guarantees.
unfoldable pub first_capability : List VolumeCapability → VolumeCapability
first_capability [] = no_access
first_capability (cap ∷ caps) = cap

-- A subdirectory is made with secrets, with a uuid, and for a guest.
unfoldable pub creates_sub_dir : CreateVolumeRequest → SmbVolume → Bool
creates_sub_dir req vol =
    not (is_empty req.secrets)
    || (not (is_empty vol.uuid)
        || has_guest_mount_options (get_mount_flags (first_capability req.volume_capabilities)))

-- `smbVolToCSI`
abbrev pub smb_vol_to_csi : SmbVolume → CreateVolumeRequest → Map → Volume
smb_vol_to_csi vol req parameters = record {
  capacity_bytes = 0;
  volume_id = vol.id;
  volume_context = parameters;
  content_source = req.volume_content_source;
}

module _ (E : Env) where
  -- `copyFromVolume`, with the first capability of the request as `CreateVolume` has changed it.
  unfoldable pub copy_from_volume :
      Driver → CreateVolumeRequest → VolumeCapability → Str → SmbVolume → Action E.World (Unit {0})
  copy_from_volume d req cap source_id dst_vol = do
    src_vol ← or_code not_found (lift (get_smb_vol_from_id source_id))
    let src_path = get_internal_volume_path d.working_mount_dir src_vol ++ codes "/."
    let dst_path = get_internal_volume_path d.working_mount_dir dst_vol
    or_status internal "failed to mount src nfs server: %v"
        (internal_mount E d src_vol (some cap) req.secrets)
    deferred (internal_unmount E d src_vol) (do
      or_status internal "failed to mount dst nfs server: %v"
          (internal_mount E d dst_vol (some cap) req.secrets)
      deferred (internal_unmount E d dst_vol)
          (or_status internal "failed to copy volume %v: %v" (call (E.copy src_path dst_path))))

  -- `copyVolume`, where the request names a source.
  unfoldable pub copy_volume :
      Driver
      → CreateVolumeRequest
      → VolumeCapability
      → SmbVolume
      → Option VolumeContentSource
      → Action E.World (Unit {0})
  unfolding copy_from_volume
  copy_volume d req cap vol none = pure tt
  copy_volume d req cap vol (some snapshot_source) =
      fail (status invalid_argument "copy volume from volumeSnapshot is not supported")
  copy_volume d req cap vol (some (volume_source id)) = copy_from_volume d req cap id vol
  copy_volume d req cap vol (some unset_source) =
      fail (status invalid_argument "%v is not a proper volume source")

  -- What `CreateVolume` does under the lock, where a subdirectory is made.
  unfoldable pub create_with_sub_dir :
      Driver → CreateVolumeRequest → VolumeCapability → Map → SmbVolume → Action E.World Volume
  create_with_sub_dir d req cap parameters vol = do
    or_status internal "failed to mount smb server: %v"
        (internal_mount E d vol (some cap) req.secrets)
    deferred (internal_unmount E d vol) (do
      or_status internal "failed to make subdirectory: %v"
          (call (E.mkdir_all (get_internal_volume_path d.working_mount_dir vol) 0o777))
      copy_volume d req cap vol req.volume_content_source
      pure (
          smb_vol_to_csi vol req
            (entries (set_key_value_in_map (some (E.visit parameters)) sub_dir_field vol.sub_dir))))

  unfoldable pub create_without_sub_dir :
      Driver → CreateVolumeRequest → VolumeCapability → Map → SmbVolume → Action E.World Volume
  create_without_sub_dir d req cap parameters vol = do
    copy_volume d req cap vol req.volume_content_source
    pure (smb_vol_to_csi vol req parameters)

  unfoldable pub create_locked :
      Driver → CreateVolumeRequest → VolumeCapability → Map → SmbVolume → Action E.World Volume
  unfolding create_with_sub_dir create_without_sub_dir
  create_locked d req cap parameters vol =
      if creates_sub_dir req vol
      then create_with_sub_dir d req cap parameters vol
      else create_without_sub_dir d req cap parameters vol

  -- `CreateVolume`
  unfoldable pub create_volume : Driver → CreateVolumeRequest → Action E.World Volume
  unfolding creates_sub_dir with_default_modes first_capability
  create_volume d req =
      if is_empty req.name
      then fail (status invalid_argument "CreateVolume name must be provided")
      else (do
        or_code invalid_argument (lift (is_valid_volume_capabilities req.volume_capabilities))
        let parameters = entries req.parameters
        vol ← or_code invalid_argument (
            lift (
              new_smb_volume E.visit req.name req.required_bytes parameters
                d.default_on_delete_policy))
        let cap =
            with_default_modes (E.visit default_modes) (first_capability req.volume_capabilities)
        locked req.name operation_exists (create_locked d req cap parameters vol))
