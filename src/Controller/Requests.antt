-- ===== src/Controller/Requests.antt =====
-- The requests of the controller service that call nothing outside.
use csi_driver_smb_hardend.Base.{ℕ, List, Option, none, some, is_empty, if◌then◌else◌}
use csi_driver_smb_hardend.Errors.{
  status, invalid_argument, unimplemented, Result, ok, err, with_code, ◌>>=◌,
}
use csi_driver_smb_hardend.Csi.{
  VolumeCapability, ValidateVolumeCapabilitiesRequest, ControllerExpandVolumeRequest,
}
use csi_driver_smb_hardend.Controller.{is_valid_volume_capabilities}

-- `ValidateVolumeCapabilities`: the capabilities that are confirmed.
unfoldable pub validate_volume_capabilities :
    ValidateVolumeCapabilitiesRequest → Result (List VolumeCapability)
unfolding is_valid_volume_capabilities with_code
validate_volume_capabilities req =
    if is_empty req.volume_id
    then err (status invalid_argument "Volume ID missing in request")
    else (with_code invalid_argument (is_valid_volume_capabilities req.volume_capabilities) >>= λ _.
        ok req.volume_capabilities)

unfoldable pub capacity_of : Option ℕ → Result ℕ
capacity_of none = err (status invalid_argument "Capacity Range missing in request")
capacity_of (some bytes) = ok bytes

-- `ControllerExpandVolume`
unfoldable pub controller_expand_volume : ControllerExpandVolumeRequest → Result ℕ
unfolding capacity_of
controller_expand_volume req =
    if is_empty req.volume_id
    then err (status invalid_argument "Volume ID missing in request")
    else capacity_of req.capacity_range

-- A request that is not read, and a response that is never given.
unfoldable pub not_implemented : {Request Response : Type 0} → Request → Result Response
not_implemented req = err (status unimplemented "")

-- `ControllerGetVolume`
unfoldable pub controller_get_volume : {Request Response : Type 0} → Request → Result Response
unfolding not_implemented
controller_get_volume req = not_implemented req

-- `ControllerPublishVolume`
unfoldable pub controller_publish_volume : {Request Response : Type 0} → Request → Result Response
unfolding not_implemented
controller_publish_volume req = not_implemented req

-- `ControllerUnpublishVolume`
unfoldable pub controller_unpublish_volume : {Request Response : Type 0} → Request → Result Response
unfolding not_implemented
controller_unpublish_volume req = not_implemented req

-- `GetCapacity`
unfoldable pub get_capacity : {Request Response : Type 0} → Request → Result Response
unfolding not_implemented
get_capacity req = not_implemented req

-- `ListVolumes`
unfoldable pub list_volumes : {Request Response : Type 0} → Request → Result Response
unfolding not_implemented
list_volumes req = not_implemented req

-- `CreateSnapshot`
unfoldable pub create_snapshot : {Request Response : Type 0} → Request → Result Response
unfolding not_implemented
create_snapshot req = not_implemented req

-- `DeleteSnapshot`
unfoldable pub delete_snapshot : {Request Response : Type 0} → Request → Result Response
unfolding not_implemented
delete_snapshot req = not_implemented req

-- `ListSnapshots`
unfoldable pub list_snapshots : {Request Response : Type 0} → Request → Result Response
unfolding not_implemented
list_snapshots req = not_implemented req
