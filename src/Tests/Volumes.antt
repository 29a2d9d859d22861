-- ===== src/Tests/Volumes.antt =====
-- Volume ids, parameters, locations and options at concrete inputs.
use csi_driver_smb_hardend.Base.{◌≡◌, refl, arith, true, [], ◌∷◌, ◌++◌, some, codes}
use csi_driver_smb_hardend.Errors.{ok}
use csi_driver_smb_hardend.Maps.{Map, set_key_value, lookup_fold, lookup_fold-set_key_value}
use csi_driver_smb_hardend.Volume.{
  SmbVolume, get_volume_id_from_smb_vol, get_smb_vol_from_id, new_smb_volume,
  get_internal_volume_path,
}
use csi_driver_smb_hardend.Volume.Id.{
  get_smb_vol_from_id-get_volume_id_from_smb_vol, get_smb_vol_from_id_unescaped,
}
use csi_driver_smb_hardend.Volume.{no_parameters, get_internal_mount_path}
use csi_driver_smb_hardend.Volume.Params.{
  MadeFrom, collected, new_smb_volume_accepts, new_smb_volume_fields,
}
use csi_driver_smb_hardend.Volume.Location.{
  get_internal_volume_path-absolute, get_internal_volume_path_up,
}
use csi_driver_smb_hardend.Strings.{equal_fold, split, trim, has_prefix}
use csi_driver_smb_hardend.Errors.{succeeds}
use csi_driver_smb_hardend.Base.{str_eq}
use csi_driver_smb_hardend.Paths.{absolute, join_path, is_noise}
use csi_driver_smb_hardend.Paths.Under.{names_of, kept}
use csi_driver_smb_hardend.Options.{append_mount_options, default_modes}
use csi_driver_smb_hardend.Options.Append.{AllPresent, append_mount_options-AllPresent}
use csi_driver_smb_hardend.Controller.Delete.{with_policy}
use csi_driver_smb_hardend.Controller.RoundTrip.{new_smb_volume-get_smb_vol_from_id}
use csi_driver_smb_hardend.Env.{Driver}
use csi_driver_smb_hardend.Tests.{test_driver, share, storage_class, made}

get_smb_vol_from_id-get_volume_id_from_smb_vol_example :
    get_smb_vol_from_id (codes "host/share#a#pv#Archive")
    ≡ ok (record {
      id = codes "host/share#a#pv#Archive";
      source = codes "//host/share";
      sub_dir = codes "a";
      size = 0;
      uuid = codes "pv";
      on_delete = codes "Archive";
    })
unfolding get_volume_id_from_smb_vol
get_smb_vol_from_id-get_volume_id_from_smb_vol_example =
    get_smb_vol_from_id-get_volume_id_from_smb_vol share (omega arith) (omega arith) (omega arith)

get_smb_vol_from_id_unescaped_example :
    (read : SmbVolume) × (get_smb_vol_from_id
        (get_volume_id_from_smb_vol (record share { sub_dir = codes "a#b" }))
      ≡ ok read)
    × (read.sub_dir ≡ codes "a")
    × (read.uuid ≡ codes "b")
    × (read.on_delete ≡ codes "pv")
get_smb_vol_from_id_unescaped_example =
    get_smb_vol_from_id_unescaped (record share { sub_dir = codes "a#b" }) (codes "a") (codes "b")
      (omega arith) (omega arith) (omega arith) (omega arith) (unfold trim in refl)

new_smb_volume_accepts_example :
    succeeds (new_smb_volume (λ m. m) (codes "pv") 1 storage_class (codes "delete")) ≡ true
unfolding str_eq csi_driver_smb_hardend.Strings.to_lower csi_driver_smb_hardend.Volume.is_supported
new_smb_volume_accepts_example =
    new_smb_volume_accepts (λ m. m) (codes "pv") 1 storage_class (codes "delete")

made-new_smb_volume :
    new_smb_volume (λ m. m) (codes "pv") 1 storage_class (codes "delete") ≡ ok made
unfolding new_smb_volume csi_driver_smb_hardend.Volume.read_parameters
    csi_driver_smb_hardend.Volume.make_volume csi_driver_smb_hardend.Volume.is_supported
    get_volume_id_from_smb_vol csi_driver_smb_hardend.Volume.volume_of
made-new_smb_volume = refl

new_smb_volume_fields_example :
    MadeFrom (λ m. m) (codes "pv") 1 (collected storage_class no_parameters) (codes "delete") made
new_smb_volume_fields_example =
    new_smb_volume_fields (λ m. m) (codes "pv") 1 storage_class (codes "delete") made-new_smb_volume

get_internal_volume_path-absolute_example :
    (get_internal_mount_path (codes "/tmp") (some made)
      ≡ absolute (names_of (codes "/tmp") ++ kept (split b'/' (codes "pv"))))
    × (get_internal_volume_path (codes "/tmp") made
        ≡ absolute (
            (names_of (codes "/tmp") ++ kept (split b'/' (codes "pv")))
            ++ kept (split b'/' (codes "a"))))
get_internal_volume_path-absolute_example =
    get_internal_volume_path-absolute (codes "/tmp") made (unfold has_prefix in refl)
      (unfold split str_eq in (refl, tt)) (unfold split str_eq in (refl, tt))

get_internal_volume_path_up_example :
    get_internal_volume_path (codes "/tmp") (record made { sub_dir = codes "../other" })
    ≡ join_path (codes "/tmp") (codes "other")
get_internal_volume_path_up_example =
    get_internal_volume_path_up (codes "/tmp") (codes "other")
      (record made { sub_dir = codes "../other" }) (unfold has_prefix in refl)
      (omega arith, (unfold is_noise str_eq in refl), (unfold str_eq in refl)) refl

append_mount_options-AllPresent_example :
    AllPresent (append_mount_options (codes "gid=5" ∷ []) default_modes) default_modes
append_mount_options-AllPresent_example =
    append_mount_options-AllPresent (codes "gid=5" ∷ []) default_modes

lookup_fold-set_key_value_example :
    lookup_fold (codes "SUBDIR") (set_key_value storage_class (codes "subdir") (codes "b"))
    ≡ some (codes "b")
unfolding csi_driver_smb_hardend.Strings.equal_fold
lookup_fold-set_key_value_example =
    lookup_fold-set_key_value (codes "subdir") (codes "SUBDIR") (codes "b") storage_class

-- A storage class that asks for the deletion of its volumes.
abbrev deleting_class : Map
deleting_class = (codes "onDelete", codes "delete") ∷ storage_class

abbrev retaining_driver : Driver
retaining_driver = record test_driver { default_on_delete_policy = codes "retain" }

made-deleting_class :
    new_smb_volume (λ m. m) (codes "pv") 1 deleting_class (codes "retain") ≡ ok made
unfolding new_smb_volume csi_driver_smb_hardend.Volume.read_parameters
    csi_driver_smb_hardend.Volume.make_volume csi_driver_smb_hardend.Volume.is_supported
    get_volume_id_from_smb_vol csi_driver_smb_hardend.Volume.volume_of
made-deleting_class = refl

new_smb_volume-get_smb_vol_from_id_example :
    (read : SmbVolume) × (get_smb_vol_from_id (codes "host/share#a#pv#") ≡ ok read)
    × (read.id ≡ codes "host/share#a#pv#")
    × (read.uuid ≡ codes "pv")
    × ((with_policy retaining_driver read).on_delete ≡ codes "retain")
    × (get_internal_mount_path (codes "/tmp") (some read)
        ≡ get_internal_mount_path (codes "/tmp") (some made))
    × (get_internal_volume_path (codes "/tmp") read ≡ get_internal_volume_path (codes "/tmp") made)
unfolding equal_fold
new_smb_volume-get_smb_vol_from_id_example =
    new_smb_volume-get_smb_vol_from_id (λ m. m) (codes "pv") 1 deleting_class retaining_driver
      made-deleting_class (omega arith) (omega arith) (omega arith) (unfold has_prefix in refl)
      (unfold split str_eq in (refl, tt)) (unfold split str_eq in (refl, tt))
