-- ===== src/Volume.antt =====
-- pkg/smb/controllerserver.go and pkg/smb/smb.go: volumes, their ids, and the parameters of a
-- storage class from which they are made.
pub mod Id
pub mod Params
pub mod Location
use csi_driver_smb_hardend.Base.{
  ℕ, Bool, true, false, ◌||◌, not, List, [], ◌∷◌, ◌++◌, Option, none, some, Str, codes, str_eq,
  is_empty, if◌then◌else◌,
}
use csi_driver_smb_hardend.Errors.{Result, ok, err, plain, ◌>>=◌}
use csi_driver_smb_hardend.Strings.{
  split, join, trim, is_slash, has_prefix, equal_fold, to_lower, replace_all,
}
use csi_driver_smb_hardend.Maps.{Map, assign}
use csi_driver_smb_hardend.Paths.{join_path}
use csi_driver_smb_hardend.Constants.{
  separator, source_field, sub_dir_field, param_on_delete, pvc_namespace_key, pvc_name_key,
  pv_name_key, pvc_namespace_metadata, pvc_name_metadata, pv_name_metadata, retain, archive,
  supported_on_delete_values,
}

-- `smbVolume`
pub record SmbVolume : Type 0 where
  pub id : Str
  pub source : Str
  pub sub_dir : Str
  -- A count of bytes, which a request does not give negative.
  pub size : ℕ
  pub uuid : Str
  pub on_delete : Str

-- The fourth element of an id: only "retain" and "archive" are written, in any case.
unfoldable pub on_delete_element : SmbVolume → Str
unfolding equal_fold
on_delete_element vol =
    if equal_fold vol.on_delete retain || equal_fold vol.on_delete archive
    then vol.on_delete
    else []

-- `getVolumeIDFromSmbVol`
unfoldable pub get_volume_id_from_smb_vol : SmbVolume → Str
unfolding on_delete_element trim join
get_volume_id_from_smb_vol vol =
    join separator
      (trim is_slash vol.source ∷ trim is_slash vol.sub_dir ∷ vol.uuid ∷ on_delete_element vol ∷ [])

-- `if !strings.HasPrefix(segments[0], "//") { source = "//" + source }`
unfoldable pub with_slashes : Str → Str
unfolding has_prefix
with_slashes source = if has_prefix source (codes "//") then source else codes "//" ++ source

-- The uuid is the third segment and the action on delete the fourth, where they are there.
unfoldable pub third : List Str → Str
third (uuid ∷ rest) = uuid
third [] = []

unfoldable pub fourth : List Str → Str
fourth (uuid ∷ on_delete ∷ rest) = on_delete
fourth _ = []

unfoldable pub vol_of_segments : Str → List Str → Result SmbVolume
unfolding with_slashes third fourth
vol_of_segments id (source ∷ sub_dir ∷ rest) = ok (record {
  id = id;
  source = with_slashes source;
  sub_dir = sub_dir;
  size = 0;
  uuid = third rest;
  on_delete = fourth rest;
})
vol_of_segments id _ = err (plain "could not split %q into server and subDir")

-- `getSmbVolFromID`
unfoldable pub get_smb_vol_from_id : Str → Result SmbVolume
unfolding vol_of_segments split
get_smb_vol_from_id id = vol_of_segments id (split separator id)

-- `replaceWithMap`: the keys are replaced one after the other, in the order of the visit.
unfoldable pub replace_with_map : Str → Map → Str
unfolding replace_all
replace_with_map str [] = str
replace_with_map str ((k, v) ∷ m) =
    replace_with_map (if is_empty k then str else replace_all str k v) m

unfoldable pub is_supported : List Str → Str → Bool
unfolding equal_fold
is_supported [] on_delete = false
is_supported (v ∷ values) on_delete = equal_fold v on_delete || is_supported values on_delete

-- `validateOnDeleteValue`
unfoldable pub validate_on_delete_value : Str → Result (Unit {0})
validate_on_delete_value on_delete =
    if is_supported supported_on_delete_values on_delete
    then ok tt
    else err (plain "invalid value %s for OnDelete, supported values are %v")

-- The variables of `newSMBVolume` that its loop assigns.
pub record Parameters : Type 0 where
  pub source : Str
  pub sub_dir : Str
  pub on_delete : Str
  pub replacements : Map

abbrev pub no_parameters : Parameters
no_parameters = record { source = []; sub_dir = []; on_delete = []; replacements = [] }

-- One round of the loop.
unfoldable pub read_parameter : Str → Str → Parameters → Result Parameters
unfolding to_lower assign
read_parameter k v p =
    let key = to_lower k in
    if str_eq key source_field
    then ok (record p { source = v })
    else if str_eq key sub_dir_field
    then ok (record p { sub_dir = v })
    else if str_eq key param_on_delete
    then ok (record p { on_delete = v })
    else if str_eq key pvc_namespace_key
    then ok (record p { replacements = assign pvc_namespace_metadata v p.replacements })
    else if str_eq key pvc_name_key
    then ok (record p { replacements = assign pvc_name_metadata v p.replacements })
    else if str_eq key pv_name_key
    then ok (record p { replacements = assign pv_name_metadata v p.replacements })
    else err (plain "invalid parameter %s in storage class")

-- The loop over the parameters.
unfoldable pub read_parameters : Map → Parameters → Result Parameters
unfolding read_parameter
read_parameters [] p = ok p
read_parameters ((k, v) ∷ params) p = do q ← read_parameter k v p; read_parameters params q

-- The volume is named after the persistent volume, unless a subdirectory is given.
unfoldable pub volume_of : (Map → Map) → Str → ℕ → Parameters → Str → SmbVolume
unfolding replace_with_map
volume_of visit name size p on_delete =
    if is_empty p.sub_dir
    then record {
      id = [];
      source = p.source;
      sub_dir = name;
      size = size;
      uuid = [];
      on_delete = on_delete;
    }
    else record {
      id = [];
      source = p.source;
      sub_dir = replace_with_map p.sub_dir (visit p.replacements);
      size = size;
      uuid = name;
      on_delete = on_delete;
    }

-- `newSMBVolume` after its loop.
unfoldable pub make_volume : (Map → Map) → Str → ℕ → Parameters → Str → Result SmbVolume
unfolding validate_on_delete_value
make_volume visit name size p default_on_delete_policy =
    let on_delete = if is_empty p.on_delete then default_on_delete_policy else p.on_delete in
    let vol = volume_of visit name size p on_delete in
    if is_empty p.source
    then err (plain "%v is a required parameter")
    else (validate_on_delete_value p.on_delete >>= λ _.
        ok (record vol { id = get_volume_id_from_smb_vol vol }))

-- `newSMBVolume`. `visit` is the order in which Go ranges over a map.
unfoldable pub new_smb_volume : (Map → Map) → Str → ℕ → Map → Str → Result SmbVolume
new_smb_volume visit name size params default_on_delete_policy = do
  p ← read_parameters (visit params) no_parameters
  make_volume visit name size p default_on_delete_policy

-- `getInternalMountPath`
unfoldable pub get_internal_mount_path : Str → Option SmbVolume → Str
unfolding join_path
get_internal_mount_path working_mount_dir none = []
get_internal_mount_path working_mount_dir (some vol) =
    join_path working_mount_dir (if is_empty vol.uuid then vol.sub_dir else vol.uuid)

-- `getInternalVolumePath`
unfoldable pub get_internal_volume_path : Str → SmbVolume → Str
unfolding get_internal_mount_path
get_internal_volume_path working_mount_dir vol =
    join_path (get_internal_mount_path working_mount_dir (some vol)) vol.sub_dir

-- `getRootDir`
unfoldable pub get_root_dir : Str → Str
unfolding split
get_root_dir path = elim (split b'/' path) [ [] ↦ [] | part ∷ parts ↦ part ]
