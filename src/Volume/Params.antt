-- ===== src/Volume/Params.antt =====
-- The parameters of a storage class, read in the order of Go's range.
use csi_driver_smb_hardend.Base.{
  ℕ, ◌≡◌, refl, Bool, true, ◌||◌, ◌&&◌, not, [], ◌∷◌, arith, Str, str_eq, str_eq_iff, is_empty,
  Bool-cases, inl, inr, if◌then◌else◌,
}
use csi_driver_smb_hardend.Errors.{ok, err, plain, succeeds}
use csi_driver_smb_hardend.Constants.{
  source_field, sub_dir_field, param_on_delete, pvc_namespace_key, pvc_name_key, pv_name_key,
  pvc_namespace_metadata, pvc_name_metadata, pv_name_metadata, supported_on_delete_values,
}
use csi_driver_smb_hardend.Strings.{to_lower}
use csi_driver_smb_hardend.Maps.{Map, assign}
use csi_driver_smb_hardend.Volume.{
  SmbVolume, Parameters, no_parameters, read_parameter, read_parameters, new_smb_volume,
  is_supported, make_volume, get_volume_id_from_smb_vol, replace_with_map, volume_of,
}

-- The value of the last key that is the field without regard to case.
abbrev pub last_of : Str → Map → Str → Str
last_of field [] default = default
last_of field ((k, v) ∷ params) default =
    last_of field params (if str_eq (to_lower k) field then v else default)

abbrev pub placeholder_keys : Str → Bool
placeholder_keys key =
    str_eq key pvc_namespace_key || str_eq key pvc_name_key || str_eq key pv_name_key

abbrev pub is_known : Str → Bool
is_known key =
    str_eq key source_field
    || str_eq key sub_dir_field
    || str_eq key param_on_delete
    || placeholder_keys key

-- Every key is one that the driver knows.
abbrev pub all_known : Map → Bool
all_known [] = true
all_known ((k, v) ∷ params) = is_known (to_lower k) && all_known params

-- The replacements that the keys of the namespace, the claim and the volume give.
abbrev pub replacements_of : Map → Map → Map
replacements_of [] m = m
replacements_of ((k, v) ∷ params) m =
    let key = to_lower k in
    replacements_of params (
      if str_eq key pvc_namespace_key
      then assign pvc_namespace_metadata v m
      else if str_eq key pvc_name_key
      then assign pvc_name_metadata v m
      else if str_eq key pv_name_key
      then assign pv_name_metadata v m
      else m)

abbrev pub collected : Map → Parameters → Parameters
collected params p = record {
  source = last_of source_field params p.source;
  sub_dir = last_of sub_dir_field params p.sub_dir;
  on_delete = last_of param_on_delete params p.on_delete;
  replacements = replacements_of params p.replacements;
}

read_parameter_lem :
    (k v : Str) (p : Parameters)
    → read_parameter k v p ≡ (
        if is_known (to_lower k)
        then ok (collected ((k, v) ∷ []) p)
        else err (plain "invalid parameter %s in storage class"))
unfolding read_parameter
read_parameter_lem k v p = ground (
  arith,
  str_eq_iff (to_lower k) source_field,
  str_eq_iff (to_lower k) sub_dir_field,
  str_eq_iff (to_lower k) param_on_delete,
  str_eq_iff (to_lower k) pvc_namespace_key,
  str_eq_iff (to_lower k) pvc_name_key,
  str_eq_iff (to_lower k) pv_name_key,
)

read_parameters_lem :
    (params : Map) (p : Parameters)
    → read_parameters params p ≡ (
        if all_known params
        then ok (collected params p)
        else err (plain "invalid parameter %s in storage class"))
unfolding read_parameters
read_parameters_lem [] p = refl
read_parameters_lem ((k, v) ∷ params) p = elim (Bool-cases (is_known (to_lower k))) [
  | inl e ↦
      rw (read_parameter_lem k v p, e) (read_parameters_lem params (collected ((k, v) ∷ []) p))
  | inr e ↦ rw (read_parameter_lem k v p, e)
]

module _ (visit : Map → Map) (name : Str) (size : ℕ) (p : Parameters) (policy : Str) where
  make_volume_accepts :
      succeeds (make_volume visit name size p policy)
      ≡ (not (is_empty p.source) && is_supported supported_on_delete_values p.on_delete)
  unfolding make_volume
  make_volume_accepts = ground arith

  abbrev pub MadeFrom : SmbVolume → Type 0
  MadeFrom vol =
      (vol.source ≡ p.source)
      × (vol.sub_dir ≡ (
          if is_empty p.sub_dir then name else replace_with_map p.sub_dir (visit p.replacements)))
      × (vol.uuid ≡ (if is_empty p.sub_dir then [] else name))
      × (vol.on_delete ≡ (if is_empty p.on_delete then policy else p.on_delete))
      × (vol.size ≡ size)
      × (vol.id ≡ get_volume_id_from_smb_vol vol)

  volume_of-MadeFrom :
      let vol =
        volume_of visit name size p (if is_empty p.on_delete then policy else p.on_delete) in
      MadeFrom (record vol { id = get_volume_id_from_smb_vol vol })
  unfolding volume_of get_volume_id_from_smb_vol
  volume_of-MadeFrom = elim (Bool-cases (is_empty p.sub_dir)) [
    | inl e ↦ rw e (refl, refl, refl, refl, refl, refl)
    | inr e ↦ rw e (refl, refl, refl, refl, refl, refl)
  ]

  make_volume-MadeFrom :
      {vol : SmbVolume} → make_volume visit name size p policy ≡ ok vol → MadeFrom vol
  unfolding make_volume
  make_volume-MadeFrom {vol} h = ground (arith, volume_of-MadeFrom)

module _ (visit : Map → Map) (name : Str) (size : ℕ) (params : Map) (policy : Str) where
  -- A storage class makes a volume exactly when all its keys are known, the last source it gives
  -- is not empty, and the last action on delete it gives is a supported one.
  pub new_smb_volume_accepts : succeeds (new_smb_volume visit name size params policy) ≡ (
      all_known (visit params)
      && (not (is_empty (last_of source_field (visit params) []))
          && is_supported supported_on_delete_values (last_of param_on_delete (visit params) [])))
  unfolding new_smb_volume
  new_smb_volume_accepts = elim (Bool-cases (all_known (visit params))) [
    | inl e ↦
        rw (read_parameters_lem, e)
          (make_volume_accepts visit name size (collected (visit params) no_parameters) policy)
    | inr e ↦ rw (read_parameters_lem, e)
  ]

  -- The volume that a storage class makes has the last source that is given and the size asked
  -- for. A subdirectory that is given has its placeholders replaced and makes the name the uuid;
  -- otherwise the name is the subdirectory and the uuid is empty. The action on delete is the one
  -- given, or else that of the policy, and the id is written from these fields.
  pub new_smb_volume_fields :
      {vol : SmbVolume}
      → new_smb_volume visit name size params policy ≡ ok vol
      → MadeFrom visit name size (collected (visit params) no_parameters) policy vol
  unfolding new_smb_volume
  new_smb_volume_fields h = elim (Bool-cases (all_known (visit params))) [
    | inl e ↦
        make_volume-MadeFrom visit name size (collected (visit params) no_parameters) policy
          (rw (read_parameters_lem, e) at h)
    | inr e ↦ cc (rw (read_parameters_lem, e) at h)
  ]
