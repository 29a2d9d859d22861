-- ===== src/Options.antt =====
-- Mount options: pkg/smb/smb.go and pkg/smb/nodeserver.go.
pub mod Append
use csi_driver_smb_hardend.Base.{
  ℕ, Bool, true, false, ◌||◌, ◌&&◌, not, List, [], ◌∷◌, ◌++◌, Str, codes, str_eq, is_empty,
  if◌then◌else◌,
}
use csi_driver_smb_hardend.Strings.{has_prefix, has_substring, to_lower}
use csi_driver_smb_hardend.Maps.{Map}
use csi_driver_smb_hardend.Constants.{
  mount_options_field, file_mode, dir_mode, default_file_mode, default_dir_mode,
}

-- `getMountOptions`: the value of the first key that is visited and is the field, case aside.
unfoldable pub get_mount_options : Map → Str
unfolding to_lower str_eq
get_mount_options [] = []
get_mount_options ((k, v) ∷ context) =
    if str_eq (to_lower k) mount_options_field then v else get_mount_options context

-- `hasGuestMountOptions`
unfoldable pub has_guest_mount_options : List Str → Bool
unfolding str_eq
has_guest_mount_options [] = false
has_guest_mount_options (v ∷ options) = str_eq v (codes "guest") || has_guest_mount_options options

-- Whether an option begins with the text: the loops of `checkGidPresentInMountFlags`,
-- `hasKerberosMountOption` and of the first part of `appendMountOptions`.
unfoldable pub any_has_prefix : Str → List Str → Bool
unfolding has_prefix
any_has_prefix prefix [] = false
any_has_prefix prefix (option ∷ options) = has_prefix option prefix || any_has_prefix prefix options

-- `checkGidPresentInMountFlags`
unfoldable pub check_gid_present_in_mount_flags : List Str → Bool
unfolding any_has_prefix
check_gid_present_in_mount_flags = any_has_prefix (codes "gid")

-- `hasKerberosMountOption`
unfoldable pub has_kerberos_mount_option : List Str → Bool
unfolding any_has_prefix
has_kerberos_mount_option = any_has_prefix (codes "sec=krb5")

-- `fmt.Sprintf("%s=%s", k, v)`
abbrev pub assignment : Str → Str → Str
assignment k v = k ++ (b'=' ∷ v)

-- The options that the second loop of `appendMountOptions` adds.
unfoldable pub extra_options : List Str → Map → List Str
unfolding any_has_prefix
extra_options mount_options [] = []
extra_options mount_options ((k, v) ∷ extra) =
    let rest = extra_options mount_options extra in
    if any_has_prefix k mount_options
    then rest
    else (if is_empty v then k else assignment k v) ∷ rest

-- `appendMountOptions`
unfoldable pub append_mount_options : List Str → Map → List Str
unfolding extra_options
append_mount_options mount_options extra = mount_options ++ extra_options mount_options extra

-- `map[string]string{fileMode: defaultFileMode, dirMode: defaultDirMode}`
abbrev pub default_modes : Map
default_modes = (file_mode, default_file_mode) ∷ (dir_mode, default_dir_mode) ∷ []

-- `ContainsSpecialCharacter`
unfoldable pub contains_special_character : Str → Bool
unfolding has_substring
contains_special_character word =
    has_substring word (codes "\"")
    || has_substring word (codes "`")
    || has_substring word (codes ",")
