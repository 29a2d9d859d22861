-- ===== src/Modes.antt =====
-- pkg/smb/nodeserver.go: the access bits of the group in the options file_mode and dir_mode.
pub mod Group
use csi_driver_smb_hardend.Base.{
  ℕ, ◌+◌, ◌*◌, ◌/◌, ◌%◌, Bool, true, false, List, [], ◌∷◌, Option, none, some, Str, str_eq,
  if◌then◌else◌,
}
use csi_driver_smb_hardend.Numbers.{pos, negsuc, parse_int, format_nat}
use csi_driver_smb_hardend.Strings.{split}
use csi_driver_smb_hardend.Options.{assignment}

-- `v | 070`: the octal digit of the group is 7, and the others stay.
unfoldable pub or_070 : ℕ → ℕ
or_070 v = v / 64 * 64 + 56 + v % 8

-- `enableGroupRWX`
unfoldable pub enable_group_rwx : Str → Str
unfolding parse_int or_070 format_nat
enable_group_rwx mode = elim (parse_int mode) [
  | none ↦ mode
  | some (pos v) ↦ b'0' ∷ format_nat 8 (or_070 v)
  | some (negsuc v) ↦ mode
]

-- `mountFlagSplit[1]`, where the option is `flag=value` with one "=".
unfoldable pub value_of : List Str → Str → Option Str
unfolding str_eq
value_of (name ∷ value ∷ []) flag = if str_eq name flag then some value else none
value_of _ flag = none

-- `raiseGroupRWXInMountFlags`: whether an option was found, and the options after the write.
unfoldable pub raise_group_rwx_in_mount_flags : List Str → Str → Bool × List Str
unfolding value_of split enable_group_rwx
raise_group_rwx_in_mount_flags [] flag = (false, [])
raise_group_rwx_in_mount_flags (option ∷ options) flag =
    let (found, rest) = raise_group_rwx_in_mount_flags options flag in
    elim (value_of (split b'=' option) flag) [
      | some value ↦ (true, assignment flag (enable_group_rwx value) ∷ options)
      | none ↦ (found, option ∷ rest)
    ]
