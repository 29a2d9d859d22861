-- ===== src/Tests/Parts.antt =====
-- The lock set, the capabilities, the roots of shares and the credentials of a mount at concrete
-- inputs.
use csi_driver_smb_hardend.Base.{ℕ, Str, some, ◌/◌, ◌%◌, ◌^◌, ◌<◌}
use csi_driver_smb_hardend.Numbers.{
  pos, parse_int, strip_sign, base_of, has_underscore, underscore_ok, read_digits, digit_value,
  to_int?, to_int,
}
use csi_driver_smb_hardend.Modes.{enable_group_rwx}
use csi_driver_smb_hardend.Modes.Group.{enable_group_rwx_lem}
use csi_driver_smb_hardend.Base.{◌≡◌, refl, arith, true, false, [], ◌∷◌, ◌++◌, codes, All}
use csi_driver_smb_hardend.Errors.{ok}
use csi_driver_smb_hardend.Locks.{new_volume_locks, try_acquire}
use csi_driver_smb_hardend.Locks.Steps.{start, here, next, IsExclusive, Reach-IsExclusive}
use csi_driver_smb_hardend.Mounter.{get_root_mapping_path}
use csi_driver_smb_hardend.Mounter.Laws.{get_root_mapping_path_remote}
use csi_driver_smb_hardend.Strings.{equal_fold, split, trim, has_prefix}
use csi_driver_smb_hardend.Base.{◌≢◌, inl}
use csi_driver_smb_hardend.Options.{contains_special_character}
use csi_driver_smb_hardend.Node.Stage.{Credentials, sensitive_options}
use csi_driver_smb_hardend.Node.Platform.{linux_mount}
use csi_driver_smb_hardend.Node.Stage.Password.{CredentialCalls, linux_mount-sensitive_options}
use csi_driver_smb_hardend.Env.{Env}
use csi_driver_smb_hardend.Action.Keeps.{Keeps}
use csi_driver_smb_hardend.Tests.{Log, test_env, test_driver, at_rest, stage_request}
use csi_driver_smb_hardend.Csi.{VolumeCapability, mount_access}
use csi_driver_smb_hardend.Maps.{Map, lookup_fold, set_key_value}
use csi_driver_smb_hardend.Node.Stage.Handed.{read_context-set_key_value}
use csi_driver_smb_hardend.Strings.{to_lower}
use csi_driver_smb_hardend.Base.{str_eq, str_eq_iff, arith}
use csi_driver_smb_hardend.Node.Stage.{plan_mount, no_context, read_context}
use csi_driver_smb_hardend.Node.Stage.Context.{read_context_fields}
use csi_driver_smb_hardend.Node.Stage.Logged.{logged, plan_mount-logged}

Reach-IsExclusive_example :
    IsExclusive
      (record { vl = (try_acquire (codes "a") new_volume_locks).1; running = codes "a" ∷ [] })
Reach-IsExclusive_example =
    Reach-IsExclusive (next here (start (codes "a") (unfold try_acquire in refl)))

get_root_mapping_path_remote_example :
    get_root_mapping_path (codes "\\\\Host\\Share") ≡ ok (codes "\\\\host\\share")
unfolding csi_driver_smb_hardend.Strings.to_lower
get_root_mapping_path_remote_example =
    get_root_mapping_path_remote (codes "Host") (codes "Share") [] (omega arith) (omega arith) refl
      refl (inl refl)

-- An environment that notes the sensitive options of a mount.
abbrev noting_env : Env
noting_env = record test_env {
  mount_sensitive = λ source target fs_type options sensitive w. (ok tt, sensitive ++ w);
}

abbrev InFiles : Log → Type 0
InFiles = All (λ option. has_prefix option (codes "credentials=") ≡ true)

abbrev comma_password : Credentials
comma_password = record { username = codes "u"; password = codes "p,w"; domain = [] }

special_password : contains_special_character (codes "p,w") ≢ false
unfolding contains_special_character csi_driver_smb_hardend.Strings.has_substring
special_password h = cc h

comma_password_calls : CredentialCalls noting_env InFiles comma_password
comma_password_calls = record {
  create = record { kept = λ w h. h };
  write = λ file field value. record { kept = λ w h. h };
  remove = λ file. record { kept = λ w h. h };
  mount_file =
      λ source target fs_type options file. record { kept = λ w h. (unfold has_prefix in refl, h) };
  mount_password = λ source target fs_type options plain. absurd (special_password plain);
}

linux_mount-sensitive_options_example : Keeps InFiles (
    linux_mount noting_env
      (codes "//host/share")
      (codes "/mnt")
      (codes "cifs")
      []
      (sensitive_options comma_password))
linux_mount-sensitive_options_example =
    linux_mount-sensitive_options noting_env InFiles comma_password comma_password_calls
      (codes "//host/share") (codes "/mnt") (codes "cifs") []

-- The mode "0755" is raised to "0775".
abbrev mode_755 : Str
mode_755 = codes "0755"

enable_group_rwx_example :
    (w : ℕ) × (parse_int (enable_group_rwx mode_755) ≡ some (pos w))
    × (w / 8 % 8 ≡ 7)
    × (w % 8 ≡ 493 % 8)
    × (w / 64 ≡ 493 / 64)
    × (w < 2 ^ 63)
    × (enable_group_rwx (enable_group_rwx mode_755) ≡ enable_group_rwx mode_755)
unfolding parse_int strip_sign base_of has_underscore underscore_ok read_digits digit_value to_int?
    to_int
enable_group_rwx_example = enable_group_rwx_lem mode_755 493 refl

abbrev no_flags : VolumeCapability
no_flags = mount_access (record { mount_flags = []; volume_mount_group = [] })

plan_mount-logged_example :
    logged (plan_mount test_env test_driver stage_request no_flags [] comma_password at_rest)
    ≡ logged (
        plan_mount test_env test_driver stage_request no_flags []
          (record comma_password { password = codes "other" })
          at_rest)
plan_mount-logged_example =
    plan_mount-logged test_env test_driver stage_request no_flags [] comma_password (codes "other")
      at_rest

abbrev mixed_context : Map
mixed_context =
    (codes "Source", codes "//host/share")
    ∷ (codes "subDir", codes "a")
    ∷ (codes "SUBDIR", codes "b")
    ∷ []

read_context_fields_example : read_context mixed_context no_context ≡ record {
  source = codes "//host/share";
  sub_dir = codes "b";
  secret_name = [];
  secret_namespace = [];
  ephemeral_mount_options = [];
  ephemeral = false;
  replacements = [];
}
unfolding csi_driver_smb_hardend.Strings.to_lower csi_driver_smb_hardend.Base.str_eq equal_fold
read_context_fields_example = read_context_fields mixed_context

-- The context that CreateVolume makes of one parameter, visited from its end.
abbrev handed_context : Map
handed_context = (codes "subdir", codes "pv") ∷ (codes "Source", codes "//host/share") ∷ []

lookup_fold-handed_context :
    (key : Str)
    → lookup_fold key handed_context
      ≡ lookup_fold key (
          set_key_value ((codes "Source", codes "//host/share") ∷ []) (codes "subdir") (codes "pv"))
unfolding set_key_value equal_fold to_lower str_eq
lookup_fold-handed_context key =
    ground (
      arith,
      str_eq_iff (codes "subdir") (to_lower key),
      str_eq_iff (codes "source") (to_lower key),
    )

read_context-set_key_value_example :
    ((read_context handed_context no_context).sub_dir ≡ codes "pv")
    × ((read_context handed_context no_context).source ≡ codes "//host/share")
unfolding equal_fold to_lower str_eq
read_context-set_key_value_example =
    read_context-set_key_value ((codes "Source", codes "//host/share") ∷ []) handed_context
      (codes "pv") (refl, (refl, tt)) lookup_fold-handed_context
