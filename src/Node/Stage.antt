-- ===== src/Node/Stage.antt =====
-- `NodeStageVolume` and `NodeUnstageVolume`.
pub mod Password
pub mod Logged
pub mod Context
pub mod Handed
use csi_driver_smb_hardend.Base.{
  Bool, true, false, ◌&&◌, not, List, [], ◌∷◌, ◌++◌, Option, none, some, Str, codes, str_eq,
  is_empty, String, if◌then◌else◌,
}
use csi_driver_smb_hardend.Errors.{status, plain, internal, invalid_argument}
use csi_driver_smb_hardend.Constants.{
  username_field, password_field, source_field, sub_dir_field, domain_field, mount_options_field,
  secret_name_field, secret_namespace_field, default_domain_name, ephemeral_field, pvc_name_key,
  pvc_namespace_key, pv_name_key, pvc_name_metadata, pvc_namespace_metadata, pv_name_metadata,
  true_value,
}
use csi_driver_smb_hardend.Strings.{
  to_lower, equal_fold, trim_space, trim_right, is_slash, split, has_substring,
}
use csi_driver_smb_hardend.Maps.{Map, assign, get}
use csi_driver_smb_hardend.Csi.{
  VolumeCapability, get_mount_flags, get_volume_mount_group, entries, NodeStageVolumeRequest,
  NodeUnstageVolumeRequest,
}
use csi_driver_smb_hardend.Options.{
  has_guest_mount_options, check_gid_present_in_mount_flags, contains_special_character, assignment,
}
use csi_driver_smb_hardend.Modes.{raise_group_rwx_in_mount_flags}
use csi_driver_smb_hardend.Volume.{replace_with_map}
use csi_driver_smb_hardend.Kerberos.{ensure_kerberos_cache, delete_kerberos_cache}
use csi_driver_smb_hardend.Action.{
  Action, pure, fail, call, or_status, or_plain, locked, ◌>>=◌, ◌>>◌,
}
use csi_driver_smb_hardend.Env.{Env, Driver}
use csi_driver_smb_hardend.Node.Platform.{
  mount, cleanup_smb_mount_point, prepare_path, wait_until_timeout,
}
use csi_driver_smb_hardend.Node.MountPoint.{ensure_mount_point}

-- The text of `volumeOperationAlreadyExistsFmt`
abbrev pub operation_exists : String
operation_exists = "An operation with the given Volume ID %s already exists"

-- The variables that the loop over the volume context assigns.
pub record StageContext : Type 0 where
  pub source : Str
  pub sub_dir : Str
  pub secret_name : Str
  pub secret_namespace : Str
  pub ephemeral_mount_options : Str
  pub ephemeral : Bool
  pub replacements : Map

abbrev pub no_context : StageContext
no_context = record {
  source = [];
  sub_dir = [];
  secret_name = [];
  secret_namespace = [];
  ephemeral_mount_options = [];
  ephemeral = false;
  replacements = [];
}

-- One round of the loop. A key that is not known is passed over.
unfoldable pub read_entry : Str → Str → StageContext → StageContext
unfolding to_lower str_eq assign equal_fold
read_entry k v c =
    let key = to_lower k in
    if str_eq key source_field
    then record c { source = v }
    else if str_eq key sub_dir_field
    then record c { sub_dir = v }
    else if str_eq key pvc_namespace_key
    then record c { replacements = assign pvc_namespace_metadata v c.replacements }
    else if str_eq key pvc_name_key
    then record c { replacements = assign pvc_name_metadata v c.replacements }
    else if str_eq key pv_name_key
    then record c { replacements = assign pv_name_metadata v c.replacements }
    else if str_eq key secret_name_field
    then record c { secret_name = v }
    else if str_eq key secret_namespace_field
    then record c { secret_namespace = v }
    else if str_eq key ephemeral_field
    then record c { ephemeral = equal_fold v true_value }
    else if str_eq key mount_options_field
    then record c { ephemeral_mount_options = v }
    else c

unfoldable pub read_context : Map → StageContext → StageContext
unfolding read_entry
read_context [] c = c
read_context ((k, v) ∷ context) c = read_context context (read_entry k v c)

pub record Credentials : Type 0 where
  pub username : Str
  pub password : Str
  pub domain : Str

abbrev pub no_credentials : Credentials
no_credentials = record { username = []; password = []; domain = [] }

-- The loop over the secrets.
unfoldable pub read_secrets : Map → Credentials → Credentials
unfolding to_lower str_eq trim_space
read_secrets [] c = c
read_secrets ((k, v) ∷ secrets) c =
    let key = to_lower k in
    read_secrets secrets (
      if str_eq key username_field
      then record c { username = trim_space v }
      else if str_eq key password_field
      then record c { password = trim_space v }
      else if str_eq key domain_field
      then record c { domain = trim_space v }
      else c)

-- The options of the mount, and those that are not logged.
pub record MountPlan : Type 0 where
  pub options : List Str
  pub sensitive : List Str

-- On Windows the options are the user with its domain, and the password.
unfoldable pub windows_plan : Bool → Credentials → MountPlan
unfolding has_substring
windows_plan false c = record { options = []; sensitive = [] }
windows_plan true c =
    let domain = if is_empty c.domain then default_domain_name else c.domain in
    let username =
      if has_substring c.username (codes "\\")
      then c.username
      else domain ++ (b'\\' ∷ c.username) in
    record { options = username ∷ []; sensitive = c.password ∷ [] }

-- User and password: two options if the password has a special character, and else one.
unfoldable pub sensitive_options : Credentials → List Str
unfolding contains_special_character
sensitive_options c =
    let user = assignment username_field c.username in
    let password = assignment password_field c.password in
    if contains_special_character c.password
    then user ∷ password ∷ []
    else (user ++ (b',' ∷ password)) ∷ []

-- A mode option is raised where it is there, and appended where it is not.
unfoldable pub raise_or_append : Str → Str → List Str → List Str
unfolding raise_group_rwx_in_mount_flags
raise_or_append flag value options =
    let (found, raised) = raise_group_rwx_in_mount_flags options flag in
    if found then raised else raised ++ (assignment flag value ∷ [])

-- The group of the volume is added unless a gid is given, with access for the group.
unfoldable pub group_options : List Str → Str → List Str
unfolding raise_or_append check_gid_present_in_mount_flags
group_options flags group = raise_or_append (codes "dir_mode") (codes "0775") (
    raise_or_append (codes "file_mode") (codes "0774")
      (flags ++ (assignment (codes "gid") group ∷ [])))

-- The options on Linux.
unfoldable pub linux_options : Bool → List Str → Str → Str → List Str
unfolding group_options
linux_options gid_present flags group domain =
    let grouped =
      if not gid_present && not (is_empty group) then group_options flags group else flags in
    if is_empty domain then grouped else grouped ++ (assignment domain_field domain ∷ [])

-- `fmt.Sprintf("%s-%s", volumeID, targetPath)`
abbrev pub lock_key : Str → Str → Str
lock_key volume_id target = volume_id ++ (b'-' ∷ target)

module _ (E : Env) where
  -- `GetUserNamePasswordFromSecret`
  unfoldable pub get_user_name_password_from_secret :
      Driver → Str → Str → Action E.World Credentials
  unfolding get trim_space
  get_user_name_password_from_secret d secret_name secret_namespace =
      if not d.has_kube_client
      then fail (plain "could not username and password from secret(%s): KubeClient is nil")
      else (do
        secret ←
            or_plain "could not get secret(%v): %v"
              (call (E.get_secret secret_namespace secret_name))
        pure (record {
          username = trim_space (get username_field secret);
          password = trim_space (get password_field secret);
          domain = trim_space (get domain_field secret);
        }))

  -- The credentials of an ephemeral volume come from a secret that its context names, and those of
  -- another from the request. A guest needs none.
  unfoldable pub find_credentials : Driver → StageContext → Bool → Map → Action E.World Credentials
  unfolding get_user_name_password_from_secret read_secrets
  find_credentials d c required secrets =
      if c.ephemeral && required
      then or_status internal
          "Error getting username and password from secret %s in namespace %s: %v"
          (get_user_name_password_from_secret d c.secret_name c.secret_namespace)
      else pure (read_secrets (E.visit secrets) no_credentials)

  -- The options, on Linux behind the Kerberos cache and the directory of the mount point.
  unfoldable pub plan_mount :
      Driver
      → NodeStageVolumeRequest
      → VolumeCapability
      → List Str
      → Credentials
      → Action E.World MountPlan
  unfolding windows_plan sensitive_options linux_options
  plan_mount d req cap flags creds =
      let required = not (has_guest_mount_options flags) in
      if d.on_windows then pure (windows_plan required creds) else (do
        use_kerberos ← or_status internal "Error writing kerberos cache: %v" (
            ensure_kerberos_cache E d.krb5_cache_directory d.krb5_prefix req.volume_id flags
              req.secrets)
        or_status internal "MkdirAll %s failed with error: %v"
            (call (E.mkdir_all req.staging_target_path 0o750))
        pure (record {
          options =
              linux_options (check_gid_present_in_mount_flags (get_mount_flags cap)) flags
                (get_volume_mount_group cap) creds.domain;
          sensitive = if required && not use_kerberos then sensitive_options creds else [];
        }))

  -- The share, with the subdirectory behind it where there is one.
  unfoldable pub share_of : StageContext → Str
  unfolding trim_right replace_with_map
  share_of c =
      if is_empty c.sub_dir
      then c.source
      else trim_right is_slash c.source
        ++ (b'/' ∷ replace_with_map c.sub_dir (E.visit c.replacements))

  -- The mount itself, where the target is not mounted already.
  unfoldable pub mount_share :
      Driver → NodeStageVolumeRequest → StageContext → MountPlan → Action E.World (Unit {0})
  unfolding share_of
  mount_share d req c plan = do
    mounted ←
        or_status internal "Could not mount target %s: %v"
          (ensure_mount_point E d req.staging_target_path)
    if mounted then pure tt else (do
      or_plain "prepare stage path failed for %s with error: %v"
          (prepare_path E d req.staging_target_path)
      or_status internal "volume(%s) mount %q on %q failed with %v" (
          wait_until_timeout E
            (mount E d (share_of c) req.staging_target_path (codes "cifs") plan.options
              plan.sensitive req.volume_id)
            (plain "mount volume %s to %s timeout after %ds")))

  -- What `NodeStageVolume` does under the lock.
  unfoldable pub stage_locked :
      Driver → NodeStageVolumeRequest → VolumeCapability → StageContext → Action E.World (Unit {0})
  stage_locked d req cap c = do
    let flags = if c.ephemeral then split b',' c.ephemeral_mount_options else get_mount_flags cap
    creds ← find_credentials d c (not (has_guest_mount_options flags)) req.secrets
    plan ← plan_mount d req cap flags creds
    mount_share d req c plan

  unfoldable pub stage_capability :
      Driver → NodeStageVolumeRequest → Option VolumeCapability → Action E.World (Unit {0})
  stage_capability d req none = fail (status invalid_argument "Volume capability not provided")
  stage_capability d req (some cap) =
      let c = read_context (E.visit (entries req.volume_context)) no_context in
      if is_empty req.staging_target_path
      then fail (status invalid_argument "Staging target not provided")
      else if is_empty c.source
      then fail (status invalid_argument "%s field is missing, current context: %v")
      else locked (lock_key req.volume_id req.staging_target_path) operation_exists
          (stage_locked d req cap c)

  -- `NodeStageVolume`
  unfoldable pub node_stage_volume : Driver → NodeStageVolumeRequest → Action E.World (Unit {0})
  unfolding stage_capability
  node_stage_volume d req =
      if is_empty req.volume_id
      then fail (status invalid_argument "Volume ID missing in request")
      else stage_capability d req req.volume_capability

  unfoldable pub unstage_locked : Driver → NodeUnstageVolumeRequest → Action E.World (Unit {0})
  unstage_locked d req = do
    or_status internal "failed to unmount staging target %q: %v"
        (cleanup_smb_mount_point E d req.staging_target_path req.volume_id)
    or_status internal "failed to delete kerberos cache: %v"
        (delete_kerberos_cache E d.krb5_cache_directory req.volume_id)

  -- `NodeUnstageVolume`
  unfoldable pub node_unstage_volume : Driver → NodeUnstageVolumeRequest → Action E.World (Unit {0})
  node_unstage_volume d req =
      if is_empty req.volume_id
      then fail (status invalid_argument "Volume ID missing in request")
      else if is_empty req.staging_target_path
      then fail (status invalid_argument "Staging target not provided")
      else locked (lock_key req.volume_id req.staging_target_path) operation_exists
          (unstage_locked d req)
