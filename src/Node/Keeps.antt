-- ===== src/Node/Keeps.antt =====
-- Staging and unstaging a volume make no calls but those of mounting.
use csi_driver_smb_hardend.Base.{Bool, List, [], ◌∷◌, ◌++◌, Str, Option, none, some}
use csi_driver_smb_hardend.Errors.{Error, Result, ok, err}
use csi_driver_smb_hardend.Maps.{Map}
use csi_driver_smb_hardend.Csi.{VolumeCapability, NodeStageVolumeRequest, NodeUnstageVolumeRequest}
use csi_driver_smb_hardend.Env.Staging.{Staging, append_to-Safe, staging_rules}
use csi_driver_smb_hardend.Env.{Env, Driver}
use csi_driver_smb_hardend.Action.{Action, call}
use csi_driver_smb_hardend.Action.Keeps.{Keeps, Keeps-bind, Keeps-call, keeps_rules}
use csi_driver_smb_hardend.Kerberos.Keeps.{ensure_kerberos_cache-Keeps, delete_kerberos_cache-Keeps}
use csi_driver_smb_hardend.Node.Platform.{
  write_lines, linux_mount, with_proxy, mount, cleanup_smb_mount_point, prepare_path,
  wait_until_timeout,
}
use csi_driver_smb_hardend.Node.MountPoint.{
  make_dir, is_corrupted_dir, first_answer, second_answer, probe, check_link, ensure_mount_point,
}
use csi_driver_smb_hardend.Node.Stage.{
  StageContext, Credentials, MountPlan, get_user_name_password_from_secret, find_credentials,
  plan_mount, mount_share, stage_locked, stage_capability, node_stage_volume, unstage_locked,
  node_unstage_volume,
}

module _ (E : Env) (P : E.World → Type 0) (allowed : Staging E P) where
  ruleset calls = (keeps_rules, staging_rules)

  write_lines-Keeps : (file : Str) (options : List Str) → Keeps P (write_lines E file options)
  unfolding write_lines
  write_lines-Keeps file [] = search calls
  write_lines-Keeps file (option ∷ options) =
      Keeps-bind (call (E.append_to file (option ++ (10 ∷ [])))) (λ _. write_lines E file options)
        (Keeps-call (E.append_to file (option ++ (10 ∷ [])))
          (append_to-Safe E P allowed file (option ++ (10 ∷ []))))
        (λ _. write_lines-Keeps file options)

  pub with_proxy-Keeps : {A : Type 0} (m : Action E.World A) → Keeps P m → Keeps P (with_proxy E m)
  unfolding with_proxy
  with_proxy-Keeps m h = search calls

  linux_mount-Keeps :
      (source target fs_type : Str) (options sensitive : List Str)
      → Keeps P (linux_mount E source target fs_type options sensitive)
  unfolding linux_mount
  linux_mount-Keeps source target fs_type options sensitive =
      search (calls, write_lines-Keeps) depth 10

  mount-Keeps :
      (d : Driver) (source target fs_type : Str) (options sensitive : List Str) (volume_id : Str)
      → Keeps P (mount E d source target fs_type options sensitive volume_id)
  unfolding mount
  mount-Keeps d source target fs_type options sensitive volume_id =
      search (calls, with_proxy-Keeps, linux_mount-Keeps)

  cleanup_smb_mount_point-Keeps :
      (d : Driver) (target volume_id : Str) → Keeps P (cleanup_smb_mount_point E d target volume_id)
  unfolding cleanup_smb_mount_point
  cleanup_smb_mount_point-Keeps d target volume_id = search (calls, with_proxy-Keeps)

  pub prepare_path-Keeps : (d : Driver) (path : Str) → Keeps P (prepare_path E d path)
  unfolding prepare_path
  prepare_path-Keeps d path = search (calls, with_proxy-Keeps) depth 8

  wait_until_timeout-Keeps :
      (exec : Action E.World (Unit {0})) (timeout : Error)
      → Keeps P exec
      → Keeps P (wait_until_timeout E exec timeout)
  unfolding wait_until_timeout
  wait_until_timeout-Keeps exec timeout h = search calls depth 8

  is_corrupted_dir-Keeps : (dir : Str) → Keeps P (is_corrupted_dir E dir)
  unfolding is_corrupted_dir
  is_corrupted_dir-Keeps dir = search calls

  first_answer-Keeps :
      (target : Str) (answer : Bool × Option Error) → Keeps P (first_answer E target answer)
  unfolding first_answer
  first_answer-Keeps target (not_mnt, none) = search calls
  first_answer-Keeps target (not_mnt, some e) = search (calls, is_corrupted_dir-Keeps) depth 8

  second_answer-Keeps :
      (d : Driver) (target : Str) (not_mnt : Bool) → Keeps P (second_answer E d target not_mnt)
  unfolding second_answer
  second_answer-Keeps d target not_mnt = search calls depth 8

  check_link-Keeps : (target : Str) (link : Result (Unit {0})) → Keeps P (check_link E target link)
  unfolding check_link
  check_link-Keeps target (ok _) = search calls
  check_link-Keeps target (err e) = search calls

  probe-Keeps : (target : Str) → Keeps P (probe E target)
  unfolding probe
  probe-Keeps target = search calls depth 8

  make_dir-Keeps : (path : Str) → Keeps P (make_dir E path)
  unfolding make_dir
  make_dir-Keeps path = search calls

  pub ensure_mount_point-Keeps :
      (d : Driver) (target : Str) → Keeps P (ensure_mount_point E d target)
  unfolding ensure_mount_point
  ensure_mount_point-Keeps d target =
      search
        (
          calls, first_answer-Keeps, second_answer-Keeps, check_link-Keeps, probe-Keeps,
          make_dir-Keeps,
        )
        depth 12

  ruleset platform_rules = (
    mount-Keeps, cleanup_smb_mount_point-Keeps, prepare_path-Keeps, wait_until_timeout-Keeps,
    ensure_mount_point-Keeps,
  )

  get_user_name_password_from_secret-Keeps :
      (d : Driver) (name namespace : Str)
      → Keeps P (get_user_name_password_from_secret E d name namespace)
  unfolding get_user_name_password_from_secret
  get_user_name_password_from_secret-Keeps d name namespace = search calls depth 8

  find_credentials-Keeps :
      (d : Driver) (c : StageContext) (required : Bool) (secrets : Map)
      → Keeps P (find_credentials E d c required secrets)
  unfolding find_credentials
  find_credentials-Keeps d c required secrets =
      search (calls, get_user_name_password_from_secret-Keeps)

  plan_mount-Keeps :
      (d : Driver) (req : NodeStageVolumeRequest) (cap : VolumeCapability) (flags : List Str)
      (creds : Credentials)
      → Keeps P (plan_mount E d req cap flags creds)
  unfolding plan_mount
  plan_mount-Keeps d req cap flags creds =
      search (calls, ensure_kerberos_cache-Keeps E P allowed) depth 10

  mount_share-Keeps :
      (d : Driver) (req : NodeStageVolumeRequest) (c : StageContext) (plan : MountPlan)
      → Keeps P (mount_share E d req c plan)
  unfolding mount_share
  mount_share-Keeps d req c plan = search (calls, platform_rules) depth 10

  stage_locked-Keeps :
      (d : Driver) (req : NodeStageVolumeRequest) (cap : VolumeCapability) (c : StageContext)
      → Keeps P (stage_locked E d req cap c)
  unfolding stage_locked
  stage_locked-Keeps d req cap c =
      search (calls, find_credentials-Keeps, plan_mount-Keeps, mount_share-Keeps) depth 8

  stage_capability-Keeps :
      (d : Driver) (req : NodeStageVolumeRequest) (cap : Option VolumeCapability)
      → Keeps P (stage_capability E d req cap)
  unfolding stage_capability
  stage_capability-Keeps d req none = search calls
  stage_capability-Keeps d req (some cap) = search (calls, stage_locked-Keeps) depth 8

  pub node_stage_volume-Keeps :
      (d : Driver) (req : NodeStageVolumeRequest) → Keeps P (node_stage_volume E d req)
  unfolding node_stage_volume
  node_stage_volume-Keeps d req = search (calls, stage_capability-Keeps)

  pub node_unstage_volume-Keeps :
      (d : Driver) (req : NodeUnstageVolumeRequest) → Keeps P (node_unstage_volume E d req)
  unfolding node_unstage_volume unstage_locked
  node_unstage_volume-Keeps d req =
      search (calls, platform_rules, delete_kerberos_cache-Keeps E P allowed) depth 10
