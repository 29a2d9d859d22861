-- ===== src/Node/Frees.antt =====
-- The handlers of the node service leave the lock set as they found it.
use csi_driver_smb_hardend.Base.{Bool, List, [], ◌∷◌, ◌++◌, Str, Option, none, some}
use csi_driver_smb_hardend.Errors.{Error, Result, ok, err}
use csi_driver_smb_hardend.Maps.{Map}
use csi_driver_smb_hardend.Csi.{
  VolumeCapability, NodeStageVolumeRequest, NodeUnstageVolumeRequest, NodePublishVolumeRequest,
  NodeUnpublishVolumeRequest,
}
use csi_driver_smb_hardend.Env.{Env, Driver}
use csi_driver_smb_hardend.Action.{Action, call}
use csi_driver_smb_hardend.Action.Frees.{Frees, Frees-bind, Frees-call, frees_rules}
use csi_driver_smb_hardend.Kerberos.Frees.{ensure_kerberos_cache-Frees, delete_kerberos_cache-Frees}
use csi_driver_smb_hardend.Node.Platform.{
  write_lines, linux_mount, with_proxy, mount, cleanup_smb_mount_point, cleanup_mount_point,
  prepare_path, wait_until_timeout,
}
use csi_driver_smb_hardend.Node.MountPoint.{
  make_dir, is_corrupted_dir, first_answer, second_answer, probe, check_link, ensure_mount_point,
}
use csi_driver_smb_hardend.Node.Stage.{
  StageContext, Credentials, MountPlan, get_user_name_password_from_secret, find_credentials,
  plan_mount, mount_share, stage_locked, stage_capability, node_stage_volume, unstage_locked,
  node_unstage_volume,
}
use csi_driver_smb_hardend.Node.Publish.{
  publish_ephemeral, remove_target, publish_staged, publish_capability, node_publish_volume,
  node_unpublish_volume,
}

module _ (E : Env) where
  write_lines-Frees : (file : Str) (options : List Str) → Frees (write_lines E file options)
  unfolding write_lines
  write_lines-Frees file [] = search frees_rules
  write_lines-Frees file (option ∷ options) =
      Frees-bind (call (E.append_to file (option ++ (10 ∷ [])))) (λ _. write_lines E file options)
        (Frees-call (E.append_to file (option ++ (10 ∷ [])))) (λ _. write_lines-Frees file options)

  with_proxy-Frees : {A : Type 0} (m : Action E.World A) → Frees m → Frees (with_proxy E m)
  unfolding with_proxy
  with_proxy-Frees m h = search frees_rules

  linux_mount-Frees :
      (source target fs_type : Str) (options sensitive : List Str)
      → Frees (linux_mount E source target fs_type options sensitive)
  unfolding linux_mount
  linux_mount-Frees source target fs_type options sensitive =
      search (frees_rules, write_lines-Frees) depth 10

  mount-Frees :
      (d : Driver) (source target fs_type : Str) (options sensitive : List Str) (volume_id : Str)
      → Frees (mount E d source target fs_type options sensitive volume_id)
  unfolding mount
  mount-Frees d source target fs_type options sensitive volume_id =
      search (frees_rules, with_proxy-Frees, linux_mount-Frees)

  cleanup_smb_mount_point-Frees :
      (d : Driver) (target volume_id : Str) → Frees (cleanup_smb_mount_point E d target volume_id)
  unfolding cleanup_smb_mount_point
  cleanup_smb_mount_point-Frees d target volume_id = search (frees_rules, with_proxy-Frees)

  cleanup_mount_point-Frees : (d : Driver) (target : Str) → Frees (cleanup_mount_point E d target)
  unfolding cleanup_mount_point
  cleanup_mount_point-Frees d target = search (frees_rules, with_proxy-Frees)

  prepare_path-Frees : (d : Driver) (path : Str) → Frees (prepare_path E d path)
  unfolding prepare_path
  prepare_path-Frees d path = search (frees_rules, with_proxy-Frees) depth 8

  wait_until_timeout-Frees :
      (exec : Action E.World (Unit {0})) (timeout : Error)
      → Frees exec
      → Frees (wait_until_timeout E exec timeout)
  unfolding wait_until_timeout
  wait_until_timeout-Frees exec timeout h = search frees_rules depth 8

  is_corrupted_dir-Frees : (dir : Str) → Frees (is_corrupted_dir E dir)
  unfolding is_corrupted_dir
  is_corrupted_dir-Frees dir = search frees_rules

  first_answer-Frees :
      (target : Str) (answer : Bool × Option Error) → Frees (first_answer E target answer)
  unfolding first_answer
  first_answer-Frees target (not_mnt, none) = search frees_rules
  first_answer-Frees target (not_mnt, some e) = search (frees_rules, is_corrupted_dir-Frees) depth 8

  second_answer-Frees :
      (d : Driver) (target : Str) (not_mnt : Bool) → Frees (second_answer E d target not_mnt)
  unfolding second_answer
  second_answer-Frees d target not_mnt = search frees_rules depth 8

  check_link-Frees : (target : Str) (link : Result (Unit {0})) → Frees (check_link E target link)
  unfolding check_link
  check_link-Frees target (ok _) = search frees_rules
  check_link-Frees target (err e) = search frees_rules

  probe-Frees : (target : Str) → Frees (probe E target)
  unfolding probe
  probe-Frees target = search frees_rules depth 8

  make_dir-Frees : (path : Str) → Frees (make_dir E path)
  unfolding make_dir
  make_dir-Frees path = search frees_rules

  pub ensure_mount_point-Frees : (d : Driver) (target : Str) → Frees (ensure_mount_point E d target)
  unfolding ensure_mount_point
  ensure_mount_point-Frees d target =
      search
        (
          frees_rules, first_answer-Frees, second_answer-Frees, check_link-Frees, probe-Frees,
          make_dir-Frees,
        )
        depth 12

  ruleset platform_rules = (
    mount-Frees, cleanup_smb_mount_point-Frees, cleanup_mount_point-Frees, prepare_path-Frees,
    wait_until_timeout-Frees, ensure_mount_point-Frees,
  )

  get_user_name_password_from_secret-Frees :
      (d : Driver) (name namespace : Str)
      → Frees (get_user_name_password_from_secret E d name namespace)
  unfolding get_user_name_password_from_secret
  get_user_name_password_from_secret-Frees d name namespace = search frees_rules depth 8

  find_credentials-Frees :
      (d : Driver) (c : StageContext) (required : Bool) (secrets : Map)
      → Frees (find_credentials E d c required secrets)
  unfolding find_credentials
  find_credentials-Frees d c required secrets =
      search (frees_rules, get_user_name_password_from_secret-Frees)

  plan_mount-Frees :
      (d : Driver) (req : NodeStageVolumeRequest) (cap : VolumeCapability) (flags : List Str)
      (creds : Credentials)
      → Frees (plan_mount E d req cap flags creds)
  unfolding plan_mount
  plan_mount-Frees d req cap flags creds =
      search (frees_rules, ensure_kerberos_cache-Frees) depth 10

  mount_share-Frees :
      (d : Driver) (req : NodeStageVolumeRequest) (c : StageContext) (plan : MountPlan)
      → Frees (mount_share E d req c plan)
  unfolding mount_share
  mount_share-Frees d req c plan = search (frees_rules, platform_rules) depth 10

  stage_locked-Frees :
      (d : Driver) (req : NodeStageVolumeRequest) (cap : VolumeCapability) (c : StageContext)
      → Frees (stage_locked E d req cap c)
  unfolding stage_locked
  stage_locked-Frees d req cap c =
      search (frees_rules, find_credentials-Frees, plan_mount-Frees, mount_share-Frees) depth 8

  stage_capability-Frees :
      (d : Driver) (req : NodeStageVolumeRequest) (cap : Option VolumeCapability)
      → Frees (stage_capability E d req cap)
  unfolding stage_capability
  stage_capability-Frees d req none = search frees_rules
  stage_capability-Frees d req (some cap) = search (frees_rules, stage_locked-Frees) depth 8

  pub node_stage_volume-Frees :
      (d : Driver) (req : NodeStageVolumeRequest) → Frees (node_stage_volume E d req)
  unfolding node_stage_volume
  node_stage_volume-Frees d req = search (frees_rules, stage_capability-Frees)

  pub node_unstage_volume-Frees :
      (d : Driver) (req : NodeUnstageVolumeRequest) → Frees (node_unstage_volume E d req)
  unfolding node_unstage_volume unstage_locked
  node_unstage_volume-Frees d req =
      search (frees_rules, platform_rules, delete_kerberos_cache-Frees) depth 10

  remove_target-Frees : (target : Str) (r : Result (Unit {0})) → Frees (remove_target E target r)
  unfolding remove_target
  remove_target-Frees target (ok _) = search frees_rules
  remove_target-Frees target (err e) = search frees_rules

  publish_staged-Frees :
      (d : Driver) (req : NodePublishVolumeRequest) → Frees (publish_staged E d req)
  unfolding publish_staged
  publish_staged-Frees d req = search (frees_rules, platform_rules, remove_target-Frees) depth 12

  publish_ephemeral-Frees :
      (d : Driver) (req : NodePublishVolumeRequest) (cap : VolumeCapability)
      → Frees (publish_ephemeral E d req cap)
  unfolding publish_ephemeral
  publish_ephemeral-Frees d req cap = search (frees_rules, node_stage_volume-Frees)

  publish_capability-Frees :
      (d : Driver) (req : NodePublishVolumeRequest) (cap : Option VolumeCapability)
      → Frees (publish_capability E d req cap)
  unfolding publish_capability
  publish_capability-Frees d req none = search frees_rules
  publish_capability-Frees d req (some cap) =
      search (frees_rules, publish_staged-Frees, publish_ephemeral-Frees) depth 10

  pub node_publish_volume-Frees :
      (d : Driver) (req : NodePublishVolumeRequest) → Frees (node_publish_volume E d req)
  unfolding node_publish_volume
  node_publish_volume-Frees d req = publish_capability-Frees d req req.volume_capability

  pub node_unpublish_volume-Frees :
      (d : Driver) (req : NodeUnpublishVolumeRequest) → Frees (node_unpublish_volume E d req)
  unfolding node_unpublish_volume
  node_unpublish_volume-Frees d req = search (frees_rules, platform_rules) depth 8
