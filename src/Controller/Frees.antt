-- ===== src/Controller/Frees.antt =====
-- The handlers of the controller service leave the lock set as they found it.
use csi_driver_smb_hardend.Base.{◌≡◌, Str, Option, none, some}
use csi_driver_smb_hardend.Errors.{Result, ok, err}
use csi_driver_smb_hardend.Maps.{Map}
use csi_driver_smb_hardend.Volume.{SmbVolume}
use csi_driver_smb_hardend.Csi.{
  VolumeCapability, VolumeContentSource, snapshot_source, volume_source, unset_source,
  CreateVolumeRequest, DeleteVolumeRequest, NodeStageVolumeRequest, NodeUnstageVolumeRequest,
  NodePublishVolumeRequest, NodeUnpublishVolumeRequest,
}
use csi_driver_smb_hardend.Env.{Env, Driver}
use csi_driver_smb_hardend.Action.{State}
use csi_driver_smb_hardend.Action.Frees.{Frees, frees_rules}
use csi_driver_smb_hardend.Node.Stage.{node_stage_volume, node_unstage_volume}
use csi_driver_smb_hardend.Node.Publish.{node_publish_volume, node_unpublish_volume}
use csi_driver_smb_hardend.Node.Frees.{
  node_stage_volume-Frees, node_unstage_volume-Frees, node_publish_volume-Frees,
  node_unpublish_volume-Frees,
}
use csi_driver_smb_hardend.Controller.{internal_mount, internal_unmount}
use csi_driver_smb_hardend.Controller.Create.{copy_volume, create_locked, create_volume}
use csi_driver_smb_hardend.Controller.Delete.{
  make_parent, remove_stale, archive_sub_dir, open_up, remove_sub_dir, remove_or_archive,
  note_deleted, delete_unless_cached, delete_locked, delete_parsed, delete_volume,
}

module _ (E : Env) where
  internal_mount-Frees :
      (d : Driver) (vol : SmbVolume) (cap : Option VolumeCapability) (secrets : Map)
      → Frees (internal_mount E d vol cap secrets)
  unfolding internal_mount
  internal_mount-Frees d vol cap secrets = search node_stage_volume-Frees

  internal_unmount-Frees : (d : Driver) (vol : SmbVolume) → Frees (internal_unmount E d vol)
  unfolding internal_unmount
  internal_unmount-Frees d vol = search node_unstage_volume-Frees

  ruleset internal_rules = (frees_rules, internal_mount-Frees, internal_unmount-Frees)

  copy_volume-Frees :
      (d : Driver) (req : CreateVolumeRequest) (cap : VolumeCapability) (vol : SmbVolume)
      (source : Option VolumeContentSource)
      → Frees (copy_volume E d req cap vol source)
  unfolding copy_volume
  copy_volume-Frees d req cap vol none = search frees_rules
  copy_volume-Frees d req cap vol (some snapshot_source) = search frees_rules
  copy_volume-Frees d req cap vol (some (volume_source id)) = search internal_rules depth 12
  copy_volume-Frees d req cap vol (some unset_source) = search frees_rules

  create_locked-Frees :
      (d : Driver) (req : CreateVolumeRequest) (cap : VolumeCapability) (parameters : Map)
      (vol : SmbVolume)
      → Frees (create_locked E d req cap parameters vol)
  unfolding create_locked
  create_locked-Frees d req cap parameters vol = search (internal_rules, copy_volume-Frees) depth 12

  create_volume-Frees : (d : Driver) (req : CreateVolumeRequest) → Frees (create_volume E d req)
  unfolding create_volume
  create_volume-Frees d req = search (frees_rules, create_locked-Frees) depth 10

  archive_sub_dir-Frees : (d : Driver) (vol : SmbVolume) → Frees (archive_sub_dir E d vol)
  unfolding archive_sub_dir make_parent remove_stale
  archive_sub_dir-Frees d vol = search frees_rules depth 12

  open_up-Frees : (path : Str) (found : Result (Unit {0})) → Frees (open_up E path found)
  unfolding open_up
  open_up-Frees path (ok _) = search frees_rules
  open_up-Frees path (err e) = search frees_rules

  remove_sub_dir-Frees : (d : Driver) (vol : SmbVolume) → Frees (remove_sub_dir E d vol)
  unfolding remove_sub_dir
  remove_sub_dir-Frees d vol = search (frees_rules, open_up-Frees) depth 10

  delete_unless_cached-Frees :
      (d : Driver) (req : DeleteVolumeRequest) (vol : SmbVolume) (cache : Option Str)
      → Frees (delete_unless_cached E d req vol cache)
  unfolding delete_unless_cached remove_or_archive note_deleted
  delete_unless_cached-Frees d req vol (some _) = search frees_rules
  delete_unless_cached-Frees d req vol none =
      search (internal_rules, archive_sub_dir-Frees, remove_sub_dir-Frees) depth 12

  delete_parsed-Frees :
      (d : Driver) (req : DeleteVolumeRequest) (r : Result SmbVolume)
      → Frees (delete_parsed E d req r)
  unfolding delete_parsed delete_locked note_deleted
  delete_parsed-Frees d req (err e) = search frees_rules
  delete_parsed-Frees d req (ok vol) = search (frees_rules, delete_unless_cached-Frees) depth 10

  delete_volume-Frees : (d : Driver) (req : DeleteVolumeRequest) → Frees (delete_volume E d req)
  unfolding delete_volume
  delete_volume-Frees d req = search (frees_rules, delete_parsed-Frees)

  -- CreateVolume and DeleteVolume leave the lock set as they found it, whatever the calls outside
  -- return and on every error.
  pub controller_releases :
      (d : Driver) (create : CreateVolumeRequest) (delete : DeleteVolumeRequest) (s : State E.World)
      → ((create_volume E d create s).1.locks ≡ s.locks)
        × ((delete_volume E d delete s).1.locks ≡ s.locks)
  controller_releases d create delete s =
      ((create_volume-Frees d create).same s, (delete_volume-Frees d delete).same s)

  -- NodeStageVolume, NodeUnstageVolume, NodePublishVolume and NodeUnpublishVolume leave the lock
  -- set as they found it, whatever the calls outside return and on every error.
  pub node_releases :
      (d : Driver) (stage : NodeStageVolumeRequest) (unstage : NodeUnstageVolumeRequest)
      (publish : NodePublishVolumeRequest) (unpublish : NodeUnpublishVolumeRequest)
      (s : State E.World)
      → ((node_stage_volume E d stage s).1.locks ≡ s.locks)
        × ((node_unstage_volume E d unstage s).1.locks ≡ s.locks)
        × ((node_publish_volume E d publish s).1.locks ≡ s.locks)
        × ((node_unpublish_volume E d unpublish s).1.locks ≡ s.locks)
  node_releases d stage unstage publish unpublish s = (
    (node_stage_volume-Frees E d stage).same s,
    (node_unstage_volume-Frees E d unstage).same s,
    (node_publish_volume-Frees E d publish).same s,
    (node_unpublish_volume-Frees E d unpublish).same s,
  )
