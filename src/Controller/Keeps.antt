-- ===== src/Controller/Keeps.antt =====
-- Which calls `CreateVolume` and `DeleteVolume` make outside the driver.
use csi_driver_smb_hardend.Base.{◌≡◌, true, false, Str, [], Option, none, some}
use csi_driver_smb_hardend.Errors.{internal, Result, ok, err}
use csi_driver_smb_hardend.Constants.{archive}
use csi_driver_smb_hardend.Strings.{equal_fold}
use csi_driver_smb_hardend.Maps.{Map}
use csi_driver_smb_hardend.Volume.{
  SmbVolume, get_smb_vol_from_id, new_smb_volume, get_internal_volume_path,
}
use csi_driver_smb_hardend.Csi.{
  VolumeCapability, VolumeContentSource, snapshot_source, volume_source, unset_source,
  CreateVolumeRequest, DeleteVolumeRequest, entries,
}
use csi_driver_smb_hardend.Env.{Env, Driver}
use csi_driver_smb_hardend.Env.Staging.{Staging, staging_rules}
use csi_driver_smb_hardend.Action.Keeps.{Safe, Keeps, Keeps-bind, Keeps-bind-or_code, keeps_rules}
use csi_driver_smb_hardend.Action.{call, attempt, or_status, ◌>>=◌}
use csi_driver_smb_hardend.Node.Keeps.{node_stage_volume-Keeps, node_unstage_volume-Keeps}
use csi_driver_smb_hardend.Controller.{internal_mount, internal_unmount}
use csi_driver_smb_hardend.Controller.Create.{copy_volume, create_locked, create_volume}
use csi_driver_smb_hardend.Controller.Delete.{
  with_policy, archived_path, make_parent, remove_stale, archive_sub_dir, open_up, remove_sub_dir,
  remove_or_archive, note_deleted, delete_unless_cached, delete_locked, delete_parsed,
  delete_volume,
}

-- The calls that deleting the volume may make besides those of mounting: the removal, behind the
-- opening of the access bits, of the volume's own path alone, and only if the action is not to
-- archive; if it is, the renaming of that path to the archived path, behind the removal of the
-- archived path where the driver is told to remove it.
pub record DeletionCalls (E : Env) (P : E.World → Type 0) (d : Driver) (req : DeleteVolumeRequest)
    (vol : SmbVolume) : Type 0 where
  pub look_up : Safe P (E.deletion_cache_get req.volume_id)
  pub note : Safe P (λ w. (tt {0}, E.deletion_cache_set req.volume_id [] w))
  pub chmod :
      equal_fold vol.on_delete archive ≡ false
      → Safe P (E.walk_chmod (get_internal_volume_path d.working_mount_dir vol) 0o777)
  pub removal :
      equal_fold vol.on_delete archive ≡ false
      → Safe P (E.remove_all (get_internal_volume_path d.working_mount_dir vol))
  pub renaming :
      equal_fold vol.on_delete archive ≡ true
      → Safe P (
          E.rename
            (get_internal_volume_path d.working_mount_dir vol)
            (archived_path d.working_mount_dir vol))
  pub stale :
      equal_fold vol.on_delete archive ≡ true
      → d.remove_archived_volume_path ≡ true
      → Safe P (E.remove_all (archived_path d.working_mount_dir vol))

module _ (E : Env) (P : E.World → Type 0) (allowed : Staging E P) where
  internal_mount-Keeps :
      (d : Driver) (vol : SmbVolume) (cap : Option VolumeCapability) (secrets : Map)
      → Keeps P (internal_mount E d vol cap secrets)
  unfolding internal_mount
  internal_mount-Keeps d vol cap secrets = search (node_stage_volume-Keeps E P allowed)

  internal_unmount-Keeps : (d : Driver) (vol : SmbVolume) → Keeps P (internal_unmount E d vol)
  unfolding internal_unmount
  internal_unmount-Keeps d vol = search (node_unstage_volume-Keeps E P allowed)

  ruleset internal_rules =
      (keeps_rules, staging_rules, internal_mount-Keeps, internal_unmount-Keeps)

  module _ (d : Driver) (req : DeleteVolumeRequest) (vol : SmbVolume)
      (calls : DeletionCalls E P d req vol) where
    make_parent-Keeps : (path : Str) → Keeps P (make_parent E vol path)
    unfolding make_parent
    make_parent-Keeps path = search (keeps_rules, staging_rules)

    remove_stale-Keeps :
        equal_fold vol.on_delete archive ≡ true
        → Keeps P (remove_stale E d (archived_path d.working_mount_dir vol))
    unfolding remove_stale
    remove_stale-Keeps e = search (keeps_rules, calls.stale e)

    archive_sub_dir-Keeps :
        equal_fold vol.on_delete archive ≡ true → Keeps P (archive_sub_dir E d vol)
    unfolding archive_sub_dir
    archive_sub_dir-Keeps e =
        let path : Str = archived_path d.working_mount_dir vol in
        Keeps-bind (make_parent E vol path) _ (make_parent-Keeps path) (λ _.
          Keeps-bind (remove_stale E d path) _ (remove_stale-Keeps e)
            (λ _. search (keeps_rules, calls.renaming e)))

    open_up-Keeps :
        equal_fold vol.on_delete archive ≡ false
        → (found : Result (Unit {0}))
        → Keeps P (open_up E (get_internal_volume_path d.working_mount_dir vol) found)
    unfolding open_up
    open_up-Keeps e (ok _) = search (keeps_rules, calls.chmod e)
    open_up-Keeps e (err _) = search keeps_rules

    remove_sub_dir-Keeps :
        equal_fold vol.on_delete archive ≡ false → Keeps P (remove_sub_dir E d vol)
    unfolding remove_sub_dir
    remove_sub_dir-Keeps e =
        let path : Str = get_internal_volume_path d.working_mount_dir vol in
        Keeps-bind (attempt (call (E.lstat path)))
          (λ found. open_up E path found >>= λ _.
            or_status internal "failed to delete subdirectory: %v" (call (E.remove_all path)))
          (search (keeps_rules, staging_rules))
          (λ found.
            Keeps-bind (open_up E path found) _ (open_up-Keeps e found)
              (λ _. search (keeps_rules, calls.removal e)))

    delete_unless_cached-Keeps :
        (cache : Option Str) → Keeps P (delete_unless_cached E d req vol cache)
    unfolding delete_unless_cached remove_or_archive note_deleted
    delete_unless_cached-Keeps (some _) = search keeps_rules
    delete_unless_cached-Keeps none =
        search (internal_rules, archive_sub_dir-Keeps, remove_sub_dir-Keeps, calls.note) depth 12

    delete_locked-Keeps : Keeps P (delete_locked E d req vol)
    unfolding delete_locked note_deleted
    delete_locked-Keeps =
        search (keeps_rules, delete_unless_cached-Keeps, calls.note, calls.look_up) depth 10

  -- An invariant of the world that the calls of mounting and unmounting keep, and that the calls
  -- which DeletionCalls lists for the volume of the id keep, is kept by DeleteVolume of an id that
  -- can be read.
  pub delete_volume-Keeps :
      (d : Driver) (req : DeleteVolumeRequest) (vol : SmbVolume)
      → get_smb_vol_from_id req.volume_id ≡ ok vol
      → DeletionCalls E P d req (with_policy d vol)
      → Keeps P (delete_volume E d req)
  unfolding delete_volume delete_parsed
  delete_volume-Keeps d req vol e calls =
      rw e (search (keeps_rules, delete_locked-Keeps d req (with_policy d vol) calls) depth 8)

  module _ (d : Driver) (req : CreateVolumeRequest) (vol : SmbVolume)
      (copies : (source : Str)
        → Safe P (E.copy source (get_internal_volume_path d.working_mount_dir vol))) where
    copy_volume-Keeps :
        (cap : VolumeCapability) (source : Option VolumeContentSource)
        → Keeps P (copy_volume E d req cap vol source)
    unfolding copy_volume
    copy_volume-Keeps cap none = search keeps_rules
    copy_volume-Keeps cap (some snapshot_source) = search keeps_rules
    copy_volume-Keeps cap (some (volume_source id)) = search (internal_rules, copies) depth 14
    copy_volume-Keeps cap (some unset_source) = search keeps_rules

    create_locked-Keeps :
        (cap : VolumeCapability) (parameters : Map)
        → Keeps P (create_locked E d req cap parameters vol)
    unfolding create_locked
    create_locked-Keeps cap parameters = search (internal_rules, copy_volume-Keeps) depth 12

  -- An invariant of the world that the calls of mounting and unmounting keep, and that every copy
  -- to the path of the volume which the request describes keeps, is kept by CreateVolume of a
  -- request that describes a volume.
  pub create_volume-Keeps :
      (d : Driver) (req : CreateVolumeRequest) (vol : SmbVolume)
      → new_smb_volume E.visit req.name req.required_bytes
          (entries req.parameters)
          d.default_on_delete_policy
        ≡ ok vol
      → ((source : Str) → Safe P (E.copy source (get_internal_volume_path d.working_mount_dir vol)))
      → Keeps P (create_volume E d req)
  create_volume-Keeps d req vol e copies =
      unfold create_volume in
      rw e (search (keeps_rules, Keeps-bind-or_code, create_locked-Keeps d req vol copies) depth 10)
