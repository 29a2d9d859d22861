-- ===== src/Controller/Delete.antt =====
-- `DeleteVolume`
pub mod Laws
use csi_driver_smb_hardend.Base.{
  ℕ, Bool, true, false, ◌||◌, ◌&&◌, not, List, [], ◌∷◌, ◌++◌, Option, none, some, Str, codes,
  is_empty, if◌then◌else◌,
}
use csi_driver_smb_hardend.Errors.{status, invalid_argument, internal, Result, ok, err}
use csi_driver_smb_hardend.Constants.{retain, archive}
use csi_driver_smb_hardend.Maps.{Map}
use csi_driver_smb_hardend.Strings.{equal_fold, has_substring}
use csi_driver_smb_hardend.Paths.{join_path, dir_of}
use csi_driver_smb_hardend.Options.{get_mount_options, append_mount_options, default_modes}
use csi_driver_smb_hardend.Volume.{
  SmbVolume, get_smb_vol_from_id, get_internal_mount_path, get_internal_volume_path,
}
use csi_driver_smb_hardend.Csi.{VolumeCapability, mount_access, DeleteVolumeRequest}
use csi_driver_smb_hardend.Action.{
  Action, pure, fail, call, ask, attempt, or_status, deferred, locked, ◌>>=◌, ◌>>◌,
}
use csi_driver_smb_hardend.Env.{Env, Driver}
use csi_driver_smb_hardend.Node.Stage.{operation_exists}
use csi_driver_smb_hardend.Controller.{internal_mount, internal_unmount}

-- The action of the id, or the driver's where the id gives none.
unfoldable pub with_policy : Driver → SmbVolume → SmbVolume
with_policy d vol =
    if is_empty vol.on_delete then record vol { on_delete = d.default_on_delete_policy } else vol

-- `archivedInternalVolumePath`
unfoldable pub archived_path : Str → SmbVolume → Str
unfolding join_path get_internal_mount_path
archived_path working_mount_dir vol =
    join_path (get_internal_mount_path working_mount_dir (some vol))
      (codes "archived-" ++ vol.sub_dir)

module _ (E : Env) where
  -- The capability with which the share is mounted.
  unfoldable pub deletion_capability : Map → VolumeCapability
  unfolding get_mount_options append_mount_options
  deletion_capability secrets = mount_access (record {
    mount_flags =
        append_mount_options (get_mount_options (E.visit secrets) ∷ []) (E.visit default_modes);
    volume_mount_group = [];
  })

  unfoldable pub make_parent : SmbVolume → Str → Action E.World (Unit {0})
  unfolding has_substring dir_of
  make_parent vol path =
      if has_substring vol.sub_dir (codes "/")
      then or_status internal "create parent directory(%s) of %s failed with %v"
          (call (E.mkdir_all (dir_of path) 0o777))
      else pure tt

  unfoldable pub remove_stale : Driver → Str → Action E.World (Unit {0})
  remove_stale d path =
      if d.remove_archived_volume_path
      then or_status internal "failed to delete archived subdirectory %s: %v"
          (call (E.remove_all path))
      else pure tt

  -- The subdirectory is renamed.
  unfoldable pub archive_sub_dir : Driver → SmbVolume → Action E.World (Unit {0})
  archive_sub_dir d vol = do
    let path = archived_path d.working_mount_dir vol
    make_parent vol path
    remove_stale d path
    or_status internal "archive subdirectory(%s, %s) failed with %v"
        (call (E.rename (get_internal_volume_path d.working_mount_dir vol) path))

  -- The access bits are opened before the removal; an error there is only logged.
  unfoldable pub open_up : Str → Result (Unit {0}) → Action E.World (Unit {0})
  open_up path (ok _) = attempt (call (E.walk_chmod path 0o777)) >>= λ _. pure tt
  open_up path (err e) = pure tt

  -- The subdirectory is removed.
  unfoldable pub remove_sub_dir : Driver → SmbVolume → Action E.World (Unit {0})
  remove_sub_dir d vol = do
    let path = get_internal_volume_path d.working_mount_dir vol
    found ← attempt (call (E.lstat path))
    open_up path found
    or_status internal "failed to delete subdirectory: %v" (call (E.remove_all path))

  unfoldable pub remove_or_archive : Driver → SmbVolume → Action E.World (Unit {0})
  remove_or_archive d vol =
      if equal_fold vol.on_delete archive then archive_sub_dir d vol else remove_sub_dir d vol

  -- `d.volDeletionCache.Set(volumeID, "")`
  unfoldable pub note_deleted : Str → Action E.World (Unit {0})
  note_deleted volume_id = ask (λ w. (tt {0}, E.deletion_cache_set volume_id [] w))

  -- A volume that is in the cache is deleted already.
  unfoldable pub delete_unless_cached :
      Driver → DeleteVolumeRequest → SmbVolume → Option Str → Action E.World (Unit {0})
  delete_unless_cached d req vol (some _) = pure tt
  delete_unless_cached d req vol none = do
    or_status internal "failed to mount smb server: %v"
        (internal_mount E d vol (some (deletion_capability req.secrets)) req.secrets)
    deferred (internal_unmount E d vol) (remove_or_archive d vol >> note_deleted req.volume_id)

  -- The subdirectory is kept without secrets and by the action "retain".
  unfoldable pub keeps_sub_dir : DeleteVolumeRequest → SmbVolume → Bool
  keeps_sub_dir req vol = is_empty req.secrets || equal_fold vol.on_delete retain

  -- What `DeleteVolume` does under the lock.
  unfoldable pub delete_locked :
      Driver → DeleteVolumeRequest → SmbVolume → Action E.World (Unit {0})
  unfolding keeps_sub_dir delete_unless_cached
  delete_locked d req vol = if keeps_sub_dir req vol then note_deleted req.volume_id else (do
    cache ← or_status internal "%v" (call (E.deletion_cache_get req.volume_id))
    delete_unless_cached d req vol cache)

  unfoldable pub delete_parsed :
      Driver → DeleteVolumeRequest → Result SmbVolume → Action E.World (Unit {0})
  unfolding with_policy
  delete_parsed d req (err e) = pure tt
  delete_parsed d req (ok vol) =
      locked req.volume_id operation_exists (delete_locked d req (with_policy d vol))

  -- `DeleteVolume`
  unfoldable pub delete_volume : Driver → DeleteVolumeRequest → Action E.World (Unit {0})
  unfolding delete_parsed get_smb_vol_from_id
  delete_volume d req =
      if is_empty req.volume_id
      then fail (status invalid_argument "volume id is empty")
      else delete_parsed d req (get_smb_vol_from_id req.volume_id)
