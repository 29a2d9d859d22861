-- ===== src/Mounter/Proxy.antt =====
-- pkg/mounter/safe_mounter_windows.go: the mounter over csi-proxy v1, which removes the mapping of a
-- share with the last volume of the share. The lock of the mapping path makes the part of a mount
-- behind it, and that of an unmount, one step each.
pub mod Keeps
pub mod Methods
pub mod Mapped
pub mod Sessions
use csi_driver_smb_hardend.Base.{
  zero, suc, Bool, true, false, ◌&&◌, List, [], ◌∷◌, Str, codes, Option, none, some, if◌then◌else◌,
}
use csi_driver_smb_hardend.Errors.{Error, plain, Result, ok, err}
use csi_driver_smb_hardend.Numbers.{ℤ, pos, negsuc}
use csi_driver_smb_hardend.Strings.{trim_suffix}
use csi_driver_smb_hardend.Action.{Action, pure, fail, lift, call, attempt, or_plain, ◌>>=◌, ◌>>◌}
use csi_driver_smb_hardend.Mounter.{get_root_mapping_path}
use csi_driver_smb_hardend.Mounter.References.{
  increment_volume_id_references_count, decrement_volume_id_references_count,
  get_volume_id_references_count,
}
use csi_driver_smb_hardend.Mounter.Windows.{
  with_backslashes, normalize_windows_path, is_split, first_field, first_options, make_parent,
  resolve_source, is_likely_not_mount_point,
}
use csi_driver_smb_hardend.Host.{Host}

module _ (H : Host) where
  abbrev World : Type 0
  World = H.files.World

  -- `ExistsPath`, `MakeDir`, `Rmdir` and `Mount`, with paths of Windows.
  unfoldable pub exists_path : Str → Action World Bool
  exists_path path = call (H.proxy.path_exists (normalize_windows_path path))

  unfoldable pub make_dir : Str → Action World (Unit {0})
  make_dir path = call (H.proxy.mkdir (normalize_windows_path path))

  unfoldable pub rmdir : Str → Action World (Unit {0})
  rmdir path = call (H.proxy.rmdir (normalize_windows_path path))

  unfoldable pub mount : Str → Str → Action World (Unit {0})
  mount source target =
      call (H.proxy.link (normalize_windows_path source) (normalize_windows_path target))

  -- `IsLikelyNotMountPoint`
  unfoldable pub is_likely_not : Str → Action World (Bool × Option Error)
  unfolding is_likely_not_mount_point
  is_likely_not path =
      is_likely_not_mount_point H (exists_path path)
        (call (H.proxy.is_link (normalize_windows_path path)))

  -- The root of the remote path, empty where it has none and no mapping is removed.
  unfoldable pub mapping_of : Bool → Result Str → Result Str
  mapping_of removes (ok mapping_path) = ok mapping_path
  mapping_of removes (err e) =
      if removes then err (plain "getRootMappingPath(%s) failed with error: %v") else ok []

  -- What `SMBMount` does under the lock of the mapping path.
  unfoldable pub map_share : Bool → Str → Str → Str → Str × Str → Str → Action World (Unit {0})
  map_share removes mapping_path source target (username, password) volume_id = do
    or_plain "NewSmbGlobalMapping(%s, %s) failed with error: %v" (
        call
          (H.proxy.new_smb_global_mapping (normalize_windows_path target) source username password))
    if removes
        then or_plain "incementRemotePathReferencesCount(%s, %s, %s) failed with error: %v"
            (increment_volume_id_references_count H.files mapping_path source volume_id)
        else pure tt

  -- `SMBMount`, with the field `RemoveSMBMappingDuringUnmount` in front.
  unfoldable pub smb_mount : Bool → Str → Str → List Str → List Str → Str → Action World (Unit {0})
  unfolding map_share mapping_of
  smb_mount removes source target mount_options sensitive_mount_options volume_id = do
    user ← lift (first_options mount_options sensitive_mount_options)
    make_parent H exists_path make_dir target
    resolved ← resolve_source H source (first_field is_split source)
    let remote = trim_suffix (with_backslashes resolved) (codes "\\")
    mapping_path ← lift (mapping_of removes (get_root_mapping_path remote))
    map_share removes mapping_path remote target user volume_id

  -- The mapping is removed where no reference is left.
  unfoldable pub remove_unused : Str → ℤ → Action World (Unit {0})
  remove_unused remote_path (pos zero) =
      or_plain "RemoveSmbGlobalMapping failed with error: %v"
        (call (H.proxy.remove_smb_global_mapping remote_path))
  remove_unused remote_path (pos (suc n)) = pure tt
  remove_unused remote_path (negsuc n) = pure tt

  -- What `SMBUnmount` does under the lock of the mapping path.
  unfoldable pub drop_reference : Str → Str → Str → Action World (Unit {0})
  unfolding remove_unused
  drop_reference remote_path mapping_path volume_id = do
    or_plain "decrementRemotePathReferencesCount(%s, %s) failed with error: %v"
        (decrement_volume_id_references_count H.files mapping_path volume_id)
    count ← get_volume_id_references_count H.files mapping_path
    remove_unused remote_path count

  -- The remote path is what the target links to; where it cannot be read, the mapping stays.
  unfoldable pub unmap_share : Bool → Str → Result Str → Action World (Unit {0})
  unfolding mapping_of drop_reference
  unmap_share removes volume_id (err e) = pure tt
  unmap_share removes volume_id (ok link) = do
    let remote_path = trim_suffix link (codes "\\")
    mapping_path ← lift (mapping_of removes (get_root_mapping_path remote_path))
    if removes then drop_reference remote_path mapping_path volume_id else pure tt

  -- `SMBUnmount`
  unfoldable pub smb_unmount : Bool → Str → Str → Action World (Unit {0})
  unfolding unmap_share rmdir
  smb_unmount removes target volume_id = do
    link ← attempt (call (H.readlink target))
    unmap_share removes volume_id link
    rmdir target
