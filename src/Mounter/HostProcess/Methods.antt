-- ===== src/Mounter/HostProcess/Methods.antt =====
-- pkg/mounter/safe_mounter_host_process_windows.go: the methods that are not implemented or follow
-- from others.
use csi_driver_smb_hardend.Base.{Bool, List, [], Str, ℕ}
use csi_driver_smb_hardend.Errors.{plain}
use csi_driver_smb_hardend.Action.{Action, fail}
use csi_driver_smb_hardend.Mounter.Interface.{
  MountPoint, CsiProxyMounter, is_mount_point_match, can_safely_skip_mount_point_check,
  is_mount_point as negation_of,
}
use csi_driver_smb_hardend.Mounter.HostProcess.{
  smb_mount, smb_unmount, make_dir, rmdir, exists_path, mount, is_likely_not,
}
use csi_driver_smb_hardend.Host.{Host}

module _ (H : Host) where
  abbrev World : Type 0
  World = H.files.World

  -- `Unmount` is `Rmdir`.
  unfoldable pub unmount : Str → Action World (Unit {0})
  unmount target = rmdir H target

  -- `IsMountPoint`
  unfoldable pub is_mount_point : Str → Action World Bool
  unfolding negation_of
  is_mount_point file = negation_of (is_likely_not H file)

  -- What is not implemented.
  unfoldable pub list : Action World (List MountPoint)
  list = fail (plain "List not implemented for CSIProxyMounter")

  unfoldable pub eval_host_symlinks : Str → Action World Str
  eval_host_symlinks pathname = fail (plain "EvalHostSymlinks not implemented for winMounter")

  unfoldable pub get_mount_refs : Str → Action World (List Str)
  get_mount_refs pathname = fail (plain "GetMountRefs not implemented for winMounter")

  unfoldable pub get_fs_group : Str → Action World ℕ
  get_fs_group pathname = fail (plain "GetFSGroup not implemented for winMounter")

  unfoldable pub get_se_linux_support : Str → Action World Bool
  get_se_linux_support pathname = fail (plain "GetSELinuxSupport not implemented for winMounter")

  unfoldable pub get_mode : Str → Action World ℕ
  get_mode pathname = fail (plain "GetMode not implemented for winMounter")

  unfoldable pub mount_sensitive : Str → Str → List Str → Action World (Unit {0})
  mount_sensitive source target options =
      fail (plain "MountSensitive not implemented for winMounter")

  unfoldable pub mount_sensitive_without_systemd : Str → Str → List Str → Action World (Unit {0})
  mount_sensitive_without_systemd source target options =
      fail (plain "MountSensitiveWithoutSystemd not implemented for winMounter")

  -- `MountSensitiveWithoutSystemdWithMountFlags`
  unfoldable pub mount_sensitive_with_mount_flags : Str → Str → List Str → Action World (Unit {0})
  unfolding mount_sensitive
  mount_sensitive_with_mount_flags source target options = mount_sensitive source target options

  -- The mounter as a `CSIProxyMounter`.
  unfoldable pub as_mounter : CsiProxyMounter World
  unfolding list eval_host_symlinks get_mount_refs mount_sensitive mount_sensitive_without_systemd
      mount_sensitive_with_mount_flags unmount is_mount_point
  as_mounter = record {
    smb_mount = smb_mount H;
    smb_unmount = smb_unmount H;
    make_dir = make_dir H;
    rmdir = rmdir H;
    exists_path = exists_path H;
    is_mount_point_match = is_mount_point_match;
    get_api_versions = [];
    eval_host_symlinks = eval_host_symlinks;
    mount = mount H;
    unmount = unmount;
    list = list;
    is_likely_not_mount_point = is_likely_not H;
    is_mount_point = is_mount_point;
    can_safely_skip_mount_point_check = can_safely_skip_mount_point_check;
    get_mount_refs = get_mount_refs;
    mount_sensitive = mount_sensitive;
    mount_sensitive_without_systemd = mount_sensitive_without_systemd;
    mount_sensitive_with_mount_flags = mount_sensitive_with_mount_flags;
  }
