-- ===== src/Mounter/HostProcess.antt =====
-- pkg/mounter/safe_mounter_host_process_windows.go: the mounter of a host process, over PowerShell.
pub mod Keeps
pub mod Methods
use csi_driver_smb_hardend.Base.{
  ℕ, Bool, true, false, List, [], ◌∷◌, Str, codes, is_empty, Option, none, some, if◌then◌else◌,
}
use csi_driver_smb_hardend.Errors.{Error, plain, Result, ok, err}
use csi_driver_smb_hardend.Action.{Action, pure, fail, lift, call, attempt, or_plain, ◌>>=◌, ◌>>◌}
use csi_driver_smb_hardend.Filesystem.{validate_path_windows}
use csi_driver_smb_hardend.Filesystem.Calls.{
  path_exists, path_valid, rmdir as remove_path, is_symlink,
}
use csi_driver_smb_hardend.SmbShare.{
  is_smb_mapped, new_smb_global_mapping, remove_smb_global_mapping, get_remote_server_from_target,
  check_for_duplicate_smb_mounts,
}
use csi_driver_smb_hardend.Mounter.Windows.{
  with_backslashes, normalize_windows_path, first_options, make_parent, is_likely_not_mount_point,
}
use csi_driver_smb_hardend.Host.{Host}

abbrev pub driver_global_mount_path : Str
driver_global_mount_path =
    codes "C:\\var\\lib\\kubelet\\plugins\\kubernetes.io\\csi\\file.csi.azure.com"

module _ (H : Host) where
  abbrev World : Type 0
  World = H.files.World

  unfoldable pub exists_path : Str → Action World Bool
  exists_path path = path_exists H (normalize_windows_path path)

  unfoldable pub make_dir : Str → Action World (Unit {0})
  make_dir path = call (H.files.mkdir_all (normalize_windows_path path))

  unfoldable pub rmdir : Str → Action World (Unit {0})
  rmdir path = remove_path H (normalize_windows_path path) true

  unfoldable pub mount : Str → Str → Action World (Unit {0})
  mount source target =
      call (H.symlink (normalize_windows_path source) (normalize_windows_path target))

  unfoldable pub is_likely_not : Str → Action World (Bool × Option Error)
  unfolding is_likely_not_mount_point
  is_likely_not path =
      is_likely_not_mount_point H (exists_path path) (is_symlink H (normalize_windows_path path))

  -- The error is ignored, with false for the answer.
  unfoldable pub or_false : Result Bool → Bool
  or_false (ok b) = b
  or_false (err e) = false

  -- A mapping whose path is not valid is removed: whether the path is mapped afterwards.
  unfoldable pub keep_valid : Str → Bool → Action World Bool
  unfolding or_false
  keep_valid remote_path false = pure false
  keep_valid remote_path true = do
    valid ← attempt (path_valid H remote_path)
    if or_false valid then pure true else (do remove_smb_global_mapping H remote_path; pure false)

  unfoldable pub map_remote : Str → Str × Str → Bool → Action World (Unit {0})
  map_remote remote_path user true = pure tt
  map_remote remote_path (username, password) false =
      new_smb_global_mapping H remote_path username password

  unfoldable pub link_local : Str → Str → Action World (Unit {0})
  link_local remote_path local_path = if is_empty local_path then pure tt else (do
    lift (validate_path_windows local_path)
    or_plain "os.Symlink(%s, %s) failed with %v" (call (H.symlink remote_path local_path)))

  -- `SMBMount`
  unfoldable pub smb_mount : Str → Str → List Str → List Str → Str → Action World (Unit {0})
  unfolding keep_valid map_remote link_local
  smb_mount source target mount_options sensitive_mount_options volume_id = do
    user ← lift (first_options mount_options sensitive_mount_options)
    make_parent H exists_path make_dir target
    let remote_path = with_backslashes source
    if is_empty remote_path then fail (plain "remote path is empty") else (do
      mapped ← attempt (is_smb_mapped H remote_path)
      still_mapped ← keep_valid remote_path (or_false mapped)
      map_remote remote_path user still_mapped
      link_local remote_path (normalize_windows_path target))

  -- The mapping is removed where no other mount of the server is found; errors are only logged.
  unfoldable pub remove_unless_duplicate : Str → Result Bool → Action World (Unit {0})
  remove_unless_duplicate remote_server (ok false) =
      attempt (remove_smb_global_mapping H remote_server) >>= λ _. pure tt
  remove_unless_duplicate remote_server (ok true) = pure tt
  remove_unless_duplicate remote_server (err e) = pure tt

  unfoldable pub unmap_share : Str → Result Str → Action World (Unit {0})
  unfolding remove_unless_duplicate
  unmap_share target (err e) = pure tt
  unmap_share target (ok remote_server) = do
    duplicate ←
        attempt (check_for_duplicate_smb_mounts H driver_global_mount_path target remote_server)
    remove_unless_duplicate remote_server duplicate

  -- `SMBUnmount`
  unfoldable pub smb_unmount : Str → Str → Action World (Unit {0})
  unfolding unmap_share
  smb_unmount target volume_id = do
    let local_path = normalize_windows_path target
    server ← attempt (get_remote_server_from_target H local_path)
    unmap_share local_path server
    rmdir local_path
