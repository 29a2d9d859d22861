-- ===== src/Mounter/Beta.antt =====
-- pkg/mounter/safe_mounter_v1beta_windows.go: the mounter over csi-proxy v1beta1, which leaves the
-- mapping of a share in place.
pub mod Methods
use csi_driver_smb_hardend.Base.{Bool, List, Str, Option}
use csi_driver_smb_hardend.Errors.{Error}
use csi_driver_smb_hardend.Action.{Action, lift, call, or_plain, ◌>>=◌, ◌>>◌}
use csi_driver_smb_hardend.Mounter.Windows.{
  with_backslashes, normalize_windows_path, is_split, first_field, first_options, make_parent,
  resolve_source, is_likely_not_mount_point,
}
use csi_driver_smb_hardend.Host.{Host}

module _ (H : Host) where
  abbrev World : Type 0
  World = H.files.World

  unfoldable pub exists_path : Str → Action World Bool
  exists_path path = call (H.proxy_beta.path_exists (normalize_windows_path path))

  unfoldable pub make_dir : Str → Action World (Unit {0})
  make_dir path = call (H.proxy_beta.mkdir (normalize_windows_path path))

  unfoldable pub rmdir : Str → Action World (Unit {0})
  rmdir path = call (H.proxy_beta.rmdir (normalize_windows_path path))

  unfoldable pub mount : Str → Str → Action World (Unit {0})
  mount source target =
      call (H.proxy_beta.link (normalize_windows_path source) (normalize_windows_path target))

  unfoldable pub is_likely_not : Str → Action World (Bool × Option Error)
  unfolding is_likely_not_mount_point
  is_likely_not path =
      is_likely_not_mount_point H (exists_path path)
        (call (H.proxy_beta.is_link (normalize_windows_path path)))

  unfoldable pub map_share : Str → Str → Str × Str → Action World (Unit {0})
  map_share source target (username, password) = or_plain "smb mapping failed with error: %v" (
      call (
        H.proxy_beta.new_smb_global_mapping (normalize_windows_path target) source username
          password))

  -- `SMBMount`
  unfoldable pub smb_mount : Str → Str → List Str → List Str → Str → Action World (Unit {0})
  unfolding map_share
  smb_mount source target mount_options sensitive_mount_options volume_id = do
    user ← lift (first_options mount_options sensitive_mount_options)
    make_parent H exists_path make_dir target
    resolved ← resolve_source H source (first_field is_split source)
    map_share (with_backslashes resolved) target user

  -- `SMBUnmount`
  unfoldable pub smb_unmount : Str → Str → Action World (Unit {0})
  smb_unmount target volume_id = rmdir target
