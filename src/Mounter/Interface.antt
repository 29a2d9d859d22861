-- ===== src/Mounter/Interface.antt =====
-- CSIProxyMounter of pkg/mounter/safe_mounter_windows.go with the methods of mount.Interface that it
-- extends, and what the three mounters of Windows answer alike.
use csi_driver_smb_hardend.Base.{Bool, false, not, List, Str, str_eq, Option, none, some}
use csi_driver_smb_hardend.Errors.{Error}
use csi_driver_smb_hardend.Action.{Action, pure, fail, ◌>>=◌}

-- `mount.MountPoint`, of which the mounters read the path.
pub record MountPoint : Type 0 where
  pub path : Str

-- `CSIProxyMounter`. `IsLikelyNotMountPoint` gives its answer with its error.
pub record CsiProxyMounter (W : Type 0) : Type 0 where
  pub smb_mount : Str → Str → List Str → List Str → Str → Action W (Unit {0})
  pub smb_unmount : Str → Str → Action W (Unit {0})
  pub make_dir : Str → Action W (Unit {0})
  pub rmdir : Str → Action W (Unit {0})
  pub exists_path : Str → Action W Bool
  pub is_mount_point_match : MountPoint → Str → Bool
  pub get_api_versions : Str
  pub eval_host_symlinks : Str → Action W Str
  pub mount : Str → Str → Action W (Unit {0})
  pub unmount : Str → Action W (Unit {0})
  pub list : Action W (List MountPoint)
  pub is_likely_not_mount_point : Str → Action W (Bool × Option Error)
  pub is_mount_point : Str → Action W Bool
  pub can_safely_skip_mount_point_check : Bool
  pub get_mount_refs : Str → Action W (List Str)
  pub mount_sensitive : Str → Str → List Str → Action W (Unit {0})
  pub mount_sensitive_without_systemd : Str → Str → List Str → Action W (Unit {0})
  pub mount_sensitive_with_mount_flags : Str → Str → List Str → Action W (Unit {0})

-- `IsMountPointMatch`
unfoldable pub is_mount_point_match : MountPoint → Str → Bool
is_mount_point_match mp dir = str_eq mp.path dir

-- `CanSafelySkipMountPointCheck`
abbrev pub can_safely_skip_mount_point_check : Bool
can_safely_skip_mount_point_check = false

-- What `IsMountPoint` makes of the answer of `IsLikelyNotMountPoint`.
unfoldable pub negated : {W : Type 0} → Bool × Option Error → Action W Bool
negated (is_not_mnt, some e) = fail e
negated (is_not_mnt, none) = pure (not is_not_mnt)

-- `IsMountPoint`
unfoldable pub is_mount_point : {W : Type 0} → Action W (Bool × Option Error) → Action W Bool
unfolding negated
is_mount_point is_likely_not = is_likely_not >>= negated
