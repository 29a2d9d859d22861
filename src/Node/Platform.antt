-- ===== src/Node/Platform.antt =====
-- pkg/smb/smb_common_linux.go and pkg/smb/smb_common_windows.go: what the platforms do differently.
use csi_driver_smb_hardend.Base.{Bool, false, ◌&&◌, List, [], ◌∷◌, ◌++◌, Str, codes, if◌then◌else◌}
use csi_driver_smb_hardend.Errors.{Error, plain}
use csi_driver_smb_hardend.Strings.{has_prefix}
use csi_driver_smb_hardend.Action.{
  Action, pure, fail, lift, call, ask, attempt, deferred, ◌>>=◌, ◌>>◌,
}
use csi_driver_smb_hardend.Env.{Env, Driver}
use csi_driver_smb_hardend.Options.{contains_special_character}

-- `NeedsCredentialsOption`
unfoldable pub needs_credentials_option : List Str → Bool
unfolding has_prefix contains_special_character
needs_credentials_option (user ∷ option ∷ []) =
    has_prefix option (codes "password=") && contains_special_character option
needs_credentials_option _ = false

module _ (E : Env) where
  -- The loop that writes the options to the credentials file, a line for each.
  unfoldable pub write_lines : Str → List Str → Action E.World (Unit {0})
  write_lines file [] = pure tt
  write_lines file (option ∷ options) = do
    call (E.append_to file (option ++ (10 ∷ [])))
    write_lines file options

  -- `Mount` on Linux: credentials with special characters go through a file, which is removed when
  -- the mount has ended, whether it failed or not.
  unfoldable pub linux_mount : Str → Str → Str → List Str → List Str → Action E.World (Unit {0})
  unfolding write_lines
  linux_mount source target fs_type options sensitive =
      if needs_credentials_option sensitive
      then (do
        file ← call (E.create_temp (codes "/tmp/") (codes "*.smb.credentials"))
        deferred (call (E.remove file)) (do
          write_lines file sensitive
          call (
              E.mount_sensitive source target fs_type options
                ((codes "credentials=" ++ file) ∷ []))))
      else call (E.mount_sensitive source target fs_type options sensitive)

  -- `if proxy, ok := m.Interface.(mounter.CSIProxyMounter); ok { … }`
  unfoldable pub with_proxy : {A : Type 0} → Action E.World A → Action E.World A
  with_proxy m = if E.is_proxy then m else fail (plain "could not cast to csi proxy class")

  -- `Mount`
  unfoldable pub mount :
      Driver → Str → Str → Str → List Str → List Str → Str → Action E.World (Unit {0})
  unfolding linux_mount with_proxy
  mount d source target fs_type options sensitive volume_id =
      if d.on_windows
      then with_proxy (call (E.proxy_smb_mount source target fs_type options sensitive volume_id))
      else linux_mount source target fs_type options sensitive

  -- `CleanupSMBMountPoint`
  unfoldable pub cleanup_smb_mount_point : Driver → Str → Str → Action E.World (Unit {0})
  unfolding with_proxy
  cleanup_smb_mount_point d target volume_id =
      if d.on_windows
      then with_proxy (call (E.proxy_smb_unmount target volume_id))
      else call (E.cleanup_mount_point target)

  -- `CleanupMountPoint`
  unfoldable pub cleanup_mount_point : Driver → Str → Action E.World (Unit {0})
  unfolding with_proxy
  cleanup_mount_point d target =
      if d.on_windows
      then with_proxy (call (E.proxy_rmdir target))
      else call (E.cleanup_mount_point target)

  -- `removeDir`
  unfoldable pub remove_dir : Str → Action E.World (Unit {0})
  unfolding with_proxy
  remove_dir path = with_proxy (do
    exists ← call (E.proxy_exists_path path)
    if exists then call (E.proxy_rmdir path) else pure tt)

  -- `preparePublishPath` and `prepareStagePath`
  unfoldable pub prepare_path : Driver → Str → Action E.World (Unit {0})
  unfolding remove_dir
  prepare_path d path = if d.on_windows then remove_dir path else pure tt

  -- `WaitUntilTimeout`: the call runs to its end in any case, and its result is lost if the timer
  -- fires first.
  unfoldable pub wait_until_timeout : Action E.World (Unit {0}) → Error → Action E.World (Unit {0})
  wait_until_timeout exec timeout = do
    r ← attempt exec
    fired ← ask E.timer_fires
    if fired then fail timeout else lift r
