-- ===== src/Filesystem/Calls.antt =====
-- The operations of pkg/os/filesystem/filesystem.go on the host.
use csi_driver_smb_hardend.Base.{
  Bool, true, false, List, [], ◌∷◌, ◌++◌, Str, String, codes, Option, none, some, if◌then◌else◌,
}
use csi_driver_smb_hardend.Errors.{Error, plain, is_not_exist, Result, ok, err}
use csi_driver_smb_hardend.Strings.{has_prefix, to_lower}
use csi_driver_smb_hardend.Action.{
  Action, pure, fail, lift, call, ask, attempt, or_plain, ◌>>=◌, ◌>>◌,
}
use csi_driver_smb_hardend.Host.{Host}
use csi_driver_smb_hardend.Filesystem.{validate_path_windows}

module _ (H : Host) where
  abbrev World : Type 0
  World = H.files.World

  -- `RunPowershellCmd`, which waits while three commands run.
  unfoldable pub run_powershell_cmd : String → List Str → Action World (Str × Option Error)
  run_powershell_cmd command envs = ask (H.powershell command envs)

  unfoldable pub exists_result : Result Bool → Result Bool
  unfolding is_not_exist
  exists_result (ok _) = ok true
  exists_result (err e) = if is_not_exist e then ok false else err e

  -- `pathExists`
  unfoldable pub lstat_exists : Str → Action World Bool
  unfolding exists_result
  lstat_exists path = do found ← attempt (call (H.lstat path)); lift (exists_result found)

  -- `PathExists`
  unfoldable pub path_exists : Str → Action World Bool
  path_exists path = do lift (validate_path_windows path); lstat_exists path

  unfoldable pub valid_output : Str × Option Error → Action World Bool
  unfolding has_prefix to_lower
  valid_output (output, some e) = fail (plain "returned output: %s, error: %v")
  valid_output (output, none) = pure (has_prefix (to_lower output) (codes "true"))

  -- `PathValid`
  unfoldable pub path_valid : Str → Action World Bool
  unfolding run_powershell_cmd valid_output
  path_valid path =
      run_powershell_cmd "Test-Path $Env:remotepath" ((codes "remotepath=" ++ path) ∷ [])
      >>= valid_output

  -- `Rmdir`
  unfoldable pub rmdir : Str → Bool → Action World (Unit {0})
  rmdir path force = do
    lift (validate_path_windows path)
    if force then call (H.remove_all path) else call (H.files.remove path)

  -- `IsSymlink`, and `IsMountPoint`: a link whose target exists.
  unfoldable pub is_symlink : Str → Action World Bool
  unfolding lstat_exists
  is_symlink tgt = do
    link ← call (H.lstat tgt)
    if link
        then (do
          target ← or_plain "readlink error: %v" (call (H.readlink tgt))
          lstat_exists target)
        else pure false
