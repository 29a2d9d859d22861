-- ===== src/Node/MountPoint.antt =====
-- `ensureMountPoint`: whether a directory is mounted, and the unmount where the mount is broken.
pub mod Outcome
use csi_driver_smb_hardend.Base.{
  Bool, true, false, Option, none, some, Str, contains, if◌then◌else◌,
}
use csi_driver_smb_hardend.Errors.{Error, Result, ok, err, is_not_exist, is_exist}
use csi_driver_smb_hardend.Action.{Action, pure, fail, lift, call, ask, attempt, ◌>>=◌, ◌>>◌}
use csi_driver_smb_hardend.Env.{Env, Driver, FirstEntry, entry, end_of_file, failed}

module _ (E : Env) where
  -- `makeDir`: an error that says that the directory is there is none.
  unfoldable pub make_dir_result : Result (Unit {0}) → Result (Unit {0})
  unfolding is_exist
  make_dir_result (ok _) = ok tt
  make_dir_result (err e) = if is_exist e then ok tt else err e

  unfoldable pub make_dir : Str → Action E.World (Unit {0})
  unfolding make_dir_result
  make_dir path = do r ← attempt (call (E.mkdir_all path 0o755)); lift (make_dir_result r)

  -- `IsCorruptedDir`
  unfoldable pub corrupted : Result Bool → Bool
  corrupted (ok _) = false
  corrupted (err e) = E.is_corrupted_mnt e

  unfoldable pub is_corrupted_dir : Str → Action E.World Bool
  unfolding corrupted
  is_corrupted_dir dir = do r ← attempt (call (E.path_exists dir)); pure (corrupted r)

  -- The first answer for `notMnt`. An error that is not "does not exist" is returned, unless the
  -- mount is corrupted, which counts as mounted.
  unfoldable pub first_answer : Str → Bool × Option Error → Action E.World Bool
  unfolding is_corrupted_dir is_not_exist
  first_answer target (not_mnt, none) = pure not_mnt
  first_answer target (not_mnt, some e) =
      if is_not_exist e
      then pure not_mnt
      else (do corrupt ← is_corrupted_dir target; if corrupt then pure false else fail e)

  -- On Linux the list of mount points is searched too, for bind mounts.
  unfoldable pub second_answer : Driver → Str → Bool → Action E.World Bool
  second_answer d target not_mnt = if d.on_windows then pure not_mnt else (do
    mounts ← call E.mount_list
    target_abs ← call (E.abs_path target)
    pure (if contains target_abs mounts then false else not_mnt))

  -- `f.ReadDir(1)`: the end of an empty directory is no error.
  unfoldable pub readable : FirstEntry → Result (Unit {0})
  readable entry = ok tt
  readable end_of_file = ok tt
  readable (failed e) = err e

  -- The directory is opened, and its first entry is read.
  unfoldable pub probe : Str → Action E.World (Unit {0})
  unfolding readable
  probe target = do
    call (E.open_dir target)
    first ← ask (E.read_first target)
    lift (readable first)

  -- A mount that can be read is kept. One that cannot is unmounted, and the error of the reading, or
  -- that of the unmount, is returned.
  unfoldable pub check_link : Str → Result (Unit {0}) → Action E.World Bool
  check_link target (ok _) = pure true
  check_link target (err e) = do call (E.unmount target); fail e

  -- `ensureMountPoint`: true if the target is mounted already, and false if it is a directory on
  -- which nothing is mounted.
  unfoldable pub ensure_mount_point : Driver → Str → Action E.World Bool
  unfolding first_answer second_answer probe check_link make_dir
  ensure_mount_point d target = do
    answer ← ask (E.is_likely_not_mount_point target)
    likely ← first_answer target answer
    not_mnt ← second_answer d target likely
    if not_mnt
        then (make_dir target >> pure false)
        else (do link ← attempt (probe target); check_link target link)
