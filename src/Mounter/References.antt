-- ===== src/Mounter/References.antt =====
-- pkg/mounter/refcounter_windows.go: a reference to a share is a file in the directory of its root.
-- `filepath.Join` of Windows, the hash of crypto/md5 in hexadecimal, and the file system are given.
pub mod Counted
pub mod History
use csi_driver_smb_hardend.Base.{ℕ, suc, List, [], ◌∷◌, Str, codes}
use csi_driver_smb_hardend.Errors.{Result, ok, err}
use csi_driver_smb_hardend.Numbers.{ℤ, pos, negsuc}
use csi_driver_smb_hardend.Strings.{to_lower, trim_prefix, trim_suffix}
use csi_driver_smb_hardend.Action.{Call, Action, call, attempt, pure, ◌>>=◌, ◌>>◌, deferred}

pub record Files : Type 1 where
  pub World : Type 0
  pub join : Str → Str → Str
  pub md5_hex : Str → Str
  pub mkdir_all : Str → Call World (Unit {0})
  -- `os.Create(path)`, `file.WriteString(text)` and `file.Close()`, by the path of the file.
  pub create : Str → Call World (Unit {0})
  pub write_string : Str → Str → Call World (Unit {0})
  pub close : Str → Call World (Unit {0})
  pub remove : Str → Call World (Unit {0})
  pub read_dir : Str → Call World (List Str)

abbrev pub base_path : Str
base_path = codes "c:\\csi\\smbmounts"

module _ (F : Files) where
  -- `getMd5`
  unfoldable pub get_md5 : Str → Str
  unfolding to_lower
  get_md5 path = F.md5_hex (to_lower path)

  -- `filepath.Join(basePath, strings.TrimPrefix(mappingPath, "\\\\"))`
  unfoldable pub reference_dir : Str → Str
  unfolding trim_prefix
  reference_dir mapping_path = F.join base_path (trim_prefix mapping_path (codes "\\\\"))

  -- `incementVolumeIDReferencesCount`
  unfoldable pub increment_volume_id_references_count : Str → Str → Str → Action F.World (Unit {0})
  unfolding reference_dir get_md5 trim_suffix
  increment_volume_id_references_count mapping_path remote_path volume_id = do
    let path = reference_dir mapping_path
    call (F.mkdir_all path)
    let file_path = F.join path (get_md5 volume_id)
    call (F.create file_path)
    deferred (call (F.close file_path))
        (call (F.write_string file_path (trim_suffix remote_path (codes "\\"))))

  -- `decrementVolumeIDReferencesCount`
  unfoldable pub decrement_volume_id_references_count : Str → Str → Action F.World (Unit {0})
  unfolding reference_dir get_md5
  decrement_volume_id_references_count mapping_path volume_id = do
    let path = reference_dir mapping_path
    call (F.mkdir_all path)
    call (F.remove (F.join path (get_md5 volume_id)))

  -- The number of files.
  unfoldable pub count_of : List Str → ℕ
  count_of [] = 0
  count_of (file ∷ files) = suc (count_of files)

  unfoldable pub files_or_error : Result (List Str) → ℤ
  unfolding count_of
  files_or_error (ok files) = pos (count_of files)
  files_or_error (err e) = negsuc 0

  -- `getVolumeIDReferencesCount`: -1 on an error.
  unfoldable pub get_volume_id_references_count : Str → Action F.World ℤ
  unfolding reference_dir files_or_error
  get_volume_id_references_count mapping_path = do
    let path = reference_dir mapping_path
    files ← attempt (call (F.mkdir_all path) >>= λ _. call (F.read_dir path))
    pure (files_or_error files)
