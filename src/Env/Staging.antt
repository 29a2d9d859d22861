-- ===== src/Env/Staging.antt =====
-- The calls that mounting and unmounting a share may make.
use csi_driver_smb_hardend.Base.{ℕ, List, Str}
use csi_driver_smb_hardend.Numbers.{ℤ}
use csi_driver_smb_hardend.Action.Keeps.{Safe}
use csi_driver_smb_hardend.Env.{Env}

-- Each of these calls keeps `P`. `RemoveAll`, `Rename`, the recursive `Chmod` and `cp` are not among
-- them, nor are the bind mount of a publication and the writes to the caches.
pub record Staging (E : Env) (P : E.World → Type 0) : Type 0 where
  pub mkdir_all : (path : Str) (perm : ℕ) → Safe P (E.mkdir_all path perm)
  pub remove : (path : Str) → Safe P (E.remove path)
  pub stat : (path : Str) → Safe P (E.stat path)
  pub lstat : (path : Str) → Safe P (E.lstat path)
  pub readlink : (path : Str) → Safe P (E.readlink path)
  pub symlink : (target link : Str) → Safe P (E.symlink target link)
  pub write_file :
      (path : Str) (content : List ℕ) (perm : ℕ) → Safe P (E.write_file path content perm)
  pub chown : (path : Str) (uid : ℤ) → Safe P (E.chown path uid)
  pub read_dir : (path : Str) → Safe P (E.read_dir path)
  pub open_dir : (path : Str) → Safe P (E.open_dir path)
  pub read_first : (path : Str) → Safe P (E.read_first path)
  pub create_temp : (dir pattern : Str) → Safe P (E.create_temp dir pattern)
  pub append_to : (path text : Str) → Safe P (E.append_to path text)
  pub abs_path : (path : Str) → Safe P (E.abs_path path)
  pub is_likely_not_mount_point : (path : Str) → Safe P (E.is_likely_not_mount_point path)
  pub mount_list : Safe P E.mount_list
  pub mount_sensitive :
      (source target fs_type : Str) (options sensitive : List Str)
      → Safe P (E.mount_sensitive source target fs_type options sensitive)
  pub unmount : (path : Str) → Safe P (E.unmount path)
  pub cleanup_mount_point : (path : Str) → Safe P (E.cleanup_mount_point path)
  pub path_exists : (path : Str) → Safe P (E.path_exists path)
  pub proxy_smb_mount :
      (source target fs_type : Str) (options sensitive : List Str) (volume_id : Str)
      → Safe P (E.proxy_smb_mount source target fs_type options sensitive volume_id)
  pub proxy_smb_unmount : (target volume_id : Str) → Safe P (E.proxy_smb_unmount target volume_id)
  pub proxy_rmdir : (path : Str) → Safe P (E.proxy_rmdir path)
  pub proxy_exists_path : (path : Str) → Safe P (E.proxy_exists_path path)
  pub timer_fires : Safe P E.timer_fires
  pub get_secret : (namespace name : Str) → Safe P (E.get_secret namespace name)

-- The same as lemmas, for rule sets.
module _ (E : Env) (P : E.World → Type 0) (allowed : Staging E P) where
  pub mkdir_all-Safe : (path : Str) (perm : ℕ) → Safe P (E.mkdir_all path perm)
  mkdir_all-Safe = allowed.mkdir_all

  pub remove-Safe : (path : Str) → Safe P (E.remove path)
  remove-Safe = allowed.remove

  pub stat-Safe : (path : Str) → Safe P (E.stat path)
  stat-Safe = allowed.stat

  pub lstat-Safe : (path : Str) → Safe P (E.lstat path)
  lstat-Safe = allowed.lstat

  pub readlink-Safe : (path : Str) → Safe P (E.readlink path)
  readlink-Safe = allowed.readlink

  pub symlink-Safe : (target link : Str) → Safe P (E.symlink target link)
  symlink-Safe = allowed.symlink

  pub write_file-Safe :
      (path : Str) (content : List ℕ) (perm : ℕ) → Safe P (E.write_file path content perm)
  write_file-Safe = allowed.write_file

  pub chown-Safe : (path : Str) (uid : ℤ) → Safe P (E.chown path uid)
  chown-Safe = allowed.chown

  pub read_dir-Safe : (path : Str) → Safe P (E.read_dir path)
  read_dir-Safe = allowed.read_dir

  pub open_dir-Safe : (path : Str) → Safe P (E.open_dir path)
  open_dir-Safe = allowed.open_dir

  pub read_first-Safe : (path : Str) → Safe P (E.read_first path)
  read_first-Safe = allowed.read_first

  pub create_temp-Safe : (dir pattern : Str) → Safe P (E.create_temp dir pattern)
  create_temp-Safe = allowed.create_temp

  pub append_to-Safe : (path text : Str) → Safe P (E.append_to path text)
  append_to-Safe = allowed.append_to

  pub abs_path-Safe : (path : Str) → Safe P (E.abs_path path)
  abs_path-Safe = allowed.abs_path

  pub is_likely_not_mount_point-Safe : (path : Str) → Safe P (E.is_likely_not_mount_point path)
  is_likely_not_mount_point-Safe = allowed.is_likely_not_mount_point

  pub mount_list-Safe : Safe P E.mount_list
  mount_list-Safe = allowed.mount_list

  pub mount_sensitive-Safe :
      (source target fs_type : Str) (options sensitive : List Str)
      → Safe P (E.mount_sensitive source target fs_type options sensitive)
  mount_sensitive-Safe = allowed.mount_sensitive

  pub unmount-Safe : (path : Str) → Safe P (E.unmount path)
  unmount-Safe = allowed.unmount

  pub cleanup_mount_point-Safe : (path : Str) → Safe P (E.cleanup_mount_point path)
  cleanup_mount_point-Safe = allowed.cleanup_mount_point

  pub path_exists-Safe : (path : Str) → Safe P (E.path_exists path)
  path_exists-Safe = allowed.path_exists

  pub proxy_smb_mount-Safe :
      (source target fs_type : Str) (options sensitive : List Str) (volume_id : Str)
      → Safe P (E.proxy_smb_mount source target fs_type options sensitive volume_id)
  proxy_smb_mount-Safe = allowed.proxy_smb_mount

  pub proxy_smb_unmount-Safe :
      (target volume_id : Str) → Safe P (E.proxy_smb_unmount target volume_id)
  proxy_smb_unmount-Safe = allowed.proxy_smb_unmount

  pub proxy_rmdir-Safe : (path : Str) → Safe P (E.proxy_rmdir path)
  proxy_rmdir-Safe = allowed.proxy_rmdir

  pub proxy_exists_path-Safe : (path : Str) → Safe P (E.proxy_exists_path path)
  proxy_exists_path-Safe = allowed.proxy_exists_path

  pub timer_fires-Safe : Safe P E.timer_fires
  timer_fires-Safe = allowed.timer_fires

  pub get_secret-Safe : (namespace name : Str) → Safe P (E.get_secret namespace name)
  get_secret-Safe = allowed.get_secret

  pub ruleset staging_rules = (
    mkdir_all-Safe, remove-Safe, stat-Safe, lstat-Safe, readlink-Safe, symlink-Safe,
    write_file-Safe, chown-Safe, read_dir-Safe, open_dir-Safe, read_first-Safe, create_temp-Safe,
    append_to-Safe, abs_path-Safe, is_likely_not_mount_point-Safe, mount_list-Safe,
    mount_sensitive-Safe, unmount-Safe, cleanup_mount_point-Safe, path_exists-Safe,
    proxy_smb_mount-Safe, proxy_smb_unmount-Safe, proxy_rmdir-Safe, proxy_exists_path-Safe,
    timer_fires-Safe, get_secret-Safe,
  )
