-- ===== src/Env.antt =====
-- What the driver calls and does not implement: the file system of package os, the mounter of
-- k8s.io/mount-utils, the mounter of a Windows node, the Kubernetes API and the timed caches. They
-- are the fields of a record over an unknown world, and every call may fail.
pub mod Staging
use csi_driver_smb_hardend.Base.{ℕ, Bool, true, false, List, Str, Option}
use csi_driver_smb_hardend.Errors.{Error, Result}
use csi_driver_smb_hardend.Maps.{Map}
use csi_driver_smb_hardend.Numbers.{ℤ}
use csi_driver_smb_hardend.Action.{Call}

-- What `f.ReadDir(1)` returns: an entry, `io.EOF`, or another error.
pub data FirstEntry : Type 0 where
  entry end_of_file : FirstEntry
  failed : Error → FirstEntry

-- The sizes of a `volume.Metrics`; `none` where `AsInt64` does not apply.
pub record Metrics : Type 0 where
  pub available : Option ℕ
  pub capacity : Option ℕ
  pub used : Option ℕ
  pub inodes_free : Option ℕ
  pub inodes : Option ℕ
  pub inodes_used : Option ℕ

-- `csi.VolumeUsage` with its unit, and `csi.NodeGetVolumeStatsResponse`.
pub data UsageUnit : Type 0 where
  bytes inode_count : UsageUnit

pub record VolumeUsage : Type 0 where
  pub unit : UsageUnit
  pub available : ℕ
  pub total : ℕ
  pub used : ℕ

pub record VolumeStats : Type 0 where
  pub usage : List VolumeUsage

pub record Env : Type 1 where
  pub World : Type 0
  -- The order in which a range over a map visits its keys.
  pub visit : Map → Map
  -- Package os, path/filepath and os/exec.
  pub mkdir_all : Str → ℕ → Call World (Unit {0})
  pub remove_all : Str → Call World (Unit {0})
  pub remove : Str → Call World (Unit {0})
  pub rename : Str → Str → Call World (Unit {0})
  pub stat : Str → Call World (Unit {0})
  pub lstat : Str → Call World (Unit {0})
  pub readlink : Str → Call World Str
  pub symlink : Str → Str → Call World (Unit {0})
  pub write_file : Str → List ℕ → ℕ → Call World (Unit {0})
  pub chown : Str → ℤ → Call World (Unit {0})
  -- The entries that were read, which there may be beside an error.
  pub read_dir : Str → World → (List Str × Option Error) × World
  pub open_dir : Str → Call World (Unit {0})
  pub read_first : Str → World → FirstEntry × World
  pub create_temp : Str → Str → Call World Str
  pub append_to : Str → Str → Call World (Unit {0})
  pub abs_path : Str → Call World Str
  -- `filepath.WalkDir(path, func … { return os.Chmod(path, 0777) })`
  pub walk_chmod : Str → ℕ → Call World (Unit {0})
  -- `exec.Command("cp", "-a", source, target)`
  pub copy : Str → Str → Call World (Unit {0})
  -- k8s.io/mount-utils and the volume metrics of k8s.io/kubernetes.
  pub is_likely_not_mount_point : Str → World → (Bool × Option Error) × World
  pub mount_list : Call World (List Str)
  pub bind_mount : Str → Str → List Str → Call World (Unit {0})
  pub mount_sensitive : Str → Str → Str → List Str → List Str → Call World (Unit {0})
  pub unmount : Str → Call World (Unit {0})
  pub cleanup_mount_point : Str → Call World (Unit {0})
  pub path_exists : Str → Call World Bool
  pub is_corrupted_mnt : Error → Bool
  pub get_metrics : Str → Call World Metrics
  -- Whether the mounter is a `mounter.CSIProxyMounter`, and the methods of one.
  pub is_proxy : Bool
  pub proxy_smb_mount : Str → Str → Str → List Str → List Str → Str → Call World (Unit {0})
  pub proxy_smb_unmount : Str → Str → Call World (Unit {0})
  pub proxy_rmdir : Str → Call World (Unit {0})
  pub proxy_exists_path : Str → Call World Bool
  -- Whether the timer of `WaitUntilTimeout` fires before the call that it waits for has ended.
  pub timer_fires : World → Bool × World
  -- The secrets of the Kubernetes API.
  pub get_secret : Str → Str → Call World Map
  -- The timed caches of deleted volumes and of volume statistics.
  pub deletion_cache_get : Str → Call World (Option Str)
  pub deletion_cache_set : Str → Str → World → World
  pub stats_cache_get : Str → Call World (Option VolumeStats)
  pub stats_cache_set : Str → VolumeStats → World → World

-- The fields of `Driver` that do not change after `NewDriver`; `on_windows` is `runtime.GOOS`.
pub record Driver : Type 0 where
  pub name : Str
  pub version : Str
  pub node_id : Str
  pub on_windows : Bool
  pub working_mount_dir : Str
  pub krb5_cache_directory : Str
  pub krb5_prefix : Str
  pub default_on_delete_policy : Str
  pub remove_archived_volume_path : Bool
  pub enable_get_volume_stats : Bool
  pub has_kube_client : Bool
