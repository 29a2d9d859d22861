-- ===== src/Startup.antt =====
-- cmd/smbplugin/main.go, NewDriver and Run of pkg/smb/smb.go, and pkg/smb/version.go: from the flags
-- of the command line to the server. What kills the process is an error here.
pub mod Config
pub mod Mounters
pub mod Server
pub mod Run
pub mod Laws
pub mod Main
use csi_driver_smb_hardend.Base.{
  ℕ, zero, suc, Bool, true, false, List, [], ◌∷◌, Str, codes, Option, none, some, is_empty,
  if◌then◌else◌,
}
use csi_driver_smb_hardend.Numbers.{ℤ, pos, negsuc}
use csi_driver_smb_hardend.Constants.{
  default_driver_name, default_krb5_cache_directory, default_krb5_ccname,
}
use csi_driver_smb_hardend.Action.{Call}

-- `rest.Config`, as far as it is filled in.
pub record RestConfig : Type 0 where
  pub host : Str
  pub ca_file : Str
  pub bearer_token : Str
  pub bearer_token_file : Str

-- `VersionInfo`
pub record VersionInfo : Type 0 where
  pub driver_name : Str
  pub driver_version : Str
  pub git_commit : Str
  pub build_date : Str
  pub go_version : Str
  pub compiler : Str
  pub platform : Str

-- The services that are registered with the gRPC server.
pub data Service : Type 0 where
  identity_service controller_service node_service : Service

-- What the start of the driver calls of Go, of Kubernetes, of csi-proxy and of gRPC, and what the
-- build and the platform give.
pub record Process : Type 1 where
  pub World : Type 0
  pub on_windows : Bool
  pub driver_version : Str
  pub git_commit : Str
  pub build_date : Str
  pub go_version : Str
  pub compiler : Str
  pub platform : Str
  pub getenv : Str → Str
  -- `filepath.Join` of the platform and `net.JoinHostPort`
  pub join : Str → Str → Str
  pub join_host_port : Str → Str → Str
  pub read_file : Str → Call World Str
  -- `certutil.NewPool` and `yaml.Marshal`
  pub new_pool : Str → Call World (Unit {0})
  pub marshal : VersionInfo → Call World Str
  pub build_config_from_flags : Str → Call World RestConfig
  pub new_for_config : RestConfig → Call World (Unit {0})
  -- `azcache.NewTimedCache`, by the 64 bits of the duration in nanoseconds.
  pub new_timed_cache : ℕ → Call World (Unit {0})
  -- `NewClient` of the file system and SMB groups of csi-proxy, v1 and v1beta1.
  pub new_fs_client : Call World (Unit {0})
  pub new_smb_client : Call World (Unit {0})
  pub new_fs_client_beta : Call World (Unit {0})
  pub new_smb_client_beta : Call World (Unit {0})
  pub remove : Str → Call World (Unit {0})
  -- `net.Listen(network, address)`, and `Serve` of a gRPC server with these services.
  pub listen : Str → Str → Call World (Unit {0})
  pub serve : List Service → Call World (Unit {0})

-- The flags that `handle` reads.
pub record Flags : Type 0 where
  pub endpoint : Str
  pub node_id : Str
  pub driver_name : Str
  pub kubeconfig : Str
  pub enable_get_volume_stats : Bool
  pub remove_smb_mapping_during_unmount : Bool
  pub working_mount_dir : Str
  pub vol_stats_cache_expire_in_minutes : ℤ
  pub krb5_cache_directory : Str
  pub krb5_prefix : Str
  pub default_on_delete_policy : Str
  pub remove_archived_volume_path : Bool
  pub enable_windows_host_process : Bool

-- The flags of an empty command line.
abbrev pub default_flags : Flags
default_flags = record {
  endpoint = codes "unix://tmp/csi.sock";
  node_id = [];
  driver_name = default_driver_name;
  kubeconfig = [];
  enable_get_volume_stats = true;
  remove_smb_mapping_during_unmount = true;
  working_mount_dir = codes "/tmp";
  vol_stats_cache_expire_in_minutes = pos 10;
  krb5_cache_directory = default_krb5_cache_directory;
  krb5_prefix = default_krb5_ccname;
  default_on_delete_policy = [];
  remove_archived_volume_path = true;
  enable_windows_host_process = false;
}

-- `DriverOptions`
pub record DriverOptions : Type 0 where
  pub node_id : Str
  pub driver_name : Str
  pub enable_get_volume_stats : Bool
  pub remove_smb_mapping_during_unmount : Bool
  pub working_mount_dir : Str
  pub vol_stats_cache_expire_in_minutes : ℤ
  pub krb5_cache_directory : Str
  pub krb5_prefix : Str
  pub default_on_delete_policy : Str
  pub remove_archived_volume_path : Bool
  pub enable_windows_host_process : Bool
  pub kubeconfig : Str

-- The options that `handle` makes of the flags: `Kubeconfig` is not among those it fills in.
unfoldable pub driver_options : Flags → DriverOptions
driver_options f = record {
  node_id = f.node_id;
  driver_name = f.driver_name;
  enable_get_volume_stats = f.enable_get_volume_stats;
  remove_smb_mapping_during_unmount = f.remove_smb_mapping_during_unmount;
  working_mount_dir = f.working_mount_dir;
  vol_stats_cache_expire_in_minutes = f.vol_stats_cache_expire_in_minutes;
  krb5_cache_directory = f.krb5_cache_directory;
  krb5_prefix = f.krb5_prefix;
  default_on_delete_policy = f.default_on_delete_policy;
  remove_archived_volume_path = f.remove_archived_volume_path;
  enable_windows_host_process = f.enable_windows_host_process;
  kubeconfig = [];
}
