-- ===== src/Startup/Run.antt =====
-- The driver is made from the options, and runs.
use csi_driver_smb_hardend.Base.{
  ℕ, zero, suc, ◌*◌, ◌%◌, ◌^◌, Bool, true, false, List, [], ◌∷◌, ◌++◌, Str, is_empty, if◌then◌else◌,
}
use csi_driver_smb_hardend.Numbers.{ℤ, pos, negsuc}
use csi_driver_smb_hardend.Strings.{trim_space}
use csi_driver_smb_hardend.Errors.{Result, ok, err}
use csi_driver_smb_hardend.Constants.{default_krb5_cache_directory, default_krb5_ccname}
use csi_driver_smb_hardend.Locks.{VolumeLocks, new_volume_locks}
use csi_driver_smb_hardend.Env.{Driver}
use csi_driver_smb_hardend.Action.{Action, pure, call, attempt, ◌>>=◌, ◌>>◌}
use csi_driver_smb_hardend.CsiCommon.{
  CsiDriver, add_controller_service_capabilities, add_node_service_capabilities,
  add_volume_capability_access_modes,
}
use csi_driver_smb_hardend.Startup.{
  Flags, DriverOptions, driver_options, Process, RestConfig, VersionInfo,
}
use csi_driver_smb_hardend.Startup.Config.{get_kube_config}
use csi_driver_smb_hardend.Startup.Mounters.{SafeMounter, new_safe_mounter}
use csi_driver_smb_hardend.Startup.Server.{serve}

-- The fields of `Driver` after `NewDriver`: those that the handlers read, the embedded `CSIDriver`,
-- the locks, and what only the start reads.
pub record Instance : Type 0 where
  pub driver : Driver
  pub common : CsiDriver
  pub volume_locks : VolumeLocks
  pub remove_smb_mapping_during_unmount : Bool
  pub enable_windows_host_process : Bool
  pub kubeconfig : Str

-- The number of minutes that volume statistics are kept: 10 unless a positive one is given.
unfoldable pub stats_expiry : ℤ → ℕ
stats_expiry (pos zero) = 10
stats_expiry (pos (suc n)) = suc n
stats_expiry (negsuc n) = 10

-- `time.Duration(minutes) * time.Minute`, as its 64 bits.
unfoldable pub duration_of_minutes : ℕ → ℕ
duration_of_minutes minutes = (minutes * 60000000000) % 2 ^ 64

unfoldable pub or_default : Str → Str → Str
or_default value default = if is_empty value then default else value

-- The types of RPC of the services, and the access modes, by their numbers in the CSI specification.
abbrev pub controller_capabilities : List ℕ
controller_capabilities = 1 ∷ 13 ∷ 7 ∷ 9 ∷ []

abbrev pub access_modes : List ℕ
access_modes = 1 ∷ 2 ∷ 6 ∷ 7 ∷ 3 ∷ 4 ∷ 5 ∷ []

abbrev pub get_volume_stats : ℕ
get_volume_stats = 2

unfoldable pub node_capabilities : Bool → List ℕ
node_capabilities enable_get_volume_stats =
    let node_cap : List ℕ = 1 ∷ 5 ∷ 6 ∷ [] in
    if enable_get_volume_stats then node_cap ++ (get_volume_stats ∷ []) else node_cap

-- What `Run` sets: its three calls of the embedded `CSIDriver`.
unfoldable pub with_capabilities : Instance → Instance
unfolding add_controller_service_capabilities add_node_service_capabilities
    add_volume_capability_access_modes node_capabilities
with_capabilities d =
    let with_controller = add_controller_service_capabilities d.common controller_capabilities in
    let with_modes = (add_volume_capability_access_modes with_controller access_modes).0 in
    record d {
      common =
          add_node_service_capabilities with_modes
            (node_capabilities d.driver.enable_get_volume_stats);
    }

module _ (P : Process) where
  -- `GetVersion`
  unfoldable pub get_version : Str → VersionInfo
  get_version driver_name = record {
    driver_name = driver_name;
    driver_version = P.driver_version;
    git_commit = P.git_commit;
    build_date = P.build_date;
    go_version = P.go_version;
    compiler = P.compiler;
    platform = P.platform;
  }

  -- `GetVersionYAML`
  unfoldable pub get_version_yaml : Str → Action P.World Str
  unfolding get_version trim_space
  get_version_yaml driver_name =
      call (P.marshal (get_version driver_name)) >>= λ text. pure (trim_space text)

  -- Whether the field `kubeClient` is not nil: after an error of `NewForConfig`, which is only
  -- logged, the interface holds a nil pointer and is not nil itself.
  unfoldable pub kube_client_of : Result RestConfig → Action P.World Bool
  kube_client_of (ok config) = do attempt (call (P.new_for_config config)); pure true
  kube_client_of (err e) = pure false

  -- The fields that `NewDriver` fills in. The default policy for deletion is not among them.
  unfoldable pub instance_of : DriverOptions → Bool → Instance
  unfolding or_default
  instance_of options has_kube_client = record {
    driver = record {
      name = options.driver_name;
      version = P.driver_version;
      node_id = options.node_id;
      on_windows = P.on_windows;
      working_mount_dir = options.working_mount_dir;
      krb5_cache_directory = or_default options.krb5_cache_directory default_krb5_cache_directory;
      krb5_prefix = or_default options.krb5_prefix default_krb5_ccname;
      default_on_delete_policy = [];
      remove_archived_volume_path = options.remove_archived_volume_path;
      enable_get_volume_stats = options.enable_get_volume_stats;
      has_kube_client = has_kube_client;
    };
    common = record {
      name = options.driver_name;
      version = P.driver_version;
      node_id = options.node_id;
      cap = [];
      ns_cap = [];
      vc = [];
    };
    volume_locks = new_volume_locks;
    remove_smb_mapping_during_unmount = options.remove_smb_mapping_during_unmount;
    enable_windows_host_process = options.enable_windows_host_process;
    kubeconfig = options.kubeconfig;
  }

  -- `NewDriver`
  unfoldable pub new_driver : DriverOptions → Action P.World Instance
  unfolding stats_expiry duration_of_minutes get_kube_config kube_client_of instance_of
  new_driver options = do
    call (
        P.new_timed_cache
          (duration_of_minutes (stats_expiry options.vol_stats_cache_expire_in_minutes)))
    call (P.new_timed_cache (duration_of_minutes 1))
    config ← attempt (get_kube_config P options.kubeconfig options.enable_windows_host_process)
    has_kube_client ← kube_client_of config
    pure (instance_of options has_kube_client)

  -- `Run`: the server, and the driver and the mounter with which it serves. The second argument of
  -- `Run`, for which `handle` gives the kubeconfig, is not read.
  unfoldable pub run : Instance → Str → Str → Action P.World (Instance × SafeMounter)
  unfolding get_version_yaml new_safe_mounter with_capabilities serve
  run d endpoint kubeconfig = do
    get_version_yaml d.driver.name
    mounter ← new_safe_mounter P d.enable_windows_host_process d.remove_smb_mapping_during_unmount
    serve P endpoint true true true
    pure (with_capabilities d, mounter)

  -- `handle`
  unfoldable pub handle : Flags → Action P.World (Instance × SafeMounter)
  unfolding driver_options new_driver run
  handle f = do d ← new_driver (driver_options f); run d f.endpoint f.kubeconfig
