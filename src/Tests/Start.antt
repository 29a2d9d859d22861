-- ===== src/Tests/Start.antt =====
-- The theorems about the start of the driver, about operations that end and about the endpoint, at
-- concrete inputs.
use csi_driver_smb_hardend.Base.{
  ◌≡◌, refl, ◌⊎◌, inl, true, false, List, [], ◌∷◌, ◌++◌, Str, codes, contains, str_eq,
}
use csi_driver_smb_hardend.Errors.{ok, succeeds}
use csi_driver_smb_hardend.Strings.{to_lower}
use csi_driver_smb_hardend.Locks.{new_volume_locks, try_acquire, release}
use csi_driver_smb_hardend.Locks.Laws.{is_held}
use csi_driver_smb_hardend.Locks.Steps.{System, start, Reach, here, next}
use csi_driver_smb_hardend.Locks.Progress.{Reach-try_acquire}
use csi_driver_smb_hardend.Action.{State, Call}
use csi_driver_smb_hardend.CsiCommon.{
  parse_endpoint, validate_controller_service_request, validate_node_service_request,
}
use csi_driver_smb_hardend.CsiCommon.Endpoint.{parse_endpoint-append}
use csi_driver_smb_hardend.Startup.{Process, default_flags, driver_options}
use csi_driver_smb_hardend.Startup.Mounters.{proxy_mounter}
use csi_driver_smb_hardend.Startup.Run.{Instance, with_capabilities, instance_of, handle}
use csi_driver_smb_hardend.Startup.Laws.{handle_unread, handle_serves}

-- The addresses at which the process has listened.
abbrev Heard : Type 0
Heard = List Str

abbrev quiet : {A : Type 0} → A → Call Heard A
quiet a w = (ok a, w)

abbrev test_process : Process
test_process = record {
  World = Heard;
  on_windows = true;
  driver_version = codes "v1";
  git_commit = codes "N/A";
  build_date = codes "N/A";
  go_version = codes "go1";
  compiler = codes "gc";
  platform = codes "windows/amd64";
  getenv = λ name. codes "10.0.0.1";
  join = λ dir file. dir ++ file;
  join_host_port = λ host port. host ++ (codes ":" ++ port);
  read_file = λ path. quiet (codes "token");
  new_pool = λ path. quiet tt;
  marshal = λ info. quiet (codes "Driver Name: smb");
  build_config_from_flags =
      λ path. quiet (record { host = []; ca_file = []; bearer_token = []; bearer_token_file = [] });
  new_for_config = λ config. quiet tt;
  new_timed_cache = λ duration. quiet tt;
  new_fs_client = quiet tt;
  new_smb_client = quiet tt;
  new_fs_client_beta = quiet tt;
  new_smb_client_beta = quiet tt;
  remove = λ path. quiet tt;
  listen = λ network address w. (ok tt, address ∷ w);
  serve = λ services. quiet tt;
}

handle_unread_example :
    handle test_process (record default_flags {
      kubeconfig = codes "/config";
      default_on_delete_policy = codes "retain";
    })
    ≡ handle test_process default_flags
handle_unread_example = handle_unread test_process default_flags (codes "/config") (codes "retain")

abbrev at_start : State Heard
at_start = record { locks = new_volume_locks; world = [] }

abbrev served : Instance
served = with_capabilities (instance_of test_process (driver_options default_flags) true)

served-handle : (handle test_process default_flags at_start).0 ≡ ok (served, proxy_mounter true)
unfolding handle csi_driver_smb_hardend.Action.◌>>=◌ csi_driver_smb_hardend.Action.call
    csi_driver_smb_hardend.Action.attempt csi_driver_smb_hardend.Action.lift
    csi_driver_smb_hardend.Action.pure parse_endpoint str_eq
served-handle = refl

handle_serves_example :
    (succeeds (validate_controller_service_request served.common 2) ≡ false)
    × (succeeds (validate_node_service_request served.common 2) ≡ true)
    × (served.driver.name ≡ codes "smb.csi.k8s.io")
    × (served.driver.node_id ≡ [])
    × (served.driver.working_mount_dir ≡ codes "/tmp")
    × (served.driver.default_on_delete_policy ≡ [])
    × (served.volume_locks ≡ new_volume_locks)
handle_serves_example =
    handle_serves test_process default_flags at_start served (proxy_mounter true) served-handle 2

parse_endpoint-append_example :
    parse_endpoint (codes "Unix://tmp/csi.sock") ≡ ok (codes "Unix", codes "tmp/csi.sock")
parse_endpoint-append_example =
    parse_endpoint-append (codes "Unix") (codes "tmp/csi.sock")
      (inl (unfold to_lower in refl), λ e. cc e)

-- One operation runs on "a".
abbrev one_runs : System
one_runs = record { vl = (try_acquire (codes "a") new_volume_locks).1; running = codes "a" ∷ [] }

Reach-try_acquire_example :
    (((try_acquire (codes "a") one_runs.vl).0 ≡ true)
      ⊎ ((contains (codes "a") one_runs.running ≡ true)
          × ((try_acquire (codes "a") (release (codes "a") one_runs.vl)).0 ≡ true)))
    × ((t : System) × Reach one_runs t × (t.running ≡ []) × ((j : Str) → is_held j t.vl ≡ false))
Reach-try_acquire_example =
    Reach-try_acquire (next here (start (codes "a") (unfold try_acquire in refl))) (codes "a")
