-- ===== src/Tests/Node.antt =====
-- The node service on a Windows host at concrete inputs: a host that notes the paths at which it
-- removes a directory or makes a link.
use csi_driver_smb_hardend.Base.{◌≡◌, refl, true, false, [], ◌∷◌, none, codes, All}
use csi_driver_smb_hardend.Errors.{ok}
use csi_driver_smb_hardend.Action.Keeps.{Keeps}
use csi_driver_smb_hardend.Filesystem.{validate_path_windows}
use csi_driver_smb_hardend.Host.{Client, Host}
use csi_driver_smb_hardend.Mounter.References.{Files}
use csi_driver_smb_hardend.Mounter.HostProcess
use csi_driver_smb_hardend.Mounter.HostProcess.Keeps.{HostCalls, host_process-Keeps}
use csi_driver_smb_hardend.Node.Stage.{node_stage_volume, node_unstage_volume}
use csi_driver_smb_hardend.Locks.{new_volume_locks}
use csi_driver_smb_hardend.Action.{State}
use csi_driver_smb_hardend.Env.{Env}
use csi_driver_smb_hardend.Node.MountPoint.{ensure_mount_point}
use csi_driver_smb_hardend.Node.MountPoint.Outcome.{asked, Outcome, ensure_mount_point-ok}
use csi_driver_smb_hardend.Node.Mounted.{Part}
use csi_driver_smb_hardend.Node.Windows.{with_host_process, node_service-HostCalls}
use csi_driver_smb_hardend.Tests.{
  Log, silent, logged, test_env, test_driver, quiet_mounting, stage_request, unstage_request,
}

abbrev quiet_files : Files
quiet_files = record {
  World = Log;
  join = λ dir name. name;
  md5_hex = λ s. s;
  mkdir_all = λ path. silent tt;
  create = λ path. silent tt;
  write_string = λ path text. silent tt;
  close = λ path. silent tt;
  remove = λ path. silent tt;
  read_dir = λ path. silent [];
}

abbrev quiet_client : Client Log
quiet_client = record {
  mkdir = λ path. silent tt;
  rmdir = λ path. silent tt;
  path_exists = λ path. silent true;
  link = λ source target. silent tt;
  is_link = λ path. silent true;
  new_smb_global_mapping = λ target source username password. silent tt;
  remove_smb_global_mapping = λ remote_path. silent tt;
}

abbrev noting_host : Host
noting_host = record {
  files = quiet_files;
  dir = λ path. path;
  clean = λ path. path;
  lstat = λ path. silent true;
  readlink = λ path. silent (codes "\\\\host\\share");
  symlink = λ source target. logged target;
  remove_all = logged;
  read_entries = λ path. silent [];
  resolve_ip = λ name. silent (codes "10.0.0.1");
  powershell = λ command envs w. ((codes "OK", none), w);
  proxy = quiet_client;
  proxy_beta = quiet_client;
}

abbrev AllAccepted : Log → Type 0
AllAccepted = All (λ path. validate_path_windows path ≡ ok tt)

accepted_calls : HostCalls noting_host AllAccepted
accepted_calls = record {
  lstat = λ path. record { kept = λ w h. h };
  readlink = λ path. record { kept = λ w h. h };
  read_entries = λ path. record { kept = λ w h. h };
  mkdir_all = λ path. record { kept = λ w h. h };
  test_path = λ envs. record { kept = λ w h. h };
  is_mapped = λ envs. record { kept = λ w h. h };
  new_mapping = λ envs. record { kept = λ w h. h };
  remove_mapping = λ envs. record { kept = λ w h. h };
  remove_all = λ path e. record { kept = λ w h. (e, h) };
  symlink = λ source path e. record { kept = λ w h. (e, h) };
}

-- The whole world is the host.
abbrev whole : Part Log Log
whole = record { view = λ w. w; put = λ v w. v; view-put = λ v w. refl }

node_service-HostCalls_example :
    Keeps AllAccepted (
      node_stage_volume
        (with_host_process test_env noting_host whole)
        (record test_driver { on_windows = true })
        stage_request)
    × Keeps AllAccepted (
        node_unstage_volume
          (with_host_process test_env noting_host whole)
          (record test_driver { on_windows = true })
          unstage_request)
node_service-HostCalls_example =
    node_service-HostCalls test_env noting_host whole AllAccepted accepted_calls
      (quiet_mounting AllAccepted) (record test_driver { on_windows = true }) stage_request
      unstage_request

host_process-Keeps_example :
    Keeps AllAccepted (
      HostProcess.smb_mount noting_host
        (codes "//host/share")
        (codes "C:\\mount")
        (codes "u" ∷ [])
        (codes "p" ∷ [])
        (codes "v"))
    × Keeps AllAccepted (HostProcess.smb_unmount noting_host (codes "C:\\mount") (codes "v"))
host_process-Keeps_example =
    host_process-Keeps noting_host AllAccepted accepted_calls (codes "//host/share")
      (codes "C:\\mount") (codes "u" ∷ []) (codes "p" ∷ []) (codes "v")

-- Every directory is mounted, and can be read.
abbrev mounted_env : Env
mounted_env = record test_env { is_likely_not_mount_point = λ path w. ((false, none), w) }

ensure_mount_point-ok_example :
    (t : State Log) × (asked mounted_env
        (codes "/target")
        test_driver
        (record { locks = new_volume_locks; world = [] })
      ≡ (ok false, t))
    × Outcome mounted_env
        (codes "/target")
        true
        t
        (ensure_mount_point mounted_env test_driver
          (codes "/target")
          (record { locks = new_volume_locks; world = [] })).1
unfolding ensure_mount_point csi_driver_smb_hardend.Action.◌>>=◌ csi_driver_smb_hardend.Action.ask
    csi_driver_smb_hardend.Action.pure csi_driver_smb_hardend.Action.call
    csi_driver_smb_hardend.Base.contains csi_driver_smb_hardend.Action.attempt
    csi_driver_smb_hardend.Action.lift
ensure_mount_point-ok_example =
    ensure_mount_point-ok mounted_env (codes "/target") test_driver true
      (record { locks = new_volume_locks; world = [] }) refl
