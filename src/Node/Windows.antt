-- ===== src/Node/Windows.antt =====
-- The node service of a Windows host process: pkg/smb/nodeserver.go over
-- pkg/mounter/safe_mounter_host_process_windows.go.
use csi_driver_smb_hardend.Base.{true, false, Bool, Str, some}
use csi_driver_smb_hardend.Errors.{plain, Result, ok, err}
use csi_driver_smb_hardend.Csi.{NodeStageVolumeRequest, NodeUnstageVolumeRequest}
use csi_driver_smb_hardend.Action.{pure, fail, attempt}
use csi_driver_smb_hardend.Action.Keeps.{
  Keeps, Keeps-fail, Keeps-pure, Keeps-bind, Keeps-attempt, keeps_rules,
}
use csi_driver_smb_hardend.Env.{Env, Driver}
use csi_driver_smb_hardend.Env.Staging.{Staging}
use csi_driver_smb_hardend.Host.{Host}
use csi_driver_smb_hardend.Filesystem.Calls.{is_symlink, lstat_exists}
use csi_driver_smb_hardend.Mounter.Windows.{
  normalize_windows_path, likely_not, is_likely_not_mount_point,
}
use csi_driver_smb_hardend.Mounter.HostProcess.{exists_path, is_likely_not}
use csi_driver_smb_hardend.Mounter.HostProcess.Methods.{as_mounter, unmount, list, mount_sensitive}
use csi_driver_smb_hardend.Mounter.HostProcess.Keeps.{
  HostCalls, exists_path-Keeps, rmdir-Keeps, smb_mount-Keeps, smb_unmount-Keeps,
}
use csi_driver_smb_hardend.Node.Mounted.{Part, with_mounter, on_host-Safe}
use csi_driver_smb_hardend.Node.Stage.{node_stage_volume, node_unstage_volume}
use csi_driver_smb_hardend.Node.Keeps.{node_stage_volume-Keeps, node_unstage_volume-Keeps}

-- The environment in which the mounter is that of the host process.
abbrev pub with_host_process : (E : Env) (H : Host) → Part E.World H.files.World → Env
with_host_process E H part = with_mounter E part (as_mounter H)

module _ (E : Env) (H : Host) (part : Part E.World H.files.World) (Q : H.files.World → Type 0)
    (calls : HostCalls H Q) (others : Staging E (λ w. Q (part.view w))) where
  lstat_exists-Keeps : (path : Str) → Keeps Q (lstat_exists H path)
  unfolding lstat_exists
  lstat_exists-Keeps path = search (keeps_rules, calls.lstat) depth 8

  is_symlink-Keeps : (path : Str) → Keeps Q (is_symlink H path)
  unfolding is_symlink
  is_symlink-Keeps path =
      search (keeps_rules, calls.lstat, calls.readlink, lstat_exists-Keeps) depth 12

  likely_not-Keeps : (path : Str) (exists : Bool) → Keeps Q (likely_not exists (is_symlink H path))
  unfolding likely_not
  likely_not-Keeps path true = search (keeps_rules, is_symlink-Keeps) depth 8
  likely_not-Keeps path false = search keeps_rules

  answered-Keeps :
      (path : Str) (r : Result Bool)
      → Keeps Q (elim r [
        | ok b ↦ likely_not b (is_symlink H (normalize_windows_path path))
        | err e ↦ pure (false, some e)
      ])
  answered-Keeps path (ok b) = likely_not-Keeps (normalize_windows_path path) b
  answered-Keeps path (err e) = search keeps_rules

  is_likely_not-Keeps : (path : Str) → Keeps Q (is_likely_not H path)
  unfolding is_likely_not is_likely_not_mount_point
  is_likely_not-Keeps path =
      Keeps-bind (attempt (exists_path H path)) _
        (Keeps-attempt _ (exists_path-Keeps H Q calls path)) (answered-Keeps path)

  host_process-Staging : Staging (with_host_process E H part) (λ w. Q (part.view w))
  unfolding as_mounter unmount list mount_sensitive
  host_process-Staging = record {
    mkdir_all = others.mkdir_all;
    remove = others.remove;
    stat = others.stat;
    lstat = others.lstat;
    readlink = others.readlink;
    symlink = others.symlink;
    write_file = others.write_file;
    chown = others.chown;
    read_dir = others.read_dir;
    open_dir = others.open_dir;
    read_first = others.read_first;
    create_temp = others.create_temp;
    append_to = others.append_to;
    abs_path = others.abs_path;
    is_likely_not_mount_point = λ path. record {
      kept = λ w h. (on_host-Safe part Q _ (is_likely_not-Keeps path)).kept w h;
    };
    mount_list = on_host-Safe part Q _ (
        Keeps-bind (fail (plain "List not implemented for CSIProxyMounter")) _ (Keeps-fail _)
          (λ mps. Keeps-pure _));
    mount_sensitive =
        λ source target fs_type options sensitive. on_host-Safe part Q _ (Keeps-fail _);
    unmount = λ path. on_host-Safe part Q _ (rmdir-Keeps H Q calls path);
    cleanup_mount_point = others.cleanup_mount_point;
    path_exists = others.path_exists;
    proxy_smb_mount = λ source target fs_type options sensitive volume_id.
        on_host-Safe part Q _ (smb_mount-Keeps H Q calls source target options sensitive volume_id);
    proxy_smb_unmount =
        λ target volume_id. on_host-Safe part Q _ (smb_unmount-Keeps H Q calls target volume_id);
    proxy_rmdir = λ path. on_host-Safe part Q _ (rmdir-Keeps H Q calls path);
    proxy_exists_path = λ path. on_host-Safe part Q _ (exists_path-Keeps H Q calls path);
    timer_fires = others.timer_fires;
    get_secret = others.get_secret;
  }

  -- On a node whose `mounter.Interface` is the mounter of the host process, with all its methods,
  -- NodeStageVolume and NodeUnstageVolume keep every invariant that the calls of `HostCalls` keep
  -- and that the calls of the node service outside the mounter keep. Of the mounter's calls,
  -- `HostCalls` restricts three: PowerShell runs only the four commands, and RemoveAll and Symlink
  -- get only a path that ValidatePathWindows accepts. MkdirAll, Lstat, Readlink and the listing are
  -- allowed at any path.
  pub node_service-HostCalls :
      (d : Driver) (stage : NodeStageVolumeRequest) (unstage : NodeUnstageVolumeRequest)
      → Keeps (λ w. Q (part.view w)) (node_stage_volume (with_host_process E H part) d stage)
        × Keeps (λ w. Q (part.view w)) (node_unstage_volume (with_host_process E H part) d unstage)
  node_service-HostCalls d stage unstage = (
    node_stage_volume-Keeps (with_host_process E H part) (λ w. Q (part.view w)) host_process-Staging
        d stage,
    node_unstage_volume-Keeps (with_host_process E H part) (λ w. Q (part.view w))
        host_process-Staging d unstage,
  )
