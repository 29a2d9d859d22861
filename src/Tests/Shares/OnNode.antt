-- ===== src/Tests/Shares/OnNode.antt =====
-- The node service over csi-proxy v1 at concrete inputs: the host with references and mappings, in a
-- node whose other calls change nothing.
use csi_driver_smb_hardend.Locks.{new_volume_locks}
use csi_driver_smb_hardend.Mounter.References.{reference_dir}
use csi_driver_smb_hardend.Mounter.References.Counted.{is_referenced}
use csi_driver_smb_hardend.Mounter.Proxy.Methods.{as_mounter}
use csi_driver_smb_hardend.Node.Mounted.{Part, with_mounter}
use csi_driver_smb_hardend.Node.Unpublish.{node_unpublish_volume-is_referenced}
use csi_driver_smb_hardend.Tests.Shares.{share_files}
use csi_driver_smb_hardend.Base.{◌≡◌, refl, true, false, [], ◌∷◌, none, codes}
use csi_driver_smb_hardend.Errors.{err, system}
use csi_driver_smb_hardend.Action.{State}
use csi_driver_smb_hardend.Env.{Env, Driver, end_of_file}
use csi_driver_smb_hardend.Node.Publish.{node_unpublish_volume}
use csi_driver_smb_hardend.Tests.{test_driver, unpublish_request}
use csi_driver_smb_hardend.Tests.Shares.{Shares, silent, share_host, share_files_laws}

abbrev still_env : Env
still_env = record {
  World = Shares;
  visit = λ m. m;
  mkdir_all = λ path perm. silent tt;
  remove_all = λ path. silent tt;
  remove = λ path. silent tt;
  rename = λ from to. silent tt;
  stat = λ path. silent tt;
  lstat = λ path. silent tt;
  readlink = λ path. silent (codes "/cache");
  symlink = λ target link. silent tt;
  write_file = λ path content perm. silent tt;
  chown = λ path uid. silent tt;
  read_dir = λ path w. (([], none), w);
  open_dir = λ path. silent tt;
  read_first = λ path w. (end_of_file, w);
  create_temp = λ dir pattern. silent (codes "/tmp/1.smb.credentials");
  append_to = λ path text. silent tt;
  abs_path = λ path. silent path;
  walk_chmod = λ path perm. silent tt;
  copy = λ source target. silent tt;
  is_likely_not_mount_point = λ path w. ((true, none), w);
  mount_list = silent [];
  bind_mount = λ source target options. silent tt;
  mount_sensitive = λ source target fs_type options sensitive. silent tt;
  unmount = λ path. silent tt;
  cleanup_mount_point = λ path. silent tt;
  path_exists = λ path. silent true;
  is_corrupted_mnt = λ e. false;
  get_metrics = λ path w. (err (system "no metrics"), w);
  is_proxy = false;
  proxy_smb_mount = λ source target fs_type options sensitive id. silent tt;
  proxy_smb_unmount = λ target id. silent tt;
  proxy_rmdir = λ path. silent tt;
  proxy_exists_path = λ path. silent true;
  timer_fires = λ w. (false, w);
  get_secret = λ namespace name. silent [];
  deletion_cache_get = λ id. silent none;
  deletion_cache_set = λ id value w. w;
  stats_cache_get = λ id. silent none;
  stats_cache_set = λ id stats w. w;
}

abbrev whole_host : Part Shares Shares
whole_host = record { view = λ w. w; put = λ v w. v; view-put = λ v w. refl }

abbrev windows_driver : Driver
windows_driver = record test_driver { on_windows = true }

-- A volume has the reference of a share.
abbrev one_mounted : State Shares
one_mounted = record {
  locks = new_volume_locks;
  world = record {
    references = (reference_dir share_files (codes "\\\\host\\share"), codes "v") ∷ [];
    mappings = codes "\\\\host\\share" ∷ [];
  };
}

node_unpublish_volume-is_referenced_example :
    is_referenced share_files share_files_laws
      (codes "\\\\host\\share")
      (node_unpublish_volume
        (with_mounter still_env whole_host (as_mounter share_host true (codes "v1") (codes "v1")))
        windows_driver
        unpublish_request
        one_mounted).1.world
      (codes "v")
    ≡ is_referenced share_files share_files_laws
        (codes "\\\\host\\share")
        one_mounted.world
        (codes "v")
node_unpublish_volume-is_referenced_example =
    node_unpublish_volume-is_referenced share_host share_files_laws (λ path mapping_path id w. refl)
      still_env whole_host true (codes "v1") (codes "v1") windows_driver unpublish_request
      (codes "\\\\host\\share") (codes "v") one_mounted refl
