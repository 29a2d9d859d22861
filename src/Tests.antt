-- ===== src/Tests.antt =====
-- The theorems at concrete inputs: a share of two users, on a world that keeps a log of the paths
-- that are removed, renamed and copied.
mod Concurrent
mod Volumes
mod Requests
mod Parts
mod Node
mod Start
mod Shares
mod Stats
mod Windows
use csi_driver_smb_hardend.Base.{true, false, List, [], ◌∷◌, none, some, Str, codes}
use csi_driver_smb_hardend.Errors.{ok, err, system}
use csi_driver_smb_hardend.Maps.{Map}
use csi_driver_smb_hardend.Locks.{new_volume_locks}
use csi_driver_smb_hardend.Volume.{SmbVolume}
use csi_driver_smb_hardend.Csi.{
  mount_access, CreateVolumeRequest, DeleteVolumeRequest, NodeStageVolumeRequest,
  NodeUnstageVolumeRequest, NodePublishVolumeRequest, NodeUnpublishVolumeRequest,
}
use csi_driver_smb_hardend.Env.{Env, end_of_file, Driver}
use csi_driver_smb_hardend.Env.Staging.{Staging}
use csi_driver_smb_hardend.Action.{State, Call}

abbrev Log : Type 0
Log = List Str

abbrev silent : {A : Type 0} → A → Call Log A
silent a w = (ok a, w)

abbrev logged : Str → Call Log (Unit {0})
logged path w = (ok tt, path ∷ w)

abbrev test_env : Env
test_env = record {
  World = Log;
  visit = λ m. m;
  mkdir_all = λ path perm. silent tt;
  remove_all = logged;
  remove = λ path. silent tt;
  rename = λ from to w. (ok tt, from ∷ to ∷ w);
  stat = λ path. silent tt;
  lstat = λ path. silent tt;
  readlink = λ path. silent (codes "/cache");
  symlink = λ target link. silent tt;
  write_file = λ path content perm. silent tt;
  chown = λ path uid. silent tt;
  read_dir = λ path w. (([], none), w);
  open_dir = λ path. silent tt;
  read_first = λ path w. (end_of_file, w);
  create_temp = λ dir pattern. silent (codes "/tmp/1.smb.credentials");
  append_to = λ path text. silent tt;
  abs_path = λ path. silent path;
  walk_chmod = λ path perm. logged path;
  copy = λ source target. logged target;
  is_likely_not_mount_point = λ path w. ((true, none), w);
  mount_list = silent [];
  bind_mount = λ source target options. silent tt;
  mount_sensitive = λ source target fs_type options sensitive. silent tt;
  unmount = λ path. silent tt;
  cleanup_mount_point = λ path. silent tt;
  path_exists = λ path. silent true;
  is_corrupted_mnt = λ e. false;
  get_metrics = λ path w. (err (system "no metrics"), w);
  is_proxy = false;
  proxy_smb_mount = λ source target fs_type options sensitive id. silent tt;
  proxy_smb_unmount = λ target id. silent tt;
  proxy_rmdir = λ path. silent tt;
  proxy_exists_path = λ path. silent true;
  timer_fires = λ w. (false, w);
  get_secret = λ namespace name. silent [];
  deletion_cache_get = λ id. silent none;
  deletion_cache_set = λ id value w. w;
  stats_cache_get = λ id. silent none;
  stats_cache_set = λ id stats w. w;
}

abbrev test_driver : Driver
test_driver = record {
  name = codes "smb.csi.k8s.io";
  version = codes "v1";
  node_id = codes "node";
  on_windows = false;
  working_mount_dir = codes "/tmp";
  krb5_cache_directory = codes "/var/lib/kubelet/kerberos/";
  krb5_prefix = codes "krb5cc_";
  default_on_delete_policy = codes "delete";
  remove_archived_volume_path = true;
  enable_get_volume_stats = true;
  has_kube_client = true;
}

abbrev share : SmbVolume
share = record {
  id = codes "host/share#a#pv##";
  source = codes "//host/share";
  sub_dir = codes "a/";
  size = 0;
  uuid = codes "pv";
  on_delete = codes "Archive";
}

abbrev at_rest : State Log
at_rest = record { locks = new_volume_locks; world = [] }

abbrev storage_class : Map
storage_class = (codes "Source", codes "//host/share") ∷ (codes "subDir", codes "a") ∷ []

abbrev made : SmbVolume
made = record {
  id = codes "host/share#a#pv#";
  source = codes "//host/share";
  sub_dir = codes "a";
  size = 1;
  uuid = codes "pv";
  on_delete = codes "delete";
}

abbrev create_request : CreateVolumeRequest
create_request = record {
  name = codes "pv";
  required_bytes = 1;
  volume_capabilities = mount_access (record { mount_flags = []; volume_mount_group = [] }) ∷ [];
  parameters = some storage_class;
  secrets = (codes "username", codes "u") ∷ [];
  volume_content_source = none;
}

abbrev delete_request : DeleteVolumeRequest
delete_request = record {
  volume_id = codes "host/share#a#pv#";
  secrets = (codes "username", codes "u") ∷ [];
}

abbrev stage_request : NodeStageVolumeRequest
stage_request = record {
  volume_id = codes "v";
  staging_target_path = codes "/staging";
  volume_capability = some (mount_access (record { mount_flags = []; volume_mount_group = [] }));
  secrets = [];
  volume_context = some storage_class;
}

abbrev unstage_request : NodeUnstageVolumeRequest
unstage_request = record { volume_id = codes "v"; staging_target_path = codes "/staging" }

abbrev publish_request : NodePublishVolumeRequest
publish_request = record {
  volume_id = codes "v";
  staging_target_path = codes "/staging";
  target_path = codes "/target";
  volume_capability = some (mount_access (record { mount_flags = []; volume_mount_group = [] }));
  readonly = false;
  volume_context = none;
}

abbrev unpublish_request : NodeUnpublishVolumeRequest
unpublish_request = record { volume_id = codes "v"; target_path = codes "/target" }

-- The calls of mounting leave the log as it is.
quiet_mounting : (P : Log → Type 0) → Staging test_env P
quiet_mounting P = record {
  mkdir_all = λ path perm. record { kept = λ w h. h };
  remove = λ path. record { kept = λ w h. h };
  stat = λ path. record { kept = λ w h. h };
  lstat = λ path. record { kept = λ w h. h };
  readlink = λ path. record { kept = λ w h. h };
  symlink = λ target link. record { kept = λ w h. h };
  write_file = λ path content perm. record { kept = λ w h. h };
  chown = λ path uid. record { kept = λ w h. h };
  read_dir = λ path. record { kept = λ w h. h };
  open_dir = λ path. record { kept = λ w h. h };
  read_first = λ path. record { kept = λ w h. h };
  create_temp = λ dir pattern. record { kept = λ w h. h };
  append_to = λ path text. record { kept = λ w h. h };
  abs_path = λ path. record { kept = λ w h. h };
  is_likely_not_mount_point = λ path. record { kept = λ w h. h };
  mount_list = record { kept = λ w h. h };
  mount_sensitive = λ source target fs_type options sensitive. record { kept = λ w h. h };
  unmount = λ path. record { kept = λ w h. h };
  cleanup_mount_point = λ path. record { kept = λ w h. h };
  path_exists = λ path. record { kept = λ w h. h };
  proxy_smb_mount = λ source target fs_type options sensitive volume_id. record { kept = λ w h. h };
  proxy_smb_unmount = λ target volume_id. record { kept = λ w h. h };
  proxy_rmdir = λ path. record { kept = λ w h. h };
  proxy_exists_path = λ path. record { kept = λ w h. h };
  timer_fires = record { kept = λ w h. h };
  get_secret = λ namespace name. record { kept = λ w h. h };
}
