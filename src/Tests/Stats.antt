-- ===== src/Tests/Stats.antt =====
-- The statistics of a volume at concrete inputs: a world that is the cache of one volume.
use csi_driver_smb_hardend.Base.{◌≡◌, refl, true, false, [], ◌∷◌, Option, none, some, codes}
use csi_driver_smb_hardend.Errors.{ok}
use csi_driver_smb_hardend.Locks.{new_volume_locks}
use csi_driver_smb_hardend.Csi.{NodeGetVolumeStatsRequest}
use csi_driver_smb_hardend.Action.{State, Call}
use csi_driver_smb_hardend.Env.{Env, Metrics, VolumeStats, bytes, inode_count, end_of_file}
use csi_driver_smb_hardend.Node.Stats.{node_get_volume_stats}
use csi_driver_smb_hardend.Node.Stats.Cached.{node_get_volume_stats_again}

abbrev unseen : {A : Type 0} → A → Call (Option VolumeStats) A
unseen a w = (ok a, w)

abbrev test_metrics : Metrics
test_metrics = record {
  available = some 1;
  capacity = some 3;
  used = some 2;
  inodes_free = some 4;
  inodes = some 9;
  inodes_used = some 5;
}

abbrev caching_env : Env
caching_env = record {
  World = Option VolumeStats;
  visit = λ m. m;
  mkdir_all = λ path perm. unseen tt;
  remove_all = λ path. unseen tt;
  remove = λ path. unseen tt;
  rename = λ from to. unseen tt;
  stat = λ path. unseen tt;
  lstat = λ path. unseen tt;
  readlink = λ path. unseen (codes "/cache");
  symlink = λ target link. unseen tt;
  write_file = λ path content perm. unseen tt;
  chown = λ path uid. unseen tt;
  read_dir = λ path w. (([], none), w);
  open_dir = λ path. unseen tt;
  read_first = λ path w. (end_of_file, w);
  create_temp = λ dir pattern. unseen (codes "/tmp/1.smb.credentials");
  append_to = λ path text. unseen tt;
  abs_path = λ path. unseen path;
  walk_chmod = λ path perm. unseen tt;
  copy = λ source target. unseen tt;
  is_likely_not_mount_point = λ path w. ((true, none), w);
  mount_list = unseen [];
  bind_mount = λ source target options. unseen tt;
  mount_sensitive = λ source target fs_type options sensitive. unseen tt;
  unmount = λ path. unseen tt;
  cleanup_mount_point = λ path. unseen tt;
  path_exists = λ path. unseen true;
  is_corrupted_mnt = λ e. false;
  get_metrics = λ path. unseen test_metrics;
  is_proxy = false;
  proxy_smb_mount = λ source target fs_type options sensitive id. unseen tt;
  proxy_smb_unmount = λ target id. unseen tt;
  proxy_rmdir = λ path. unseen tt;
  proxy_exists_path = λ path. unseen true;
  timer_fires = λ w. (false, w);
  get_secret = λ namespace name. unseen [];
  deletion_cache_get = λ id. unseen none;
  deletion_cache_set = λ id value w. w;
  stats_cache_get = λ id w. (ok w, w);
  stats_cache_set = λ id stats w. some stats;
}

abbrev test_stats : VolumeStats
test_stats = record {
  usage =
      record { unit = bytes; available = 1; total = 3; used = 2 }
      ∷ record { unit = inode_count; available = 4; total = 9; used = 5 }
      ∷ [];
}

abbrev stats_request : NodeGetVolumeStatsRequest
stats_request = record { volume_id = codes "v"; volume_path = codes "/mnt" }

abbrev uncached : State (Option VolumeStats)
uncached = record { locks = new_volume_locks; world = none }

abbrev cached : State (Option VolumeStats)
cached = record { locks = new_volume_locks; world = some test_stats }

node_get_volume_stats_again_example :
    node_get_volume_stats caching_env stats_request cached ≡ (ok test_stats, cached)
unfolding node_get_volume_stats csi_driver_smb_hardend.Action.◌>>=◌
    csi_driver_smb_hardend.Action.or_status csi_driver_smb_hardend.Action.call
    csi_driver_smb_hardend.Action.attempt csi_driver_smb_hardend.Action.lift
    csi_driver_smb_hardend.Action.pure csi_driver_smb_hardend.Action.ask
    csi_driver_smb_hardend.Node.Stats.measure csi_driver_smb_hardend.Node.Stats.usage_of
node_get_volume_stats_again_example =
    node_get_volume_stats_again caching_env (λ id stats w. refl) stats_request test_stats uncached
      none refl refl refl refl
