-- ===== src/Node/Stats.antt =====
-- `NodeGetVolumeStats`
pub mod Cached
use csi_driver_smb_hardend.Base.{ℕ, [], ◌∷◌, Option, none, some, String, is_empty, if◌then◌else◌}
use csi_driver_smb_hardend.Errors.{
  unimplemented, status, internal, invalid_argument, not_found, Result, ok, err, is_not_exist,
}
use csi_driver_smb_hardend.Csi.{NodeGetVolumeStatsRequest}
use csi_driver_smb_hardend.Action.{
  Action, pure, fail, lift, call, ask, attempt, or_status, ◌>>=◌, ◌>>◌,
}
use csi_driver_smb_hardend.Env.{Env, Metrics, VolumeStats, bytes, inode_count}

-- `AsInt64()`, with an error where it does not apply.
unfoldable pub as_int64 : String → Option ℕ → Result ℕ
as_int64 text none = err (status internal text)
as_int64 text (some n) = ok n

module _ (E : Env) where
  unfoldable pub stat_result : Result (Unit {0}) → Result (Unit {0})
  unfolding is_not_exist
  stat_result (ok _) = ok tt
  stat_result (err e) =
      if is_not_exist e
      then err (status not_found "path %s does not exist")
      else err (status internal "failed to stat file %s: %v")

  unfoldable pub usage_of : Metrics → Action E.World VolumeStats
  unfolding as_int64
  usage_of m = do
    available ← lift (as_int64 "failed to transform volume available size(%v)" m.available)
    capacity ← lift (as_int64 "failed to transform volume capacity size(%v)" m.capacity)
    used ← lift (as_int64 "failed to transform volume used size(%v)" m.used)
    inodes_free ← lift (as_int64 "failed to transform disk inodes free(%v)" m.inodes_free)
    inodes ← lift (as_int64 "failed to transform disk inodes(%v)" m.inodes)
    inodes_used ← lift (as_int64 "failed to transform disk inodes used(%v)" m.inodes_used)
    pure (record {
      usage =
          record { unit = bytes; available = available; total = capacity; used = used }
          ∷ record {
            unit = inode_count;
            available = inodes_free;
            total = inodes;
            used = inodes_used;
          }
          ∷ [];
    })

  -- What is not in the cache is measured, and put there.
  unfoldable pub measure : NodeGetVolumeStatsRequest → Action E.World VolumeStats
  unfolding stat_result
  measure req = do
    found ← attempt (call (E.lstat req.volume_path))
    lift (stat_result found)
    metrics ← or_status internal "failed to get metrics: %v" (call (E.get_metrics req.volume_path))
    stats ← usage_of metrics
    ask (λ w. (tt {0}, E.stats_cache_set req.volume_id stats w))
    pure stats

  unfoldable pub cached_or_measured :
      NodeGetVolumeStatsRequest → Option VolumeStats → Action E.World VolumeStats
  cached_or_measured req none = measure req
  cached_or_measured req (some stats) = pure stats

  -- `NodeGetVolumeStats`
  unfoldable pub node_get_volume_stats : NodeGetVolumeStatsRequest → Action E.World VolumeStats
  unfolding cached_or_measured
  node_get_volume_stats req =
      if is_empty req.volume_id
      then fail (status invalid_argument "NodeGetVolumeStats volume ID was empty")
      else if is_empty req.volume_path
      then fail (status invalid_argument "NodeGetVolumeStats volume path was empty")
      else (do
        cache ← or_status internal "%v" (call (E.stats_cache_get req.volume_id))
        cached_or_measured req cache)

-- `NodeExpandVolume`
unfoldable pub node_expand_volume : {Request Response : Type 0} → Request → Result Response
node_expand_volume req = err (status unimplemented "")
