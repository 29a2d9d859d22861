-- ===== src/Node/Stats/Cached.antt =====
-- The cache of the statistics of volumes.
use csi_driver_smb_hardend.Base.{◌≡◌, ap, sym, subst, ◌∙◌, false, none, some, Str, is_empty, arith}
use csi_driver_smb_hardend.Errors.{internal, ok}
use csi_driver_smb_hardend.Csi.{NodeGetVolumeStatsRequest}
use csi_driver_smb_hardend.Action.{State, pure, call, ask, continue, or_status, ◌>>=◌, ◌>>◌}
use csi_driver_smb_hardend.Action.Runs.{call_at, or_status_at, >>=-at, >>=-ok}
use csi_driver_smb_hardend.Env.{Env, VolumeStats}
use csi_driver_smb_hardend.Node.Stats.{measure, cached_or_measured, node_get_volume_stats}

-- A cache in which what was put last under an id is found, for as long as it has not expired.
abbrev pub Caches : Env → Type 0
Caches E =
    (id : Str) (stats : VolumeStats) (w : E.World)
    → E.stats_cache_get id (E.stats_cache_set id stats w)
      ≡ (ok (some stats), E.stats_cache_set id stats w)

module _ (E : Env) (caches : Caches E) (req : NodeGetVolumeStatsRequest) where
  -- The end of a measurement.
  noted-ok :
      (measured stats : VolumeStats) (t : State E.World)
      → let end =
          ask (λ w. (tt {0}, E.stats_cache_set req.volume_id measured w)) >> pure measured in
        (end t).0 ≡ ok stats
        → E.stats_cache_get req.volume_id (end t).1.world ≡ (ok (some stats), (end t).1.world)
  unfolding ask pure ◌>>=◌ continue
  noted-ok measured stats t h =
      let same : measured ≡ stats = ground arith in
      caches req.volume_id measured t.world
      ∙ ap (λ found. (ok (some found), E.stats_cache_set req.volume_id measured t.world)) same

  -- What is measured is found in the cache.
  measure-ok :
      (stats : VolumeStats) (s : State E.World)
      → (measure E req s).0 ≡ ok stats
      → E.stats_cache_get req.volume_id (measure E req s).1.world
        ≡ (ok (some stats), (measure E req s).1.world)
  unfolding measure
  measure-ok stats s h =
      let (_, _, h1, e1) = >>=-ok _ _ stats s h in
      let (_, _, h2, e2) = >>=-ok _ _ stats _ h1 in
      let (_, _, h3, e3) = >>=-ok _ _ stats _ h2 in
      let (measured, _, h4, e4) = >>=-ok _ _ stats _ h3 in
      subst (λ r. E.stats_cache_get req.volume_id r.1.world ≡ (ok (some stats), r.1.world))
        (sym (e1 ∙ e2 ∙ e3 ∙ e4)) (noted-ok measured stats _ h4)

  cached_lem :
      (stats : VolumeStats) (t : State E.World)
      → is_empty req.volume_id ≡ false
      → is_empty req.volume_path ≡ false
      → E.stats_cache_get req.volume_id t.world ≡ (ok (some stats), t.world)
      → node_get_volume_stats E req t ≡ (ok stats, t)
  unfolding node_get_volume_stats pure
  cached_lem stats t hi hp e =
      rw (hi, hp)
        (>>=-at (or_status internal "%v" (call (E.stats_cache_get req.volume_id)))
          (cached_or_measured E req) (some stats) t t
          (or_status_at internal "%v" _ (ok (some stats)) t t
            (call_at _ (ok (some stats)) t t.world e)))

  -- Where the cache keeps what is put into it, and the volume of a request with an id and a path was
  -- not in it, a second request behind one that succeeded has the same answer and changes nothing.
  pub node_get_volume_stats_again :
      (stats : VolumeStats) (s : State E.World) (w : E.World)
      → is_empty req.volume_id ≡ false
      → is_empty req.volume_path ≡ false
      → E.stats_cache_get req.volume_id s.world ≡ (ok none, w)
      → (node_get_volume_stats E req s).0 ≡ ok stats
      → node_get_volume_stats E req (node_get_volume_stats E req s).1
        ≡ (ok stats, (node_get_volume_stats E req s).1)
  node_get_volume_stats_again stats s w hi hp e h =
      let t : State E.World = record s { world = w } in
      let first : node_get_volume_stats E req s ≡ measure E req t =
        unfold node_get_volume_stats in
        rw (hi, hp)
          (>>=-at (or_status internal "%v" (call (E.stats_cache_get req.volume_id)))
            (cached_or_measured E req) none s t
            (or_status_at internal "%v" _ (ok none) s t (call_at _ (ok none) s w e))) in
      rw first (cached_lem stats (measure E req t).1 hi hp (measure-ok stats t (rw first at h)))
