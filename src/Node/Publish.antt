-- ===== src/Node/Publish.antt =====
-- `NodePublishVolume` and `NodeUnpublishVolume`.
use csi_driver_smb_hardend.Base.{
  Bool, false, List, [], ◌∷◌, Option, none, some, Str, codes, is_empty, if◌then◌else◌,
}
use csi_driver_smb_hardend.Errors.{status, internal, invalid_argument, Result, ok, err}
use csi_driver_smb_hardend.Constants.{
  ephemeral_field, pod_namespace_field, secret_namespace_field, true_value,
}
use csi_driver_smb_hardend.Strings.{equal_fold}
use csi_driver_smb_hardend.Maps.{Map, get, set_key_value_in_map}
use csi_driver_smb_hardend.Csi.{
  VolumeCapability, NodePublishVolumeRequest, NodeUnpublishVolumeRequest,
}
use csi_driver_smb_hardend.Action.{
  Action, pure, fail, call, attempt, or_status, or_plain, ◌>>=◌, ◌>>◌,
}
use csi_driver_smb_hardend.Env.{Env, Driver}
use csi_driver_smb_hardend.Node.Platform.{prepare_path, cleanup_mount_point}
use csi_driver_smb_hardend.Node.MountPoint.{ensure_mount_point}
use csi_driver_smb_hardend.Node.Stage.{node_stage_volume}

-- `context != nil && strings.EqualFold(context[ephemeralField], trueValue)`
unfoldable pub is_ephemeral : Option Map → Bool
unfolding equal_fold get
is_ephemeral none = false
is_ephemeral (some context) = equal_fold (get ephemeral_field context) true_value

-- The context with the namespace of the pod for that of the secret.
unfoldable pub ephemeral_context : Option Map → Option Map
unfolding set_key_value_in_map get
ephemeral_context none = none
ephemeral_context (some context) =
    set_key_value_in_map (some context) secret_namespace_field (get pod_namespace_field context)

module _ (E : Env) where
  unfoldable pub in_visit_order : Option Map → Option Map
  in_visit_order none = none
  in_visit_order (some m) = some (E.visit m)

  -- An ephemeral volume is staged at the target.
  unfoldable pub publish_ephemeral :
      Driver → NodePublishVolumeRequest → VolumeCapability → Action E.World (Unit {0})
  unfolding ephemeral_context in_visit_order
  publish_ephemeral d req cap = node_stage_volume E d (record {
    volume_id = req.volume_id;
    staging_target_path = req.target_path;
    volume_capability = some cap;
    secrets = [];
    volume_context = ephemeral_context (in_visit_order req.volume_context);
  })

  -- `os.Remove(target)` after a mount that failed.
  unfoldable pub remove_target : Str → Result (Unit {0}) → Action E.World (Unit {0})
  remove_target target (ok _) = pure tt
  remove_target target (err e) = do
    or_status internal "Could not remove mount target %q: %v" (call (E.remove target))
    fail (status internal "Could not mount %q at %q: %v")

  unfoldable pub bind_options : Bool → List Str
  bind_options readonly = codes "bind" ∷ (if readonly then codes "ro" ∷ [] else [])

  -- A staged volume is bound to the target.
  unfoldable pub publish_staged : Driver → NodePublishVolumeRequest → Action E.World (Unit {0})
  unfolding remove_target bind_options
  publish_staged d req = do
    mounted ←
        or_status internal "Could not mount target %q: %v" (ensure_mount_point E d req.target_path)
    if mounted then pure tt else (do
      or_plain "prepare publish failed for %s with error: %v" (prepare_path E d req.target_path)
      bound ←
          attempt (
            call (E.bind_mount req.staging_target_path req.target_path (bind_options req.readonly)))
      remove_target req.target_path bound)

  unfoldable pub publish_capability :
      Driver → NodePublishVolumeRequest → Option VolumeCapability → Action E.World (Unit {0})
  publish_capability d req none =
      fail (status invalid_argument "Volume capability missing in request")
  publish_capability d req (some cap) =
      if is_empty req.volume_id
      then fail (status invalid_argument "Volume ID missing in request")
      else if is_empty req.target_path
      then fail (status invalid_argument "Target path not provided")
      else if is_ephemeral req.volume_context
      then publish_ephemeral d req cap
      else if is_empty req.staging_target_path
      then fail (status invalid_argument "Staging target not provided")
      else publish_staged d req

  -- `NodePublishVolume`
  unfoldable pub node_publish_volume : Driver → NodePublishVolumeRequest → Action E.World (Unit {0})
  unfolding publish_capability
  node_publish_volume d req = publish_capability d req req.volume_capability

  -- `NodeUnpublishVolume`
  unfoldable pub node_unpublish_volume :
      Driver → NodeUnpublishVolumeRequest → Action E.World (Unit {0})
  node_unpublish_volume d req =
      if is_empty req.volume_id
      then fail (status invalid_argument "Volume ID missing in request")
      else if is_empty req.target_path
      then fail (status invalid_argument "Target path missing in request")
      else or_status internal "failed to unmount target %q: %v"
          (cleanup_mount_point E d req.target_path)
