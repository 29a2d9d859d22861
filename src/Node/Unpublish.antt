-- ===== src/Node/Unpublish.antt =====
-- NodeUnpublishVolume of pkg/smb/nodeserver.go over pkg/mounter/safe_mounter_windows.go, and the
-- references of the volumes.
use csi_driver_smb_hardend.Base.{◌≡◌, refl, ◌∙◌, Bool, true, Str}
use csi_driver_smb_hardend.Csi.{NodeUnpublishVolumeRequest}
use csi_driver_smb_hardend.Action.{State}
use csi_driver_smb_hardend.Action.Keeps.{Keeps, Keeps-call, keeps_rules}
use csi_driver_smb_hardend.Env.{Env, Driver}
use csi_driver_smb_hardend.Host.{Host}
use csi_driver_smb_hardend.Mounter.References.Counted.{FileLaws, is_referenced}
use csi_driver_smb_hardend.Mounter.Windows.{normalize_windows_path}
use csi_driver_smb_hardend.Mounter.Proxy
use csi_driver_smb_hardend.Mounter.Proxy.Methods.{as_mounter}
use csi_driver_smb_hardend.Node.Mounted.{Part, on_host-Safe, with_mounter}
use csi_driver_smb_hardend.Node.Platform.{with_proxy, cleanup_mount_point}
use csi_driver_smb_hardend.Node.Publish.{node_unpublish_volume}

module _ (H : Host) (laws : FileLaws H.files)
    (rmdir_refers : (path mapping_path id : Str) (w : H.files.World)
      → is_referenced H.files laws mapping_path (H.proxy.rmdir path w).1 id
        ≡ is_referenced H.files laws mapping_path w id)
    (E : Env) (part : Part E.World H.files.World) (removes : Bool)
    (fs_version smb_version : Str) where
  abbrev over_proxy : Env
  over_proxy = with_mounter E part (as_mounter H removes fs_version smb_version)

  -- The volume has the reference of the share, or has it not.
  abbrev HasReference : Str → Str → Bool → H.files.World → Type 0
  HasReference mapping_path id b w = is_referenced H.files laws mapping_path w id ≡ b

  rmdir-HasReference :
      (mapping_path id path : Str) (b : Bool)
      → Keeps (HasReference mapping_path id b) (Proxy.rmdir H path)
  unfolding Proxy.rmdir
  rmdir-HasReference mapping_path id path b =
      Keeps-call _
        (record { kept = λ w h. rmdir_refers (normalize_windows_path path) mapping_path id w ∙ h })

  cleanup-HasReference :
      (mapping_path id target : Str) (b : Bool) (d : Driver)
      → d.on_windows ≡ true
      → Keeps
          (λ w. HasReference mapping_path id b (part.view w))
          (cleanup_mount_point over_proxy d target)
  unfolding cleanup_mount_point with_proxy as_mounter
  cleanup-HasReference mapping_path id target b d windows = rw windows (
      Keeps-call _ (
        on_host-Safe part (HasReference mapping_path id b) _
          (rmdir-HasReference mapping_path id target b)))

  unpublish-HasReference :
      (mapping_path id : Str) (b : Bool) (d : Driver) (req : NodeUnpublishVolumeRequest)
      → d.on_windows ≡ true
      → Keeps
          (λ w. HasReference mapping_path id b (part.view w))
          (node_unpublish_volume over_proxy d req)
  unfolding node_unpublish_volume
  unpublish-HasReference mapping_path id b d req windows =
      search (keeps_rules, cleanup-HasReference mapping_path id req.target_path b d windows) depth 8

  -- On a Windows node over csi-proxy v1, where removing a directory changes no reference,
  -- NodeUnpublishVolume leaves every reference of a volume to a share as it was, whatever it returns
  -- and whether the volume is ephemeral or staged.
  pub node_unpublish_volume-is_referenced :
      (d : Driver) (req : NodeUnpublishVolumeRequest) (mapping_path id : Str) (s : State E.World)
      → d.on_windows ≡ true
      → is_referenced H.files laws mapping_path
          (part.view (node_unpublish_volume over_proxy d req s).1.world)
          id
        ≡ is_referenced H.files laws mapping_path (part.view s.world) id
  node_unpublish_volume-is_referenced d req mapping_path id s windows =
      (unpublish-HasReference mapping_path id
          (is_referenced H.files laws mapping_path (part.view s.world) id) d req windows).at
        s refl
