-- ===== src/Startup/Mounters.antt =====
-- NewSafeMounter, NewCSIProxyMounter and NewCSIProxyMounterV1Beta: which mounter the driver uses.
use csi_driver_smb_hardend.Base.{Bool, if◌then◌else◌}
use csi_driver_smb_hardend.Errors.{Result, ok, err}
use csi_driver_smb_hardend.Action.{Action, pure, call, attempt, ◌>>=◌, ◌>>◌}
use csi_driver_smb_hardend.Startup.{Process}

-- The mounter of the kernel, and the three of Windows, of which that over csi-proxy v1 keeps whether
-- mappings are removed.
pub data SafeMounter : Type 0 where
  kernel_mounter host_process_mounter proxy_beta_mounter : SafeMounter
  proxy_mounter : (remove_smb_mapping_during_unmount : Bool) → SafeMounter

module _ (P : Process) where
  -- `NewCSIProxyMounter`
  unfoldable pub new_csi_proxy_mounter : Bool → Action P.World SafeMounter
  new_csi_proxy_mounter removes = do
    call P.new_fs_client
    call P.new_smb_client
    pure (proxy_mounter removes)

  -- `NewCSIProxyMounterV1Beta`
  unfoldable pub new_csi_proxy_mounter_v1_beta : Action P.World SafeMounter
  new_csi_proxy_mounter_v1_beta = do
    call P.new_fs_client_beta
    call P.new_smb_client_beta
    pure proxy_beta_mounter

  -- Version v1beta1 is tried where v1 cannot be reached.
  unfoldable pub or_beta : Result SafeMounter → Action P.World SafeMounter
  unfolding new_csi_proxy_mounter_v1_beta
  or_beta (ok mounter) = pure mounter
  or_beta (err e) = new_csi_proxy_mounter_v1_beta

  -- `NewSafeMounter`, of Windows and of the other platforms.
  unfoldable pub new_safe_mounter : Bool → Bool → Action P.World SafeMounter
  unfolding new_csi_proxy_mounter or_beta
  new_safe_mounter enable_windows_host_process removes =
      if P.on_windows
      then if enable_windows_host_process
        then pure host_process_mounter
        else attempt (new_csi_proxy_mounter removes) >>= or_beta
      else pure kernel_mounter
