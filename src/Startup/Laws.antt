-- ===== src/Startup/Laws.antt =====
-- What the flags make of the driver.
use csi_driver_smb_hardend.Base.{ℕ, ◌≡◌, refl, ap, ◌∙◌, Bool, ◌||◌, ◌&&◌, [], Str, arith, ◌==◌}
use csi_driver_smb_hardend.Errors.{ok, succeeds}
use csi_driver_smb_hardend.Action.{State, pure}
use csi_driver_smb_hardend.Action.Runs.{>>=-ok}
use csi_driver_smb_hardend.CsiCommon.{
  validate_controller_service_request, validate_node_service_request, offers, capabilities,
  add_controller_service_capabilities, add_node_service_capabilities,
}
use csi_driver_smb_hardend.Locks.{new_volume_locks}
use csi_driver_smb_hardend.Startup.{Flags, DriverOptions, driver_options, Process}
use csi_driver_smb_hardend.Startup.Mounters.{SafeMounter}
use csi_driver_smb_hardend.Startup.Run.{
  Instance, node_capabilities, with_capabilities, kube_client_of, instance_of, new_driver, run,
  handle,
}

-- Two of the flags change nothing: with any kubeconfig and any default policy for deletion on the
-- command line, the driver makes the same calls, with the same results, and serves with the same
-- fields.
pub handle_unread :
    (P : Process) (f : Flags) (kubeconfig policy : Str)
    → handle P (record f { kubeconfig = kubeconfig; default_on_delete_policy = policy })
      ≡ handle P f
unfolding handle new_driver run
handle_unread P f kubeconfig policy = refl

module _ (P : Process) where
  pure-ok : {A : Type 0} (a b : A) (s : State P.World) → (pure a s).0 ≡ ok b → b ≡ a
  unfolding pure
  pure-ok a b s h = ground arith

  new_driver-ok :
      (options : DriverOptions) (s : State P.World) (d : Instance)
      → (new_driver P options s).0 ≡ ok d
      → (b : Bool) × (d ≡ instance_of P options b)
  unfolding new_driver
  new_driver-ok options s d h =
      let (_, _, h1, _) = >>=-ok _ _ d s h in
      let (_, _, h2, _) = >>=-ok _ _ d _ h1 in
      let (config, _, h3, _) = >>=-ok _ _ d _ h2 in
      let (b, _, h4, _) = >>=-ok (kube_client_of P config) _ d _ h3 in
      (b, pure-ok (instance_of P options b) d _ h4)

  run-ok :
      (d : Instance) (endpoint kubeconfig : Str) (s : State P.World) (e : Instance)
      (mounter : SafeMounter)
      → (run P d endpoint kubeconfig s).0 ≡ ok (e, mounter)
      → e ≡ with_capabilities d
  unfolding run
  run-ok d endpoint kubeconfig s e mounter h =
      let (_, _, h1, _) = >>=-ok _ _ (e, mounter) s h in
      let (m, _, h2, _) = >>=-ok _ _ (e, mounter) _ h1 in
      let (_, _, h3, _) = >>=-ok _ _ (e, mounter) _ h2 in
      ap (λ p. p.0) (pure-ok (with_capabilities d, m) (e, mounter) _ h3)

  handle-ok :
      (f : Flags) (s : State P.World) (d : Instance) (mounter : SafeMounter)
      → (handle P f s).0 ≡ ok (d, mounter)
      → (b : Bool) × (d ≡ with_capabilities (instance_of P (driver_options f) b))
  unfolding handle
  handle-ok f s d mounter h =
      let (e, made, h1, _) = >>=-ok (new_driver P (driver_options f)) _ (d, mounter) s h in
      let (b, same) = new_driver-ok (driver_options f) s e made in
      (b, run-ok e f.endpoint f.kubeconfig _ d mounter h1 ∙ ap with_capabilities same)

  with_capabilities-validates :
      (d : Instance) (c : ℕ)
      → (succeeds (validate_controller_service_request (with_capabilities d).common c)
          ≡ ((c == 0) || ((c == 1) || ((c == 7) || ((c == 9) || (c == 13))))))
        × (succeeds (validate_node_service_request (with_capabilities d).common c) ≡ (
            (c == 0)
            || ((c == 1)
                || ((c == 5) || ((c == 6) || ((c == 2) && d.driver.enable_get_volume_stats))))))
  unfolding with_capabilities validate_controller_service_request validate_node_service_request
      add_controller_service_capabilities add_node_service_capabilities node_capabilities offers
      capabilities
  with_capabilities-validates d c = ground arith

  -- For the driver that `handle` starts, ValidateControllerServiceRequest succeeds exactly for the
  -- capabilities numbered 0, 1, 7, 9 and 13, and ValidateNodeServiceRequest exactly for those
  -- numbered 0, 1, 5 and 6 and, where the flag for the statistics of volumes is set, 2. That is what
  -- the two checks return; no handler of the driver calls them. The driver has the name, the node id
  -- and the working directory of the flags, no default policy for deletion, and no lock is held.
  pub handle_serves :
      (f : Flags) (s : State P.World) (d : Instance) (mounter : SafeMounter)
      → (handle P f s).0 ≡ ok (d, mounter)
      → (c : ℕ)
      → (succeeds (validate_controller_service_request d.common c)
          ≡ ((c == 0) || ((c == 1) || ((c == 7) || ((c == 9) || (c == 13))))))
        × (succeeds (validate_node_service_request d.common c) ≡ (
            (c == 0)
            || ((c == 1) || ((c == 5) || ((c == 6) || ((c == 2) && f.enable_get_volume_stats))))))
        × (d.driver.name ≡ f.driver_name)
        × (d.driver.node_id ≡ f.node_id)
        × (d.driver.working_mount_dir ≡ f.working_mount_dir)
        × (d.driver.default_on_delete_policy ≡ [])
        × (d.volume_locks ≡ new_volume_locks)
  handle_serves f s d mounter h c =
      let (b, same) = handle-ok f s d mounter h in
      let started = with_capabilities-validates (instance_of P (driver_options f) b) c in
      rw same (
        unfold instance_of driver_options with_capabilities in
        (started.0, started.1, refl, refl, refl, refl, refl))
