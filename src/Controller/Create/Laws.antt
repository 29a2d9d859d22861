-- ===== src/Controller/Create/Laws.antt =====
-- What `CreateVolume` leaves alone.
use csi_driver_smb_hardend.Base.{◌≡◌, refl, ◌∙◌, true, false, is_empty}
use csi_driver_smb_hardend.Errors.{status, aborted, invalid_argument, with_code, ok, err}
use csi_driver_smb_hardend.Options.{default_modes}
use csi_driver_smb_hardend.Volume.{SmbVolume, new_smb_volume}
use csi_driver_smb_hardend.Csi.{CreateVolumeRequest, entries}
use csi_driver_smb_hardend.Env.{Env, Driver}
use csi_driver_smb_hardend.Locks.Laws.{is_held}
use csi_driver_smb_hardend.Action.{State, lift, or_code, locked}
use csi_driver_smb_hardend.Action.Runs.{or_code_at, >>=-at}
use csi_driver_smb_hardend.Node.Stage.{operation_exists}
use csi_driver_smb_hardend.Controller.{is_valid_volume_capabilities}
use csi_driver_smb_hardend.Controller.Delete.Laws.{locked_busy}
use csi_driver_smb_hardend.Controller.Create.{
  create_volume, create_locked, with_default_modes, first_capability,
}

module _ (E : Env) (d : Driver) (req : CreateVolumeRequest) (vol : SmbVolume)
    (s : State E.World) where
  -- A request that names and describes a volume comes to the lock on its name.
  create_volume_read :
      is_empty req.name ≡ false
      → is_valid_volume_capabilities req.volume_capabilities ≡ ok tt
      → new_smb_volume E.visit req.name req.required_bytes
          (entries req.parameters)
          d.default_on_delete_policy
        ≡ ok vol
      → create_volume E d req s
        ≡ locked req.name operation_exists
            (create_locked E d req
              (with_default_modes
                (E.visit default_modes)
                (first_capability req.volume_capabilities))
              (entries req.parameters)
              vol)
            s
  unfolding create_volume with_code
  create_volume_read h hc hv =
      rw (h, hc, hv)
        (>>=-at (or_code invalid_argument (lift (ok tt))) _ tt s s
            (or_code_at invalid_argument _ (ok tt) s s (unfold lift in refl))
          ∙ >>=-at (or_code invalid_argument (lift (ok vol))) _ vol s s
              (or_code_at invalid_argument _ (ok vol) s s (unfold lift in refl)))

  -- CreateVolume of a request that describes a volume, whose name is held by an operation under way,
  -- returns Aborted, and changes neither the locks nor the world.
  pub create_volume_busy :
      is_empty req.name ≡ false
      → is_valid_volume_capabilities req.volume_capabilities ≡ ok tt
      → new_smb_volume E.visit req.name req.required_bytes
          (entries req.parameters)
          d.default_on_delete_policy
        ≡ ok vol
      → is_held req.name s.locks ≡ true
      → create_volume E d req s ≡ (err (status aborted operation_exists), s)
  create_volume_busy h hc hv busy = rw (create_volume_read h hc hv) (locked_busy req.name _ s busy)
