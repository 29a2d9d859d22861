-- ===== src/Node/Stage/Logged.antt =====
-- NodeStageVolume of pkg/smb/nodeserver.go: the options of a mount that are logged.
use csi_driver_smb_hardend.Base.{
  ◌≡◌, refl, ap, not, Bool, true, false, List, Str, Bool-cases, inl, inr,
}
use csi_driver_smb_hardend.Errors.{Result, ok, err}
use csi_driver_smb_hardend.Csi.{VolumeCapability, NodeStageVolumeRequest}
use csi_driver_smb_hardend.Action.{State, Action, pure, continue, ◌>>=◌}
use csi_driver_smb_hardend.Options.{has_guest_mount_options}
use csi_driver_smb_hardend.Env.{Env, Driver}
use csi_driver_smb_hardend.Node.Stage.{Credentials, MountPlan, windows_plan, plan_mount}

-- A run, with the plan reduced to the options that are logged.
abbrev pub logged : {W : Type 0} → Result MountPlan × State W → Result (List Str) × State W
logged (ok plan, s) = (ok plan.options, s)
logged (err e, s) = (err e, s)

logged-continue :
    {W A : Type 0} (r : Result A) (f g : A → Action W MountPlan) (s : State W)
    → ((a : A) (t : State W) → logged (f a t) ≡ logged (g a t))
    → logged (continue r f s) ≡ logged (continue r g s)
unfolding continue
logged-continue (ok a) f g s h = h a s
logged-continue (err e) f g s h = refl

logged-bind :
    {W A : Type 0} (m : Action W A) (f g : A → Action W MountPlan) (s : State W)
    → ((a : A) (t : State W) → logged (f a t) ≡ logged (g a t))
    → logged ((m >>= f) s) ≡ logged ((m >>= g) s)
unfolding ◌>>=◌
logged-bind m f g s h = logged-continue (m s).0 f g (m s).1 h

windows_plan-options :
    (required : Bool) (c : Credentials) (password : Str)
    → (windows_plan required c).options
      ≡ (windows_plan required (record c { password = password })).options
unfolding windows_plan
windows_plan-options true c password = refl
windows_plan-options false c password = refl

-- The password of the credentials goes into no option that is logged: with another password the mount
-- is planned with the same options outside the sensitive ones, or fails with the same error, and
-- leaves the same state.
pub plan_mount-logged :
    (E : Env) (d : Driver) (req : NodeStageVolumeRequest) (cap : VolumeCapability)
    (flags : List Str) (c : Credentials) (password : Str) (s : State E.World)
    → logged (plan_mount E d req cap flags c s)
      ≡ logged (plan_mount E d req cap flags (record c { password = password }) s)
unfolding plan_mount pure
plan_mount-logged E d req cap flags c password s = elim (Bool-cases d.on_windows) [
  | inl e ↦ rw e (
      ap (λ options. (ok options, s))
        (windows_plan-options (not (has_guest_mount_options flags)) c password))
  | inr e ↦ rw e (logged-bind _ _ _ s (λ kerberos t. logged-bind _ _ _ t (λ _ u. refl)))
]
