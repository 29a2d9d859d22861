-- ===== src/Node/Mounted.antt =====
-- The mounter of a Windows node as the `mounter.Interface` of the node service: pkg/smb/nodeserver.go
-- over pkg/mounter.
use csi_driver_smb_hardend.Base.{
  ◌≡◌, sym, subst, Bool, true, false, List, [], ◌∷◌, Str, Option, some,
}
use csi_driver_smb_hardend.Errors.{Error, Result, ok, err}
use csi_driver_smb_hardend.Locks.{new_volume_locks}
use csi_driver_smb_hardend.Action.{Call, Action, pure, ◌>>=◌}
use csi_driver_smb_hardend.Action.Keeps.{Safe, Keeps}
use csi_driver_smb_hardend.Env.{Env}
use csi_driver_smb_hardend.Mounter.Interface.{MountPoint, CsiProxyMounter}

-- The host as a part of the world: what is put there is seen there.
pub record Part (W V : Type 0) : Type 0 where
  pub view : W → V
  pub put : V → W → W
  pub view-put : (v : V) (w : W) → view (put v w) ≡ v

-- A method of the mounter as a call. It takes no lock of the driver.
unfoldable pub on_host : {W V A : Type 0} → Part W V → Action V A → Call W A
on_host part m w =
    let (r, s) = m (record { locks = new_volume_locks; world = part.view w }) in
    (r, part.put s.world w)

pub on_host-Safe :
    {W V A : Type 0} (part : Part W V) (Q : V → Type 0) (m : Action V A)
    → Keeps Q m
    → Safe (λ w. Q (part.view w)) (on_host part m)
unfolding on_host
on_host-Safe part Q m keeps = record {
  kept = λ w h.
      subst Q (sym (part.view-put _ w))
        (keeps.at (record { locks = new_volume_locks; world = part.view w }) h);
}

-- The answer and the error of `IsLikelyNotMountPoint`.
unfoldable pub answer_of : Result (Bool × Option Error) → Bool × Option Error
answer_of (ok answer) = answer
answer_of (err e) = (false, some e)

-- The paths of the mount points that `List` returns.
unfoldable pub paths_of : List MountPoint → List Str
paths_of [] = []
paths_of (mp ∷ mps) = mp.path ∷ paths_of mps

-- The environment whose `mounter.Interface` is this mounter, on a part of the world.
abbrev pub with_mounter : (E : Env) {V : Type 0} → Part E.World V → CsiProxyMounter V → Env
with_mounter E part m = record E {
  is_likely_not_mount_point =
      λ path w. let (r, v) = on_host part (m.is_likely_not_mount_point path) w in (answer_of r, v);
  mount_list = on_host part (m.list >>= λ mps. pure (paths_of mps));
  bind_mount = λ source target options. on_host part (m.mount source target);
  mount_sensitive = λ source target fs_type options sensitive.
      on_host part (m.mount_sensitive source target options);
  unmount = λ target. on_host part (m.unmount target);
  is_proxy = true;
  proxy_smb_mount = λ source target fs_type options sensitive volume_id.
      on_host part (m.smb_mount source target options sensitive volume_id);
  proxy_smb_unmount = λ target volume_id. on_host part (m.smb_unmount target volume_id);
  proxy_rmdir = λ path. on_host part (m.rmdir path);
  proxy_exists_path = λ path. on_host part (m.exists_path path);
}
