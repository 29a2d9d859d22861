-- ===== src/Controller/Delete/Laws.antt =====
-- What `DeleteVolume` leaves alone.
use csi_driver_smb_hardend.Base.{
  ◌≡◌, ap, arith, true, false, [], Str, codes, is_empty, ◌⊎◌, inl, inr, if◌then◌else◌,
}
use csi_driver_smb_hardend.Strings.{equal_fold}
use csi_driver_smb_hardend.Errors.{status, aborted, Result, ok, err}
use csi_driver_smb_hardend.Locks.{try_acquire}
use csi_driver_smb_hardend.Locks.Laws.{try_acquire_refused, is_held, release-try_acquire}
use csi_driver_smb_hardend.Volume.{SmbVolume, get_smb_vol_from_id}
use csi_driver_smb_hardend.Csi.{DeleteVolumeRequest}
use csi_driver_smb_hardend.Env.{Env, Driver}
use csi_driver_smb_hardend.Action.{State, Action, locked, release_after, ask}
use csi_driver_smb_hardend.Node.Stage.{operation_exists}
use csi_driver_smb_hardend.Controller.Delete.{
  with_policy, keeps_sub_dir, note_deleted, delete_locked, delete_parsed, delete_volume,
}

module _ {W A : Type 0} (key : Str) (body : Action W A) (s : State W) where
  -- The state in which the body of a locked operation runs.
  abbrev inside : State W
  inside = record { locks = (try_acquire key s.locks).1; world = s.world }

  pub locked_busy :
      is_held key s.locks ≡ true
      → locked key operation_exists body s ≡ (err (status aborted operation_exists), s)
  unfolding locked
  locked_busy h =
      let refused : (try_acquire key s.locks).0 ≡ false = unfold try_acquire in rw h in
      rw (refused, locked)
        (ap (λ vl. (err (status aborted operation_exists), record s { locks = vl }))
          (try_acquire_refused key s.locks refused))

  locked_free :
      is_held key s.locks ≡ false
      → locked key operation_exists body s ≡ release_after key (body inside)
  unfolding locked
  locked_free h =
      let got : (try_acquire key s.locks).0 ≡ true = unfold try_acquire in rw h in rw (got, locked)

  release_after-inside :
      is_held key s.locks ≡ false
      → (r : Result A) (w : W)
      → release_after key (r, record inside { world = w }) ≡ (r, record s { world = w })
  unfolding release_after
  release_after-inside h r w =
      let got : (try_acquire key s.locks).0 ≡ true = unfold try_acquire in rw h in
      ap (λ vl. (r, record s { locks = vl; world = w })) (release-try_acquire key s.locks got)

module _ (E : Env) (d : Driver) (req : DeleteVolumeRequest) (vol : SmbVolume)
    (s : State E.World) where
  delete_volume_read :
      is_empty req.volume_id ≡ false
      → get_smb_vol_from_id req.volume_id ≡ ok vol
      → delete_volume E d req s
        ≡ locked req.volume_id operation_exists (delete_locked E d req (with_policy d vol)) s
  unfolding delete_volume delete_parsed
  delete_volume_read h e = rw (h, e)

  delete_locked_kept :
      keeps_sub_dir E req (with_policy d vol) ≡ true
      → (t : State E.World)
      → delete_locked E d req (with_policy d vol) t
        ≡ (ok tt, record t { world = E.deletion_cache_set req.volume_id [] t.world })
  unfolding delete_locked note_deleted ask
  delete_locked_kept kept t = rw kept

  -- The action that the id asks for, or else that of the driver.
  abbrev pub action : Str
  action = if is_empty vol.on_delete then d.default_on_delete_policy else vol.on_delete

  keeps_sub_dir_of_retain :
      (req.secrets ≡ []) ⊎ (equal_fold action (codes "retain") ≡ true)
      → keeps_sub_dir E req (with_policy d vol) ≡ true
  unfolding keeps_sub_dir with_policy
  keeps_sub_dir_of_retain (inl e) = rw e
  keeps_sub_dir_of_retain (inr e) = ground arith

  -- DeleteVolume of a readable id with no operation under way, where the request has no secrets or the
  -- action of the id, or else the default one of the driver, is "retain" in any case of letters,
  -- succeeds, leaves the locks as they were, and makes no call but that which enters the id in the
  -- cache of deletions.
  pub delete_volume_retains :
      is_empty req.volume_id ≡ false
      → get_smb_vol_from_id req.volume_id ≡ ok vol
      → is_held req.volume_id s.locks ≡ false
      → (req.secrets ≡ []) ⊎ (equal_fold action (codes "retain") ≡ true)
      → delete_volume E d req s
        ≡ (ok tt, record { locks = s.locks; world = E.deletion_cache_set req.volume_id [] s.world })
  delete_volume_retains h e free retained =
      rw
        (
          delete_volume_read h e,
          locked_free req.volume_id (delete_locked E d req (with_policy d vol)) s free,
          delete_locked_kept (keeps_sub_dir_of_retain retained) _,
        )
        (release_after-inside req.volume_id (delete_locked E d req (with_policy d vol)) s free
          (ok tt) _)
