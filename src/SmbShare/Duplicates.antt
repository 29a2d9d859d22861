-- ===== src/SmbShare/Duplicates.antt =====
-- Which mounts count as further mounts of a server.
use csi_driver_smb_hardend.Base.{
  ◌≡◌, refl, ◌∙◌, Bool, true, false, not, ◌||◌, ◌&&◌, List, [], ◌∷◌, Str, str_eq, is_empty,
  Bool-cases, inl, inr,
}
use csi_driver_smb_hardend.Errors.{Result, ok, err}
use csi_driver_smb_hardend.Strings.{equal_fold, trim_space}
use csi_driver_smb_hardend.Action.{State, call, attempt, lift, pure}
use csi_driver_smb_hardend.Action.Runs.{call_at, attempt_at, >>=-at}
use csi_driver_smb_hardend.Host.{Host}
use csi_driver_smb_hardend.SmbShare.{
  remote_of, get_remote_server_from_target, global_mount_path, same_server, links_to_server,
  is_duplicate, find_duplicate, check_for_duplicate_smb_mounts,
}

-- Whether a file with this mode, which links to this target, is a link to the server.
abbrev pub is_link_to : Str → Result Bool → Result Str → Bool
is_link_to server (ok true) (ok target) = not (is_empty target) && str_eq (trim_space target) server
is_link_to server (ok true) (err e) = false
is_link_to server (ok false) target = false
is_link_to server (err e) target = false

-- The modes and the links of the host's files in each of its worlds: reading them changes nothing.
module _ (H : Host) (mode : H.files.World → Str → Result Bool)
    (target : H.files.World → Str → Result Str)
    (lstat_lem : (path : Str) (w : H.files.World) → H.lstat path w ≡ (mode w path, w))
    (readlink_lem : (path : Str) (w : H.files.World) → H.readlink path w ≡ (target w path, w))
    (dir mount server : Str) where
  -- The entry is a directory with a mount point other than this one, which links to the server.
  abbrev pub is_other_mount : H.files.World → Str × Bool → Bool
  is_other_mount w (name, is_dir) =
      let path = global_mount_path H dir name in
      (is_dir && not (equal_fold (H.clean path) (H.clean mount)))
      && is_link_to server (mode w path) (target w path)

  abbrev pub any_other_mount : H.files.World → List (Str × Bool) → Bool
  any_other_mount w [] = false
  any_other_mount w (entry ∷ entries) = is_other_mount w entry || any_other_mount w entries

  get_remote_server_from_target_lem :
      (path : Str) (s : State H.files.World)
      → get_remote_server_from_target H path s ≡ (remote_of H (target s.world path), s)
  unfolding get_remote_server_from_target lift
  get_remote_server_from_target_lem path s = >>=-at _ _ (target s.world path) s s (
      attempt_at _ (target s.world path) s s
        (call_at (H.readlink path) (target s.world path) s s.world (readlink_lem path s.world)))

  same_server_lem :
      (link : Result Str)
      → same_server H server (remote_of H link) ≡ is_link_to server (ok true) link
  unfolding same_server remote_of
  same_server_lem (ok []) = refl
  same_server_lem (ok (c ∷ link)) = refl
  same_server_lem (err e) = refl

  links_to_server_lem :
      (path : Str) (m : Result Bool) (s : State H.files.World)
      → links_to_server H path server m s ≡ (ok (is_link_to server m (target s.world path)), s)
  unfolding links_to_server pure
  links_to_server_lem path (ok true) s =
      >>=-at (attempt (get_remote_server_from_target H path)) _ (remote_of H (target s.world path))
        s s (attempt_at _ _ s s (get_remote_server_from_target_lem path s))
      ∙ rw same_server_lem
  links_to_server_lem path (ok false) s = refl
  links_to_server_lem path (err e) s = refl

  is_duplicate_lem :
      (entry : Str × Bool) (s : State H.files.World)
      → is_duplicate H dir mount server entry s ≡ (ok (is_other_mount s.world entry), s)
  unfolding is_duplicate pure
  is_duplicate_lem (name, false) s = refl
  is_duplicate_lem (name, true) s =
      let path : Str = global_mount_path H dir name in
      elim (Bool-cases (equal_fold (H.clean path) (H.clean mount))) [
        | inl e ↦ rw e
        | inr e ↦ rw e (
            >>=-at (attempt (call (H.lstat path))) (links_to_server H path server)
              (mode s.world path) s s
              (attempt_at _ _ s s
                (call_at (H.lstat path) (mode s.world path) s s.world (lstat_lem path s.world)))
            ∙ links_to_server_lem path (mode s.world path) s)
      ]

  find_duplicate_lem :
      (entries : List (Str × Bool)) (s : State H.files.World)
      → find_duplicate H dir mount server entries s ≡ (ok (any_other_mount s.world entries), s)
  unfolding find_duplicate pure
  find_duplicate_lem [] s = refl
  find_duplicate_lem (entry ∷ entries) s =
      >>=-at (is_duplicate H dir mount server entry) _ (is_other_mount s.world entry) s s
        (is_duplicate_lem entry s)
      ∙ elim (Bool-cases (is_other_mount s.world entry)) [
        | inl e ↦ rw e
        | inr e ↦ rw e (find_duplicate_lem entries s)
      ]

  -- Where reading the links of the host changes nothing, CheckForDuplicateSMBMounts finds a mount
  -- exactly when, in the world behind the listing, some entry is a directory whose mount point is
  -- not this one and is a link to the server; the errors of single entries do not stop it, and it
  -- changes nothing but by the listing.
  pub check_for_duplicate_smb_mounts_lem :
      (entries : List (Str × Bool)) (s : State H.files.World) (w : H.files.World)
      → H.read_entries dir s.world ≡ (ok entries, w)
      → check_for_duplicate_smb_mounts H dir mount server s
        ≡ (ok (any_other_mount w entries), record s { world = w })
  unfolding check_for_duplicate_smb_mounts
  check_for_duplicate_smb_mounts_lem entries s w e =
      >>=-at (call (H.read_entries dir)) (find_duplicate H dir mount server) entries s
        (record s { world = w }) (call_at (H.read_entries dir) (ok entries) s w e)
      ∙ find_duplicate_lem entries (record s { world = w })
