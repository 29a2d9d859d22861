-- ===== src/Mounter/References/History.antt =====
-- The references of a share after a history of mounts and unmounts.
use csi_driver_smb_hardend.Base.{
  ◌≡◌, refl, ap, ◌∙◌, arith, All, str_eq_iff, Bool, true, false, List, [], ◌∷◌, Str, str_eq,
  if◌then◌else◌,
}
use csi_driver_smb_hardend.Errors.{ok}
use csi_driver_smb_hardend.Strings.{to_lower}
use csi_driver_smb_hardend.Action.{State}
use csi_driver_smb_hardend.Mounter.References.{
  Files, get_md5, increment_volume_id_references_count, decrement_volume_id_references_count,
}
use csi_driver_smb_hardend.Mounter.References.Counted.{
  FileLaws, is_referenced, is_referenced-increment, is_referenced-decrement,
}

-- What SMBMount and SMBUnmount do to the references of one share.
pub data Change : Type 0 where
  mounts : (remote_path volume_id : Str) → Change
  unmounts : (volume_id : Str) → Change

-- The volumes whose ids the changes name.
abbrev pub volumes_of : List Change → List Str
volumes_of [] = []
volumes_of (mounts remote_path volume_id ∷ changes) = volume_id ∷ volumes_of changes
volumes_of (unmounts volume_id ∷ changes) = volume_id ∷ volumes_of changes

-- Whether a volume is mounted after the changes, where `mounted` says whether it was so before: a
-- mount of the id, in any case of letters, mounts it, and an unmount of the id ends that.
abbrev pub replay : List Change → Str → Bool → Bool
replay [] id mounted = mounted
replay (mounts remote_path volume_id ∷ changes) id mounted =
    replay changes id (if str_eq (to_lower volume_id) (to_lower id) then true else mounted)
replay (unmounts volume_id ∷ changes) id mounted =
    replay changes id (if str_eq (to_lower volume_id) (to_lower id) then false else mounted)

module _ (F : Files) where
  -- The hashes of the two ids tell them apart, but for the case of letters.
  abbrev pub ToldApart : Str → Str → Type 0
  ToldApart id other =
      F.md5_hex (to_lower other) ≡ F.md5_hex (to_lower id) → to_lower other ≡ to_lower id

  str_eq-get_md5 :
      (other id : Str)
      → ToldApart id other
      → str_eq (get_md5 F other) (get_md5 F id) ≡ str_eq (to_lower other) (to_lower id)
  unfolding get_md5
  str_eq-get_md5 other id apart = ground (
    arith,
    str_eq_iff (F.md5_hex (to_lower other)) (F.md5_hex (to_lower id)),
    str_eq_iff (to_lower other) (to_lower id),
    ap F.md5_hex,
  )

  module _ (mapping_path : Str) where
    -- A history in which every change succeeds, from a state to a state.
    pub data History : List Change → State F.World → State F.World → Type 0 where
      nothing : (s : State F.World) → History [] s s
      mounted :
          {changes : List Change} {s t : State F.World} (remote_path volume_id : Str)
          → (increment_volume_id_references_count F mapping_path remote_path volume_id s).0 ≡ ok tt
          → History changes
              (increment_volume_id_references_count F mapping_path remote_path volume_id s).1
              t
          → History (mounts remote_path volume_id ∷ changes) s t
      unmounted :
          {changes : List Change} {s t : State F.World} (volume_id : Str)
          → (decrement_volume_id_references_count F mapping_path volume_id s).0 ≡ ok tt
          → History changes (decrement_volume_id_references_count F mapping_path volume_id s).1 t
          → History (unmounts volume_id ∷ changes) s t

    module _ (laws : FileLaws F) where
      -- The files of the share stand for the set of the volumes that are mounted, where a volume is
      -- its id up to the case of letters: after a history of changes that succeed, and with no id in
      -- it whose MD5 hash is that of the volume although the ids differ by more than case, the
      -- volume has a reference exactly if the history, replayed on whether it had one before, leaves
      -- it mounted.
      pub is_referenced-replay :
          {changes : List Change} {s t : State F.World}
          → History changes s t
          → (id : Str) → All (ToldApart id) (volumes_of changes)
          → is_referenced F laws mapping_path t.world id
            ≡ replay changes id (is_referenced F laws mapping_path s.world id)
      is_referenced-replay (nothing s) id apart = refl
      is_referenced-replay (mounted {changes} {s} {t} remote_path volume_id e rest) id apart =
          is_referenced-replay rest id apart.1
          ∙ ap (replay changes id) (
              is_referenced-increment F laws mapping_path volume_id remote_path id s e
              ∙ rw (str_eq-get_md5 volume_id id apart.0) refl)
      is_referenced-replay (unmounted {changes} {s} {t} volume_id e rest) id apart =
          is_referenced-replay rest id apart.1
          ∙ ap (replay changes id) (
              is_referenced-decrement F laws mapping_path volume_id id s e
              ∙ rw (str_eq-get_md5 volume_id id apart.0) refl)
