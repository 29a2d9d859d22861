-- ===== src/Mounter/Proxy/Keeps.antt =====
-- When the mapping of a share is removed.
use csi_driver_smb_hardend.Base.{zero, suc, ◌≡◌, Bool, true, false, Str, codes, inl, inr}
use csi_driver_smb_hardend.Errors.{Result, ok, err}
use csi_driver_smb_hardend.Numbers.{ℤ, pos, negsuc}
use csi_driver_smb_hardend.Strings.{trim_suffix}
use csi_driver_smb_hardend.Action.{State, call, attempt, pure, or_plain}
use csi_driver_smb_hardend.Action.Keeps.{
  Safe, Keeps, Keeps-bind, Keeps-bind_value, Keeps-bind-lift, Keeps-bind-lift_err, Keeps-call,
  Keeps-attempt, Result-cases, keeps_rules,
}
use csi_driver_smb_hardend.Host.{Host}
use csi_driver_smb_hardend.Mounter.{get_root_mapping_path}
use csi_driver_smb_hardend.Mounter.References.{
  reference_dir, decrement_volume_id_references_count, get_volume_id_references_count,
}
use csi_driver_smb_hardend.Mounter.References.Counted.{
  FileLaws, is_referenced, is_referenced_of_zero,
}
use csi_driver_smb_hardend.Mounter.Proxy.{
  rmdir, mapping_of, remove_unused, drop_reference, unmap_share, smb_unmount,
}

-- The calls that an unmount may make: the removal of the mapping of a remote path only in a world in
-- which no volume has a reference in the directory of its root.
pub record UnmountCalls (H : Host) (laws : FileLaws H.files) (P : H.files.World → Type 0)
    : Type 0 where
  pub readlink : (path : Str) → Safe P (H.readlink path)
  pub rmdir : (path : Str) → Safe P (H.proxy.rmdir path)
  pub mkdir_all :
      (mapping_path remote_path : Str)
      → get_root_mapping_path remote_path ≡ ok mapping_path
      → Safe P (H.files.mkdir_all (reference_dir H.files mapping_path))
  pub remove : (path : Str) → Safe P (H.files.remove path)
  pub read_dir : (path : Str) → Safe P (H.files.read_dir path)
  pub removal :
      (remote_path mapping_path : Str) (w : H.files.World)
      → get_root_mapping_path remote_path ≡ ok mapping_path
      → ((id : Str) → is_referenced H.files laws mapping_path w id ≡ false)
      → P w
      → P (H.proxy.remove_smb_global_mapping remote_path w).1

module _ (H : Host) (laws : FileLaws H.files) (P : H.files.World → Type 0)
    (calls : UnmountCalls H laws P) where
  mkdir_all-Keeps :
      (mapping_path remote_path : Str)
      → get_root_mapping_path remote_path ≡ ok mapping_path
      → Keeps P (call (H.files.mkdir_all (reference_dir H.files mapping_path)))
  mkdir_all-Keeps mapping_path remote_path root =
      Keeps-call _ (calls.mkdir_all mapping_path remote_path root)

  decrement-Keeps :
      (mapping_path remote_path volume_id : Str)
      → get_root_mapping_path remote_path ≡ ok mapping_path
      → Keeps P (decrement_volume_id_references_count H.files mapping_path volume_id)
  unfolding decrement_volume_id_references_count
  decrement-Keeps mapping_path remote_path volume_id root =
      search (keeps_rules, mkdir_all-Keeps mapping_path remote_path root, calls.remove) depth 8

  count-Keeps :
      (mapping_path remote_path : Str)
      → get_root_mapping_path remote_path ≡ ok mapping_path
      → Keeps P (get_volume_id_references_count H.files mapping_path)
  unfolding get_volume_id_references_count
  count-Keeps mapping_path remote_path root =
      Keeps-bind (attempt _) _
        (Keeps-attempt _ (
          Keeps-bind _ _ (mkdir_all-Keeps mapping_path remote_path root)
            (λ _. search (keeps_rules, calls.read_dir))))
        (λ files. search keeps_rules)

  remove_unused-at :
      (remote_path mapping_path : Str) (count : ℤ) (s : State H.files.World)
      → get_root_mapping_path remote_path ≡ ok mapping_path
      → (get_volume_id_references_count H.files mapping_path s).0 ≡ ok count
      → P (get_volume_id_references_count H.files mapping_path s).1.world
      → P
          (remove_unused H remote_path count
            (get_volume_id_references_count H.files mapping_path s).1).1.world
  unfolding remove_unused or_plain call pure
  remove_unused-at remote_path mapping_path (pos zero) s root counted h =
      calls.removal remote_path mapping_path
        (get_volume_id_references_count H.files mapping_path s).1.world root
        (λ id. is_referenced_of_zero H.files laws mapping_path id s counted) h
  remove_unused-at remote_path mapping_path (pos (suc n)) s root counted h = h
  remove_unused-at remote_path mapping_path (negsuc n) s root counted h = h

  drop_reference-Keeps :
      (remote_path mapping_path volume_id : Str)
      → get_root_mapping_path remote_path ≡ ok mapping_path
      → Keeps P (drop_reference H remote_path mapping_path volume_id)
  unfolding drop_reference
  drop_reference-Keeps remote_path mapping_path volume_id root =
      Keeps-bind (or_plain _ (decrement_volume_id_references_count H.files mapping_path volume_id))
        _ (search (keeps_rules, decrement-Keeps mapping_path remote_path volume_id root))
        (λ _.
          Keeps-bind_value (get_volume_id_references_count H.files mapping_path)
            (remove_unused H remote_path) (count-Keeps mapping_path remote_path root)
            (λ count s. remove_unused-at remote_path mapping_path count s root))

  unmap_share-Keeps :
      (removes : Bool) (volume_id : Str) (link : Result Str)
      → Keeps P (unmap_share H removes volume_id link)
  unfolding unmap_share mapping_of
  unmap_share-Keeps removes volume_id (err e) = search keeps_rules
  unmap_share-Keeps false volume_id (ok link) = search keeps_rules depth 8
  unmap_share-Keeps true volume_id (ok link) =
      elim (Result-cases (get_root_mapping_path (trim_suffix link (codes "\\")))) [
        | inl (mapping_path, e) ↦ rw e (
            Keeps-bind-lift mapping_path _
              (drop_reference-Keeps (trim_suffix link (codes "\\")) mapping_path volume_id e))
        | inr (c, e) ↦ rw e (Keeps-bind-lift_err {A = Str} _ _)
      ]

  -- An unmount by the mounter over csi-proxy removes a mapping only in a world in which no volume of
  -- the share has a reference left: an invariant that the calls of `UnmountCalls` keep, it keeps.
  pub smb_unmount-Keeps :
      (removes : Bool) (target volume_id : Str) → Keeps P (smb_unmount H removes target volume_id)
  unfolding smb_unmount rmdir
  smb_unmount-Keeps removes target volume_id =
      search (keeps_rules, unmap_share-Keeps, calls.readlink, calls.rmdir) depth 10
