-- ===== src/Mounter/References/Counted.antt =====
-- The references of a share as a set of volumes.
use csi_driver_smb_hardend.Base.{
  ◌≡◌, refl, ap, sym, ◌∙◌, Bool, true, false, List, [], ◌∷◌, arith, Str, codes, str_eq, contains,
  if◌then◌else◌,
}
use csi_driver_smb_hardend.Errors.{Result, ok, err}
use csi_driver_smb_hardend.Numbers.{ℤ, pos}
use csi_driver_smb_hardend.Strings.{to_lower, trim_suffix}
use csi_driver_smb_hardend.Action.{State, Action, call, attempt, pure, deferred, continue, ◌>>=◌}
use csi_driver_smb_hardend.Action.Runs.{>>=-ok}
use csi_driver_smb_hardend.Mounter.References.{
  Files, get_md5, reference_dir, increment_volume_id_references_count,
  decrement_volume_id_references_count, count_of, files_or_error, get_volume_id_references_count,
}

-- What the functions rely on in a file system: which names a directory has, none where it is not
-- there, and how the calls change that. Making a directory gives it no names; opening, writing,
-- closing and listing change no names; a file that is made or removed is one name of its directory.
pub record FileLaws (F : Files) : Type 0 where
  pub has : F.World → Str → Str → Bool
  pub has-mkdir_all :
      (dir name : Str) (w : F.World) → has (F.mkdir_all dir w).1 dir name ≡ has w dir name
  pub has-write_string :
      (path text dir name : Str) (w : F.World)
      → has (F.write_string path text w).1 dir name ≡ has w dir name
  pub has-close :
      (path dir name : Str) (w : F.World) → has (F.close path w).1 dir name ≡ has w dir name
  pub has-read_dir :
      (path dir name : Str) (w : F.World) → has (F.read_dir path w).1 dir name ≡ has w dir name
  pub contains-read_dir :
      (path name : Str) (names : List Str) (w : F.World)
      → (F.read_dir path w).0 ≡ ok names
      → contains name names ≡ has w path name
  pub has-create :
      (dir id name : Str) (w : F.World)
      → (F.create (F.join dir (F.md5_hex id)) w).0 ≡ ok tt
      → has (F.create (F.join dir (F.md5_hex id)) w).1 dir name
        ≡ (if str_eq (F.md5_hex id) name then true else has w dir name)
  pub has-remove :
      (dir id name : Str) (w : F.World)
      → (F.remove (F.join dir (F.md5_hex id)) w).0 ≡ ok tt
      → has (F.remove (F.join dir (F.md5_hex id)) w).1 dir name
        ≡ (if str_eq (F.md5_hex id) name then false else has w dir name)

no_files_of_zero :
    (F : Files) (files : Result (List Str))
    → ◌≡◌ {A = Result ℤ} (ok (files_or_error F files)) (ok (pos 0))
    → files ≡ ok []
unfolding files_or_error count_of
no_files_of_zero F (ok []) h = refl
no_files_of_zero F (ok (file ∷ files)) h = ground arith
no_files_of_zero F (err e) h = cc

module _ (F : Files) (laws : FileLaws F) (mapping_path : Str) where
  -- The volume has a reference in the directory of the share.
  abbrev pub is_referenced : F.World → Str → Bool
  is_referenced w id = laws.has w (reference_dir F mapping_path) (get_md5 F id)

  -- A volume whose reference is removed has none afterwards, and that of a volume with another hash
  -- stays.
  pub is_referenced-decrement :
      (volume_id id : Str) (s : State F.World)
      → (decrement_volume_id_references_count F mapping_path volume_id s).0 ≡ ok tt
      → is_referenced (decrement_volume_id_references_count F mapping_path volume_id s).1.world id
        ≡ (if str_eq (get_md5 F volume_id) (get_md5 F id) then false else is_referenced s.world id)
  unfolding decrement_volume_id_references_count call
  is_referenced-decrement volume_id id s h =
      let dir : Str = reference_dir F mapping_path in
      let file : Str = F.join dir (get_md5 F volume_id) in
      let (_, _, removed, whole) =
        >>=-ok (call (F.mkdir_all dir)) (λ _. call (F.remove file)) tt s h in
      ap (λ r. is_referenced r.1.world id) whole
      ∙ unfold get_md5 in
        laws.has-remove dir (to_lower volume_id) (F.md5_hex (to_lower id))
          (F.mkdir_all dir s.world).1 removed
        ∙ rw laws.has-mkdir_all

  -- A volume to which a reference is added has one afterwards, and the others keep theirs.
  pub is_referenced-increment :
      (volume_id remote_path id : Str) (s : State F.World)
      → (increment_volume_id_references_count F mapping_path remote_path volume_id s).0 ≡ ok tt
      → is_referenced
          (increment_volume_id_references_count F mapping_path remote_path volume_id s).1.world
          id
        ≡ (if str_eq (get_md5 F volume_id) (get_md5 F id) then true else is_referenced s.world id)
  unfolding increment_volume_id_references_count call deferred
  is_referenced-increment volume_id remote_path id s h =
      let dir : Str = reference_dir F mapping_path in
      let file : Str = F.join dir (get_md5 F volume_id) in
      let text : Str = trim_suffix remote_path (codes "\\") in
      let write : Action F.World (Unit {0}) =
        deferred (call (F.close file)) (call (F.write_string file text)) in
      let (_, _, made, whole) =
        >>=-ok (call (F.mkdir_all dir)) (λ _. call (F.create file) >>= λ _. write) tt s h in
      let t : State F.World = (call (F.mkdir_all dir) s).1 in
      let (_, created, written, rest) = >>=-ok (call (F.create file)) (λ _. write) tt t made in
      ap (λ r. is_referenced r.1.world id) (whole ∙ rest)
      ∙ unfold get_md5 in
        rw (laws.has-close, laws.has-write_string)
          (laws.has-create dir (to_lower volume_id) (F.md5_hex (to_lower id))
              (F.mkdir_all dir s.world).1 created
            ∙ rw laws.has-mkdir_all)

  -- The count is 0 only where no volume has a reference.
  pub is_referenced_of_zero :
      (id : Str) (s : State F.World)
      → (get_volume_id_references_count F mapping_path s).0 ≡ ok (pos 0)
      → is_referenced (get_volume_id_references_count F mapping_path s).1.world id ≡ false
  unfolding get_volume_id_references_count call attempt pure ◌>>=◌ continue
  is_referenced_of_zero id s h =
      let dir : Str = reference_dir F mapping_path in
      let list : Action F.World (List Str) =
        call (F.mkdir_all dir) >>= λ _. call (F.read_dir dir) in
      let empty : (list s).0 ≡ ok [] = no_files_of_zero F (list s).0 h in
      let (_, _, read, whole) =
        >>=-ok (call (F.mkdir_all dir)) (λ _. call (F.read_dir dir)) [] s empty in
      ap (λ r. is_referenced r.1.world id) whole
      ∙ laws.has-read_dir dir dir (get_md5 F id) (F.mkdir_all dir s.world).1
      ∙ sym (laws.contains-read_dir dir (get_md5 F id) [] (F.mkdir_all dir s.world).1 read)
      ∙ unfold contains in refl
