-- ===== src/Mounter/Proxy/Mapped.antt =====
-- While a volume has a reference, its share is mapped.
use csi_driver_smb_hardend.Base.{
  ◌≡◌, subst, ◌⊎◌, inl, inr, Bool, true, false, Str, codes, str_eq, All,
}
use csi_driver_smb_hardend.Strings.{split}
use csi_driver_smb_hardend.Errors.{ok}
use csi_driver_smb_hardend.Action.Keeps.{Safe, Keeps}
use csi_driver_smb_hardend.Host.{Host}
use csi_driver_smb_hardend.Mounter.{get_root_mapping_path}
use csi_driver_smb_hardend.Mounter.References.{get_md5, reference_dir}
use csi_driver_smb_hardend.Mounter.References.Counted.{FileLaws, is_referenced}
use csi_driver_smb_hardend.Mounter.Proxy.{smb_unmount}
use csi_driver_smb_hardend.Mounter.Proxy.Keeps.{UnmountCalls, smb_unmount-Keeps}

-- The root of a remote path.
abbrev pub IsRoot : Str → Type 0
IsRoot mapping_path = (path : Str) × (get_root_mapping_path path ≡ ok mapping_path)

-- The root of a remote path whose parts are names of their own, not "." or "..": the directory of its
-- references is that of no other root, and no other such directory lies in it.
abbrev pub IsShare : Str → Type 0
IsShare mapping_path =
    IsRoot mapping_path
    × All (λ part. (str_eq part (codes ".") ≡ false) × (str_eq part (codes "..") ≡ false))
        (split b'\\' mapping_path)

module _ (H : Host) (laws : FileLaws H.files) (mapped : H.files.World → Str → Bool) where
  abbrev pub refers : H.files.World → Str → Str → Bool
  refers w mapping_path name = laws.has w (reference_dir H.files mapping_path) name

  -- The call adds no reference, and removes no mapping.
  pub record Quiet {A : Type 0} (f : H.files.World → A × H.files.World) : Type 0 where
    pub fewer :
        (w : H.files.World) (mapping_path name : Str)
        → IsShare mapping_path
        → refers (f w).1 mapping_path name ≡ true
        → refers w mapping_path name ≡ true
    pub stays :
        (w : H.files.World) (mapping_path : Str)
        → mapped w mapping_path ≡ true
        → mapped (f w).1 mapping_path ≡ true

  -- What the mounter relies on: the directory of the references of a root, when it is made with
  -- those above it, is a name in the directory of no share's references, a file that is made is a
  -- reference of its own share alone, a mapping that is made maps the share of its remote path, one
  -- that is removed is of that share alone, and the other calls neither add references nor remove
  -- mappings. Windows takes away a dot or a blank at the end of a name: the laws suppose that no
  -- part of a root ends with one.
  pub record ShareLaws : Type 0 where
    pub mkdir_all : (own : Str) → IsRoot own → Quiet (H.files.mkdir_all (reference_dir H.files own))
    pub write_string : (path text : Str) → Quiet (H.files.write_string path text)
    pub close : (path : Str) → Quiet (H.files.close path)
    pub remove : (path : Str) → Quiet (H.files.remove path)
    pub read_dir : (path : Str) → Quiet (H.files.read_dir path)
    pub readlink : (path : Str) → Quiet (H.readlink path)
    pub resolve_ip : (name : Str) → Quiet (H.resolve_ip name)
    pub path_exists : (path : Str) → Quiet (H.proxy.path_exists path)
    pub rmdir : (path : Str) → Quiet (H.proxy.rmdir path)
    pub new_mapping :
        (target remote_path username password : Str)
        → Quiet (H.proxy.new_smb_global_mapping target remote_path username password)
    pub maps :
        (target remote_path username password mapping_path : Str) (w : H.files.World)
        → get_root_mapping_path remote_path ≡ ok mapping_path
        → (H.proxy.new_smb_global_mapping target remote_path username password w).0 ≡ ok tt
        → mapped
            (H.proxy.new_smb_global_mapping target remote_path username password w).1
            mapping_path
          ≡ true
    pub create_stays :
        (path mapping_path : Str) (w : H.files.World)
        → mapped w mapping_path ≡ true
        → mapped (H.files.create path w).1 mapping_path ≡ true
    pub create :
        (own mapping_path file name : Str) (w : H.files.World)
        → IsRoot own
        → IsShare mapping_path
        → refers
            (H.files.create (H.files.join (reference_dir H.files own) file) w).1
            mapping_path
            name
          ≡ true
        → (mapping_path ≡ own) ⊎ (refers w mapping_path name ≡ true)
    pub removal_fewer :
        (remote_path mapping_path name : Str) (w : H.files.World)
        → IsShare mapping_path
        → refers (H.proxy.remove_smb_global_mapping remote_path w).1 mapping_path name ≡ true
        → refers w mapping_path name ≡ true
    pub removal_stays :
        (remote_path mapping_path : Str) (w : H.files.World)
        → mapped w mapping_path ≡ true
        → (get_root_mapping_path remote_path ≡ ok mapping_path)
          ⊎ (mapped (H.proxy.remove_smb_global_mapping remote_path w).1 mapping_path ≡ true)

  -- Every share, but those with "." or ".." for a part, with the reference of a volume is mapped.
  abbrev pub AllMapped : H.files.World → Type 0
  AllMapped w =
      (mapping_path id : Str)
      → IsShare mapping_path
      → is_referenced H.files laws mapping_path w id ≡ true
      → mapped w mapping_path ≡ true

  pub Quiet-Safe : {A : Type 0} (f : H.files.World → A × H.files.World) → Quiet f → Safe AllMapped f
  Quiet-Safe f q = record {
    kept = λ w h mapping_path id root r.
        q.stays w mapping_path
          (h mapping_path id root (q.fewer w mapping_path (get_md5 H.files id) root r));
  }

  module _ (shares : ShareLaws) where
    removal-AllMapped :
        (remote_path mapping_path : Str) (w : H.files.World)
        → get_root_mapping_path remote_path ≡ ok mapping_path
        → ((id : Str) → is_referenced H.files laws mapping_path w id ≡ false)
        → AllMapped w
        → AllMapped (H.proxy.remove_smb_global_mapping remote_path w).1
    removal-AllMapped remote_path mapping_path w own unused h other id root r =
        let before : is_referenced H.files laws other w id ≡ true =
          shares.removal_fewer remote_path other (get_md5 H.files id) w root r in
        elim (shares.removal_stays remote_path other w (h other id root before)) [
          | inl e ↦
              let same : mapping_path ≡ other = cc (own, e) in
              let none_left : is_referenced H.files laws other w id ≡ false =
                subst (λ m. is_referenced H.files laws m w id ≡ false) same (unused id) in
              cc (before, none_left)
          | inr e ↦ e
        ]

    unmount_calls : UnmountCalls H laws AllMapped
    unmount_calls = record {
      readlink = λ path. Quiet-Safe (H.readlink path) (shares.readlink path);
      rmdir = λ path. Quiet-Safe (H.proxy.rmdir path) (shares.rmdir path);
      mkdir_all = λ own path e. Quiet-Safe _ (shares.mkdir_all own (path, e));
      remove = λ path. Quiet-Safe (H.files.remove path) (shares.remove path);
      read_dir = λ path. Quiet-Safe (H.files.read_dir path) (shares.read_dir path);
      removal = removal-AllMapped;
    }

    pub smb_unmount-AllMapped :
        (target volume_id : Str) → Keeps AllMapped (smb_unmount H true target volume_id)
    smb_unmount-AllMapped target volume_id =
        smb_unmount-Keeps H laws AllMapped unmount_calls true target volume_id
