-- ===== src/Tests/Shares.antt =====
-- A history of mounts and unmounts at a concrete input: a host whose world is the list of the
-- references, each with its directory, and the list of the shares that are mapped.
mod OnNode
use csi_driver_smb_hardend.Base.{
  ℕ, zero, suc, ◌≡◌, refl, ap, sym, subst, ◌∙◌, ◌⊎◌, inl, inr, arith, Bool, true, false, ◌||◌, ◌&&◌,
  List, [], ◌∷◌, ◌++◌, none, Str, codes, str_eq, str_eq_iff, str_eq_refl, length, drop, contains,
  without, contains-without, if◌then◌else◌, Bool-cases, leb, ltb, length-append,
}
use csi_driver_smb_hardend.Errors.{Result, ok, err}
use csi_driver_smb_hardend.Locks.{new_volume_locks}
use csi_driver_smb_hardend.Action.{State, Call}
use csi_driver_smb_hardend.Host.{Client, Host}
use csi_driver_smb_hardend.Strings.{has_prefix, trim_prefix, to_lower}
use csi_driver_smb_hardend.Mounter.{get_root_mapping_path, root_of_parts}
use csi_driver_smb_hardend.Mounter.References.{Files, base_path, reference_dir}
use csi_driver_smb_hardend.Mounter.References.Counted.{FileLaws}
use csi_driver_smb_hardend.Mounter.Proxy.{smb_mount, smb_unmount}
use csi_driver_smb_hardend.Mounter.Proxy.Mapped.{IsRoot, IsShare, Quiet, ShareLaws, AllMapped}
use csi_driver_smb_hardend.Mounter.Proxy.Sessions.{here, mounted, unmounted, Session-AllMapped}
use csi_driver_smb_hardend.Startup.Mounters.{proxy_mounter}
use csi_driver_smb_hardend.Mounter.Proxy.Methods.{as_mounter}

record Shares : Type 0 where
  references : List (Str × Str)
  mappings : List Str

refers_to : List (Str × Str) → Str → Str → Bool
refers_to [] dir name = false
refers_to ((d, n) ∷ refs) dir name = (str_eq d dir && str_eq n name) || refers_to refs dir name

without_reference : Str → Str → List (Str × Str) → List (Str × Str)
without_reference dir name [] = []
without_reference dir name ((d, n) ∷ refs) =
    let rest = without_reference dir name refs in
    if str_eq d dir && str_eq n name then rest else (d, n) ∷ rest

names_in : Str → List (Str × Str) → List Str
names_in dir [] = []
names_in dir ((d, n) ∷ refs) =
    let rest = names_in dir refs in if str_eq d dir then n ∷ rest else rest

contains-names_in :
    (dir name : Str) (refs : List (Str × Str))
    → contains name (names_in dir refs) ≡ refers_to refs dir name
unfolding contains names_in refers_to
contains-names_in dir name [] = refl
contains-names_in dir name ((d, n) ∷ refs) = ground (arith, contains-names_in dir name refs)

refers_to-without :
    (dir name other file : Str) (refs : List (Str × Str))
    → refers_to (without_reference dir name refs) other file
      ≡ (if str_eq dir other && str_eq name file then false else refers_to refs other file)
unfolding refers_to without_reference
refers_to-without dir name other file [] = ground arith
refers_to-without dir name other file ((d, n) ∷ refs) = ground (
  arith,
  refers_to-without dir name other file refs,
  str_eq_iff dir other,
  str_eq_iff name file,
  str_eq_iff d dir,
  str_eq_iff n name,
  str_eq_iff d other,
  str_eq_iff n file,
)

-- The first bytes of a text.
front : ℕ → Str → Str
front zero s = []
front (suc n) [] = []
front (suc n) (c ∷ s) = c ∷ front n s

-- A path with the length of its directory in front.
abbrev joined : Str → Str → Str
joined dir name = length dir ∷ (dir ++ name)

abbrev dir_of : Str → Str
dir_of [] = []
dir_of (n ∷ path) = front n path

abbrev name_of : Str → Str
name_of [] = []
name_of (n ∷ path) = drop n path

front-append : (s t : Str) → front (length s) (s ++ t) ≡ s
unfolding front
front-append [] t = refl
front-append (c ∷ s) t = ap (λ u. c ∷ u) (front-append s t)

drop-append : (s t : Str) → drop (length s) (s ++ t) ≡ t
drop-append [] t = refl
drop-append (c ∷ s) t = drop-append s t

-- A directory that is made is a name of the directory above it.
abbrev with_dir : Str → List (Str × Str) → List (Str × Str)
with_dir [] refs = refs
with_dir (n ∷ path) refs = (front n path, drop n path) ∷ refs

abbrev silent : {A : Type 0} → A → Call Shares A
silent a w = (ok a, w)

abbrev share_files : Files
share_files = record {
  World = Shares;
  join = joined;
  md5_hex = λ s. s;
  mkdir_all = λ path w. (ok tt, record w { references = with_dir path w.references });
  create = λ path w. (ok tt, record w { references = (dir_of path, name_of path) ∷ w.references });
  write_string = λ path text. silent tt;
  close = λ path. silent tt;
  remove = λ path w. (
    ok tt,
    record w { references = without_reference (dir_of path) (name_of path) w.references },
  );
  read_dir = λ path w. (ok (names_in path w.references), w);
}

length-front : (n : ℕ) (s : Str) → leb (length (front n s)) (length s) ≡ true
unfolding front
length-front zero s = ground arith
length-front (suc n) [] = ground arith
length-front (suc n) (c ∷ s) = ground (arith, length-front n s)

ne_of_longer : (s t : Str) → ltb (length s) (length t) ≡ true → str_eq s t ≡ false
ne_of_longer s t h = elim (Bool-cases (str_eq s t)) [
  | inl e ↦ absurd (ground (arith, ap length ((str_eq_iff s t).0 e)))
  | inr e ↦ e
]

refers_to-with_dir :
    (dir name : Str) (refs : List (Str × Str))
    → refers_to (with_dir dir refs) dir name ≡ refers_to refs dir name
unfolding refers_to
refers_to-with_dir [] name refs = refl
refers_to-with_dir (n ∷ path) name refs =
    rw (ne_of_longer (front n path) (n ∷ path) (ground (arith, length-front n path))) refl

refers_to-create :
    (dir id other name : Str) (refs : List (Str × Str))
    → refers_to ((front (length dir) (dir ++ id), drop (length dir) (dir ++ id)) ∷ refs) other name
      ≡ ((str_eq dir other && str_eq id name) || refers_to refs other name)
unfolding refers_to
refers_to-create dir id other name refs = rw (front-append dir id, drop-append dir id)

refers_to-create_same :
    (dir id name : Str) (refs : List (Str × Str))
    → refers_to ((front (length dir) (dir ++ id), drop (length dir) (dir ++ id)) ∷ refs) dir name
      ≡ (if str_eq id name then true else refers_to refs dir name)
refers_to-create_same dir id name refs =
    refers_to-create dir id dir name refs ∙ ground (arith, str_eq_refl dir)

refers_to-remove :
    (dir id name : Str) (refs : List (Str × Str))
    → refers_to
        (without_reference (front (length dir) (dir ++ id)) (drop (length dir) (dir ++ id)) refs)
        dir
        name
      ≡ (if str_eq id name then false else refers_to refs dir name)
refers_to-remove dir id name refs =
    rw (front-append dir id, drop-append dir id)
      (refers_to-without dir id dir name refs ∙ ground (arith, str_eq_refl dir))

contains_of_listed :
    (dir name : Str) (names : List Str) (refs : List (Str × Str))
    → ok (names_in dir refs) ≡ ok names
    → contains name names ≡ refers_to refs dir name
contains_of_listed dir name names refs e = ground (arith, contains-names_in dir name refs)

abbrev share_files_laws : FileLaws share_files
share_files_laws = record {
  has = λ w dir name. refers_to w.references dir name;
  has-mkdir_all = λ dir name w. refers_to-with_dir dir name w.references;
  has-write_string = λ path text dir name w. refl;
  has-close = λ path dir name w. refl;
  has-read_dir = λ path dir name w. refl;
  contains-read_dir = λ path name names w e. contains_of_listed path name names w.references e;
  has-create = λ dir id name w e. refers_to-create_same dir id name w.references;
  has-remove = λ dir id name w e. refers_to-remove dir id name w.references;
}

-- The root of a path is mapped with the path.
with_root : Result Str → List Str → List Str
with_root (ok mapping_path) shares = mapping_path ∷ shares
with_root (err e) shares = shares

without_root : Result Str → List Str → List Str
without_root (ok mapping_path) shares = without mapping_path shares
without_root (err e) shares = shares

abbrev share_client : Client Shares
share_client = record {
  mkdir = λ path. silent tt;
  rmdir = λ path. silent tt;
  path_exists = λ path. silent true;
  link = λ source target. silent tt;
  is_link = λ path. silent true;
  new_smb_global_mapping = λ target remote username password w.
      (ok tt, record w { mappings = with_root (get_root_mapping_path remote) w.mappings });
  remove_smb_global_mapping = λ remote w.
      (ok tt, record w { mappings = without_root (get_root_mapping_path remote) w.mappings });
}

abbrev share_host : Host
share_host = record {
  files = share_files;
  dir = λ path. path;
  clean = λ path. path;
  lstat = λ path. silent true;
  readlink = λ path. silent (codes "\\\\host\\share");
  symlink = λ source target. silent tt;
  remove_all = λ path. silent tt;
  read_entries = λ path. silent [];
  resolve_ip = λ name. silent (codes "10.0.0.1");
  powershell = λ command envs w. ((codes "OK", none), w);
  proxy = share_client;
  proxy_beta = share_client;
}

abbrev is_mapped : Shares → Str → Bool
is_mapped w mapping_path = contains mapping_path w.mappings

unseen : {A : Type 0} (a : A) → Quiet share_host share_files_laws is_mapped (silent a)
unseen a = record { fewer = λ w mapping_path name root h. h; stays = λ w mapping_path h. h }

ok-injective : {A : Type 0} {a b : A} → ok a ≡ ok b → a ≡ b
ok-injective e = cc e

root_of_parts-prefix :
    (parts : List Str) (mapping_path : Str)
    → root_of_parts parts ≡ ok mapping_path
    → mapping_path ≡ codes "\\\\" ++ trim_prefix mapping_path (codes "\\\\")
unfolding root_of_parts trim_prefix has_prefix to_lower
root_of_parts-prefix [] mapping_path e = cc e
root_of_parts-prefix (host ∷ []) mapping_path e = cc e
root_of_parts-prefix (host ∷ share ∷ rest) mapping_path e =
    subst (λ m. m ≡ codes "\\\\" ++ trim_prefix m (codes "\\\\")) (ok-injective e) refl

IsRoot-prefix :
    (mapping_path : Str)
    → IsRoot mapping_path
    → mapping_path ≡ codes "\\\\" ++ trim_prefix mapping_path (codes "\\\\")
unfolding get_root_mapping_path
IsRoot-prefix mapping_path (path, e) = root_of_parts-prefix _ mapping_path e

-- Shares with different roots have different directories.
reference_dir-injective :
    (own other : Str)
    → IsRoot own
    → IsRoot other
    → reference_dir share_files own ≡ reference_dir share_files other
    → other ≡ own
unfolding reference_dir
reference_dir-injective own other own_root other_root e =
    let rests : trim_prefix own (codes "\\\\") ≡ trim_prefix other (codes "\\\\") = cc e in
    IsRoot-prefix other other_root
    ∙ ap (λ r. codes "\\\\" ++ r) (sym rests)
    ∙ sym (IsRoot-prefix own own_root)

removed_reference :
    (path : Str) → Quiet share_host share_files_laws is_mapped (share_files.remove path)
removed_reference path = record {
  fewer = λ w mapping_path name root h.
      fewer_references (dir_of path) (name_of path) (reference_dir share_files mapping_path) name
        w.references h;
  stays = λ w mapping_path h. h;
}
  where
    fewer_references :
        (dir name other file : Str) (refs : List (Str × Str))
        → refers_to (without_reference dir name refs) other file ≡ true
        → refers_to refs other file ≡ true
    fewer_references dir name other file refs h =
        ground (arith, refers_to-without dir name other file refs)

fewer_dirs :
    (own mapping_path name : Str) (refs : List (Str × Str))
    → refers_to
        (with_dir (reference_dir share_files own) refs)
        (reference_dir share_files mapping_path)
        name
      ≡ true
    → refers_to refs (reference_dir share_files mapping_path) name ≡ true
unfolding reference_dir refers_to
fewer_dirs own mapping_path name refs h =
    let rest : Str = trim_prefix mapping_path (codes "\\\\") in
    let other : str_eq base_path (reference_dir share_files mapping_path) ≡ false =
      ne_of_longer base_path (joined base_path rest)
        (ground (arith, length-append base_path rest)) in
    let read =
      refers_to-create base_path (trim_prefix own (codes "\\\\"))
        (reference_dir share_files mapping_path) name refs in
    ground (arith, read)

-- The directory of the references of a root is made in that of no share.
made_dir :
    (own : Str)
    → Quiet share_host share_files_laws is_mapped
        (share_files.mkdir_all (reference_dir share_files own))
made_dir own = record {
  fewer = λ w mapping_path name root h. fewer_dirs own mapping_path name w.references h;
  stays = λ w mapping_path h. h;
}

contains-with_root :
    (root : Result Str) (mapping_path : Str) (shares : List Str)
    → contains mapping_path shares ≡ true
    → contains mapping_path (with_root root shares) ≡ true
unfolding with_root contains
contains-with_root (ok own) mapping_path shares h = ground arith
contains-with_root (err e) mapping_path shares h = h

made_mapping :
    (target remote username password : Str)
    → Quiet share_host share_files_laws is_mapped
        (share_client.new_smb_global_mapping target remote username password)
made_mapping target remote username password = record {
  fewer = λ w mapping_path name root h. h;
  stays = λ w mapping_path h.
      contains-with_root (get_root_mapping_path remote) mapping_path w.mappings h;
}

contains_made :
    (root : Result Str) (own : Str) (shares : List Str)
    → root ≡ ok own
    → contains own (with_root root shares) ≡ true
unfolding with_root contains
contains_made root own shares e = rw (e, str_eq_refl)

stays_or_own :
    (root : Result Str) (mapping_path : Str) (shares : List Str)
    → contains mapping_path shares ≡ true
    → (root ≡ ok mapping_path) ⊎ (contains mapping_path (without_root root shares) ≡ true)
unfolding without_root
stays_or_own (err e) mapping_path shares h = inr h
stays_or_own (ok own) mapping_path shares h = elim (Bool-cases (str_eq own mapping_path)) [
  | inl same ↦ inl (ap ok ((str_eq_iff own mapping_path).0 same))
  | inr other ↦ inr (ground (arith, contains-without own mapping_path shares))
]

made_reference :
    (own mapping_path file name : Str) (refs : List (Str × Str))
    → IsRoot own
    → IsShare mapping_path
    → refers_to
        ((
          dir_of (joined (reference_dir share_files own) file),
          name_of (joined (reference_dir share_files own) file),
        )
          ∷ refs)
        (reference_dir share_files mapping_path)
        name
      ≡ true
    → (mapping_path ≡ own) ⊎ (refers_to refs (reference_dir share_files mapping_path) name ≡ true)
made_reference own mapping_path file name refs own_root root h =
    let read : ((str_eq (reference_dir share_files own) (reference_dir share_files mapping_path)
            && str_eq file name)
          || refers_to refs (reference_dir share_files mapping_path) name)
        ≡ true =
      sym (
        refers_to-create (reference_dir share_files own) file
          (reference_dir share_files mapping_path) name refs)
      ∙ h in
    elim (Bool-cases
      (str_eq (reference_dir share_files own) (reference_dir share_files mapping_path))) [
        | inl same ↦
            inl (reference_dir-injective own mapping_path own_root root.0 ((str_eq_iff _ _).0 same))
        | inr other ↦ inr (ground arith)
      ]

share_laws : ShareLaws share_host share_files_laws is_mapped
share_laws = record {
  mkdir_all = λ own root. made_dir own;
  write_string = λ path text. unseen tt;
  close = λ path. unseen tt;
  remove = removed_reference;
  read_dir =
      λ path. record { fewer = λ w mapping_path name root h. h; stays = λ w mapping_path h. h };
  readlink = λ path. unseen (codes "\\\\host\\share");
  resolve_ip = λ name. unseen (codes "10.0.0.1");
  path_exists = λ path. unseen true;
  rmdir = λ path. unseen tt;
  new_mapping = made_mapping;
  maps = λ target remote username password own w root e.
      contains_made (get_root_mapping_path remote) own w.mappings root;
  create_stays = λ path mapping_path w h. h;
  create = λ own mapping_path file name w. made_reference own mapping_path file name w.references;
  removal_fewer = λ remote mapping_path name w root h. h;
  removal_stays = λ remote mapping_path w h.
      stays_or_own (get_root_mapping_path remote) mapping_path w.mappings h;
}

none_yet : {A : Type 0} → false ≡ true → A
none_yet e = cc

abbrev nothing_mounted : State Shares
nothing_mounted = record {
  locks = new_volume_locks;
  world = record { references = []; mappings = [] };
}

-- Two volumes of the share are mounted, and one is unmounted.
abbrev after_mounts : State Shares
after_mounts =
    (smb_unmount share_host true (codes "C:\\a") (codes "v")
      (smb_mount share_host true (codes "//host/share/b") (codes "C:\\b") (codes "u" ∷ [])
        (codes "p" ∷ []) (codes "w")
        (smb_mount share_host true (codes "//host/share/a") (codes "C:\\a") (codes "u" ∷ [])
          (codes "p" ∷ []) (codes "v") nothing_mounted).1).1).1

Session-AllMapped_example : AllMapped share_host share_files_laws is_mapped after_mounts.world
unfolding refers_to
Session-AllMapped_example =
    Session-AllMapped share_host share_files_laws is_mapped share_laws {s = nothing_mounted}
      (unmounted (codes "C:\\a") (codes "v") (
        mounted (codes "//host/share/b") (codes "C:\\b") (codes "u" ∷ []) (codes "p" ∷ [])
          (codes "w") (unseen tt)
          (mounted (codes "//host/share/a") (codes "C:\\a") (codes "u" ∷ []) (codes "p" ∷ [])
            (codes "v") (unseen tt) here)))
      (λ mapping_path id root r. none_yet r)
