-- ===== src/Tests/Windows.antt =====
-- The theorems about the mounters of Windows at concrete inputs: a host that keeps the names of the
-- references of one share, and whether the share is mapped.
use csi_driver_smb_hardend.Base.{
  ◌≡◌, refl, arith, Bool, true, false, List, [], ◌∷◌, none, Str, codes, str_eq, All, contains,
  without, contains-without, if◌then◌else◌,
}
use csi_driver_smb_hardend.Errors.{ok, succeeds}
use csi_driver_smb_hardend.Locks.{new_volume_locks}
use csi_driver_smb_hardend.Strings.{split, trim_suffix, to_lower}
use csi_driver_smb_hardend.Action.{State, Call}
use csi_driver_smb_hardend.Action.Keeps.{Keeps}
use csi_driver_smb_hardend.Filesystem.{max_path_length_windows, validate_path_windows}
use csi_driver_smb_hardend.Filesystem.Validate.{
  validate_path_windows_accepts, validate_path_windows_stays,
}
use csi_driver_smb_hardend.Host.{Client, Host}
use csi_driver_smb_hardend.Mounter.References.{
  Files, get_md5, increment_volume_id_references_count, decrement_volume_id_references_count,
}
use csi_driver_smb_hardend.Mounter.References.Counted.{FileLaws, is_referenced}
use csi_driver_smb_hardend.Mounter.References.History.{
  History, mounts, unmounts, nothing, mounted, unmounted, replay, is_referenced-replay,
}
use csi_driver_smb_hardend.Mounter.Proxy.{smb_unmount}
use csi_driver_smb_hardend.Mounter.Proxy.Keeps.{UnmountCalls, smb_unmount-Keeps}
use csi_driver_smb_hardend.SmbShare.{check_for_duplicate_smb_mounts}
use csi_driver_smb_hardend.SmbShare.Duplicates.{check_for_duplicate_smb_mounts_lem}

validate_path_windows_accepts_example :
    succeeds (validate_path_windows (codes "C:\\var\\lib")) ≡ true
unfolding csi_driver_smb_hardend.Filesystem.matches_invalid_char
    csi_driver_smb_hardend.Strings.has_substring
validate_path_windows_accepts_example = validate_path_windows_accepts (codes "C:\\var\\lib")

validate_path_windows_stays_example :
    All (λ name. str_eq name (codes "..") ≡ false) (split b'\\' (codes "c:\\var"))
unfolding csi_driver_smb_hardend.Filesystem.begins_with_backslash
    csi_driver_smb_hardend.Filesystem.is_unc_path_windows
    csi_driver_smb_hardend.Filesystem.contains_invalid_characters_windows
    csi_driver_smb_hardend.Filesystem.matches_invalid_char
    csi_driver_smb_hardend.Filesystem.is_abs_windows csi_driver_smb_hardend.Strings.has_substring
validate_path_windows_stays_example =
    validate_path_windows_stays (codes "c:\\var") (unfold validate_path_windows in refl)

-- The names of the references of the share, and whether the share is mapped.
record Machine : Type 0 where
  names : List Str
  mapped : Bool

abbrev silent : {A : Type 0} → A → Call Machine A
silent a w = (ok a, w)

abbrev unmapped : Call Machine (Unit {0})
unmapped w = (ok tt, record w { mapped = false })

abbrev at_rest : State Machine
at_rest = record { locks = new_volume_locks; world = record { names = []; mapped = false } }

abbrev two_mounts : State Machine
two_mounts = record {
  locks = new_volume_locks;
  world = record { names = codes "v" ∷ codes "w" ∷ []; mapped = true };
}

-- The same after a mount of "V" and an unmount of "w".
abbrev final : State Machine
final = record {
  locks = new_volume_locks;
  world = record { names = codes "v" ∷ codes "v" ∷ []; mapped = true };
}

-- The last part of a path names the file.
abbrev test_files : Files
test_files = record {
  World = Machine;
  join = λ dir name. name;
  md5_hex = λ s. s;
  mkdir_all = λ path. silent tt;
  create = λ path w. (ok tt, record w { names = path ∷ w.names });
  write_string = λ path text. silent tt;
  close = λ path. silent tt;
  remove = λ path w. (ok tt, record w { names = without path w.names });
  read_dir = λ path w. (ok w.names, w);
}

contains-cons :
    (name file : Str) (files : List Str)
    → contains name (file ∷ files) ≡ (if str_eq file name then true else contains name files)
unfolding contains
contains-cons name file files = ground arith

contains_of_listed :
    (name : Str) (files names : List Str)
    → ok files ≡ ok names
    → contains name names ≡ contains name files
contains_of_listed name files names e = ground arith

abbrev test_files_laws : FileLaws test_files
test_files_laws = record {
  has = λ w dir name. contains name w.names;
  has-mkdir_all = λ dir name w. refl;
  has-write_string = λ path text dir name w. refl;
  has-close = λ path dir name w. refl;
  has-read_dir = λ path dir name w. refl;
  contains-read_dir = λ path name names w e. contains_of_listed name w.names names e;
  has-create = λ dir id name w e. contains-cons name id w.names;
  has-remove = λ dir id name w e. contains-without id name w.names;
}

mounted_v :
    History test_files
      (codes "\\\\host\\share")
      (mounts (codes "\\\\host\\share\\a") (codes "V") ∷ unmounts (codes "w") ∷ [])
      two_mounts
      final
unfolding csi_driver_smb_hardend.Action.◌>>=◌ csi_driver_smb_hardend.Action.call
    csi_driver_smb_hardend.Action.deferred get_md5 increment_volume_id_references_count
    decrement_volume_id_references_count without str_eq
mounted_v =
    mounted (codes "\\\\host\\share\\a") (codes "V") refl
      (unmounted (codes "w") refl (nothing final))

is_referenced-replay_example :
    is_referenced test_files test_files_laws (codes "\\\\host\\share") final.world (codes "W")
    ≡ replay
        (mounts (codes "\\\\host\\share\\a") (codes "V") ∷ unmounts (codes "w") ∷ [])
        (codes "W")
        (is_referenced test_files test_files_laws
          (codes "\\\\host\\share")
          two_mounts.world
          (codes "W"))
is_referenced-replay_example =
    is_referenced-replay test_files (codes "\\\\host\\share") test_files_laws mounted_v (codes "W")
      (λ e. e, (λ e. e, tt))

abbrev test_client : Client Machine
test_client = record {
  mkdir = λ path. silent tt;
  rmdir = λ path. silent tt;
  path_exists = λ path. silent true;
  link = λ source target. silent tt;
  is_link = λ path. silent true;
  new_smb_global_mapping = λ target source username password w. (ok tt, record w { mapped = true });
  remove_smb_global_mapping = λ remote_path. unmapped;
}

-- Every file is a link, to the share while it is mapped and to nothing otherwise; the directory of
-- the mounts has two entries.
abbrev test_host : Host
test_host = record {
  files = test_files;
  dir = λ path. path;
  clean = λ path. path;
  lstat = λ path. silent true;
  readlink = λ path w. (ok (if w.mapped then codes "\\\\host\\share" else []), w);
  symlink = λ source target. silent tt;
  remove_all = λ path. silent tt;
  read_entries = λ path. silent ((codes "a", true) ∷ (codes "b", false) ∷ []);
  resolve_ip = λ name. silent (codes "10.0.0.1");
  powershell = λ command envs w. ((codes "OK", none), w);
  proxy = test_client;
  proxy_beta = test_client;
}

-- While the volume "v" has a reference, the share is mapped.
abbrev StaysMapped : Machine → Type 0
StaysMapped w = contains (codes "v") w.names ≡ true → w.mapped ≡ true

StaysMapped-calls : UnmountCalls test_host test_files_laws StaysMapped
unfolding csi_driver_smb_hardend.Mounter.References.get_md5 to_lower
StaysMapped-calls = record {
  readlink = λ path. record { kept = λ w h. h };
  rmdir = λ path. record { kept = λ w h. h };
  mkdir_all = λ mapping_path remote_path root. record { kept = λ w h. h };
  remove = λ path. record {
    kept = λ w h e. h (ground (arith, contains-without path (codes "v") w.names));
  };
  read_dir = λ path. record { kept = λ w h. h };
  removal = λ remote_path mapping_path w root unused h e. cc (unused (codes "v"));
}

smb_unmount-Keeps_example :
    Keeps StaysMapped (smb_unmount test_host true (codes "C:\\mount") (codes "w"))
smb_unmount-Keeps_example =
    smb_unmount-Keeps test_host test_files_laws StaysMapped StaysMapped-calls true
      (codes "C:\\mount") (codes "w")

check_for_duplicate_smb_mounts_lem_example :
    check_for_duplicate_smb_mounts test_host
      (codes "C:\\mounts")
      (codes "C:\\mounts\\b")
      (codes "\\\\host\\share")
      two_mounts
    ≡ (ok true, two_mounts)
unfolding csi_driver_smb_hardend.Strings.equal_fold
    csi_driver_smb_hardend.SmbShare.global_mount_path csi_driver_smb_hardend.Strings.trim_space
check_for_duplicate_smb_mounts_lem_example =
    check_for_duplicate_smb_mounts_lem test_host (λ w path. ok true)
      (λ w path. ok (if w.mapped then codes "\\\\host\\share" else [])) (λ path w. refl)
      (λ path w. refl) (codes "C:\\mounts") (codes "C:\\mounts\\b") (codes "\\\\host\\share")
      ((codes "a", true) ∷ (codes "b", false) ∷ []) two_mounts two_mounts.world refl
