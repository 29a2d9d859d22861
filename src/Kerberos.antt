-- ===== src/Kerberos.antt =====
-- pkg/smb/nodeserver.go: the Kerberos credential caches of volumes.
pub mod Frees
pub mod Keeps
use csi_driver_smb_hardend.Base.{
  ℕ, Bool, true, false, List, [], ◌∷◌, ◌++◌, Option, none, some, Str, codes, str_eq, is_empty,
  if◌then◌else◌,
}
use csi_driver_smb_hardend.Errors.{
  Error, status, plain, internal, invalid_argument, Result, ok, err, is_not_exist,
}
use csi_driver_smb_hardend.Strings.{has_prefix, trim_prefix, to_lower, replace_all}
use csi_driver_smb_hardend.Maps.{Map}
use csi_driver_smb_hardend.Numbers.{ℤ, atoi, format_int}
use csi_driver_smb_hardend.Base64
use csi_driver_smb_hardend.Action.{
  Action, pure, fail, lift, call, ask, attempt, or_status, ◌>>=◌, ◌>>◌,
}
use csi_driver_smb_hardend.Env.{Env}
use csi_driver_smb_hardend.Options.{has_kerberos_mount_option}

-- `strconv.Atoi` with its error.
unfoldable pub cred_uid_of : Option ℤ → Result ℤ
cred_uid_of none = err (plain "strconv.Atoi")
cred_uid_of (some uid) = ok uid

-- `getCredUID`
unfoldable pub get_cred_uid : List Str → Result ℤ
unfolding has_prefix trim_prefix atoi cred_uid_of
get_cred_uid [] = err (plain "Can't find credUid in mount flags")
get_cred_uid (flag ∷ flags) =
    if has_prefix flag (codes "cruid=")
    then cred_uid_of (atoi (trim_prefix flag (codes "cruid=")))
    else get_cred_uid flags

-- `getKrb5CcacheName`
unfoldable pub get_krb5_ccache_name : Str → ℤ → Str
unfolding format_int
get_krb5_ccache_name krb5_prefix cred_uid = krb5_prefix ++ format_int cred_uid

-- `getKerberosFilePath`
abbrev pub get_kerberos_file_path : Str → Str → Str
get_kerberos_file_path krb5_cache_directory file_name = krb5_cache_directory ++ file_name

-- `volumeKerberosCacheName`
unfoldable pub volume_kerberos_cache_name : Str → Str
unfolding Base64.encode replace_all
volume_kerberos_cache_name volume_id =
    replace_all (replace_all (Base64.encode volume_id) (codes "/") (codes "-")) (codes "+")
      (codes "_")

-- The value of the last secret that is visited and has the name, case aside.
unfoldable pub find_secret : Str → Map → Str → Str
unfolding to_lower str_eq
find_secret name [] content = content
find_secret name ((k, v) ∷ secrets) content =
    find_secret name secrets (if str_eq (to_lower k) name then v else content)

unfoldable pub decoded : Str → Option (List ℕ) → Result (Str × List ℕ)
decoded file none = err (
    status invalid_argument "Malformed kerberos cache in key %s, expected to be in base64 form: %v")
decoded file (some content) = ok (file, content)

-- `getKerberosCache`
unfoldable pub get_kerberos_cache : Str → Str → ℤ → Map → Result (Str × List ℕ)
unfolding get_krb5_ccache_name find_secret decoded Base64.decode
get_kerberos_cache krb5_cache_directory krb5_prefix cred_uid secrets =
    let name = get_krb5_ccache_name krb5_prefix cred_uid in
    let content = find_secret name secrets [] in
    if is_empty content
    then err (status invalid_argument "Empty kerberos cache in key %s")
    else decoded (get_kerberos_file_path krb5_cache_directory name) (Base64.decode content)

module _ (E : Env) where
  -- The error of `os.Stat` on the cache directory.
  unfoldable pub directory_error : Error → Error
  unfolding is_not_exist
  directory_error e =
      if is_not_exist e
      then status internal
          "Directory for kerberos caches must exist, it will not be created: %s: %v"
      else e

  unfoldable pub directory_result : Result (Unit {0}) → Result Bool
  unfolding directory_error
  directory_result (ok _) = ok true
  directory_result (err e) = err (directory_error e)

  -- `kerberosCacheDirectoryExists`: the Boolean is false exactly with an error.
  unfoldable pub kerberos_cache_directory_exists : Str → Action E.World Bool
  unfolding directory_result
  kerberos_cache_directory_exists dir = do
    r ← attempt (call (E.stat dir))
    lift (directory_result r)

  -- The old link is removed unless `os.Stat` says that it does not exist; an error is only logged.
  unfoldable pub remove_old_link : Str → Result (Unit {0}) → Action E.World (Unit {0})
  unfolding is_not_exist
  remove_old_link link (err e) =
      if is_not_exist e then pure tt else (attempt (call (E.remove link)) >>= λ _. pure tt)
  remove_old_link link (ok _) = attempt (call (E.remove link)) >>= λ _. pure tt

  -- The cache of the volume is written, and a link of the name that Kerberos expects is made to it.
  unfoldable pub write_kerberos_cache : Str → Str → ℤ → Str × List ℕ → Action E.World Bool
  unfolding volume_kerberos_cache_name remove_old_link
  write_kerberos_cache dir volume_id cred_uid (link, content) = do
    let file = get_kerberos_file_path dir (volume_kerberos_cache_name volume_id)
    or_status internal "Couldn't write kerberos cache to file %s: %v"
        (call (E.write_file file content 0o700))
    or_status internal "Couldn't chown kerberos cache %s to user %d: %v"
        (call (E.chown file cred_uid))
    found ← attempt (call (E.stat link))
    remove_old_link link found
    or_status internal "Couldn't create symlink to a cache file %s->%s to user %d: %v"
        (call (E.symlink file link))
    pure true

  -- `ensureKerberosCache`
  unfoldable pub ensure_kerberos_cache : Str → Str → Str → List Str → Map → Action E.World Bool
  ensure_kerberos_cache dir krb5_prefix volume_id mount_flags secrets =
      if has_kerberos_mount_option mount_flags
      then (do
        kerberos_cache_directory_exists dir
        cred_uid ← lift (get_cred_uid mount_flags)
        cache ← lift (get_kerberos_cache dir krb5_prefix cred_uid (E.visit secrets))
        write_kerberos_cache dir volume_id cred_uid cache)
      else pure false

  -- An entry of the cache directory is removed if it is a link to the file of the volume. `Lstat`
  -- and `Readlink` that fail give nil and the empty string, and a failure to remove is only logged.
  unfoldable pub remove_link :
      Str → Str → Result (Unit {0}) → Result Str → Action E.World (Unit {0})
  unfolding str_eq
  remove_link file path (err _) target = pure tt
  remove_link file path (ok _) (err _) =
      if str_eq [] file then (attempt (call (E.remove path)) >>= λ _. pure tt) else pure tt
  remove_link file path (ok _) (ok target) =
      if str_eq target file then (attempt (call (E.remove path)) >>= λ _. pure tt) else pure tt

  unfoldable pub read_target : Str → Result (Unit {0}) → Action E.World (Result Str)
  read_target path (err e) = pure (ok [])
  read_target path (ok _) = attempt (call (E.readlink path))

  unfoldable pub remove_links : Str → Str → List Str → Action E.World (Unit {0})
  unfolding remove_link read_target
  remove_links dir file [] = pure tt
  remove_links dir file (name ∷ names) = do
    let path = get_kerberos_file_path dir name
    found ← attempt (call (E.lstat path))
    target ← read_target path found
    remove_link file path found target
    remove_links dir file names

  -- The cache of the volume and the links to it are removed, where its file exists.
  unfoldable pub delete_existing_cache : Str → Str → Result (Unit {0}) → Action E.World (Unit {0})
  unfolding remove_links is_not_exist
  delete_existing_cache dir file (err e) = if is_not_exist e then pure tt else fail e
  delete_existing_cache dir file (ok _) = do
    entries ← ask (E.read_dir dir)
    remove_links dir file (entries.0)
    attempt (call (E.remove file)) >>= λ _. pure tt

  -- What follows the check of the cache directory.
  unfoldable pub delete_in_directory : Str → Str → Result Bool → Action E.World (Unit {0})
  unfolding volume_kerberos_cache_name delete_existing_cache
  delete_in_directory dir volume_id (err e) = pure tt
  delete_in_directory dir volume_id (ok false) = pure tt
  delete_in_directory dir volume_id (ok true) = do
    let file = get_kerberos_file_path dir (volume_kerberos_cache_name volume_id)
    found ← attempt (call (E.stat file))
    delete_existing_cache dir file found

  -- `deleteKerberosCache`. `if !exists { return nil }` stands in front of `if err != nil`, so that
  -- an error of the check is not returned.
  unfoldable pub delete_kerberos_cache : Str → Str → Action E.World (Unit {0})
  delete_kerberos_cache dir volume_id = do
    exists ← attempt (kerberos_cache_directory_exists dir)
    delete_in_directory dir volume_id exists
