-- ===== src/Kerberos/Keeps.antt =====
-- The handlers of the Kerberos caches make no calls but those of mounting.
use csi_driver_smb_hardend.Base.{ℕ, Bool, List, [], ◌∷◌, Str, true, false}
use csi_driver_smb_hardend.Errors.{Result, ok, err}
use csi_driver_smb_hardend.Maps.{Map}
use csi_driver_smb_hardend.Numbers.{ℤ}
use csi_driver_smb_hardend.Env.Staging.{Staging, staging_rules}
use csi_driver_smb_hardend.Env.{Env}
use csi_driver_smb_hardend.Action.{call, attempt}
use csi_driver_smb_hardend.Action.Keeps.{Keeps, Keeps-bind, keeps_rules}
use csi_driver_smb_hardend.Kerberos.{
  get_kerberos_file_path, kerberos_cache_directory_exists, remove_old_link, write_kerberos_cache,
  ensure_kerberos_cache, remove_link, read_target, remove_links, delete_existing_cache,
  delete_in_directory, delete_kerberos_cache,
}

module _ (E : Env) (P : E.World → Type 0) (allowed : Staging E P) where
  ruleset calls = (keeps_rules, staging_rules)

  kerberos_cache_directory_exists-Keeps :
      (dir : Str) → Keeps P (kerberos_cache_directory_exists E dir)
  unfolding kerberos_cache_directory_exists
  kerberos_cache_directory_exists-Keeps dir = search calls

  remove_old_link-Keeps : (link : Str) (r : Result (Unit {0})) → Keeps P (remove_old_link E link r)
  unfolding remove_old_link
  remove_old_link-Keeps link (ok _) = search calls
  remove_old_link-Keeps link (err e) = search calls

  write_kerberos_cache-Keeps :
      (dir volume_id : Str) (cred_uid : ℤ) (cache : Str × List ℕ)
      → Keeps P (write_kerberos_cache E dir volume_id cred_uid cache)
  write_kerberos_cache-Keeps dir volume_id cred_uid (link, content) =
      unfold write_kerberos_cache in search (calls, remove_old_link-Keeps) depth 20

  pub ensure_kerberos_cache-Keeps :
      (dir krb5_prefix volume_id : Str) (flags : List Str) (secrets : Map)
      → Keeps P (ensure_kerberos_cache E dir krb5_prefix volume_id flags secrets)
  unfolding ensure_kerberos_cache
  ensure_kerberos_cache-Keeps dir krb5_prefix volume_id flags secrets =
      search (calls, kerberos_cache_directory_exists-Keeps, write_kerberos_cache-Keeps) depth 12

  remove_link-Keeps :
      (file path : Str) (found : Result (Unit {0})) (target : Result Str)
      → Keeps P (remove_link E file path found target)
  unfolding remove_link
  remove_link-Keeps file path (err _) target = search calls
  remove_link-Keeps file path (ok _) (err _) = search calls
  remove_link-Keeps file path (ok _) (ok target) = search calls

  read_target-Keeps : (path : Str) (found : Result (Unit {0})) → Keeps P (read_target E path found)
  unfolding read_target
  read_target-Keeps path (ok _) = search calls
  read_target-Keeps path (err e) = search calls

  remove_links-Keeps : (dir file : Str) (names : List Str) → Keeps P (remove_links E dir file names)
  unfolding remove_links
  remove_links-Keeps dir file [] = search calls
  remove_links-Keeps dir file (name ∷ names) =
      let path : Str = get_kerberos_file_path dir name in
      Keeps-bind (attempt (call (E.lstat path))) _ (search calls) (λ found.
        Keeps-bind (read_target E path found) _ (read_target-Keeps path found) (λ target.
          Keeps-bind (remove_link E file path found target) (λ _. remove_links E dir file names)
            (remove_link-Keeps file path found target) (λ _. remove_links-Keeps dir file names)))

  delete_existing_cache-Keeps :
      (dir file : Str) (found : Result (Unit {0}))
      → Keeps P (delete_existing_cache E dir file found)
  unfolding delete_existing_cache
  delete_existing_cache-Keeps dir file (ok _) = search (calls, remove_links-Keeps) depth 12
  delete_existing_cache-Keeps dir file (err e) = search calls

  delete_in_directory-Keeps :
      (dir volume_id : Str) (exists : Result Bool)
      → Keeps P (delete_in_directory E dir volume_id exists)
  unfolding delete_in_directory
  delete_in_directory-Keeps dir volume_id (err e) = search calls
  delete_in_directory-Keeps dir volume_id (ok false) = search calls
  delete_in_directory-Keeps dir volume_id (ok true) =
      search (calls, delete_existing_cache-Keeps) depth 8

  pub delete_kerberos_cache-Keeps :
      (dir volume_id : Str) → Keeps P (delete_kerberos_cache E dir volume_id)
  unfolding delete_kerberos_cache
  delete_kerberos_cache-Keeps dir volume_id =
      search (calls, kerberos_cache_directory_exists-Keeps, delete_in_directory-Keeps) depth 8
