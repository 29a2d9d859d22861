-- ===== src/Kerberos/Frees.antt =====
-- The handlers of the Kerberos caches leave the lock set alone.
use csi_driver_smb_hardend.Base.{ℕ, Bool, List, [], ◌∷◌, Str, true, false}
use csi_driver_smb_hardend.Errors.{Result, ok, err}
use csi_driver_smb_hardend.Maps.{Map}
use csi_driver_smb_hardend.Numbers.{ℤ}
use csi_driver_smb_hardend.Env.{Env}
use csi_driver_smb_hardend.Action.{call, attempt}
use csi_driver_smb_hardend.Action.Frees.{Frees, Frees-bind, frees_rules}
use csi_driver_smb_hardend.Kerberos.{
  get_kerberos_file_path, kerberos_cache_directory_exists, remove_old_link, write_kerberos_cache,
  ensure_kerberos_cache, remove_link, read_target, remove_links, delete_existing_cache,
  delete_in_directory, delete_kerberos_cache,
}

module _ (E : Env) where
  kerberos_cache_directory_exists-Frees :
      (dir : Str) → Frees (kerberos_cache_directory_exists E dir)
  unfolding kerberos_cache_directory_exists
  kerberos_cache_directory_exists-Frees dir = search frees_rules

  remove_old_link-Frees : (link : Str) (r : Result (Unit {0})) → Frees (remove_old_link E link r)
  unfolding remove_old_link
  remove_old_link-Frees link (ok _) = search frees_rules
  remove_old_link-Frees link (err e) = search frees_rules

  write_kerberos_cache-Frees :
      (dir volume_id : Str) (cred_uid : ℤ) (cache : Str × List ℕ)
      → Frees (write_kerberos_cache E dir volume_id cred_uid cache)
  write_kerberos_cache-Frees dir volume_id cred_uid (link, content) =
      unfold write_kerberos_cache in search (frees_rules, remove_old_link-Frees) depth 20

  pub ensure_kerberos_cache-Frees :
      (dir krb5_prefix volume_id : Str) (flags : List Str) (secrets : Map)
      → Frees (ensure_kerberos_cache E dir krb5_prefix volume_id flags secrets)
  unfolding ensure_kerberos_cache
  ensure_kerberos_cache-Frees dir krb5_prefix volume_id flags secrets =
      search (frees_rules, kerberos_cache_directory_exists-Frees, write_kerberos_cache-Frees) depth
        12

  remove_link-Frees :
      (file path : Str) (found : Result (Unit {0})) (target : Result Str)
      → Frees (remove_link E file path found target)
  unfolding remove_link
  remove_link-Frees file path (err _) target = search frees_rules
  remove_link-Frees file path (ok _) (err _) = search frees_rules
  remove_link-Frees file path (ok _) (ok target) = search frees_rules

  read_target-Frees : (path : Str) (found : Result (Unit {0})) → Frees (read_target E path found)
  unfolding read_target
  read_target-Frees path (ok _) = search frees_rules
  read_target-Frees path (err e) = search frees_rules

  remove_links-Frees : (dir file : Str) (names : List Str) → Frees (remove_links E dir file names)
  unfolding remove_links
  remove_links-Frees dir file [] = search frees_rules
  remove_links-Frees dir file (name ∷ names) =
      let path : Str = get_kerberos_file_path dir name in
      Frees-bind (attempt (call (E.lstat path))) _ (search frees_rules) (λ found.
        Frees-bind (read_target E path found) _ (read_target-Frees path found) (λ target.
          Frees-bind (remove_link E file path found target) (λ _. remove_links E dir file names)
            (remove_link-Frees file path found target) (λ _. remove_links-Frees dir file names)))

  delete_existing_cache-Frees :
      (dir file : Str) (found : Result (Unit {0})) → Frees (delete_existing_cache E dir file found)
  unfolding delete_existing_cache
  delete_existing_cache-Frees dir file (ok _) = search (frees_rules, remove_links-Frees) depth 12
  delete_existing_cache-Frees dir file (err e) = search frees_rules

  delete_in_directory-Frees :
      (dir volume_id : Str) (exists : Result Bool)
      → Frees (delete_in_directory E dir volume_id exists)
  unfolding delete_in_directory
  delete_in_directory-Frees dir volume_id (err e) = search frees_rules
  delete_in_directory-Frees dir volume_id (ok false) = search frees_rules
  delete_in_directory-Frees dir volume_id (ok true) =
      search (frees_rules, delete_existing_cache-Frees) depth 8

  pub delete_kerberos_cache-Frees :
      (dir volume_id : Str) → Frees (delete_kerberos_cache E dir volume_id)
  unfolding delete_kerberos_cache
  delete_kerberos_cache-Frees dir volume_id =
      search (frees_rules, kerberos_cache_directory_exists-Frees, delete_in_directory-Frees) depth 8
