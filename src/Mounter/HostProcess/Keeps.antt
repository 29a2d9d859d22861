-- ===== src/Mounter/HostProcess/Keeps.antt =====
-- Which calls the mounter of a host process makes.
use csi_driver_smb_hardend.Base.{
  ◌≡◌, Bool, true, false, List, [], ◌∷◌, Str, String, Option, none, some, inl, inr,
}
use csi_driver_smb_hardend.Errors.{Error, Result, ok, err}
use csi_driver_smb_hardend.Action.Keeps.{
  Safe, Keeps, Keeps-bind, Keeps-bind-lift, Keeps-bind-lift_err, Result-cases, keeps_rules,
}
use csi_driver_smb_hardend.Filesystem.{validate_path_windows}
use csi_driver_smb_hardend.Filesystem.Calls.{
  run_powershell_cmd, lstat_exists, path_exists, valid_output, path_valid, rmdir as remove_path,
}
use csi_driver_smb_hardend.SmbShare.{
  is_mapped_command, new_mapping_command, remove_mapping_command, mapped_output, is_smb_mapped,
  failed_output, new_smb_global_mapping, remove_smb_global_mapping, get_remote_server_from_target,
  links_to_server, is_duplicate, find_duplicate, check_for_duplicate_smb_mounts,
}
use csi_driver_smb_hardend.Mounter.Windows.{make_parent}
use csi_driver_smb_hardend.Mounter.HostProcess.{
  exists_path, make_dir, rmdir, keep_valid, map_remote, link_local, smb_mount,
  remove_unless_duplicate, unmap_share, smb_unmount,
}
use csi_driver_smb_hardend.Host.{Host}

-- The calls of a mount and an unmount: PowerShell runs four commands, whose texts hold nothing from
-- outside, and a directory is removed and a link is made only at a path that is accepted.
pub record HostCalls (H : Host) (P : H.files.World → Type 0) : Type 0 where
  pub lstat : (path : Str) → Safe P (H.lstat path)
  pub readlink : (path : Str) → Safe P (H.readlink path)
  pub read_entries : (path : Str) → Safe P (H.read_entries path)
  pub mkdir_all : (path : Str) → Safe P (H.files.mkdir_all path)
  pub test_path : (envs : List Str) → Safe P (H.powershell "Test-Path $Env:remotepath" envs)
  pub is_mapped : (envs : List Str) → Safe P (H.powershell is_mapped_command envs)
  pub new_mapping : (envs : List Str) → Safe P (H.powershell new_mapping_command envs)
  pub remove_mapping : (envs : List Str) → Safe P (H.powershell remove_mapping_command envs)
  pub remove_all : (path : Str) → validate_path_windows path ≡ ok tt → Safe P (H.remove_all path)
  pub symlink :
      (source path : Str) → validate_path_windows path ≡ ok tt → Safe P (H.symlink source path)

module _ (H : Host) (P : H.files.World → Type 0) (calls : HostCalls H P) where
  path_exists-Keeps : (path : Str) → Keeps P (path_exists H path)
  unfolding path_exists lstat_exists
  path_exists-Keeps path = search (keeps_rules, calls.lstat) depth 8

  valid_output-Keeps : (r : Str × Option Error) → Keeps P (valid_output H r)
  unfolding valid_output
  valid_output-Keeps (output, some e) = search keeps_rules
  valid_output-Keeps (output, none) = search keeps_rules

  path_valid-Keeps : (path : Str) → Keeps P (path_valid H path)
  unfolding path_valid run_powershell_cmd
  path_valid-Keeps path = search (keeps_rules, calls.test_path, valid_output-Keeps) depth 8

  mapped_output-Keeps : (r : Str × Option Error) → Keeps P (mapped_output H r)
  unfolding mapped_output
  mapped_output-Keeps (output, some e) = search keeps_rules
  mapped_output-Keeps (output, none) = search keeps_rules

  is_smb_mapped-Keeps : (path : Str) → Keeps P (is_smb_mapped H path)
  unfolding is_smb_mapped run_powershell_cmd
  is_smb_mapped-Keeps path = search (keeps_rules, calls.is_mapped, mapped_output-Keeps) depth 8

  failed_output-Keeps : (text : String) (r : Str × Option Error) → Keeps P (failed_output H text r)
  unfolding failed_output
  failed_output-Keeps text (output, some e) = search keeps_rules
  failed_output-Keeps text (output, none) = search keeps_rules

  new_smb_global_mapping-Keeps :
      (remote_path username password : Str)
      → Keeps P (new_smb_global_mapping H remote_path username password)
  unfolding new_smb_global_mapping run_powershell_cmd
  new_smb_global_mapping-Keeps remote_path username password =
      search (keeps_rules, calls.new_mapping, failed_output-Keeps) depth 8

  remove_smb_global_mapping-Keeps :
      (remote_path : Str) → Keeps P (remove_smb_global_mapping H remote_path)
  unfolding remove_smb_global_mapping run_powershell_cmd
  remove_smb_global_mapping-Keeps remote_path =
      search (keeps_rules, calls.remove_mapping, failed_output-Keeps) depth 8

  remove_path-Keeps : (path : Str) → Keeps P (remove_path H path true)
  unfolding remove_path
  remove_path-Keeps path = elim (Result-cases (validate_path_windows path)) [
    | inl (_, e) ↦ rw e (Keeps-bind-lift tt _ (search (keeps_rules, calls.remove_all path e)))
    | inr (c, e) ↦ rw e (Keeps-bind-lift_err {A = Unit {0}} c _)
  ]

  link_local-Keeps : (remote_path local_path : Str) → Keeps P (link_local H remote_path local_path)
  unfolding link_local
  link_local-Keeps remote_path [] = search keeps_rules
  link_local-Keeps remote_path (c ∷ path) = elim (Result-cases (validate_path_windows (c ∷ path))) [
    | inl (_, e) ↦
        rw e (Keeps-bind-lift tt _ (search (keeps_rules, calls.symlink remote_path (c ∷ path) e)))
    | inr (b, e) ↦ rw e (Keeps-bind-lift_err {A = Unit {0}} b _)
  ]

  make_parent-Keeps : (target : Str) → Keeps P (make_parent H (exists_path H) (make_dir H) target)
  unfolding make_parent exists_path make_dir
  make_parent-Keeps target = search (keeps_rules, path_exists-Keeps, calls.mkdir_all) depth 8

  keep_valid-Keeps : (remote_path : Str) (mapped : Bool) → Keeps P (keep_valid H remote_path mapped)
  unfolding keep_valid
  keep_valid-Keeps remote_path false = search keeps_rules
  keep_valid-Keeps remote_path true =
      search (keeps_rules, path_valid-Keeps, remove_smb_global_mapping-Keeps) depth 8

  map_remote-Keeps :
      (remote_path : Str) (user : Str × Str) (mapped : Bool)
      → Keeps P (map_remote H remote_path user mapped)
  unfolding map_remote
  map_remote-Keeps remote_path user true = search keeps_rules
  map_remote-Keeps remote_path (username, password) false = search new_smb_global_mapping-Keeps

  ruleset mount_rules = (
    keeps_rules, make_parent-Keeps, is_smb_mapped-Keeps, keep_valid-Keeps, map_remote-Keeps,
    link_local-Keeps,
  )

  pub smb_mount-Keeps :
      (source target : Str) (options sensitive : List Str) (volume_id : Str)
      → Keeps P (smb_mount H source target options sensitive volume_id)
  unfolding smb_mount
  smb_mount-Keeps source target options sensitive volume_id = search mount_rules depth 12

  get_remote_server_from_target-Keeps :
      (mount : Str) → Keeps P (get_remote_server_from_target H mount)
  unfolding get_remote_server_from_target
  get_remote_server_from_target-Keeps mount = search (keeps_rules, calls.readlink) depth 8

  links_to_server-Keeps :
      (path server : Str) (link : Result Bool) → Keeps P (links_to_server H path server link)
  unfolding links_to_server
  links_to_server-Keeps path server (ok true) =
      search (keeps_rules, get_remote_server_from_target-Keeps) depth 8
  links_to_server-Keeps path server (ok false) = search keeps_rules
  links_to_server-Keeps path server (err e) = search keeps_rules

  is_duplicate-Keeps :
      (dir mount server : Str) (entry : Str × Bool)
      → Keeps P (is_duplicate H dir mount server entry)
  unfolding is_duplicate
  is_duplicate-Keeps dir mount server (name, is_dir) =
      search (keeps_rules, links_to_server-Keeps, calls.lstat) depth 8

  find_duplicate-Keeps :
      (dir mount server : Str) (entries : List (Str × Bool))
      → Keeps P (find_duplicate H dir mount server entries)
  unfolding find_duplicate
  find_duplicate-Keeps dir mount server [] = search keeps_rules
  find_duplicate-Keeps dir mount server (entry ∷ entries) =
      Keeps-bind (is_duplicate H dir mount server entry) _
        (is_duplicate-Keeps dir mount server entry)
        (λ found. search (keeps_rules, find_duplicate-Keeps dir mount server entries))

  remove_unless_duplicate-Keeps :
      (server : Str) (duplicate : Result Bool)
      → Keeps P (remove_unless_duplicate H server duplicate)
  unfolding remove_unless_duplicate
  remove_unless_duplicate-Keeps server (ok false) =
      search (keeps_rules, remove_smb_global_mapping-Keeps) depth 8
  remove_unless_duplicate-Keeps server (ok true) = search keeps_rules
  remove_unless_duplicate-Keeps server (err e) = search keeps_rules

  unmap_share-Keeps : (target : Str) (server : Result Str) → Keeps P (unmap_share H target server)
  unfolding unmap_share check_for_duplicate_smb_mounts
  unmap_share-Keeps target (err e) = search keeps_rules
  unmap_share-Keeps target (ok server) =
      search (keeps_rules, calls.read_entries, find_duplicate-Keeps, remove_unless_duplicate-Keeps)
        depth 8

  pub rmdir-Keeps : (path : Str) → Keeps P (rmdir H path)
  unfolding rmdir
  rmdir-Keeps path = search remove_path-Keeps

  pub exists_path-Keeps : (path : Str) → Keeps P (exists_path H path)
  unfolding exists_path
  exists_path-Keeps path = search path_exists-Keeps

  pub smb_unmount-Keeps : (target volume_id : Str) → Keeps P (smb_unmount H target volume_id)
  unfolding smb_unmount rmdir
  smb_unmount-Keeps target volume_id =
      search
        (keeps_rules, get_remote_server_from_target-Keeps, unmap_share-Keeps, remove_path-Keeps)
        depth 8

  -- Mounting and unmounting a share in a host process make only the calls of `HostCalls`: PowerShell
  -- runs only the four commands, with the share, the user and the password in variables of the
  -- environment, and a directory is removed and a link is made only at a path that
  -- ValidatePathWindows accepts. An invariant that these calls keep, they keep.
  pub host_process-Keeps :
      (source target : Str) (options sensitive : List Str) (volume_id : Str)
      → Keeps P (smb_mount H source target options sensitive volume_id)
        × Keeps P (smb_unmount H target volume_id)
  host_process-Keeps source target options sensitive volume_id = (
    smb_mount-Keeps source target options sensitive volume_id,
    smb_unmount-Keeps target volume_id,
  )
