-- ===== src/SmbShare.antt =====
-- pkg/os/smb/smb.go: the SMB mappings of a Windows node, by PowerShell. What comes from outside is
-- handed over in variables of the environment.
pub mod Duplicates
pub mod Semaphore
use csi_driver_smb_hardend.Base.{
  Bool, true, false, not, ◌||◌, ◌&&◌, List, [], ◌∷◌, ◌++◌, Str, String, codes, str_eq, is_empty,
  Option, none, some, if◌then◌else◌,
}
use csi_driver_smb_hardend.Errors.{Error, plain, Result, ok, err}
use csi_driver_smb_hardend.Strings.{equal_fold, trim_space, trim_suffix}
use csi_driver_smb_hardend.Action.{Action, pure, fail, lift, call, attempt, ◌>>=◌, ◌>>◌}
use csi_driver_smb_hardend.Host.{Host}
use csi_driver_smb_hardend.Filesystem.Calls.{run_powershell_cmd}

abbrev pub is_mapped_command : String
is_mapped_command =
    "$(Get-SmbGlobalMapping -RemotePath $Env:smbremotepath -ErrorAction Stop).Status"

abbrev pub new_mapping_command : String
new_mapping_command =
    "$PWord = ConvertTo-SecureString -String $Env:smbpassword -AsPlainText -Force;$Credential = New-Object -TypeName System.Management.Automation.PSCredential -ArgumentList $Env:smbuser, $PWord;New-SmbGlobalMapping -RemotePath $Env:smbremotepath -Credential $Credential -RequirePrivacy $true"

abbrev pub remove_mapping_command : String
remove_mapping_command = "Remove-SmbGlobalMapping -RemotePath $Env:smbremotepath -Force"

module _ (H : Host) where
  abbrev World : Type 0
  World = H.files.World

  unfoldable pub mapped_output : Str × Option Error → Action World Bool
  unfolding equal_fold trim_space
  mapped_output (output, some e) =
      fail (plain "error checking smb mapping. cmd %s, output: %s, err: %v")
  mapped_output (output, none) =
      pure (not (is_empty output) && equal_fold (trim_space output) (codes "OK"))

  -- `IsSmbMapped`
  unfoldable pub is_smb_mapped : Str → Action World Bool
  unfolding run_powershell_cmd mapped_output
  is_smb_mapped remote_path =
      run_powershell_cmd H is_mapped_command ((codes "smbremotepath=" ++ remote_path) ∷ [])
      >>= mapped_output

  unfoldable pub failed_output : String → Str × Option Error → Action World (Unit {0})
  failed_output text (output, some e) = fail (plain text)
  failed_output text (output, none) = pure tt

  -- `NewSmbGlobalMapping`
  unfoldable pub new_smb_global_mapping : Str → Str → Str → Action World (Unit {0})
  unfolding run_powershell_cmd failed_output
  new_smb_global_mapping remote_path username password =
      run_powershell_cmd H new_mapping_command (
        (codes "smbuser=" ++ username)
        ∷ (codes "smbpassword=" ++ password)
        ∷ (codes "smbremotepath=" ++ remote_path)
        ∷ [])
      >>= failed_output "NewSmbGlobalMapping failed. output: %q, err: %v"

  -- `RemoveSmbGlobalMapping`
  unfoldable pub remove_smb_global_mapping : Str → Action World (Unit {0})
  unfolding run_powershell_cmd failed_output trim_suffix
  remove_smb_global_mapping remote_path =
      run_powershell_cmd H remove_mapping_command
        ((codes "smbremotepath=" ++ trim_suffix remote_path (codes "\\")) ∷ [])
      >>= failed_output "UnmountSmbShare failed. output: %q, err: %v"

  unfoldable pub remote_of : Result Str → Result Str
  unfolding trim_space
  remote_of (ok target) =
      if is_empty target
      then err (plain "error reading link for mount %s. target %s err: %v")
      else ok (trim_space target)
  remote_of (err e) = err (plain "error reading link for mount %s. target %s err: %v")

  -- `GetRemoteServerFromTarget`
  unfoldable pub get_remote_server_from_target : Str → Action World Str
  unfolding remote_of
  get_remote_server_from_target mount = do
    target ← attempt (call (H.readlink mount))
    lift (remote_of target)

  -- `filepath.Join(dir, file.Name(), "globalmount")`
  unfoldable pub global_mount_path : Str → Str → Str
  global_mount_path dir name = H.files.join (H.files.join dir name) (codes "globalmount")

  unfoldable pub same_server : Str → Result Str → Bool
  unfolding str_eq
  same_server remote_server (ok server) = str_eq server remote_server
  same_server remote_server (err e) = false

  -- Whether the file is a link to the server; an error is only logged.
  unfoldable pub links_to_server : Str → Str → Result Bool → Action World Bool
  unfolding same_server
  links_to_server path remote_server (ok true) = do
    server ← attempt (get_remote_server_from_target path)
    pure (same_server remote_server server)
  links_to_server path remote_server (ok false) = pure false
  links_to_server path remote_server (err e) = pure false

  -- One round of the loop: whether the entry is another mount of the server.
  unfoldable pub is_duplicate : Str → Str → Str → Str × Bool → Action World Bool
  unfolding equal_fold links_to_server
  is_duplicate dir mount remote_server (name, is_dir) =
      let path = global_mount_path dir name in
      if not is_dir || equal_fold (H.clean path) (H.clean mount)
      then pure false
      else attempt (call (H.lstat path)) >>= links_to_server path remote_server

  -- The loop over the entries.
  unfoldable pub find_duplicate : Str → Str → Str → List (Str × Bool) → Action World Bool
  find_duplicate dir mount remote_server [] = pure false
  find_duplicate dir mount remote_server (entry ∷ entries) =
      is_duplicate dir mount remote_server entry >>= λ found.
      if found then pure true else find_duplicate dir mount remote_server entries

  -- `CheckForDuplicateSMBMounts`
  unfoldable pub check_for_duplicate_smb_mounts : Str → Str → Str → Action World Bool
  unfolding find_duplicate
  check_for_duplicate_smb_mounts dir mount remote_server =
      call (H.read_entries dir) >>= find_duplicate dir mount remote_server
