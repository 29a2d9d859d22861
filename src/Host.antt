-- ===== src/Host.antt =====
-- What the mounters of a Windows node call and do not implement: package os, path/filepath of
-- Windows, the resolver of package net, PowerShell, and the clients of csi-proxy.
use csi_driver_smb_hardend.Base.{Bool, List, Str, String, Option}
use csi_driver_smb_hardend.Errors.{Error}
use csi_driver_smb_hardend.Action.{Call}
use csi_driver_smb_hardend.Mounter.References.{Files}

-- A client of csi-proxy, of version v1 or v1beta1: the file system group, of which `link` is
-- `CreateSymlink` or `LinkPath` and `is_link` is `IsSymlink` or `IsMountPoint`, and the SMB group,
-- whose mapping takes the local path, the remote path, the user and the password.
pub record Client (W : Type 0) : Type 0 where
  pub mkdir : Str → Call W (Unit {0})
  pub rmdir : Str → Call W (Unit {0})
  pub path_exists : Str → Call W Bool
  pub link : Str → Str → Call W (Unit {0})
  pub is_link : Str → Call W Bool
  pub new_smb_global_mapping : Str → Str → Str → Str → Call W (Unit {0})
  pub remove_smb_global_mapping : Str → Call W (Unit {0})

pub record Host : Type 1 where
  pub files : Files
  -- `filepath.Dir` and `filepath.Clean`
  pub dir : Str → Str
  pub clean : Str → Str
  -- `os.Lstat`: whether the file is a symbolic link.
  pub lstat : Str → Call files.World Bool
  pub readlink : Str → Call files.World Str
  pub symlink : Str → Str → Call files.World (Unit {0})
  pub remove_all : Str → Call files.World (Unit {0})
  -- `os.ReadDir`: the name of each entry, and whether it is a directory.
  pub read_entries : Str → Call files.World (List (Str × Bool))
  -- `net.ResolveIPAddr("ip4", host)`
  pub resolve_ip : Str → Call files.World Str
  -- The output of a PowerShell command run with variables of the environment, and its error.
  pub powershell : String → List Str → files.World → (Str × Option Error) × files.World
  pub proxy : Client files.World
  pub proxy_beta : Client files.World
