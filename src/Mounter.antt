-- ===== src/Mounter.antt =====
-- pkg/mounter/refcounter_windows.go: the root of a remote path.
pub mod Laws
pub mod Interface
pub mod Mutexes
pub mod References
pub mod Windows
pub mod Proxy
pub mod Beta
pub mod HostProcess
use csi_driver_smb_hardend.Base.{List, [], ◌∷◌, ◌++◌, Str, codes, is_empty, if◌then◌else◌}
use csi_driver_smb_hardend.Errors.{plain, Result, ok, err}
use csi_driver_smb_hardend.Strings.{split, to_lower}

-- The loop over the items: the parts that are not empty.
unfoldable pub parts_of : List Str → List Str
parts_of [] = []
parts_of (s ∷ items) = let rest = parts_of items in if is_empty s then rest else s ∷ rest

-- The loop ends at the second part.
unfoldable pub root_of_parts : List Str → Result Str
unfolding to_lower
root_of_parts (host ∷ share ∷ rest) =
    ok (to_lower (codes "\\\\" ++ (host ++ (codes "\\" ++ share))))
root_of_parts _ = err (plain "remote path (%s) is invalid")

-- `getRootMappingPath`
unfoldable pub get_root_mapping_path : Str → Result Str
unfolding root_of_parts parts_of split
get_root_mapping_path path = root_of_parts (parts_of (split b'\\' path))
