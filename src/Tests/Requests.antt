-- ===== src/Tests/Requests.antt =====
-- The requests of the controller and of the node at concrete inputs.
use csi_driver_smb_hardend.Base.{
  ℕ, ◌≡◌, refl, arith, Bool, true, false, List, [], ◌∷◌, ◌++◌, Option, none, some, Str, codes, All,
  All-append,
}
use csi_driver_smb_hardend.Errors.{ok}
use csi_driver_smb_hardend.Locks.{new_volume_locks}
use csi_driver_smb_hardend.Base.{contains}
use csi_driver_smb_hardend.Volume.{
  SmbVolume, get_volume_id_from_smb_vol, get_smb_vol_from_id, new_smb_volume,
  get_internal_volume_path,
}
use csi_driver_smb_hardend.Volume.{no_parameters, get_internal_mount_path}
use csi_driver_smb_hardend.Strings.{equal_fold}
use csi_driver_smb_hardend.Base.{str_eq}
use csi_driver_smb_hardend.Node.Stage.{node_stage_volume, node_unstage_volume}
use csi_driver_smb_hardend.Node.Publish.{node_publish_volume, node_unpublish_volume}
use csi_driver_smb_hardend.Controller.Create.{create_volume}
use csi_driver_smb_hardend.Controller.Delete.{delete_volume, with_policy}
use csi_driver_smb_hardend.Controller.Delete.Laws.{delete_volume_retains}
use csi_driver_smb_hardend.Base.{◌≢◌, inr}
use csi_driver_smb_hardend.Env.{Driver}
use csi_driver_smb_hardend.Controller.Frees.{controller_releases, node_releases}
use csi_driver_smb_hardend.Controller.Keeps.{
  DeletionCalls, delete_volume-Keeps, create_volume-Keeps,
}
use csi_driver_smb_hardend.Csi.{entries}
use csi_driver_smb_hardend.Action.Keeps.{Keeps}
use csi_driver_smb_hardend.Tests.{
  Log, test_env, test_driver, at_rest, made, create_request, delete_request, stage_request,
  unstage_request, publish_request, unpublish_request, quiet_mounting,
}

controller_releases_example :
    ((create_volume test_env test_driver create_request at_rest).1.locks ≡ new_volume_locks)
    × ((delete_volume test_env test_driver delete_request at_rest).1.locks ≡ new_volume_locks)
controller_releases_example =
    controller_releases test_env test_driver create_request delete_request at_rest

node_releases_example :
    ((node_stage_volume test_env test_driver stage_request at_rest).1.locks ≡ new_volume_locks)
    × ((node_unstage_volume test_env test_driver unstage_request at_rest).1.locks
        ≡ new_volume_locks)
    × ((node_publish_volume test_env test_driver publish_request at_rest).1.locks
        ≡ new_volume_locks)
    × ((node_unpublish_volume test_env test_driver unpublish_request at_rest).1.locks
        ≡ new_volume_locks)
node_releases_example =
    node_releases test_env test_driver stage_request unstage_request publish_request
      unpublish_request at_rest

-- The driver retains the subdirectories of volumes whose id names no action.
abbrev retaining_driver : Driver
retaining_driver = record test_driver { default_on_delete_policy = codes "Retain" }

delete_volume_retains_example :
    delete_volume test_env retaining_driver delete_request at_rest ≡ (ok tt, at_rest)
unfolding get_smb_vol_from_id csi_driver_smb_hardend.Base.contains
    csi_driver_smb_hardend.Strings.equal_fold
delete_volume_retains_example =
    delete_volume_retains test_env retaining_driver delete_request
      (record made { size = 0; on_delete = [] }) at_rest refl refl refl (inr refl)

-- The paths that are removed, renamed or copied to are that of the volume `made`.
abbrev OnlyMade : Log → Type 0
OnlyMade = All (λ path. path ≡ codes "/tmp/pv/a")

impossible : {A : Type 0} → false ≡ true → A
impossible e = cc

deleting-OnlyMade :
    DeletionCalls test_env OnlyMade test_driver delete_request
      (with_policy test_driver (record made { size = 0; on_delete = [] }))
unfolding get_internal_volume_path with_policy equal_fold
deleting-OnlyMade = record {
  look_up = record { kept = λ w h. h };
  note = record { kept = λ w h. h };
  chmod = λ e. record { kept = λ w h. (refl, h) };
  removal = λ e. record { kept = λ w h. (refl, h) };
  renaming = λ e. impossible e;
  stale = λ e _. impossible e;
}

delete_volume-Keeps_example : Keeps OnlyMade (delete_volume test_env test_driver delete_request)
unfolding get_smb_vol_from_id
delete_volume-Keeps_example =
    delete_volume-Keeps test_env OnlyMade (quiet_mounting OnlyMade) test_driver delete_request
      (record made { size = 0; on_delete = [] }) refl deleting-OnlyMade

create_volume-Keeps_example : Keeps OnlyMade (create_volume test_env test_driver create_request)
unfolding new_smb_volume csi_driver_smb_hardend.Volume.read_parameters entries
    csi_driver_smb_hardend.Volume.make_volume csi_driver_smb_hardend.Volume.is_supported
    get_volume_id_from_smb_vol csi_driver_smb_hardend.Volume.volume_of get_internal_volume_path
create_volume-Keeps_example =
    create_volume-Keeps test_env OnlyMade (quiet_mounting OnlyMade) test_driver create_request made
      refl (λ source. record { kept = λ w h. (refl, h) })
