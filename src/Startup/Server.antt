-- ===== src/Startup/Server.antt =====
-- pkg/csi-common/server.go: the server listens at the endpoint.
use csi_driver_smb_hardend.Base.{
  Bool, ◌&&◌, not, List, [], ◌∷◌, ◌++◌, Str, codes, str_eq, if◌then◌else◌,
}
use csi_driver_smb_hardend.Errors.{plain, is_not_exist, Result, ok, err}
use csi_driver_smb_hardend.Action.{Action, pure, lift, call, attempt, ◌>>=◌, ◌>>◌}
use csi_driver_smb_hardend.CsiCommon.{parse_endpoint}
use csi_driver_smb_hardend.Startup.{
  Process, Service, identity_service, controller_service, node_service,
}

-- The servers that are not nil are registered.
unfoldable pub services : Bool → Bool → Bool → List Service
services ids cs ns =
    (if ids then identity_service ∷ [] else [])
    ++ ((if cs then controller_service ∷ [] else []) ++ (if ns then node_service ∷ [] else []))

module _ (P : Process) where
  -- The address of a Unix socket has lost its first slash to the scheme.
  unfoldable pub address_of : Str → Str → Str
  address_of proto addr =
      if str_eq proto (codes "unix") && not P.on_windows then codes "/" ++ addr else addr

  -- A socket that is not there need not be removed.
  unfoldable pub removed : Result (Unit {0}) → Result (Unit {0})
  unfolding is_not_exist
  removed (ok _) = ok tt
  removed (err e) = if is_not_exist e then ok tt else err (plain "Failed to remove %s, error: %s")

  unfoldable pub remove_socket : Str → Str → Action P.World (Unit {0})
  unfolding removed
  remove_socket proto address =
      if str_eq proto (codes "unix")
      then (do r ← attempt (call (P.remove address)); lift (removed r))
      else pure tt

  -- An error of `Serve` is only logged.
  unfoldable pub serve_at : List Service → Str × Str → Action P.World (Unit {0})
  unfolding address_of remove_socket
  serve_at registered (proto, addr) = do
    remove_socket proto (address_of proto addr)
    call (P.listen proto (address_of proto addr))
    attempt (call (P.serve registered))
    pure tt

  -- `serve`, which `Start` runs and `Wait` waits for. The end of the server in the tests is left out.
  unfoldable pub serve : Str → Bool → Bool → Bool → Action P.World (Unit {0})
  unfolding serve_at services
  serve endpoint ids cs ns = lift (parse_endpoint endpoint) >>= serve_at (services ids cs ns)
