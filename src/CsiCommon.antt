-- ===== src/CsiCommon.antt =====
-- pkg/csi-common/driver.go and pkg/csi-common/utils.go: the capabilities of a driver, and its
-- endpoint.
pub mod Endpoint
pub mod Laws
pub mod Lifetime
pub mod Logging
use csi_driver_smb_hardend.Base.{
  Bool, true, false, ◌||◌, List, [], ◌∷◌, Str, codes, is_empty, ◌==◌, if◌then◌else◌, ℕ, String,
}
use csi_driver_smb_hardend.Base.{Option, none, some, drop, str_eq}
use csi_driver_smb_hardend.Strings.{has_prefix, to_lower}
use csi_driver_smb_hardend.Errors.{plain, status, invalid_argument, Result, ok, err}

-- The capabilities that `AddControllerServiceCapabilities` and `AddNodeServiceCapabilities` set. A
-- type of RPC is the number of its protobuf enumeration, of which 0 is unknown.
pub record CsiDriver : Type 0 where
  pub name : Str
  pub version : Str
  pub node_id : Str
  pub cap : List ℕ
  pub ns_cap : List ℕ
  pub vc : List ℕ

-- The loop over the capabilities.
unfoldable pub offers : ℕ → List ℕ → Bool
offers c [] = false
offers c (cap ∷ caps) = (c == cap) || offers c caps

-- `ValidateControllerServiceRequest`
unfoldable pub validate_controller_service_request : CsiDriver → ℕ → Result (Unit {0})
unfolding offers
validate_controller_service_request d c =
    if c == 0 then ok tt else if offers c d.cap then ok tt else err (status invalid_argument "%s")

-- `ValidateNodeServiceRequest`
unfoldable pub validate_node_service_request : CsiDriver → ℕ → Result (Unit {0})
unfolding offers
validate_node_service_request d c =
    if c == 0
    then ok tt
    else if offers c d.ns_cap
    then ok tt
    else err (status invalid_argument "%s")

-- The loops that make a capability of each type, and keep their order.
unfoldable pub capabilities : List ℕ → List ℕ
capabilities [] = []
capabilities (c ∷ cl) = c ∷ capabilities cl

-- `AddControllerServiceCapabilities`, which replaces what was there.
unfoldable pub add_controller_service_capabilities : CsiDriver → List ℕ → CsiDriver
unfolding capabilities
add_controller_service_capabilities d cl = record d { cap = capabilities cl }

-- `AddNodeServiceCapabilities`
unfoldable pub add_node_service_capabilities : CsiDriver → List ℕ → CsiDriver
unfolding capabilities
add_node_service_capabilities d nl = record d { ns_cap = capabilities nl }

-- `AddVolumeCapabilityAccessModes`, which gives the modes too.
unfoldable pub add_volume_capability_access_modes : CsiDriver → List ℕ → CsiDriver × List ℕ
unfolding capabilities
add_volume_capability_access_modes d vc = (record d { vc = capabilities vc }, capabilities vc)

-- `GetVolumeCapabilityAccessModes`
unfoldable pub get_volume_capability_access_modes : CsiDriver → List ℕ
get_volume_capability_access_modes d = d.vc

-- `NewCSIDriver`: `none` is a nil pointer. A version that is missing is only logged.
unfoldable pub new_csi_driver : Str → Str → Str → Option CsiDriver
new_csi_driver name version node_id =
    if is_empty name
    then none
    else if is_empty node_id
    then none
    else some (record {
      name = name;
      version = version;
      node_id = node_id;
      cap = [];
      ns_cap = [];
      vc = [];
    })

-- The text behind the first "://".
unfoldable pub behind_scheme : Str → Option (Str × Str)
unfolding has_prefix
behind_scheme [] = none
behind_scheme (c ∷ ep) =
    let rest = behind_scheme ep in
    if has_prefix (c ∷ ep) (codes "://")
    then some ([], drop 3 (c ∷ ep))
    else elim rest [ none ↦ none | some p ↦ some (c ∷ p.0, p.1) ]

unfoldable pub endpoint_of : Option (Str × Str) → Result (Str × Str)
endpoint_of (some (scheme, address)) =
    if is_empty address then err (plain "Invalid endpoint: %v") else ok (scheme, address)
endpoint_of none = err (plain "Invalid endpoint: %v")

-- `ParseEndpoint`
unfoldable pub parse_endpoint : Str → Result (Str × Str)
unfolding has_prefix to_lower behind_scheme endpoint_of
parse_endpoint ep =
    if has_prefix (to_lower ep) (codes "unix://") || has_prefix (to_lower ep) (codes "tcp://")
    then endpoint_of (behind_scheme ep)
    else err (plain "Invalid endpoint: %v")

-- `getLogLevel`
unfoldable pub get_log_level : Str → ℕ
unfolding str_eq
get_log_level method =
    if str_eq method (codes "/csi.v1.Identity/Probe")
      || str_eq method (codes "/csi.v1.Node/NodeGetCapabilities")
      || str_eq method (codes "/csi.v1.Node/NodeGetVolumeStats")
    then 6
    else 2

-- `ControllerGetCapabilities`, `NodeGetCapabilities` and `NodeGetInfo` of pkg/smb.
unfoldable pub controller_get_capabilities : CsiDriver → Result (List ℕ)
controller_get_capabilities d = ok d.cap

unfoldable pub node_get_capabilities : CsiDriver → Result (List ℕ)
node_get_capabilities d = ok d.ns_cap

unfoldable pub node_get_info : CsiDriver → Result Str
node_get_info d = ok d.node_id
