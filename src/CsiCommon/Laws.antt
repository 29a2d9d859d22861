-- ===== src/CsiCommon/Laws.antt =====
-- Which requests a driver accepts.
use csi_driver_smb_hardend.Base.{◌≡◌, refl, ap, ◌||◌, List, [], ◌∷◌, ◌==◌, ℕ, arith}
use csi_driver_smb_hardend.Errors.{succeeds}
use csi_driver_smb_hardend.CsiCommon.{
  CsiDriver, offers, capabilities, validate_controller_service_request,
  validate_node_service_request, add_controller_service_capabilities, add_node_service_capabilities,
}

offers-capabilities : (c : ℕ) (cl : List ℕ) → offers c (capabilities cl) ≡ offers c cl
unfolding offers capabilities
offers-capabilities c [] = refl
offers-capabilities c (x ∷ cl) = ap (λ b. (c == x) || b) (offers-capabilities c cl)

-- After the capabilities of both services are set, in either service a request is accepted exactly
-- when its type is unknown or is among the types set for that service.
pub validate-add_capabilities :
    (d : CsiDriver) (cl nl : List ℕ) (c : ℕ)
    → let both = add_node_service_capabilities (add_controller_service_capabilities d cl) nl in
      (succeeds (validate_controller_service_request both c) ≡ ((c == 0) || offers c cl))
      × (succeeds (validate_node_service_request both c) ≡ ((c == 0) || offers c nl))
unfolding validate_controller_service_request validate_node_service_request
    add_controller_service_capabilities add_node_service_capabilities
validate-add_capabilities d cl nl c =
    ground (arith, offers-capabilities c cl, offers-capabilities c nl)
