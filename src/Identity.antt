-- ===== src/Identity.antt =====
-- pkg/smb/identityserver.go: the identity service.
use csi_driver_smb_hardend.Base.{ℕ, List, [], ◌∷◌, Bool, true, Str, is_empty, if◌then◌else◌}
use csi_driver_smb_hardend.Errors.{status, unavailable, Result, ok, err}
use csi_driver_smb_hardend.Env.{Driver}

-- `GetPluginInfo`: the name and the version.
unfoldable pub get_plugin_info : Driver → Result (Str × Str)
get_plugin_info d =
    if is_empty d.name
    then err (status unavailable "Driver name not configured")
    else if is_empty d.version
    then err (status unavailable "Driver is missing version")
    else ok (d.name, d.version)

-- `Probe`
unfoldable pub probe_plugin : Result Bool
probe_plugin = ok true

-- The types of `PluginCapability_Service` that the driver gives: the protobuf name has the number 1.
abbrev pub controller_service : ℕ
controller_service = 1

-- `GetPluginCapabilities`
unfoldable pub get_plugin_capabilities : Result (List ℕ)
get_plugin_capabilities = ok (controller_service ∷ [])
