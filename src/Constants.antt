-- ===== src/Constants.antt =====
-- The constants of pkg/smb/smb.go, and the separator of pkg/smb/controllerserver.go.
use csi_driver_smb_hardend.Base.{ℕ, List, [], ◌∷◌, Str, codes}

-- `separator`
abbrev pub separator : ℕ
separator = b'#'

abbrev pub username_field : Str
username_field = codes "username"

abbrev pub password_field : Str
password_field = codes "password"

abbrev pub source_field : Str
source_field = codes "source"

abbrev pub sub_dir_field : Str
sub_dir_field = codes "subdir"

abbrev pub domain_field : Str
domain_field = codes "domain"

abbrev pub mount_options_field : Str
mount_options_field = codes "mountoptions"

abbrev pub secret_name_field : Str
secret_name_field = codes "secretname"

abbrev pub secret_namespace_field : Str
secret_namespace_field = codes "secretnamespace"

abbrev pub param_on_delete : Str
param_on_delete = codes "ondelete"

abbrev pub default_domain_name : Str
default_domain_name = codes "AZURE"

abbrev pub ephemeral_field : Str
ephemeral_field = codes "csi.storage.k8s.io/ephemeral"

abbrev pub pod_namespace_field : Str
pod_namespace_field = codes "csi.storage.k8s.io/pod.namespace"

abbrev pub pvc_name_key : Str
pvc_name_key = codes "csi.storage.k8s.io/pvc/name"

abbrev pub pvc_namespace_key : Str
pvc_namespace_key = codes "csi.storage.k8s.io/pvc/namespace"

abbrev pub pv_name_key : Str
pv_name_key = codes "csi.storage.k8s.io/pv/name"

abbrev pub pvc_name_metadata : Str
pvc_name_metadata = codes "${pvc.metadata.name}"

abbrev pub pvc_namespace_metadata : Str
pvc_namespace_metadata = codes "${pvc.metadata.namespace}"

abbrev pub pv_name_metadata : Str
pv_name_metadata = codes "${pv.metadata.name}"

abbrev pub retain : Str
retain = codes "retain"

abbrev pub archive : Str
archive = codes "archive"

abbrev pub file_mode : Str
file_mode = codes "file_mode"

abbrev pub dir_mode : Str
dir_mode = codes "dir_mode"

abbrev pub default_file_mode : Str
default_file_mode = codes "0777"

abbrev pub default_dir_mode : Str
default_dir_mode = codes "0777"

abbrev pub true_value : Str
true_value = codes "true"

-- `supportedOnDeleteValues`
abbrev pub supported_on_delete_values : List Str
supported_on_delete_values = [] ∷ codes "delete" ∷ retain ∷ archive ∷ []

abbrev pub default_driver_name : Str
default_driver_name = codes "smb.csi.k8s.io"

abbrev pub default_krb5_ccname : Str
default_krb5_ccname = codes "krb5cc_"

abbrev pub default_krb5_cache_directory : Str
default_krb5_cache_directory = codes "/var/lib/kubelet/kerberos/"
