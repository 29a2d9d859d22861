-- ===== src/Node/Stage/Context.antt =====
-- NodeStageVolume of pkg/smb/nodeserver.go: what it reads from the context of a volume.
use csi_driver_smb_hardend.Base.{◌≡◌, refl, ◌∙◌, ap, arith, [], ◌∷◌, Str, codes, str_eq_iff}
use csi_driver_smb_hardend.Constants.{
  source_field, sub_dir_field, pvc_namespace_key, pvc_name_key, pv_name_key, secret_name_field,
  secret_namespace_field, ephemeral_field, mount_options_field, true_value,
}
use csi_driver_smb_hardend.Strings.{to_lower, equal_fold}
use csi_driver_smb_hardend.Maps.{Map}
use csi_driver_smb_hardend.Volume.Params.{last_of, replacements_of}
use csi_driver_smb_hardend.Node.Stage.{StageContext, no_context, read_entry, read_context}

-- The context behind these entries, field by field.
abbrev gathered : Map → Str → StageContext → StageContext
gathered context flag c = record {
  source = last_of source_field context c.source;
  sub_dir = last_of sub_dir_field context c.sub_dir;
  secret_name = last_of secret_name_field context c.secret_name;
  secret_namespace = last_of secret_namespace_field context c.secret_namespace;
  ephemeral_mount_options = last_of mount_options_field context c.ephemeral_mount_options;
  ephemeral = equal_fold (last_of ephemeral_field context flag) true_value;
  replacements = replacements_of context c.replacements;
}

read_entry_lem :
    (k v flag : Str) (c : StageContext)
    → c.ephemeral ≡ equal_fold flag true_value
    → read_entry k v c ≡ gathered ((k, v) ∷ []) flag c
unfolding read_entry
read_entry_lem k v flag c e = ground (
  arith,
  str_eq_iff (to_lower k) source_field,
  str_eq_iff (to_lower k) sub_dir_field,
  str_eq_iff (to_lower k) secret_name_field,
  str_eq_iff (to_lower k) secret_namespace_field,
  str_eq_iff (to_lower k) mount_options_field,
  str_eq_iff (to_lower k) ephemeral_field,
  str_eq_iff (to_lower k) pvc_namespace_key,
  str_eq_iff (to_lower k) pvc_name_key,
  str_eq_iff (to_lower k) pv_name_key,
)

read_context_lem :
    (context : Map) (flag : Str) (c : StageContext)
    → c.ephemeral ≡ equal_fold flag true_value
    → read_context context c ≡ gathered context flag c
unfolding read_context
read_context_lem [] flag c e = ap (λ b. record c { ephemeral = b }) e
read_context_lem ((k, v) ∷ context) flag c e =
    ap (read_context context) (read_entry_lem k v flag c e)
    ∙ read_context_lem context _ (gathered ((k, v) ∷ []) flag c) refl

-- What NodeStageVolume reads from a context of a volume, in the order in which it visits the entries:
-- each variable has the value of the last entry whose key is the field in any case of letters, and is
-- empty without one, the volume is ephemeral where the last entry for that is "true" in any case, the
-- replacements are those of the last namespace, claim and volume that are named, and other keys are
-- passed over.
pub read_context_fields :
    (context : Map)
    → read_context context no_context ≡ record {
      source = last_of source_field context [];
      sub_dir = last_of sub_dir_field context [];
      secret_name = last_of secret_name_field context [];
      secret_namespace = last_of secret_namespace_field context [];
      ephemeral_mount_options = last_of mount_options_field context [];
      ephemeral = equal_fold (last_of ephemeral_field context []) (codes "true");
      replacements = replacements_of context [];
    }
read_context_fields context = read_context_lem context [] no_context (unfold equal_fold in refl)
