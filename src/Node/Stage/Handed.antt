-- ===== src/Node/Stage/Handed.antt =====
-- The context of a volume between CreateVolume of pkg/smb/controllerserver.go and NodeStageVolume of
-- pkg/smb/nodeserver.go.
use csi_driver_smb_hardend.Base.{
  ◌≡◌, refl, sym, inl, inr, Bool-cases, ◌∙◌, ap, arith, true, [], ◌∷◌, Str, Option, none, some,
  str_eq,
}
use csi_driver_smb_hardend.Constants.{source_field, sub_dir_field}
use csi_driver_smb_hardend.Strings.{to_lower, equal_fold}
use csi_driver_smb_hardend.Strings.Fold.{equal_fold_iff}
use csi_driver_smb_hardend.Maps.{Map, lookup_fold, set_key_value, lookup_fold-set_key_value}
use csi_driver_smb_hardend.Volume.Params.{last_of}
use csi_driver_smb_hardend.Node.Stage.{no_context, read_context}
use csi_driver_smb_hardend.Node.Stage.Context.{read_context_fields}

-- No two keys are the same but for the case of letters.
abbrev pub IsUnique : Map → Type 0
IsUnique [] = Unit
IsUnique ((k, v) ∷ m) = (lookup_fold k m ≡ none) × IsUnique m

abbrev pub value_or : Str → Option Str → Str
value_or default none = default
value_or default (some v) = v

lookup_fold-eq : (j k : Str) (m : Map) → equal_fold j k ≡ true → lookup_fold j m ≡ lookup_fold k m
lookup_fold-eq j k [] e = refl
lookup_fold-eq j k ((i, v) ∷ m) e =
    ground
      (arith, lookup_fold-eq j k m e, equal_fold_iff j k, equal_fold_iff i j, equal_fold_iff i k)

-- Where no key comes twice, the last value of a field is the only one.
last_of_unique :
    (field : Str) (m : Map) (default : Str)
    → to_lower field ≡ field
    → IsUnique m
    → last_of field m default ≡ value_or default (lookup_fold field m)
unfolding equal_fold
last_of_unique field [] default lower u = refl
last_of_unique field ((k, v) ∷ m) default lower u =
    let same : str_eq (to_lower k) field ≡ equal_fold k field =
      ap (str_eq (to_lower k)) (sym lower) in
    elim (Bool-cases (equal_fold k field)) [
      | inl e ↦
          let gone : lookup_fold field m ≡ none = sym (lookup_fold-eq k field m e) ∙ u.0 in
          rw (same, e) (last_of_unique field m v lower u.1 ∙ ap (value_or v) gone)
      | inr e ↦ rw (same, e) (last_of_unique field m default lower u.1)
    ]

pub read_context-set_key_value :
    (parameters context : Map) (sub_dir : Str)
    → IsUnique context
    → ((key : Str)
        → lookup_fold key context
          ≡ lookup_fold key (set_key_value parameters sub_dir_field sub_dir))
    → ((read_context context no_context).sub_dir ≡ sub_dir)
      × ((read_context context no_context).source
          ≡ value_or [] (lookup_fold source_field parameters))
unfolding equal_fold
read_context-set_key_value parameters context sub_dir u entries = (
  ap (λ c. c.sub_dir) (read_context_fields context)
      ∙ last_of_unique sub_dir_field context [] refl u
      ∙ ap (value_or []) (
          entries sub_dir_field
          ∙ lookup_fold-set_key_value sub_dir_field sub_dir_field sub_dir parameters),
  ap (λ c. c.source) (read_context_fields context)
      ∙ last_of_unique source_field context [] refl u
      ∙ ap (value_or []) (
          entries source_field
          ∙ lookup_fold-set_key_value sub_dir_field source_field sub_dir parameters),
)
