-- ===== src/Maps.antt =====
-- A Go map of strings. The list is the map in the order in which a `range` over it visits the keys.
use csi_driver_smb_hardend.Base.{
  ◌≡◌, refl, List, [], ◌∷◌, Option, none, some, arith, Str, str_eq, str_eq_iff, if◌then◌else◌,
}
use csi_driver_smb_hardend.Strings.{equal_fold}
use csi_driver_smb_hardend.Strings.Fold.{equal_fold_iff}

abbrev pub Map : Type 0
Map = List (Str × Str)

-- `m[key]`, with whether the key is there.
unfoldable pub lookup : Str → Map → Option Str
unfolding str_eq
lookup key [] = none
lookup key ((k, v) ∷ m) = if str_eq k key then some v else lookup key m

-- `m[key]`, the empty string where the key is not there.
unfoldable pub get : Str → Map → Str
unfolding lookup
get key m = elim (lookup key m) [ none ↦ [] | some v ↦ v ]

-- `m[key] = value`
unfoldable pub assign : Str → Str → Map → Map
unfolding str_eq
assign key value [] = (key, value) ∷ []
assign key value ((k, v) ∷ m) = if str_eq k key then (k, value) ∷ m else (k, v) ∷ assign key value m

pub lookup-assign :
    (key j value : Str) (m : Map)
    → lookup j (assign key value m) ≡ (if str_eq key j then some value else lookup j m)
unfolding lookup assign
lookup-assign key j value [] = refl
lookup-assign key j value ((k, v) ∷ m) =
    ground (arith, lookup-assign key j value m, str_eq_iff key j, str_eq_iff k key, str_eq_iff k j)

-- The loop over the keys: the first that is the same without regard to case is overwritten.
unfoldable pub set_key_value : Map → Str → Str → Map
unfolding equal_fold
set_key_value [] key value = (key, value) ∷ []
set_key_value ((k, v) ∷ m) key value =
    if equal_fold k key then (k, value) ∷ m else (k, v) ∷ set_key_value m key value

-- `setKeyValueInMap`, of pkg/smb/smb.go and of pkg/util/util.go. `none` is a nil map, in which
-- nothing is set.
unfoldable pub set_key_value_in_map : Option Map → Str → Str → Option Map
set_key_value_in_map none key value = none
set_key_value_in_map (some m) key value = some (set_key_value m key value)

-- The value of the first key that is the same without regard to case.
abbrev pub lookup_fold : Str → Map → Option Str
lookup_fold key [] = none
lookup_fold key ((k, v) ∷ m) = if equal_fold k key then some v else lookup_fold key m

-- After a key is set, a key that is the same without regard to case has the new value, and any
-- other keeps its own.
pub lookup_fold-set_key_value :
    (key j value : Str) (m : Map)
    → lookup_fold j (set_key_value m key value)
      ≡ (if equal_fold key j then some value else lookup_fold j m)
unfolding set_key_value
lookup_fold-set_key_value key j value [] = refl
lookup_fold-set_key_value key j value ((k, v) ∷ m) = ground (
  arith,
  lookup_fold-set_key_value key j value m,
  equal_fold_iff key j,
  equal_fold_iff k key,
  equal_fold_iff k j,
)
