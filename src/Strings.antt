-- ===== src/Strings.antt =====
-- The functions of Go's package strings that the driver calls, on the bytes of ASCII texts.
pub mod Split
pub mod Trim
pub mod Replace
pub mod Fold
use mathlib.Core.List.{reverse}
use csi_driver_smb_hardend.Base.{
  ℕ, zero, suc, ◌+◌, ◌-◌, Bool, true, false, ◌&&◌, ◌||◌, List, [], ◌∷◌, ◌++◌, map, Option, none,
  some, Str, str_eq, is_empty, length, drop, ◌==◌, leb, if◌then◌else◌,
}

-- `strings.HasPrefix(s, prefix)`
unfoldable pub has_prefix : Str → Str → Bool
has_prefix s [] = true
has_prefix [] (d ∷ prefix) = false
has_prefix (c ∷ s) (d ∷ prefix) = (c == d) && has_prefix s prefix

-- `strings.TrimPrefix(s, prefix)`
unfoldable pub trim_prefix : Str → Str → Str
unfolding has_prefix
trim_prefix s prefix = if has_prefix s prefix then drop (length prefix) s else s

-- `strings.HasSuffix(s, suffix)`
unfoldable pub has_suffix : Str → Str → Bool
unfolding has_prefix
has_suffix s suffix = has_prefix (reverse s) (reverse suffix)

-- `strings.TrimSuffix(s, suffix)`
unfoldable pub trim_suffix : Str → Str → Str
unfolding has_suffix
trim_suffix s suffix = if has_suffix s suffix then reverse (drop (length suffix) (reverse s)) else s

-- `strings.Contains(s, part)`
unfoldable pub has_substring : Str → Str → Bool
unfolding has_prefix
has_substring [] part = has_prefix [] part
has_substring (c ∷ s) part = has_prefix (c ∷ s) part || has_substring s part

unfoldable pub lower_byte : ℕ → ℕ
lower_byte c = if leb b'A' c && leb c b'Z' then c + 32 else c

-- `strings.ToLower(s)`
unfoldable pub to_lower : Str → Str
unfolding lower_byte
to_lower = map lower_byte

-- `strings.EqualFold(s, t)`
unfoldable pub equal_fold : Str → Str → Bool
unfolding to_lower str_eq
equal_fold s t = str_eq (to_lower s) (to_lower t)

module _ (cut : ℕ → Bool) where
  -- `strings.TrimLeftFunc` and `strings.TrimRightFunc`
  unfoldable pub trim_left : Str → Str
  trim_left [] = []
  trim_left (c ∷ s) = let rest = trim_left s in if cut c then rest else c ∷ s

  unfoldable pub trim_right : Str → Str
  trim_right [] = []
  trim_right (c ∷ s) = let rest = trim_right s in if cut c && is_empty rest then [] else c ∷ rest

  unfoldable pub trim : Str → Str
  unfolding trim_left trim_right
  trim s = trim_right (trim_left s)

-- The cutset "/".
abbrev pub is_slash : ℕ → Bool
is_slash c = c == b'/'

abbrev pub is_space : ℕ → Bool
is_space c = (c == 32) || (leb 9 c && leb c 13)

-- `strings.TrimSpace(s)`
unfoldable pub trim_space : Str → Str
unfolding trim
trim_space = trim is_space

-- Puts a byte in front of the first part.
unfoldable pub cons_first : ℕ → List Str → List Str
cons_first c [] = (c ∷ []) ∷ []
cons_first c (part ∷ parts) = (c ∷ part) ∷ parts

-- `strings.Split(s, sep)` for a separator of one byte.
unfoldable pub split : ℕ → Str → List Str
unfolding cons_first
split sep [] = [] ∷ []
split sep (c ∷ s) = let parts = split sep s in if c == sep then [] ∷ parts else cons_first c parts

-- `strings.Join(parts, sep)` for a separator of one byte.
unfoldable pub join : ℕ → List Str → Str
join sep [] = []
join sep (part ∷ []) = part
join sep (part ∷ next ∷ parts) = part ++ (sep ∷ join sep (next ∷ parts))

-- The rest of `s` from the byte at which `skip` more bytes of a match have been passed.
unfoldable pub replace_from : Str → Str → ℕ → Str → Str
unfolding has_prefix
replace_from old new skip [] = []
replace_from old new (suc skip) (c ∷ s) = replace_from old new skip s
replace_from old new zero (c ∷ s) =
    let matched = new ++ replace_from old new (length old - 1) s in
    let copied = c ∷ replace_from old new zero s in
    if has_prefix (c ∷ s) old then matched else copied

-- `strings.ReplaceAll(s, old, new)` for an `old` that is not empty.
unfoldable pub replace_all : Str → Str → Str → Str
unfolding replace_from
replace_all s old new = replace_from old new 0 s
