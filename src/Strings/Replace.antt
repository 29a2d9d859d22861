-- ===== src/Strings/Replace.antt =====
-- Replacing a text of one byte.
use csi_driver_smb_hardend.Base.{ℕ, ◌≡◌, refl, [], ◌∷◌, map, arith, Str, ◌==◌, if◌then◌else◌}
use csi_driver_smb_hardend.Strings.{has_prefix, replace_all}

-- One byte for another.
abbrev pub swap_byte : ℕ → ℕ → ℕ → ℕ
swap_byte old new c = if c == old then new else c

-- With texts of one byte, `ReplaceAll` maps each byte.
pub replace_all_byte :
    (s : Str) (old new : ℕ) → replace_all s (old ∷ []) (new ∷ []) ≡ map (swap_byte old new) s
unfolding replace_all has_prefix
replace_all_byte [] old new = refl
replace_all_byte (c ∷ s) old new = ground (arith, replace_all_byte s old new)
