-- ===== src/Strings/Fold.antt =====
-- Comparing texts without regard to case.
use csi_driver_smb_hardend.Base.{
  ℕ, ◌≡◌, ◌↔◌, refl, true, [], ◌∷◌, arith, Str, str_eq_iff, str_eq_refl,
}
use csi_driver_smb_hardend.Strings.{lower_byte, to_lower, equal_fold}

lower_byte_idem : (c : ℕ) → lower_byte (lower_byte c) ≡ lower_byte c
unfolding lower_byte
lower_byte_idem c = ground arith

pub to_lower_idem : (s : Str) → to_lower (to_lower s) ≡ to_lower s
unfolding to_lower
to_lower_idem [] = refl
to_lower_idem (c ∷ s) = cc (lower_byte_idem c, to_lower_idem s)

pub equal_fold_refl : (s : Str) → equal_fold s s ≡ true
unfolding equal_fold
equal_fold_refl s = str_eq_refl (to_lower s)

pub equal_fold_iff : (s t : Str) → (equal_fold s t ≡ true) ↔ (to_lower s ≡ to_lower t)
equal_fold_iff s t = unfold equal_fold in str_eq_iff _ _
