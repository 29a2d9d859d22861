-- ===== src/Modes/Group.antt =====
-- enableGroupRWX: the mode that it writes, as a number.
use csi_driver_smb_hardend.Base.{
  ◌≡◌, sym, ap, ◌∙◌, ℕ, zero, suc, ◌/◌, ◌%◌, ◌^◌, ◌<◌, Bool, true, false, ◌||◌, ◌&&◌, not, Option,
  ◌∷◌, none, some, Str, ltb, is_empty, arith, Bool-cases, inl, inr,
}
use csi_driver_smb_hardend.Numbers.{
  pos, strip_sign, base_of, read_digits, has_underscore, underscore_ok, to_int, to_int?, parse_int,
  format_nat,
}
use csi_driver_smb_hardend.Numbers.Digits.{parse_int-format_nat}
use csi_driver_smb_hardend.Modes.{or_070, enable_group_rwx}

pos-injective : (m n : ℕ) → pos m ≡ pos n → m ≡ n
pos-injective m n h = grind arith

to_int?-bound : (neg : Bool) (o : Option ℕ) (v : ℕ) → to_int? neg o ≡ some (pos v) → v < 2 ^ 63
unfolding to_int? to_int
to_int?-bound neg none v h = absurd (cc h)
to_int?-bound false (some n) v h = elim (Bool-cases (ltb n (2 ^ 63))) [
  | inl e ↦
      let below : n < 2 ^ 63 = ground (arith, e) in
      let same : n ≡ v = pos-injective n v (grind arith) in omega (arith, below, same)
  | inr e ↦ absurd (grind arith)
]
to_int?-bound true (some zero) v h = omega (arith, pos-injective 0 v (grind arith))
to_int?-bound true (some (suc n)) v h = absurd (grind arith)

-- ParseInt returns numbers of 63 bits and a sign.
pub parse_int-bound : (s : Str) (v : ℕ) → parse_int s ≡ some (pos v) → v < 2 ^ 63
unfolding parse_int
parse_int-bound s v h =
    let (neg, number) = strip_sign s in
    let (base, digits) = base_of number in
    elim (Bool-cases (is_empty number || (has_underscore number && not (underscore_ok number)))) [
      | inl e ↦ absurd (grind arith)
      | inr e ↦ to_int?-bound neg (read_digits base true digits 0) v (grind arith)
    ]

or_070-bound : (v : ℕ) → v < 2 ^ 63 → or_070 v < 2 ^ 63
unfolding or_070
or_070-bound v h = omega (arith, h)

or_070_idem : (v : ℕ) → or_070 (or_070 v) ≡ or_070 v
unfolding or_070
or_070_idem v = omega arith

enable_group_rwx-pos :
    (mode : Str) (v : ℕ)
    → parse_int mode ≡ some (pos v)
    → enable_group_rwx mode ≡ b'0' ∷ format_nat 8 (or_070 v)
unfolding enable_group_rwx format_nat
enable_group_rwx-pos mode v h = rw (h, enable_group_rwx)

-- Of a mode that ParseInt reads as a number v, enableGroupRWX writes the number that is v but for the
-- digit of the group, which is 7: it is below 2^63, reads back, and has the digits of v for the others
-- and all above. Raising it again changes nothing.
pub enable_group_rwx_lem :
    (mode : Str) (v : ℕ)
    → parse_int mode ≡ some (pos v)
    → (w : ℕ) × (parse_int (enable_group_rwx mode) ≡ some (pos w))
      × (w / 8 % 8 ≡ 7)
      × (w % 8 ≡ v % 8)
      × (w / 64 ≡ v / 64)
      × (w < 2 ^ 63)
      × (enable_group_rwx (enable_group_rwx mode) ≡ enable_group_rwx mode)
enable_group_rwx_lem mode v h =
    let written = enable_group_rwx-pos mode v h in
    let bound : or_070 v < 2 ^ 63 = or_070-bound v (parse_int-bound mode v h) in
    let read : parse_int (enable_group_rwx mode) ≡ some (pos (or_070 v)) =
      rw written (parse_int-format_nat (or_070 v) bound) in
    (
      or_070 v,
      read,
      unfold or_070 in omega arith,
      unfold or_070 in omega arith,
      unfold or_070 in omega arith,
      bound,
      enable_group_rwx-pos (enable_group_rwx mode) (or_070 v) read
          ∙ ap (λ w. b'0' ∷ format_nat 8 w) (or_070_idem v)
          ∙ sym written,
    )
