-- ===== src/Numbers/Digits.antt =====
-- What `Sprintf` of a number writes is read back.
use csi_driver_smb_hardend.Base.{
  ◌≡◌, refl, ap, ◌∙◌, ℕ, zero, suc, ◌+◌, ◌*◌, ◌/◌, ◌%◌, ◌^◌, ◌≤◌, ◌<◌, Bool, true, false, [], ◌∷◌,
  some, Str, All, arith, ◌==◌, Bool-cases, inl, inr,
}
use native.Mathlib.Nat.{div-add-mod', mod-lt, div-lt_self}
use csi_driver_smb_hardend.Strings.{lower_byte}
use csi_driver_smb_hardend.Numbers.{
  pos, base_of, has_underscore, strip_sign, parse_int, to_int, to_int?, digit_value, read_digits,
  put_digits, format_nat,
}

-- The bytes of the digits.
abbrev pub IsDigit : ℕ → Type 0
IsDigit c = (b'0' ≤ c) × (c ≤ b'9')

digit_value-digit : (d : ℕ) → d < 10 → digit_value (b'0' + d) ≡ d
unfolding digit_value lower_byte
digit_value-digit d h = ground (arith, h)

module _ (base : ℕ) (two : 2 ≤ base) (ten : base ≤ 10) where
  read_digits-digit :
      (d n : ℕ) (underscores : Bool) (out : Str)
      → d < base
      → n * base + d < 2 ^ 64
      → read_digits base underscores ((b'0' + d) ∷ out) n
        ≡ read_digits base underscores out (n * base + d)
  unfolding read_digits
  read_digits-digit d n u out h b =
      let value : digit_value (b'0' + d) ≡ d = digit_value-digit d (omega (arith, h, ten)) in
      rw value (ground (arith, h, b))

  -- The fuel of the number is enough: behind the digits that are written, the number has been read.
  read_digits-put_digits :
      (fuel n : ℕ) (underscores : Bool) (out : Str)
      → n ≤ fuel
      → n < 2 ^ 64
      → read_digits base underscores (put_digits base fuel n out) 0
        ≡ read_digits base underscores out n
  unfolding put_digits
  read_digits-put_digits zero n u out h b = ap (read_digits base u out) (omega (arith, h))
  read_digits-put_digits (suc fuel) n u out h b = elim (Bool-cases (n == 0)) [
    | inl e ↦ rw e (ap (read_digits base u out) (ground (arith, e)))
    | inr e ↦
        let positive : 0 < n = ground (arith, e) in
        let whole : n / base * base + n % base ≡ n = div-add-mod' n base in
        let small : n % base < base = mod-lt n (omega (arith, two)) in
        let less : n / base < n = div-lt_self positive (omega (arith, two)) in
        rw e (
          read_digits-put_digits fuel (n / base) u ((b'0' + n % base) ∷ out)
            (omega (arith, less, h)) (omega (arith, less, b))
          ∙ read_digits-digit (n % base) (n / base) u out small (omega (arith, whole, b))
          ∙ ap (read_digits base u out) whole)
  ]

  -- A number of 64 bits that is written in the base reads back.
  pub read_digits-format_nat :
      (n : ℕ) (underscores : Bool)
      → n < 2 ^ 64
      → read_digits base underscores (format_nat base n) 0 ≡ some n
  unfolding format_nat
  read_digits-format_nat n u b = elim (Bool-cases (n == 0)) [
    | inl e ↦ rw e (
        read_digits-digit 0 0 u [] (omega (arith, two)) (omega arith)
        ∙ (unfold read_digits in ap some (ground (arith, e))))
    | inr e ↦ rw e (read_digits-put_digits n n u [] (omega arith) b ∙ (unfold read_digits in refl))
  ]

  put_digits-digits :
      (fuel n : ℕ) (out : Str) → All IsDigit out → All IsDigit (put_digits base fuel n out)
  unfolding put_digits
  put_digits-digits zero n out h = h
  put_digits-digits (suc fuel) n out h = elim (Bool-cases (n == 0)) [
    | inl e ↦ rw e h
    | inr e ↦
        let small : n % base < base = mod-lt n (omega (arith, two)) in
        rw e (
          put_digits-digits fuel (n / base) ((b'0' + n % base) ∷ out)
            ((omega arith, omega (arith, small, ten)), h))
  ]

  -- What is written are digits.
  pub format_nat-digits : (n : ℕ) → All IsDigit (format_nat base n)
  unfolding format_nat
  format_nat-digits n = elim (Bool-cases (n == 0)) [
    | inl e ↦ rw e ((omega arith, omega arith), tt)
    | inr e ↦ rw e (put_digits-digits n n [] tt)
  ]

-- Behind a zero, digits are of base 8.
base_of-digits : (s : Str) → All IsDigit s → base_of (b'0' ∷ s) ≡ (8, s)
unfolding base_of lower_byte
base_of-digits [] h = refl
base_of-digits (c ∷ []) h = refl
base_of-digits (c ∷ d ∷ s) (digit, h) = ground (arith, digit.0, digit.1)

has_underscore-digits : (s : Str) → All IsDigit s → has_underscore s ≡ false
unfolding has_underscore
has_underscore-digits [] h = refl
has_underscore-digits (c ∷ s) (digit, h) =
    ground (arith, digit.0, digit.1, has_underscore-digits s h)

-- A number of 63 bits that is written in base 8 behind a zero is the number that ParseInt reads.
pub parse_int-format_nat : (n : ℕ) → n < 2 ^ 63 → parse_int (b'0' ∷ format_nat 8 n) ≡ some (pos n)
unfolding parse_int strip_sign
parse_int-format_nat n h =
    let digits = format_nat-digits 8 (omega arith) (omega arith) n in
    let read : read_digits 8 true (format_nat 8 n) 0 ≡ some n =
      read_digits-format_nat 8 (omega arith) (omega arith) n true (omega (arith, h)) in
    let plain : has_underscore (b'0' ∷ format_nat 8 n) ≡ false =
      has_underscore-digits (b'0' ∷ format_nat 8 n) ((omega arith, omega arith), digits) in
    rw (plain, base_of-digits (format_nat 8 n) digits, read)
      (unfold to_int? to_int in ground (arith, h))
