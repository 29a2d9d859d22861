-- ===== src/Numbers.antt =====
-- Go's package strconv and the verbs %d and %o, as far as the driver uses them. An `int` has 64 bits.
pub mod Digits
use csi_driver_smb_hardend.Base.{
  ℕ, zero, suc, ◌+◌, ◌-◌, ◌*◌, ◌/◌, ◌%◌, ◌^◌, Bool, true, false, ◌||◌, ◌&&◌, not, [], ◌∷◌, Option,
  none, some, Str, is_empty, ◌==◌, ltb, leb, if◌then◌else◌,
}
use csi_driver_smb_hardend.Strings.{lower_byte}

-- `negsuc n` is -(n + 1).
pub data ℤ : Type 0 where
  pos : ℕ → ℤ
  negsuc : ℕ → ℤ

-- The value of a digit or letter; 36 for any other byte.
unfoldable pub digit_value : ℕ → ℕ
unfolding lower_byte
digit_value c =
    let l = lower_byte c in
    if leb b'0' c && leb c b'9'
    then c - b'0'
    else if leb b'a' l && leb l b'z'
    then l - b'a' + 10
    else 36

-- The loop of `ParseUint`: `none` for a byte that is no digit of the base, or past 64 bits.
unfoldable pub read_digits : ℕ → Bool → Str → ℕ → Option ℕ
unfolding digit_value
read_digits base underscores [] n = some n
read_digits base underscores (c ∷ s) n =
    let m = n * base + digit_value c in
    let skip = read_digits base underscores s n in
    let next = read_digits base underscores s m in
    if (c == b'_') && underscores
    then skip
    else if leb base (digit_value c) || leb (2 ^ 64) m
    then none
    else next

-- A sign in front, and whether the number is negative.
unfoldable pub strip_sign : Str → Bool × Str
strip_sign [] = (false, [])
strip_sign (c ∷ s) =
    if c == b'-' then (true, s) else if c == b'+' then (false, s) else (false, c ∷ s)

-- The range check of `ParseInt` for 64 bits.
unfoldable pub to_int : Bool → ℕ → Option ℤ
to_int false n = if ltb n (2 ^ 63) then some (pos n) else none
to_int true zero = some (pos 0)
to_int true (suc n) = if ltb n (2 ^ 63) then some (negsuc n) else none

unfoldable pub to_int? : Bool → Option ℕ → Option ℤ
unfolding to_int
to_int? neg none = none
to_int? neg (some n) = to_int neg n

-- `strconv.Atoi(s)`
unfoldable pub atoi : Str → Option ℤ
unfolding strip_sign read_digits to_int?
atoi s =
    let (neg, digits) = strip_sign s in
    if is_empty digits then none else to_int? neg (read_digits 10 false digits 0)

-- The digits of a positive number in front of `out`, for a fuel of at least the number.
unfoldable pub put_digits : ℕ → ℕ → ℕ → Str → Str
put_digits base zero n out = out
put_digits base (suc fuel) n out =
    let more = put_digits base fuel (n / base) ((b'0' + n % base) ∷ out) in
    if n == 0 then out else more

-- `fmt.Sprintf("%d", n)` and `%o`, by the base, which is at most ten.
unfoldable pub format_nat : ℕ → ℕ → Str
unfolding put_digits
format_nat base n = if n == 0 then b'0' ∷ [] else put_digits base n n []

-- `fmt.Sprintf("%d", n)`
unfoldable pub format_int : ℤ → Str
unfolding format_nat
format_int (pos n) = format_nat 10 n
format_int (negsuc n) = b'-' ∷ format_nat 10 (n + 1)

-- The base that a prefix of a number without sign names, and the digits behind it.
unfoldable pub base_of : Str → ℕ × Str
unfolding lower_byte
base_of (z ∷ c ∷ d ∷ s) =
    if z == b'0'
    then (if lower_byte c == b'b'
        then (2, d ∷ s)
        else if lower_byte c == b'o'
        then (8, d ∷ s)
        else if lower_byte c == b'x'
        then (16, d ∷ s)
        else (8, c ∷ d ∷ s))
    else (10, z ∷ c ∷ d ∷ s)
base_of (z ∷ s) = if z == b'0' then (8, s) else (10, z ∷ s)
base_of [] = (10, [])

-- The scan of `underscoreOK`: the last byte seen is '0' for a digit, '_', or '!' for another.
unfoldable pub underscores_fit : Bool → ℕ → Str → Bool
unfolding lower_byte
underscores_fit hex i [] = not (i == b'_')
underscores_fit hex i (c ∷ s) =
    let l = lower_byte c in
    let is_digit = (leb b'0' c && leb c b'9') || (hex && (leb b'a' l && leb l b'f')) in
    let digit = underscores_fit hex b'0' s in
    let gap = underscores_fit hex b'_' s in
    let other = underscores_fit hex b'!' s in
    if is_digit
    then digit
    else if c == b'_'
    then (if i == b'0' then gap else false)
    else if i == b'_'
    then false
    else other

-- `underscoreOK(s)` for a number without its sign.
unfoldable pub underscore_ok : Str → Bool
unfolding underscores_fit
underscore_ok (z ∷ c ∷ s) =
    let l = lower_byte c in
    if (z == b'0') && ((l == b'b') || ((l == b'o') || (l == b'x')))
    then underscores_fit (l == b'x') b'0' s
    else underscores_fit false b'^' (z ∷ c ∷ s)
underscore_ok s = underscores_fit false b'^' s

unfoldable pub has_underscore : Str → Bool
has_underscore [] = false
has_underscore (c ∷ s) = (c == b'_') || has_underscore s

-- `strconv.ParseInt(s, 0, 0)`
unfoldable pub parse_int : Str → Option ℤ
unfolding strip_sign base_of read_digits underscore_ok has_underscore to_int?
parse_int s =
    let (neg, number) = strip_sign s in
    let (base, digits) = base_of number in
    if is_empty number || (has_underscore number && not (underscore_ok number))
    then none
    else to_int? neg (read_digits base true digits 0)
