-- ===== src/Base64.antt =====
-- `base64.StdEncoding` of Go, on bytes.
use csi_driver_smb_hardend.Base.{
  ℕ, ◌+◌, ◌-◌, ◌*◌, ◌/◌, ◌%◌, ◌&&◌, ◌||◌, List, [], ◌∷◌, ◌++◌, Option, none, some, Str, ◌==◌, ltb,
  leb, if◌then◌else◌,
}

-- The letter of a value below 64.
unfoldable pub letter : ℕ → ℕ
letter v =
    if ltb v 26
    then b'A' + v
    else if ltb v 52
    then b'a' + (v - 26)
    else if ltb v 62
    then b'0' + (v - 52)
    else if v == 62
    then b'+'
    else b'/'

-- `EncodeToString(src)`
unfoldable pub encode : List ℕ → Str
unfolding letter
encode [] = []
encode (a ∷ []) = letter (a / 4) ∷ letter (a % 4 * 16) ∷ b'=' ∷ b'=' ∷ []
encode (a ∷ b ∷ []) =
    letter (a / 4) ∷ letter (a % 4 * 16 + b / 16) ∷ letter (b % 16 * 4) ∷ b'=' ∷ []
encode (a ∷ b ∷ c ∷ rest) =
    letter (a / 4)
    ∷ letter (a % 4 * 16 + b / 16)
    ∷ letter (b % 16 * 4 + c / 64)
    ∷ letter (c % 64)
    ∷ encode rest

-- The value of a letter.
unfoldable pub value_of : ℕ → Option ℕ
value_of l =
    if leb b'A' l && leb l b'Z'
    then some (l - b'A')
    else if leb b'a' l && leb l b'z'
    then some (l - b'a' + 26)
    else if leb b'0' l && leb l b'9'
    then some (l - b'0' + 52)
    else if l == b'+'
    then some 62
    else if l == b'/'
    then some 63
    else none

infixl 5 ◌>>=◌
abbrev ◌>>=◌ : {A B : Type 0} → Option A → (A → Option B) → Option B
none >>= f = none
some a >>= f = f a

-- The last four letters, padded with "=" for two bytes or for one.
unfoldable pub last_group : ℕ → ℕ → ℕ → ℕ → Option (List ℕ)
unfolding value_of
last_group k l m n = do
  a ← value_of k
  b ← value_of l
  if n == b'='
      then (if m == b'='
          then some ((a * 4 + b / 16) ∷ [])
          else (value_of m >>= λ c. some ((a * 4 + b / 16) ∷ (b % 16 * 16 + c / 4) ∷ [])))
      else (value_of m >>= λ c. value_of n >>= λ d.
          some ((a * 4 + b / 16) ∷ (b % 16 * 16 + c / 4) ∷ (c % 4 * 64 + d) ∷ []))

-- The bytes of four letters that others follow.
unfoldable pub group : ℕ → ℕ → ℕ → ℕ → Option (List ℕ)
unfolding value_of
group k l m n = do
  a ← value_of k
  b ← value_of l
  c ← value_of m
  d ← value_of n
  some ((a * 4 + b / 16) ∷ (b % 16 * 16 + c / 4) ∷ (c % 4 * 64 + d) ∷ [])

unfoldable pub decode_letters : Str → Option (List ℕ)
unfolding last_group group
decode_letters [] = some []
decode_letters (k ∷ l ∷ m ∷ n ∷ []) = last_group k l m n
decode_letters (k ∷ l ∷ m ∷ n ∷ o ∷ rest) =
    let more = decode_letters (o ∷ rest) in
    group k l m n >>= λ bytes. more >>= λ tail. some (bytes ++ tail)
decode_letters _ = none

-- Line ends are passed over.
unfoldable pub without_newlines : Str → Str
without_newlines [] = []
without_newlines (c ∷ s) =
    let rest = without_newlines s in if (c == 10) || (c == 13) then rest else c ∷ rest

-- `DecodeString(s)`; `none` is a malformed text.
unfoldable pub decode : Str → Option (List ℕ)
unfolding decode_letters without_newlines
decode s = decode_letters (without_newlines s)
