-- ===== src/Errors.antt =====
-- Go's `(value, error)` results. A message is kept as its format string, without the arguments that
-- are printed into it: the driver never reads one back.
use csi_driver_smb_hardend.Base.{Bool, true, false, String}

-- google.golang.org/grpc/codes
pub data Code : Type 0 where
  invalid_argument not_found aborted unavailable unimplemented internal : Code

-- A status error, an error of `fmt.Errorf`, and an error of the operating system, for which
-- `os.IsNotExist` and `os.IsExist` are read.
pub data Error : Type 0 where
  status : Code → String → Error
  plain : String → Error
  not_exist : Error
  already_exists : Error
  system : String → Error

-- `os.IsNotExist(err)`
unfoldable pub is_not_exist : Error → Bool
is_not_exist not_exist = true
is_not_exist _ = false

-- `os.IsExist(err)`
unfoldable pub is_exist : Error → Bool
is_exist already_exists = true
is_exist _ = false

-- `err.Error()`, as the format string.
unfoldable pub message : Error → String
message (status code text) = text
message (plain text) = text
message not_exist = "no such file or directory"
message already_exists = "file exists"
message (system text) = text

pub data Result {ℓ} (A : Type ℓ) : Type ℓ where
  ok : A → Result A
  err : Error → Result A

infixl 5 ◌>>=◌
abbrev pub ◌>>=◌ {ℓ κ} : {A : Type ℓ} {B : Type κ} → Result A → (A → Result B) → Result B
ok a >>= f = f a
err e >>= f = err e

-- `if err := m; err != nil { return nil, status.Error(code, err.Error()) }`
unfoldable pub with_code {ℓ} : {A : Type ℓ} → Code → Result A → Result A
unfolding message
with_code code (ok a) = ok a
with_code code (err e) = err (status code (message e))

-- `if err := m; err != nil { return nil, status.Errorf(code, text, err) }`
abbrev pub with_status {ℓ} : {A : Type ℓ} → Code → String → Result A → Result A
with_status code text (ok a) = ok a
with_status code text (err e) = err (status code text)

-- Whether no error is returned.
abbrev pub succeeds {ℓ} : {A : Type ℓ} → Result A → Bool
succeeds (ok a) = true
succeeds (err e) = false

-- `if err != nil { return fmt.Errorf(text, err) }`
abbrev pub with_plain {ℓ} : {A : Type ℓ} → String → Result A → Result A
with_plain text (ok a) = ok a
with_plain text (err e) = err (plain text)
