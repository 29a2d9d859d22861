-- ===== src/Filesystem.antt =====
-- pkg/os/filesystem/filesystem.go: the paths that the driver accepts on a Windows node.
pub mod Validate
pub mod Calls
use csi_driver_smb_hardend.Base.{
  ℕ, Bool, true, false, not, ◌||◌, ◌&&◌, List, [], ◌∷◌, Str, codes, length, drop, ◌==◌, leb, ltb,
  if◌then◌else◌,
}
use csi_driver_smb_hardend.Errors.{plain, Result, ok, err}
use csi_driver_smb_hardend.Strings.{has_substring}

-- `util.MaxPathLengthWindows`
abbrev pub max_path_length_windows : ℕ
max_path_length_windows = 260

-- The class of the regular expression `["/\:\?\*|]`.
abbrev pub is_invalid_char : ℕ → Bool
is_invalid_char c =
    (c == 34) || (c == b'/') || (c == b':') || (c == b'?') || (c == b'*') || (c == b'|')

unfoldable pub matches_invalid_char : Str → Bool
matches_invalid_char [] = false
matches_invalid_char (c ∷ path) = is_invalid_char c || matches_invalid_char path

abbrev pub is_letter : ℕ → Bool
is_letter c = (leb b'a' c && leb c b'z') || (leb b'A' c && leb c b'Z')

-- `isAbsWindows`, by the regular expression `^[a-zA-Z]:\\`.
unfoldable pub is_abs_windows : Str → Bool
is_abs_windows (drive ∷ colon ∷ slash ∷ path) =
    is_letter drive && ((colon == b':') && (slash == b'\\'))
is_abs_windows _ = false

-- `isUNCPathWindows`
unfoldable pub is_unc_path_windows : Str → Bool
is_unc_path_windows (c ∷ d ∷ path) = (c == b'\\') && (d == b'\\')
is_unc_path_windows _ = false

-- `containsInvalidCharactersWindows`
unfoldable pub contains_invalid_characters_windows : Str → Bool
contains_invalid_characters_windows path =
    let rest : Str = if is_abs_windows path then drop 3 path else path in
    matches_invalid_char rest || has_substring rest (codes "..")

-- `pathlen > 0 && path[0] == '\\'`
unfoldable pub begins_with_backslash : Str → Bool
begins_with_backslash [] = false
begins_with_backslash (c ∷ path) = c == b'\\'

-- `ValidatePathWindows`
unfoldable pub validate_path_windows : Str → Result (Unit {0})
validate_path_windows path =
    if ltb max_path_length_windows (length path)
    then err (plain "path length %d exceeds maximum characters: %d")
    else if begins_with_backslash path
    then err (plain "invalid character \\ at beginning of path: %s")
    else if is_unc_path_windows path
    then err (plain "unsupported UNC path prefix: %s")
    else if contains_invalid_characters_windows path
    then err (plain "path contains invalid characters: %s")
    else if is_abs_windows path
    then ok tt
    else err (plain "not an absolute Windows path: %s")
