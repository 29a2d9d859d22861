-- ===== src/Filesystem/Validate.antt =====
-- What a path that is accepted looks like.
use csi_driver_smb_hardend.Base.{
  ℕ, ◌≡◌, refl, Bool, true, false, not, ◌||◌, ◌&&◌, if◌then◌else◌, List, [], ◌∷◌, arith, Str, codes,
  All, All-mono, str_eq, length, drop, ◌==◌, leb, Bool-cases, inl, inr,
}
use csi_driver_smb_hardend.Errors.{ok, succeeds}
use csi_driver_smb_hardend.Strings.{has_prefix, has_substring, split, cons_first}
use csi_driver_smb_hardend.Filesystem.{
  matches_invalid_char, is_abs_windows, is_unc_path_windows, contains_invalid_characters_windows,
  begins_with_backslash, validate_path_windows,
}

-- Whether the byte is one of these.
abbrev is_one_of : Str → ℕ → Bool
is_one_of [] c = false
is_one_of (b ∷ bytes) c = (b == c) || is_one_of bytes c

-- Whether some byte is a double quote, a slash, a colon, a question mark, an asterisk or a bar.
abbrev has_forbidden : Str → Bool
has_forbidden [] = false
has_forbidden (c ∷ path) =
    let rest = has_forbidden path in
    if is_one_of (34 ∷ 47 ∷ 58 ∷ 63 ∷ 42 ∷ 124 ∷ []) c then true else rest

-- Whether the text has two dots in a row.
abbrev has_dots : Str → Bool
has_dots (c ∷ d ∷ path) = let rest = has_dots (d ∷ path) in ((c == 46) && (d == 46)) || rest
has_dots _ = false

-- An ASCII letter, a colon, a backslash, and a rest without a byte that is not allowed and without
-- "..".
abbrev pub is_plain_path : Str → Bool
is_plain_path (drive ∷ colon ∷ slash ∷ path) =
    ((leb 65 drive && leb drive 90) || (leb 97 drive && leb drive 122))
    && ((colon == 58) && (slash == 92))
    && (not (has_forbidden path) && not (has_dots path))
is_plain_path _ = false

has_forbidden_lem : (path : Str) → has_forbidden path ≡ matches_invalid_char path
unfolding matches_invalid_char
has_forbidden_lem [] = refl
has_forbidden_lem (c ∷ path) = ground (arith, has_forbidden_lem path)

has_dots_lem : (path : Str) → has_dots path ≡ has_substring path (codes "..")
unfolding has_substring has_prefix
has_dots_lem [] = refl
has_dots_lem (c ∷ []) = ground arith
has_dots_lem (c ∷ d ∷ path) = ground (arith, has_dots_lem (d ∷ path))

is_plain_path_lem :
    (path : Str)
    → is_plain_path path ≡ (
        is_abs_windows path
        && (not (matches_invalid_char (drop 3 path))
            && not (has_substring (drop 3 path) (codes ".."))))
unfolding is_abs_windows
is_plain_path_lem [] = refl
is_plain_path_lem (c ∷ []) = refl
is_plain_path_lem (c ∷ d ∷ []) = refl
is_plain_path_lem (c ∷ d ∷ e ∷ path) = ground (arith, has_forbidden_lem path, has_dots_lem path)

begins_with_backslash_of_abs :
    (path : Str) → is_abs_windows path ≡ true → begins_with_backslash path ≡ false
unfolding is_abs_windows begins_with_backslash
begins_with_backslash_of_abs (c ∷ d ∷ e ∷ path) h = ground arith
begins_with_backslash_of_abs path h = cc

is_unc_path_windows_of_begins :
    (path : Str) → begins_with_backslash path ≡ false → is_unc_path_windows path ≡ false
unfolding is_unc_path_windows begins_with_backslash
is_unc_path_windows_of_begins (c ∷ d ∷ path) h = ground arith
is_unc_path_windows_of_begins (c ∷ []) h = refl
is_unc_path_windows_of_begins [] h = refl

-- A path is accepted exactly when it has at most 260 bytes and is an ASCII letter, a colon, a
-- backslash and a rest without "..", double quotes, slashes, colons, question marks, asterisks and
-- bars.
pub validate_path_windows_accepts :
    (path : Str)
    → succeeds (validate_path_windows path) ≡ (leb (length path) 260 && is_plain_path path)
unfolding validate_path_windows contains_invalid_characters_windows
validate_path_windows_accepts path = ground (
  arith,
  is_plain_path_lem path,
  begins_with_backslash_of_abs path,
  is_unc_path_windows_of_begins path,
)

abbrev first_part : List Str → Str
first_part [] = []
first_part (part ∷ parts) = part

has_prefix-cons_first :
    (c : ℕ) (path : Str) (parts : List Str)
    → has_prefix path (first_part parts) ≡ true
    → has_prefix (c ∷ path) (first_part (cons_first c parts)) ≡ true
unfolding has_prefix cons_first
has_prefix-cons_first c path [] h = ground arith
has_prefix-cons_first c path (part ∷ parts) h = ground arith

has_prefix-first_part :
    (sep : ℕ) (path : Str) → has_prefix path (first_part (split sep path)) ≡ true
unfolding split has_prefix
has_prefix-first_part sep [] = refl
has_prefix-first_part sep (c ∷ path) = elim (Bool-cases (c == sep)) [
  | inl e ↦ rw e
  | inr e ↦ rw e (has_prefix-cons_first c path (split sep path) (has_prefix-first_part sep path))
]

has_prefix_trans :
    (s t u : Str) → has_prefix s t ≡ true → has_prefix t u ≡ true → has_prefix s u ≡ true
unfolding has_prefix
has_prefix_trans s t [] h k = refl
has_prefix_trans s [] (d ∷ u) h k = cc
has_prefix_trans [] (c ∷ t) (d ∷ u) h k = cc
has_prefix_trans (b ∷ s) (c ∷ t) (d ∷ u) h k = ground (arith, has_prefix_trans s t u)

abbrev LacksDots : Str → Type 0
LacksDots s = has_substring s (codes "..") ≡ false

LacksDots-cons_first :
    (c : ℕ) (path : Str) (parts : List Str)
    → LacksDots (c ∷ path)
    → has_prefix path (first_part parts) ≡ true
    → All LacksDots parts
    → All LacksDots (cons_first c parts)
unfolding has_substring has_prefix cons_first
LacksDots-cons_first c path [] h p a = (ground arith, tt)
LacksDots-cons_first c path (part ∷ parts) h p a =
    (ground (arith, has_prefix_trans path part (b'.' ∷ [])), a.1)

split-LacksDots : (sep : ℕ) (path : Str) → LacksDots path → All LacksDots (split sep path)
unfolding split
split-LacksDots sep [] h = (h, tt)
split-LacksDots sep (c ∷ path) h =
    let rest : LacksDots path = unfold has_substring in ground arith in
    elim (Bool-cases (c == sep)) [
      | inl e ↦ rw e (unfold has_substring has_prefix in refl, split-LacksDots sep path rest)
      | inr e ↦ rw e (
          LacksDots-cons_first c path (split sep path) h (has_prefix-first_part sep path)
            (split-LacksDots sep path rest))
    ]

ne_dots_of_LacksDots : (name : Str) → LacksDots name → str_eq name (codes "..") ≡ false
unfolding has_substring has_prefix str_eq
ne_dots_of_LacksDots [] h = refl
ne_dots_of_LacksDots (c ∷ []) h = ground arith
ne_dots_of_LacksDots (c ∷ d ∷ name) h = ground arith

LacksDots-of_plain : (path : Str) → is_plain_path path ≡ true → LacksDots path
unfolding has_substring has_prefix
LacksDots-of_plain (c ∷ d ∷ e ∷ path) h = ground (arith, has_dots_lem path)
LacksDots-of_plain path h = cc

-- No name of a path that is accepted is "..": the path does not lead out of its directories.
pub validate_path_windows_stays :
    (path : Str)
    → validate_path_windows path ≡ ok tt
    → All (λ name. str_eq name (codes "..") ≡ false) (split b'\\' path)
validate_path_windows_stays path h =
    let plain_path : is_plain_path path ≡ true =
      ground (arith, validate_path_windows_accepts path) in
    All-mono (split b'\\' path) ne_dots_of_LacksDots
      (split-LacksDots b'\\' path (LacksDots-of_plain path plain_path))
