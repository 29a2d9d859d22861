-- ===== src/Paths/Under.antt =====
-- Joining under an absolute directory.
use mathlib.Core.List.{reverse, reverse-append}
use csi_driver_smb_hardend.Base.{
  ◌≡◌, refl, sym, ap, Bool, true, false, List, [], ◌∷◌, ◌++◌, append-nil, append_assoc, arith, Str,
  str_eq, codes, All, Bool-cases, inl, inr, if◌then◌else◌,
}
use csi_driver_smb_hardend.Strings.{split, has_prefix}
use csi_driver_smb_hardend.Strings.Split.{split-append_sep}
use csi_driver_smb_hardend.Paths.{dot_dot, is_noise, push, resolve, absolute, render, clean}

-- The names that `Clean` keeps of a list without "..".
unfoldable pub kept : List Str → List Str
unfolding is_noise
kept [] = []
kept (name ∷ names) = let rest = kept names in if is_noise name then rest else name ∷ rest

-- No name is "..".
abbrev pub NoUp : Str → Type 0
NoUp path = All (λ name. str_eq name dot_dot ≡ false) (split b'/' path)

pub resolve-append :
    (rooted : Bool) (stack names more : List Str)
    → resolve rooted stack (names ++ more) ≡ resolve rooted (resolve rooted stack names) more
unfolding resolve
resolve-append rooted stack [] more = refl
resolve-append rooted stack (name ∷ names) more =
    resolve-append rooted (push rooted stack name) names more

reverse-push :
    (rooted : Bool) (stack : List Str) (name : Str)
    → str_eq name dot_dot ≡ false
    → reverse (push rooted stack name) ≡ reverse stack ++ kept (name ∷ [])
unfolding push kept
reverse-push rooted stack name h = elim (Bool-cases (is_noise name)) [
  | inl e ↦ rw (h, e) (sym (append-nil _))
  | inr e ↦ rw (h, e) (reverse-append (name ∷ []) stack)
]

pub kept-append : (names more : List Str) → kept (names ++ more) ≡ kept names ++ kept more
unfolding kept
kept-append [] more = refl
kept-append (name ∷ names) more = ground (arith, kept-append names more)

pub reverse-resolve :
    (rooted : Bool) (stack names : List Str)
    → All (λ name. str_eq name dot_dot ≡ false) names
    → reverse (resolve rooted stack names) ≡ reverse stack ++ kept names
unfolding resolve
reverse-resolve rooted stack [] h = unfold kept in sym (append-nil _)
reverse-resolve rooted stack (name ∷ names) h =
    rw
      (
        reverse-resolve rooted (push rooted stack name) names h.1,
        reverse-push rooted stack name h.0,
        append_assoc,
      )
      (ap (λ t. reverse stack ++ t) (sym (kept-append (name ∷ []) names)))

-- The names of an absolute path after `Clean`.
unfoldable pub names_of : Str → List Str
names_of path = reverse (resolve true [] (split b'/' path))

pub clean-absolute :
    (path : Str) → has_prefix path (codes "/") ≡ true → clean path ≡ absolute (names_of path)
unfolding clean render names_of
clean-absolute path h = rw h

-- Names joined behind a path, with no "..", are added to its names.
pub names_of-append :
    (dir path : Str)
    → NoUp path
    → names_of (dir ++ (b'/' ∷ path)) ≡ names_of dir ++ kept (split b'/' path)
unfolding names_of
names_of-append dir path h =
    rw (split-append_sep b'/' dir path, resolve-append true [] (split b'/' dir))
      (reverse-resolve true (resolve true [] (split b'/' dir)) (split b'/' path) h)
