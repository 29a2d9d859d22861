-- ===== src/Paths/Names.antt =====
-- The names of a cleaned absolute path, and cleaning it again.
use mathlib.Core.List.{reverse, reverse-append}
use csi_driver_smb_hardend.Base.{
  ◌≡◌, refl, ap, ◌∙◌, true, false, List, [], ◌∷◌, ◌++◌, Str, str_eq, codes, All, All-append, Lacks,
  Bool-cases, inl, inr,
}
use csi_driver_smb_hardend.Strings.{split, join, has_prefix}
use csi_driver_smb_hardend.Strings.Split.{split-All, split-join}
use csi_driver_smb_hardend.Paths.{dot_dot, is_noise, push, resolve, absolute, join_path}
use csi_driver_smb_hardend.Paths.Under.{NoUp, kept, names_of, names_of-append, clean-absolute}

-- A name that `Clean` leaves as it is.
abbrev pub IsName : Str → Type 0
IsName name = Lacks b'/' name × (is_noise name ≡ false) × (str_eq name dot_dot ≡ false)

All-reverse {ℓ} : {A : Type 0} (P : A → Type ℓ) (xs : List A) → All P xs → All P (reverse xs)
All-reverse P [] h = tt
All-reverse P (x ∷ xs) h =
    rw (reverse-append (x ∷ []) xs)
      (All-append P (reverse xs) (x ∷ []) (All-reverse P xs h.1) (h.0, tt))

push-All :
    (stack : List Str) (name : Str)
    → Lacks b'/' name
    → All IsName stack
    → All IsName (push true stack name)
unfolding push
push-All [] name l h = elim (Bool-cases (str_eq name dot_dot)) [
  | inl e ↦ rw e tt
  | inr e ↦ elim (Bool-cases (is_noise name)) [
    | inl n ↦ rw (e, n) tt
    | inr n ↦ rw (e, n) ((l, n, e), tt)
  ]
]
push-All (top ∷ stack) name l h = elim (Bool-cases (str_eq name dot_dot)) [
  | inl e ↦ rw (e, h.0.2) h.1
  | inr e ↦ elim (Bool-cases (is_noise name)) [
    | inl n ↦ rw (e, n) h
    | inr n ↦ rw (e, n) ((l, n, e), h)
  ]
]

resolve-All :
    (stack names : List Str)
    → All (Lacks b'/') names
    → All IsName stack
    → All IsName (resolve true stack names)
unfolding resolve
resolve-All stack [] l h = h
resolve-All stack (name ∷ names) l h =
    resolve-All (push true stack name) names l.1 (push-All stack name l.0 h)

pub names_of-All : (path : Str) → All IsName (names_of path)
unfolding names_of
names_of-All path =
    All-reverse IsName (resolve true [] (split b'/' path))
      (resolve-All [] (split b'/' path) (split-All b'/' path) tt)

kept_of_names : (names : List Str) → All IsName names → kept names ≡ names
unfolding kept
kept_of_names [] h = refl
kept_of_names (name ∷ names) h = rw (h.0.1, kept_of_names names h.1)

no_up_of_names :
    (names : List Str) → All IsName names → All (λ name. str_eq name dot_dot ≡ false) names
no_up_of_names [] h = tt
no_up_of_names (name ∷ names) h = (h.0.2, no_up_of_names names h.1)

Lacks-of_names : (names : List Str) → All IsName names → All (Lacks b'/') names
Lacks-of_names [] h = tt
Lacks-of_names (name ∷ names) h = (h.0.0, Lacks-of_names names h.1)

names_of-nil : names_of [] ≡ []
unfolding names_of resolve split
names_of-nil = refl

-- The names of a path written by `absolute` are read back.
pub names_of-absolute : (names : List Str) → All IsName names → names_of (absolute names) ≡ names
names_of-absolute [] h = unfold names_of absolute resolve join split in refl
names_of-absolute (name ∷ names) h =
    let e : split b'/' (join b'/' (name ∷ names)) ≡ name ∷ names =
      split-join b'/' name names (Lacks-of_names (name ∷ names) h) in
    unfold absolute in
    names_of-append [] (join b'/' (name ∷ names)) (rw e (no_up_of_names (name ∷ names) h))
    ∙ rw (names_of-nil, e, kept_of_names (name ∷ names) h)

pub absolute-rooted : (names : List Str) → has_prefix (absolute names) (codes "/") ≡ true
unfolding absolute has_prefix
absolute-rooted names = refl

-- `filepath.Join(dir, name)` under an absolute directory, for a name without "..".
pub join_path-absolute :
    (dir name : Str)
    → has_prefix dir (codes "/") ≡ true
    → NoUp name
    → join_path dir name ≡ absolute (names_of dir ++ kept (split b'/' name))
unfolding has_prefix
join_path-absolute [] name r h = cc
join_path-absolute (c ∷ dir) name r h =
    unfold join_path in
    clean-absolute ((c ∷ dir) ++ (b'/' ∷ name)) r ∙ ap absolute (names_of-append (c ∷ dir) name h)

kept-All :
    (names : List Str)
    → All (Lacks b'/') names
    → All (λ name. str_eq name dot_dot ≡ false) names
    → All IsName (kept names)
unfolding kept
kept-All [] l h = tt
kept-All (name ∷ names) l h = elim (Bool-cases (is_noise name)) [
  | inl n ↦ rw n (kept-All names l.1 h.1)
  | inr n ↦ rw n ((l.0, n, h.0), kept-All names l.1 h.1)
]

-- Joining twice adds the names of both.
pub join_path-join_path :
    (dir name sub : Str)
    → has_prefix dir (codes "/") ≡ true
    → NoUp name
    → NoUp sub
    → join_path (join_path dir name) sub
      ≡ absolute ((names_of dir ++ kept (split b'/' name)) ++ kept (split b'/' sub))
join_path-join_path dir name sub r h k =
    let base : List Str = names_of dir ++ kept (split b'/' name) in
    rw (join_path-absolute dir name r h) (
      join_path-absolute (absolute base) sub (absolute-rooted base) k
      ∙ ap (λ ns. absolute (ns ++ kept (split b'/' sub)))
          (names_of-absolute base (
            All-append IsName (names_of dir) (kept (split b'/' name)) (names_of-All dir)
              (kept-All (split b'/' name) (split-All b'/' name) h))))
