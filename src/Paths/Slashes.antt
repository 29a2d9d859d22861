-- ===== src/Paths/Slashes.antt =====
-- Slashes around a path do not change its names.
use csi_driver_smb_hardend.Base.{
  ◌≡◌, refl, sym, subst, ◌∙◌, false, List, [], ◌∷◌, ◌++◌, append-nil, Str, str_eq, is_empty, All,
  ◌⊎◌, Bool-cases, inl, inr, ◌==◌,
}
use csi_driver_smb_hardend.Strings.{split, trim, trim_left, trim_right, is_slash}
use csi_driver_smb_hardend.Strings.Split.{split-ne-nil, cons_first-append}
use csi_driver_smb_hardend.Paths.{dot_dot, is_noise}
use csi_driver_smb_hardend.Paths.Under.{NoUp, kept, kept-append}

-- Empty names, as a path that ends in slashes has them.
abbrev Blank : List Str → Type 0
Blank = All (λ name. name ≡ [])

kept_of_Blank : (names : List Str) → Blank names → kept names ≡ []
unfolding kept is_noise
kept_of_Blank [] h = refl
kept_of_Blank (name ∷ names) h = rw h.0 (kept_of_Blank names h.1)

is_empty-cases {ℓ} : {A : Type ℓ} → (xs : List A) → (xs ≡ []) ⊎ (is_empty xs ≡ false)
is_empty-cases [] = inl refl
is_empty-cases (x ∷ xs) = inr refl

-- The names of a path are those of the path with its last slashes trimmed, and then empty ones.
split-trim_right :
    (path : Str)
    → (blanks : List Str) × Blank blanks
      × (split b'/' path ≡ split b'/' (trim_right is_slash path) ++ blanks)
unfolding split trim_right
split-trim_right [] = ([], tt, refl)
split-trim_right (c ∷ path) =
    let (blanks, blank, same) = split-trim_right path in
    elim (Bool-cases (c == b'/')) [
      | inl e ↦ elim (is_empty-cases (trim_right is_slash path)) [
        | inl none ↦ ([] ∷ blanks, (refl, blank), rw (e, same, none) refl)
        | inr some ↦ (blanks, blank, rw (e, same, some, e) refl)
      ]
      | inr e ↦ (
        blanks,
        blank,
        rw (e, same, e)
            (cons_first-append c _ blanks (split-ne-nil b'/' (trim_right is_slash path))),
      )
    ]

-- The first slashes only add empty names in front.
split-trim_left :
    (path : Str)
    → (kept (split b'/' (trim_left is_slash path)) ≡ kept (split b'/' path))
      × (NoUp path → NoUp (trim_left is_slash path))
unfolding split trim_left kept is_noise
split-trim_left [] = (refl, λ h. h)
split-trim_left (c ∷ path) = elim (Bool-cases (c == b'/')) [
  | inl e ↦ rw e (let (names, up) = split-trim_left path in (names, λ h. up h.1))
  | inr e ↦
      let same : trim_left is_slash (c ∷ path) ≡ c ∷ path = rw e refl in
      subst (λ t. (kept (split b'/' t) ≡ kept (split b'/' (c ∷ path))) × (NoUp (c ∷ path) → NoUp t))
        (sym same) (refl, λ h. h)
]

All-front {ℓ} : {A : Type 0} (P : A → Type ℓ) (xs ys : List A) → All P (xs ++ ys) → All P xs
All-front P [] ys h = tt
All-front P (x ∷ xs) ys h = (h.0, All-front P xs ys h.1)

-- Trimming the slashes around a path leaves the names that `Clean` keeps.
pub kept-trim : (path : Str) → kept (split b'/' (trim is_slash path)) ≡ kept (split b'/' path)
unfolding trim
kept-trim path =
    let left = trim_left is_slash path in
    let (blanks, blank, same) = split-trim_right left in
    sym (rw (same, kept-append, kept_of_Blank blanks blank, append-nil) refl)
    ∙ (split-trim_left path).0

-- Trimming the slashes around a path adds no "..".
pub NoUp-trim : (path : Str) → NoUp path → NoUp (trim is_slash path)
unfolding trim
NoUp-trim path h =
    let left = trim_left is_slash path in
    let (blanks, blank, same) = split-trim_right left in
    All-front (λ name. str_eq name dot_dot ≡ false) (split b'/' (trim is_slash path)) blanks
      (subst (All (λ name. str_eq name dot_dot ≡ false)) same ((split-trim_left path).1 h))
