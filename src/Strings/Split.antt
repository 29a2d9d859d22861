-- ===== src/Strings/Split.antt =====
-- Splitting at a byte, and joining.
use csi_driver_smb_hardend.Base.{
  ℕ, ◌≡◌, ◌≢◌, refl, ap, List, [], ◌∷◌, ◌++◌, arith, Str, All, Lacks, ◌==◌, ==_refl, Bool-cases,
  inl, inr, ◌∙◌,
}
use csi_driver_smb_hardend.Strings.{split, join, cons_first}

split-cons_self : (sep : ℕ) (s : Str) → split sep (sep ∷ s) ≡ [] ∷ split sep s
unfolding split
split-cons_self sep s = rw ==_refl

pub split-ne-nil : (sep : ℕ) (s : Str) → split sep s ≢ []
unfolding split
split-ne-nil sep [] = cc
split-ne-nil sep (c ∷ s) = ground (arith, split-ne-nil sep s)

-- A text without the separator is one part.
pub split-Lacks : (sep : ℕ) (s : Str) → Lacks sep s → split sep s ≡ s ∷ []
unfolding split
split-Lacks sep [] h = refl
split-Lacks sep (c ∷ s) h = ground (arith, split-Lacks sep s h.1)

-- The first part of a text that begins with a part and the separator.
pub split-append :
    (sep : ℕ) (part rest : Str)
    → Lacks sep part
    → split sep (part ++ (sep ∷ rest)) ≡ part ∷ split sep rest
unfolding split
split-append sep [] rest h = split-cons_self sep rest
split-append sep (c ∷ part) rest h = ground (arith, split-append sep part rest h.1)

-- Splitting a join of parts that lack the separator gives the parts back.
pub split-join :
    (sep : ℕ) (part : Str) (parts : List Str)
    → All (Lacks sep) (part ∷ parts)
    → split sep (join sep (part ∷ parts)) ≡ part ∷ parts
unfolding join
split-join sep part [] h = split-Lacks sep part h.0
split-join sep part (next ∷ parts) h =
    split-append sep part _ h.0 ∙ ap (λ ps. part ∷ ps) (split-join sep next parts h.1)

join-cons_first :
    (sep c : ℕ) (parts : List Str) → join sep (cons_first c parts) ≡ c ∷ join sep parts
unfolding join cons_first
join-cons_first sep c [] = refl
join-cons_first sep c (part ∷ []) = refl
join-cons_first sep c (part ∷ next ∷ parts) = refl

join-cons-nil :
    (sep : ℕ) (parts : List Str) → parts ≢ [] → join sep ([] ∷ parts) ≡ sep ∷ join sep parts
unfolding join
join-cons-nil sep [] h = absurd (h refl)
join-cons-nil sep (part ∷ parts) h = refl

-- Joining the parts of a text gives it back.
pub join-split : (sep : ℕ) (s : Str) → join sep (split sep s) ≡ s
unfolding split
join-split sep [] = unfold join in refl
join-split sep (c ∷ s) = elim (Bool-cases (c == sep)) [
  | inl e ↦ rw e (join-cons-nil sep _ (split-ne-nil sep s) ∙ ground (arith, join-split sep s))
  | inr e ↦ rw e (join-cons_first sep c _ ∙ ap (λ t. c ∷ t) (join-split sep s))
]

pub cons_first-append :
    (c : ℕ) (parts more : List Str)
    → parts ≢ []
    → cons_first c (parts ++ more) ≡ cons_first c parts ++ more
unfolding cons_first
cons_first-append c [] more h = absurd (h refl)
cons_first-append c (part ∷ parts) more h = refl

-- A separator in the middle of a text splits it, whatever the two sides hold.
pub split-append_sep :
    (sep : ℕ) (s t : Str) → split sep (s ++ (sep ∷ t)) ≡ split sep s ++ split sep t
unfolding split
split-append_sep sep [] t = split-cons_self sep t
split-append_sep sep (c ∷ s) t = elim (Bool-cases (c == sep)) [
  | inl e ↦ rw e (ap (λ ps. [] ∷ ps) (split-append_sep sep s t))
  | inr e ↦
      rw (e, split-append_sep sep s t)
        (cons_first-append c (split sep s) (split sep t) (split-ne-nil sep s))
]

cons_first-All :
    (sep c : ℕ) (parts : List Str)
    → c ≢ sep
    → All (Lacks sep) parts
    → All (Lacks sep) (cons_first c parts)
unfolding cons_first
cons_first-All sep c [] h k = ((h, tt), tt)
cons_first-All sep c (part ∷ parts) h k = ((h, k.0), k.1)

-- No part holds the separator.
pub split-All : (sep : ℕ) (s : Str) → All (Lacks sep) (split sep s)
unfolding split
split-All sep [] = (tt, tt)
split-All sep (c ∷ s) = elim (Bool-cases (c == sep)) [
  | inl e ↦ rw e (tt, split-All sep s)
  | inr e ↦ rw e (cons_first-All sep c (split sep s) (ground arith) (split-All sep s))
]
