-- ===== src/Base/Lists.antt =====
-- Lists measured by native numbers, and predicates on lists by recursion.
use Prim.Native.Nat.{ℕ, zero, suc, ◌+◌}
use mathlib.Core.Path.{◌≡◌, refl}
use mathlib.Core.Logic.{◌≢◌}
use mathlib.Core.Bool.{Bool, false, ◌||◌}
use mathlib.Core.List.{List, [], ◌∷◌, ◌++◌}
use native.Mathlib.Omega.{arith}
use csi_driver_smb_hardend.Base.Text.{Str, str_eq, str_eq_iff}
use csi_driver_smb_hardend.Base.Tests.{if◌then◌else◌}

module _ {ℓ} {A : Type ℓ} where
  abbrev pub length : List A → ℕ
  length [] = 0
  length (x ∷ xs) = suc (length xs)

  abbrev pub drop : ℕ → List A → List A
  drop zero xs = xs
  drop (suc n) [] = []
  drop (suc n) (x ∷ xs) = drop n xs

  pub length-append : (xs ys : List A) → length (xs ++ ys) ≡ length xs + length ys
  length-append [] ys = omega arith
  length-append (x ∷ xs) ys = omega (arith, length-append xs ys)

module _ {ℓ κ} {A : Type ℓ} (P : A → Type κ) where
  abbrev pub All : List A → Type κ
  All [] = Unit
  All (x ∷ xs) = P x × All xs

  pub All-append : (xs ys : List A) → All xs → All ys → All (xs ++ ys)
  All-append [] ys _ hy = hy
  All-append (x ∷ xs) ys hx hy = (hx.0, All-append xs ys hx.1 hy)

-- The byte does not occur in the text.
abbrev pub Lacks : ℕ → Str → Type 0
Lacks b = All (λ c. c ≢ b)

-- The text is in the list.
unfoldable pub contains : Str → List Str → Bool
contains s [] = false
contains s (t ∷ ts) = str_eq t s || contains s ts

-- The list without the text.
unfoldable pub without : Str → List Str → List Str
without s [] = []
without s (t ∷ ts) = let rest = without s ts in if str_eq t s then rest else t ∷ rest

pub contains-without :
    (s t : Str) (ts : List Str)
    → contains t (without s ts) ≡ (if str_eq s t then false else contains t ts)
unfolding contains without
contains-without s t [] = ground arith
contains-without s t (u ∷ ts) =
    ground (arith, contains-without s t ts, str_eq_iff s t, str_eq_iff u s, str_eq_iff u t)

pub without-eq_of_absent : (s : Str) (ts : List Str) → contains s ts ≡ false → without s ts ≡ ts
unfolding contains without
without-eq_of_absent s [] h = refl
without-eq_of_absent s (t ∷ ts) h = ground (arith, without-eq_of_absent s ts)

pub All-mono {ℓ κ μ} :
    {A : Type ℓ} {P : A → Type κ} {Q : A → Type μ} (xs : List A)
    → ((a : A) → P a → Q a)
    → All P xs
    → All Q xs
All-mono [] f h = tt
All-mono (x ∷ xs) f h = (f x h.0, All-mono xs f h.1)
