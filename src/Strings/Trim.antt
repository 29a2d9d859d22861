-- ===== src/Strings/Trim.antt =====
-- What trimming leaves.
use csi_driver_smb_hardend.Base.{
  ℕ, ◌≡◌, refl, Bool, false, ◌&&◌, [], ◌∷◌, arith, Str, is_empty, All, Bool-cases, inl, inr,
}
use csi_driver_smb_hardend.Strings.{trim_left, trim_right, trim}

module _ (cut : ℕ → Bool) where
  -- The text does not begin with a byte that is cut.
  abbrev pub StartsKept : Str → Type 0
  StartsKept [] = Unit
  StartsKept (c ∷ s) = cut c ≡ false

  trim_left-StartsKept : (s : Str) → StartsKept (trim_left cut s)
  unfolding trim_left
  trim_left-StartsKept [] = tt
  trim_left-StartsKept (c ∷ s) = elim (Bool-cases (cut c)) [
    | inl e ↦ rw e (trim_left-StartsKept s)
    | inr e ↦ rw e e
  ]

  trim_right-StartsKept : (s : Str) → StartsKept s → StartsKept (trim_right cut s)
  unfolding trim_right
  trim_right-StartsKept [] h = tt
  trim_right-StartsKept (c ∷ s) h = rw h h

  pub trim-StartsKept : (s : Str) → StartsKept (trim cut s)
  unfolding trim
  trim-StartsKept s = trim_right-StartsKept _ (trim_left-StartsKept s)

  trim_left-eq_of_StartsKept : (s : Str) → StartsKept s → trim_left cut s ≡ s
  unfolding trim_left
  trim_left-eq_of_StartsKept [] h = refl
  trim_left-eq_of_StartsKept (c ∷ s) h = rw h

  trim_right_idem : (s : Str) → trim_right cut (trim_right cut s) ≡ trim_right cut s
  unfolding trim_right
  trim_right_idem [] = refl
  trim_right_idem (c ∷ s) = ground (arith, trim_right_idem s)

  -- Trimming twice is trimming once.
  pub trim_idem : (s : Str) → trim cut (trim cut s) ≡ trim cut s
  trim_idem s =
      unfold trim in
      rw
        (trim_left-eq_of_StartsKept (trim_right cut (trim_left cut s))
          (unfold trim in trim-StartsKept s))
        (trim_right_idem (trim_left cut s))

module _ {κ} (P : ℕ → Type κ) (cut : ℕ → Bool) where
  trim_left-All : (s : Str) → All P s → All P (trim_left cut s)
  unfolding trim_left
  trim_left-All [] h = h
  trim_left-All (c ∷ s) h = elim (Bool-cases (cut c)) [
    | inl e ↦ rw e (trim_left-All s h.1)
    | inr e ↦ rw e h
  ]

  trim_right-All : (s : Str) → All P s → All P (trim_right cut s)
  unfolding trim_right
  trim_right-All [] h = h
  trim_right-All (c ∷ s) h = elim (Bool-cases (cut c && is_empty (trim_right cut s))) [
    | inl e ↦ rw e tt
    | inr e ↦ rw e (h.0, trim_right-All s h.1)
  ]

  -- Trimming keeps what holds of every byte.
  pub trim-All : (s : Str) → All P s → All P (trim cut s)
  unfolding trim
  trim-All s h = trim_right-All _ (trim_left-All s h)
