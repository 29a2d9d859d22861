-- ===== src/Options/Append.antt =====
-- What `appendMountOptions` guarantees.
use csi_driver_smb_hardend.Base.{
  ◌≡◌, refl, subst, ◌∙◌, true, ◌||◌, List, [], ◌∷◌, ◌++◌, append-nil, arith, Str, All, All-mono,
  is_empty, Bool-cases, inl, inr, if◌then◌else◌, ==_refl,
}
use csi_driver_smb_hardend.Strings.{has_prefix}
use csi_driver_smb_hardend.Maps.{Map}
use csi_driver_smb_hardend.Options.{any_has_prefix, assignment, extra_options, append_mount_options}

has_prefix-append : (s t : Str) → has_prefix (s ++ t) s ≡ true
unfolding has_prefix
has_prefix-append [] t = refl
has_prefix-append (c ∷ s) t = rw ==_refl (has_prefix-append s t)

has_prefix_refl : (s : Str) → has_prefix s s ≡ true
unfolding has_prefix
has_prefix_refl [] = refl
has_prefix_refl (c ∷ s) = rw ==_refl (has_prefix_refl s)

any_has_prefix-append :
    (k : Str) (xs ys : List Str)
    → any_has_prefix k (xs ++ ys) ≡ (any_has_prefix k xs || any_has_prefix k ys)
unfolding any_has_prefix
any_has_prefix-append k [] ys = refl
any_has_prefix-append k (x ∷ xs) ys = ground (arith, any_has_prefix-append k xs ys)

-- Every key of the extra options begins an option.
abbrev pub AllPresent : List Str → Map → Type 0
AllPresent options = All (λ e. any_has_prefix (e.0) options ≡ true)

written-has_prefix : (k v : Str) → has_prefix (if is_empty v then k else assignment k v) k ≡ true
written-has_prefix k [] = has_prefix_refl k
written-has_prefix k (c ∷ v) = has_prefix-append k (b'=' ∷ c ∷ v)

-- Every key begins an option of the first list or of the second.
abbrev PresentIn : List Str → Map → List Str → Type 0
PresentIn options extra more =
    All (λ e. (any_has_prefix (e.0) options || any_has_prefix (e.0) more) ≡ true) extra

PresentIn-cons :
    (options : List Str) (extra : Map) (x : Str) (more : List Str)
    → PresentIn options extra more
    → PresentIn options extra (x ∷ more)
unfolding any_has_prefix
PresentIn-cons options extra x more = All-mono extra (λ e h. ground (arith, h))

extra_options-present :
    (options : List Str) (extra : Map) → PresentIn options extra (extra_options options extra)
extra_options-present options [] = tt
extra_options-present options ((k, v) ∷ extra) = elim (Bool-cases (any_has_prefix k options)) [
  | inl e ↦
      let same : extra_options options extra ≡ extra_options options ((k, v) ∷ extra) =
        unfold extra_options in rw e in
      subst (PresentIn options ((k, v) ∷ extra)) same (rw e, extra_options-present options extra)
  | inr e ↦
      let x : Str = if is_empty v then k else assignment k v in
      let longer : x ∷ extra_options options extra ≡ extra_options options ((k, v) ∷ extra) =
        unfold extra_options in rw e in
      let first : any_has_prefix k (x ∷ extra_options options extra) ≡ true =
        unfold any_has_prefix in rw (written-has_prefix k v) in
      subst (PresentIn options ((k, v) ∷ extra)) longer (
        rw (e, first),
        PresentIn-cons options extra x (extra_options options extra)
            (extra_options-present options extra),
      )
]

-- After the extra options are appended, the key of each begins one of the options.
pub append_mount_options-AllPresent :
    (options : List Str) (extra : Map) → AllPresent (append_mount_options options extra) extra
unfolding append_mount_options
append_mount_options-AllPresent options extra =
    All-mono extra (λ e h. any_has_prefix-append (e.0) options (extra_options options extra) ∙ h)
      (extra_options-present options extra)

extra_options_of_present :
    (options : List Str) (extra : Map) → AllPresent options extra → extra_options options extra ≡ []
unfolding extra_options
extra_options_of_present options [] h = refl
extra_options_of_present options ((k, v) ∷ extra) h =
    rw (h.0) (extra_options_of_present options extra h.1)

-- Appending the same extra options a second time changes nothing.
pub append_mount_options_idem :
    (options : List Str) (extra : Map)
    → append_mount_options (append_mount_options options extra) extra
      ≡ append_mount_options options extra
append_mount_options_idem options extra =
    let all : List Str = append_mount_options options extra in
    let none_new : extra_options all extra ≡ [] =
      extra_options_of_present all extra (append_mount_options-AllPresent options extra) in
    let same : append_mount_options all extra ≡ all =
      unfold append_mount_options in rw none_new (append-nil all) in
    same
