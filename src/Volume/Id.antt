-- ===== src/Volume/Id.antt =====
-- Volume ids written and read back.
use csi_driver_smb_hardend.Base.{
  ℕ, ◌≡◌, ◌≢◌, refl, ap, ◌∙◌, true, [], ◌∷◌, ◌++◌, arith, Str, codes, Lacks, Bool-cases, inl, inr,
  append_assoc,
}
use csi_driver_smb_hardend.Errors.{ok, err, plain}
use csi_driver_smb_hardend.Constants.{separator, retain, archive}
use csi_driver_smb_hardend.Strings.{
  split, join, trim, is_slash, has_prefix, equal_fold, to_lower, lower_byte,
}
use csi_driver_smb_hardend.Strings.Fold.{equal_fold_iff}
use csi_driver_smb_hardend.Strings.Split.{split-join, split-Lacks}
use csi_driver_smb_hardend.Strings.Trim.{StartsKept, trim-StartsKept, trim-All}
use csi_driver_smb_hardend.Volume.{
  SmbVolume, on_delete_element, get_volume_id_from_smb_vol, with_slashes, get_smb_vol_from_id,
  vol_of_segments,
}

lower_byte-ne : (c : ℕ) → lower_byte c ≢ separator → c ≢ separator
unfolding lower_byte
lower_byte-ne c h = ground arith

Lacks-of_to_lower : (s : Str) → Lacks separator (to_lower s) → Lacks separator s
unfolding to_lower
Lacks-of_to_lower [] h = tt
Lacks-of_to_lower (c ∷ s) h = (lower_byte-ne c h.0, Lacks-of_to_lower s h.1)

Lacks-of_fold :
    (s t : Str) → equal_fold s t ≡ true → Lacks separator (to_lower t) → Lacks separator s
Lacks-of_fold s t e h = Lacks-of_to_lower s (rw ((equal_fold_iff s t).0 e) h)

on_delete_element-Lacks : (vol : SmbVolume) → Lacks separator (on_delete_element vol)
unfolding on_delete_element
on_delete_element-Lacks vol = elim (Bool-cases (equal_fold vol.on_delete retain)) [
  | inl e ↦ rw e (Lacks-of_fold vol.on_delete retain e (unfold to_lower in omega arith))
  | inr e ↦ elim (Bool-cases (equal_fold vol.on_delete archive)) [
    | inl f ↦ rw (e, f) (Lacks-of_fold vol.on_delete archive f (unfold to_lower in omega arith))
    | inr f ↦ rw (e, f) tt
  ]
]

with_slashes_of_kept : (s : Str) → StartsKept is_slash s → with_slashes s ≡ codes "//" ++ s
unfolding with_slashes has_prefix
with_slashes_of_kept [] h = refl
with_slashes_of_kept (c ∷ s) h = rw h

-- The volume that is read back from an id: surrounding slashes are gone from the source and the
-- subdirectory, the source begins with two, and an action other than retain and archive is gone.
abbrev pub normalized : SmbVolume → SmbVolume
normalized vol = record {
  id = get_volume_id_from_smb_vol vol;
  source = codes "//" ++ trim is_slash vol.source;
  sub_dir = trim is_slash vol.sub_dir;
  size = 0;
  uuid = vol.uuid;
  on_delete = on_delete_element vol;
}

split-id :
    (vol : SmbVolume)
    → Lacks separator vol.source
    → Lacks separator vol.sub_dir
    → Lacks separator vol.uuid
    → split separator (get_volume_id_from_smb_vol vol)
      ≡ trim is_slash vol.source ∷ trim is_slash vol.sub_dir ∷ vol.uuid ∷ on_delete_element vol ∷ []
split-id vol hs hd hu =
    unfold get_volume_id_from_smb_vol in
    split-join separator (trim is_slash vol.source) _ (
      trim-All (λ c. c ≢ separator) is_slash vol.source hs,
      (
        trim-All (λ c. c ≢ separator) is_slash vol.sub_dir hd,
        (hu, (on_delete_element-Lacks vol, tt)),
      ),
    )

vol_of_segments_lem :
    (vol : SmbVolume)
    → vol_of_segments (get_volume_id_from_smb_vol vol) (
        trim is_slash vol.source
        ∷ trim is_slash vol.sub_dir
        ∷ vol.uuid
        ∷ on_delete_element vol
        ∷ [])
      ≡ ok (normalized vol)
unfolding vol_of_segments
vol_of_segments_lem vol =
    rw (with_slashes_of_kept (trim is_slash vol.source) (trim-StartsKept is_slash vol.source))

-- A volume whose source, subdirectory and uuid hold no "#" is read back from its id in normal
-- form: with the uuid, the source behind two slashes and the subdirectory without their
-- surrounding slashes, the action if it is retain or archive and none otherwise, the id, and the
-- size 0.
pub get_smb_vol_from_id-get_volume_id_from_smb_vol :
    (vol : SmbVolume)
    → Lacks separator vol.source
    → Lacks separator vol.sub_dir
    → Lacks separator vol.uuid
    → get_smb_vol_from_id (get_volume_id_from_smb_vol vol) ≡ ok (normalized vol)
unfolding get_smb_vol_from_id
get_smb_vol_from_id-get_volume_id_from_smb_vol vol hs hd hu =
    ap (vol_of_segments (get_volume_id_from_smb_vol vol)) (split-id vol hs hd hu)
    ∙ vol_of_segments_lem vol

-- An id that is read has at least two segments, and one without the separator is refused.
pub get_smb_vol_from_id_refused :
    (id : Str)
    → Lacks separator id
    → (get_smb_vol_from_id id ≡ err (plain "could not split %q into server and subDir"))
unfolding get_smb_vol_from_id vol_of_segments
get_smb_vol_from_id_refused id h = rw (split-Lacks separator id h)

split-id_separator :
    (vol : SmbVolume) (before after : Str)
    → Lacks separator vol.source
    → Lacks separator before
    → Lacks separator after
    → Lacks separator vol.uuid
    → trim is_slash vol.sub_dir ≡ before ++ (separator ∷ after)
    → split separator (get_volume_id_from_smb_vol vol)
      ≡ trim is_slash vol.source ∷ before ∷ after ∷ vol.uuid ∷ on_delete_element vol ∷ []
unfolding get_volume_id_from_smb_vol join
split-id_separator vol before after hs hb ha hu e =
    rw (e, append_assoc)
      (split-join separator (trim is_slash vol.source)
        (before ∷ after ∷ vol.uuid ∷ on_delete_element vol ∷ [])
        (
          trim-All (λ c. c ≢ separator) is_slash vol.source hs,
          (hb, (ha, (hu, (on_delete_element-Lacks vol, tt)))),
        ))

-- A "#" inside the subdirectory is not escaped. Where it is the only one among source,
-- subdirectory and uuid, the volume that is read back from the id has the text before it for its
-- subdirectory, the text behind it for its uuid, and the uuid for its action on delete.
pub get_smb_vol_from_id_unescaped :
    (vol : SmbVolume) (before after : Str)
    → Lacks separator vol.source
    → Lacks separator before
    → Lacks separator after
    → Lacks separator vol.uuid
    → trim is_slash vol.sub_dir ≡ before ++ (separator ∷ after)
    → (read : SmbVolume) × (get_smb_vol_from_id (get_volume_id_from_smb_vol vol) ≡ ok read)
      × (read.sub_dir ≡ before)
      × (read.uuid ≡ after)
      × (read.on_delete ≡ vol.uuid)
unfolding get_smb_vol_from_id vol_of_segments
get_smb_vol_from_id_unescaped vol before after hs hb ha hu e = (
  record (normalized vol) {
    source = with_slashes (trim is_slash vol.source);
    sub_dir = before;
    uuid = after;
    on_delete = vol.uuid;
  },
  rw (split-id_separator vol before after hs hb ha hu e),
  refl,
  refl,
  refl,
)
