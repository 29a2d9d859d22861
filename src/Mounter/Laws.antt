-- ===== src/Mounter/Laws.antt =====
-- The root of a remote path.
use csi_driver_smb_hardend.Base.{
  ◌≡◌, ap, ◌∙◌, false, [], ◌∷◌, ◌++◌, Str, Lacks, is_empty, List, append-nil, ◌⊎◌, inl, inr,
}
use csi_driver_smb_hardend.Errors.{ok}
use csi_driver_smb_hardend.Strings.{split, to_lower}
use csi_driver_smb_hardend.Strings.Split.{split-append_sep, split-Lacks}
use csi_driver_smb_hardend.Mounter.{parts_of, root_of_parts, get_root_mapping_path}

parts_of-two :
    (host share : Str) (items : List Str)
    → is_empty host ≡ false
    → is_empty share ≡ false
    → parts_of ([] ∷ [] ∷ host ∷ share ∷ items) ≡ host ∷ share ∷ parts_of items
unfolding parts_of
parts_of-two host share items h s = rw (h, s)

split-remote :
    (host share rest : Str)
    → Lacks b'\\' host
    → Lacks b'\\' share
    → split b'\\' (b'\\' ∷ b'\\' ∷ (host ++ (b'\\' ∷ (share ++ (b'\\' ∷ rest)))))
      ≡ [] ∷ [] ∷ host ∷ share ∷ split b'\\' rest
unfolding split
split-remote host share rest h s =
    let behind : Str = share ++ (b'\\' ∷ rest) in
    split-append_sep b'\\' [] (b'\\' ∷ (host ++ (b'\\' ∷ behind)))
    ∙ rw (
      split-append_sep b'\\' [] (host ++ (b'\\' ∷ behind)),
      split-append_sep b'\\' host behind,
      split-append_sep b'\\' share rest,
      split-Lacks b'\\' host h,
      split-Lacks b'\\' share s,
      split,
    )

split-share :
    (host share : Str)
    → Lacks b'\\' host
    → Lacks b'\\' share
    → split b'\\' (b'\\' ∷ b'\\' ∷ (host ++ (b'\\' ∷ share))) ≡ [] ∷ [] ∷ host ∷ share ∷ []
unfolding split
split-share host share h s =
    split-append_sep b'\\' [] (b'\\' ∷ (host ++ (b'\\' ∷ share)))
    ∙ rw (
      split-append_sep b'\\' [] (host ++ (b'\\' ∷ share)),
      split-append_sep b'\\' host share,
      split-Lacks b'\\' host h,
      split-Lacks b'\\' share s,
      split,
    )

-- All paths of a share have one root: it is the host and the share of the path in lower case, for a
-- host and a share that are not empty and hold no backslash, where the path ends with the share or
-- goes on with a backslash and whatever follows.
pub get_root_mapping_path_remote :
    (host share rest : Str)
    → Lacks b'\\' host
    → Lacks b'\\' share
    → is_empty host ≡ false
    → is_empty share ≡ false
    → (rest ≡ []) ⊎ ((path : Str) × (rest ≡ b'\\' ∷ path))
    → get_root_mapping_path (b'\\' ∷ b'\\' ∷ (host ++ (b'\\' ∷ (share ++ rest))))
      ≡ ok (to_lower (b'\\' ∷ b'\\' ∷ (host ++ (b'\\' ∷ share))))
unfolding get_root_mapping_path root_of_parts
get_root_mapping_path_remote host share rest h s eh es (inl e) =
    rw (e, append-nil share)
      (ap (λ items. root_of_parts (parts_of items)) (split-share host share h s)
        ∙ ap root_of_parts (parts_of-two host share [] eh es))
get_root_mapping_path_remote host share rest h s eh es (inr (path, e)) = rw e (
    ap (λ items. root_of_parts (parts_of items)) (split-remote host share path h s)
    ∙ ap root_of_parts (parts_of-two host share (split b'\\' path) eh es))
