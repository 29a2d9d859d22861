-- ===== src/Volume/Location.antt =====
-- Where a volume lies under the working directory.
use mathlib.Core.List.{reverse, reverse-append, reverse-reverse}
use csi_driver_smb_hardend.Base.{
  ◌≡◌, sym, ap, ◌∙◌, true, List, [], ◌∷◌, ◌++◌, some, arith, Str, codes, is_empty, All, All-append,
  if◌then◌else◌,
}
use csi_driver_smb_hardend.Strings.{split, has_prefix}
use csi_driver_smb_hardend.Strings.Split.{split-append_sep, split-Lacks}
use csi_driver_smb_hardend.Paths.{dot_dot, is_noise, resolve, push, absolute, join_path}
use csi_driver_smb_hardend.Paths.Under.{NoUp, kept, names_of, clean-absolute, resolve-append}
use csi_driver_smb_hardend.Paths.Names.{
  IsName, names_of-All, names_of-absolute, join_path-absolute, join_path-join_path, absolute-rooted,
}
use csi_driver_smb_hardend.Volume.{SmbVolume, get_internal_mount_path, get_internal_volume_path}

-- The directory below the working directory in which a volume's share is mounted.
abbrev pub mount_name : SmbVolume → Str
mount_name vol = if is_empty vol.uuid then vol.sub_dir else vol.uuid

abbrev pub IsRooted : Str → Type 0
IsRooted dir = has_prefix dir (codes "/") ≡ true

-- Under a rooted working directory, and with no ".." among the names of the mount directory and of
-- the subdirectory, the mount path has the names of the working directory and then those of the
-- mount directory, and the path of the volume has these and then those of the subdirectory.
pub get_internal_volume_path-absolute :
    (dir : Str) (vol : SmbVolume)
    → IsRooted dir
    → NoUp (mount_name vol)
    → NoUp vol.sub_dir
    → (get_internal_mount_path dir (some vol)
        ≡ absolute (names_of dir ++ kept (split b'/' (mount_name vol))))
      × (get_internal_volume_path dir vol
          ≡ absolute (
              (names_of dir ++ kept (split b'/' (mount_name vol)))
              ++ kept (split b'/' vol.sub_dir)))
unfolding get_internal_volume_path
get_internal_volume_path-absolute dir vol r hm hd = (
  join_path-absolute dir (mount_name vol) r hm,
  join_path-join_path dir (mount_name vol) vol.sub_dir r hm hd,
)

stack_of-absolute :
    (names : List Str)
    → All IsName names
    → resolve true [] (split b'/' (absolute names)) ≡ reverse names
stack_of-absolute names h =
    let read : reverse (resolve true [] (split b'/' (absolute names))) ≡ names =
      unfold names_of in names_of-absolute names h in
    sym (reverse-reverse _) ∙ ap reverse read

-- The names of the directory, last first, with one more.
reverse-names_of :
    (dir name : Str)
    → reverse (names_of dir ++ (name ∷ [])) ≡ name ∷ resolve true [] (split b'/' dir)
unfolding names_of
reverse-names_of dir name = rw (reverse-append, reverse-reverse)

resolve-dot_dot :
    (name : Str) (stack names : List Str)
    → IsName name
    → resolve true (name ∷ stack) (split b'/' dot_dot ++ names) ≡ resolve true stack names
unfolding resolve push split
resolve-dot_dot name stack names h = rw h.2

-- A name and then ".." lead back.
up-name :
    (dir name rest : Str)
    → IsName name
    → names_of (absolute (names_of dir ++ (name ∷ [])) ++ (b'/' ∷ (dot_dot ++ (b'/' ∷ rest))))
      ≡ names_of (dir ++ (b'/' ∷ rest))
up-name dir name rest h =
    let base : List Str = names_of dir ++ (name ∷ []) in
    let stack : resolve true [] (split b'/' (absolute base))
        ≡ name ∷ resolve true [] (split b'/' dir) =
      stack_of-absolute base
        (All-append IsName (names_of dir) (name ∷ []) (names_of-All dir) (h, tt))
      ∙ reverse-names_of dir name in
    unfold names_of in
    rw (
      split-append_sep b'/' (absolute base),
      split-append_sep b'/' dot_dot,
      split-append_sep b'/' dir,
      resolve-append true [] (split b'/' (absolute base)),
      stack,
      resolve-dot_dot name _ _ h,
      resolve-append true [] (split b'/' dir),
    )

join_path-rooted :
    (dir path : Str)
    → IsRooted dir
    → join_path dir path ≡ absolute (names_of (dir ++ (b'/' ∷ path)))
unfolding has_prefix
join_path-rooted [] path r = cc
join_path-rooted (c ∷ dir) path r =
    unfold join_path in clean-absolute ((c ∷ dir) ++ (b'/' ∷ path)) r

join_path-name :
    (dir name : Str)
    → IsRooted dir
    → IsName name
    → join_path dir name ≡ absolute (names_of dir ++ (name ∷ []))
join_path-name dir name r h =
    let one : split b'/' name ≡ name ∷ [] = split-Lacks b'/' name h.0 in
    join_path-absolute dir name r (rw one (h.2, tt))
    ∙ rw one (ap (λ ns. absolute (names_of dir ++ ns)) (unfold kept in rw h.1))

mount_name-uuid : (vol : SmbVolume) → IsName vol.uuid → mount_name vol ≡ vol.uuid
unfolding is_noise
mount_name-uuid vol h = ground arith

-- Under a rooted working directory, for a volume whose uuid is a plain name, a subdirectory that
-- begins with "../" leaves the directory where the share is mounted: the path of the volume is the
-- rest of the subdirectory, taken from the working directory.
pub get_internal_volume_path_up :
    (dir rest : Str) (vol : SmbVolume)
    → IsRooted dir
    → IsName vol.uuid
    → vol.sub_dir ≡ dot_dot ++ (b'/' ∷ rest)
    → get_internal_volume_path dir vol ≡ join_path dir rest
get_internal_volume_path_up dir rest vol r h e =
    unfold get_internal_volume_path in
    rw (mount_name-uuid vol h, join_path-name dir vol.uuid r h, e)
      (join_path-rooted (absolute (names_of dir ++ (vol.uuid ∷ []))) (dot_dot ++ (b'/' ∷ rest))
          (absolute-rooted (names_of dir ++ (vol.uuid ∷ [])))
        ∙ ap absolute (up-name dir vol.uuid rest h)
        ∙ sym (join_path-rooted dir rest r))
