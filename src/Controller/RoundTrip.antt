-- ===== src/Controller/RoundTrip.antt =====
-- pkg/smb/controllerserver.go: the volume that `CreateVolume` names and the one that a later
-- request with its id is about.
use csi_driver_smb_hardend.Base.{
  ℕ, ◌≡◌, refl, ap, sym, ◌∙◌, [], ◌∷◌, ◌||◌, some, Str, is_empty, Lacks, Bool-cases, inl, inr,
  if◌then◌else◌,
}
use csi_driver_smb_hardend.Errors.{ok}
use csi_driver_smb_hardend.Constants.{separator, retain, archive}
use csi_driver_smb_hardend.Strings.{split, equal_fold}
use csi_driver_smb_hardend.Maps.{Map}
use csi_driver_smb_hardend.Paths.Under.{NoUp, kept}
use csi_driver_smb_hardend.Paths.Slashes.{kept-trim, NoUp-trim}
use csi_driver_smb_hardend.Env.{Driver}
use csi_driver_smb_hardend.Controller.Delete.{with_policy}
use csi_driver_smb_hardend.Volume.{
  SmbVolume, on_delete_element, get_smb_vol_from_id, new_smb_volume, get_internal_mount_path,
  get_internal_volume_path,
}
use csi_driver_smb_hardend.Volume.Id.{normalized, get_smb_vol_from_id-get_volume_id_from_smb_vol}
use csi_driver_smb_hardend.Volume.Params.{new_smb_volume_fields}
use csi_driver_smb_hardend.Volume.Location.{mount_name, IsRooted, get_internal_volume_path-absolute}

normalized-kept_mount_name :
    (vol : SmbVolume)
    → kept (split b'/' (mount_name (normalized vol))) ≡ kept (split b'/' (mount_name vol))
normalized-kept_mount_name vol = elim (Bool-cases (is_empty vol.uuid)) [
  | inl e ↦ rw e (kept-trim vol.sub_dir)
  | inr e ↦ rw e refl
]

normalized-NoUp : (vol : SmbVolume) → NoUp (mount_name vol) → NoUp (mount_name (normalized vol))
normalized-NoUp vol h = elim (Bool-cases (is_empty vol.uuid)) [
  | inl e ↦ rw e (NoUp-trim vol.sub_dir (rw e at h))
  | inr e ↦ rw e (rw e at h)
]

-- The volume that is read back has the mount path and the path of the one that was written.
pub normalized-path :
    (dir : Str) (vol : SmbVolume)
    → IsRooted dir
    → NoUp (mount_name vol)
    → NoUp vol.sub_dir
    → (get_internal_mount_path dir (some (normalized vol)) ≡ get_internal_mount_path dir (some vol))
      × (get_internal_volume_path dir (normalized vol) ≡ get_internal_volume_path dir vol)
normalized-path dir vol r hm hd =
    let (mount, path) = get_internal_volume_path-absolute dir vol r hm hd in
    let (mount', path') =
      get_internal_volume_path-absolute dir (normalized vol) r (normalized-NoUp vol hm)
        (NoUp-trim vol.sub_dir hd) in
    (
      mount' ∙ rw (normalized-kept_mount_name vol) (sym mount),
      path' ∙ rw (normalized-kept_mount_name vol, kept-trim vol.sub_dir) (sym path),
    )

-- The action on delete that an id keeps: retain and archive, in any case, are written into it, and
-- any other is the driver's when the id is read.
abbrev pub kept_action : Driver → SmbVolume → Str
kept_action d vol =
    if equal_fold vol.on_delete retain || equal_fold vol.on_delete archive
    then vol.on_delete
    else d.default_on_delete_policy

with_policy_lem :
    (d : Driver) (vol : SmbVolume) (action : Str)
    → (with_policy d (record (normalized vol) {
      on_delete = if equal_fold action retain || equal_fold action archive then action else [];
    })).on_delete
      ≡ (if equal_fold action retain || equal_fold action archive
          then action
          else d.default_on_delete_policy)
unfolding with_policy equal_fold
with_policy_lem d vol [] = refl
with_policy_lem d vol (c ∷ action) =
    elim (Bool-cases (equal_fold (c ∷ action) retain || equal_fold (c ∷ action) archive)) [
      | inl e ↦ rw e refl
      | inr e ↦ rw e refl
    ]

normalized-action :
    (d : Driver) (vol : SmbVolume) → (with_policy d (normalized vol)).on_delete ≡ kept_action d vol
unfolding on_delete_element
normalized-action d vol = with_policy_lem d vol vol.on_delete

module _ (visit : Map → Map) (name : Str) (size : ℕ) (params : Map) (d : Driver)
    {vol : SmbVolume} where
  -- A volume made from a storage class, whose source, subdirectory and uuid hold no "#", under a
  -- rooted working directory, with no ".." among the names of its mount directory and of its
  -- subdirectory: its id reads back as a volume of that id with the same mount path, the same
  -- path and the same uuid. The action that deleting it takes is the volume's own where that is
  -- retain or archive, and the driver's policy otherwise: an explicit "delete" of the storage class is
  -- not in the id, and is lost to a driver's policy of retain or archive.
  pub new_smb_volume-get_smb_vol_from_id :
      new_smb_volume visit name size params d.default_on_delete_policy ≡ ok vol
      → Lacks separator vol.source
      → Lacks separator vol.sub_dir
      → Lacks separator vol.uuid
      → IsRooted d.working_mount_dir
      → NoUp (mount_name vol)
      → NoUp vol.sub_dir
      → (read : SmbVolume) × (get_smb_vol_from_id vol.id ≡ ok read)
        × (read.id ≡ vol.id)
        × (read.uuid ≡ vol.uuid)
        × ((with_policy d read).on_delete ≡ kept_action d vol)
        × (get_internal_mount_path d.working_mount_dir (some read)
            ≡ get_internal_mount_path d.working_mount_dir (some vol))
        × (get_internal_volume_path d.working_mount_dir read
            ≡ get_internal_volume_path d.working_mount_dir vol)
  new_smb_volume-get_smb_vol_from_id made hs hd hu r hm up =
      let (mount, path) = normalized-path d.working_mount_dir vol r hm up in
      let written =
        (new_smb_volume_fields visit name size params d.default_on_delete_policy made).5 in
      (
        normalized vol,
        ap get_smb_vol_from_id written
            ∙ get_smb_vol_from_id-get_volume_id_from_smb_vol vol hs hd hu,
        sym written,
        refl,
        normalized-action d vol,
        mount,
        path,
      )
