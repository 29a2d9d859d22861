-- ===== src/Mounter/Proxy/Sessions.antt =====
-- Mounts, and histories of mounts and unmounts.
use csi_driver_smb_hardend.Base.{
  ◌≡◌, sym, subst, inl, inr, Bool, true, List, Str, codes, String, Option, none, some,
}
use csi_driver_smb_hardend.Errors.{Result, ok, err, with_plain}
use csi_driver_smb_hardend.Strings.{trim_suffix}
use csi_driver_smb_hardend.Action.{State, call, lift, or_plain, ◌>>=◌}
use csi_driver_smb_hardend.Action.Keeps.{
  Safe, Keeps, Keeps-bind_value, Keeps-bind-lift, Keeps-bind-lift_err, Keeps-call, Keeps-or_plain,
  Result-cases, keeps_rules,
}
use csi_driver_smb_hardend.Host.{Host}
use csi_driver_smb_hardend.Mounter.{get_root_mapping_path}
use csi_driver_smb_hardend.Mounter.References.{
  get_md5, reference_dir, increment_volume_id_references_count,
}
use csi_driver_smb_hardend.Mounter.References.Counted.{FileLaws}
use csi_driver_smb_hardend.Mounter.Windows.{normalize_windows_path, make_parent, resolve_source}
use csi_driver_smb_hardend.Mounter.Proxy.{
  exists_path, make_dir, mapping_of, map_share, smb_mount, smb_unmount,
}
use csi_driver_smb_hardend.Mounter.Proxy.Mapped.{
  IsRoot, Quiet, ShareLaws, AllMapped, Quiet-Safe, smb_unmount-AllMapped,
}

module _ (H : Host) (laws : FileLaws H.files) (mapped : H.files.World → Str → Bool)
    (shares : ShareLaws H laws mapped) where
  -- A world in which the shares with references are mapped, and this one too.
  abbrev MappedToo : Str → H.files.World → Type 0
  MappedToo own w = AllMapped H laws mapped w × (mapped w own ≡ true)

  Quiet-SafeToo :
      {A : Type 0} (own : Str) (f : H.files.World → A × H.files.World)
      → Quiet H laws mapped f
      → Safe (MappedToo own) f
  Quiet-SafeToo own f q = record {
    kept = λ w h. ((Quiet-Safe H laws mapped f q).kept w h.0, q.stays w own h.1);
  }

  create-Safe :
      (own file : Str)
      → IsRoot own
      → Safe (MappedToo own) (H.files.create (H.files.join (reference_dir H.files own) file))
  create-Safe own file root = record {
    kept = λ w h. (
      λ other id other_root r.
          let path = H.files.join (reference_dir H.files own) file in
          shares.create_stays path other w
            (elim (shares.create own other file (get_md5 H.files id) w root other_root r) [
              | inl same ↦ subst (λ m. mapped w m ≡ true) (sym same) h.1
              | inr before ↦ h.0 other id other_root before
            ]),
      shares.create_stays (H.files.join (reference_dir H.files own) file) own w h.1,
    );
  }

  increment-Keeps :
      (own remote_path volume_id : Str)
      → IsRoot own
      → Keeps
          (MappedToo own)
          (increment_volume_id_references_count H.files own remote_path volume_id)
  unfolding increment_volume_id_references_count
  increment-Keeps own remote_path volume_id root =
      let file : Str = H.files.join (reference_dir H.files own) (get_md5 H.files volume_id) in
      search
        (
          keeps_rules,
          Quiet-SafeToo own _ (shares.mkdir_all own root),
          create-Safe own (get_md5 H.files volume_id) root,
          Quiet-SafeToo own _ (shares.write_string file (trim_suffix remote_path (codes "\\"))),
          Quiet-SafeToo own _ (shares.close file),
        )
        depth 8

  with_plain-ok :
      {A : Type 0} (text : String) (r : Result A) (a : A) → with_plain text r ≡ ok a → r ≡ ok a
  with_plain-ok text (ok b) a e = e
  with_plain-ok text (err c) a e = cc e

  -- Behind a mapping that is made, the share is mapped.
  mapping-maps :
      (text : String) (own target remote_path username password : Str) (s : State H.files.World)
      → get_root_mapping_path remote_path ≡ ok own
      → let m =
          or_plain text
            (call (H.proxy.new_smb_global_mapping target remote_path username password)) in
        (m s).0 ≡ ok tt → mapped (m s).1.world own ≡ true
  unfolding or_plain call
  mapping-maps text own target remote_path username password s root e =
      shares.maps target remote_path username password own s.world root (with_plain-ok text _ tt e)

  map_share-Keeps :
      (own remote_path target : Str) (user : Str × Str) (volume_id : Str)
      → get_root_mapping_path remote_path ≡ ok own
      → Keeps (AllMapped H laws mapped) (map_share H true own remote_path target user volume_id)
  unfolding map_share
  map_share-Keeps own remote_path target (username, password) volume_id root =
      let m = call (
        H.proxy.new_smb_global_mapping (normalize_windows_path target) remote_path username
          password) in
      let counted : Keeps (MappedToo own) (
          or_plain "incementRemotePathReferencesCount(%s, %s, %s) failed with error: %v"
            (increment_volume_id_references_count H.files own remote_path volume_id)) =
        Keeps-or_plain _ _ (increment-Keeps own remote_path volume_id (remote_path, root)) in
      Keeps-bind_value (or_plain "NewSmbGlobalMapping(%s, %s) failed with error: %v" m) _
        (Keeps-or_plain _ m (
          Keeps-call _ (
            Quiet-Safe H laws mapped _
              (shares.new_mapping (normalize_windows_path target) remote_path username password))))
        (λ _ s e h.
          (counted.at _ (
            h,
            mapping-maps _ own (normalize_windows_path target) remote_path username password s root
                e,
          )).0)

  -- Where making the directory above the target adds no reference.
  module _ (target : Str)
      (outside : Quiet H laws mapped (H.proxy.mkdir (normalize_windows_path (H.dir target)))) where
    parent-Keeps :
        Keeps (AllMapped H laws mapped) (make_parent H (exists_path H) (make_dir H) target)
    unfolding make_parent exists_path make_dir
    parent-Keeps =
        search
          (
            keeps_rules,
            Quiet-Safe H laws mapped _ outside,
            Quiet-Safe H laws mapped _ (shares.path_exists (normalize_windows_path (H.dir target))),
          )
          depth 8

    resolve-Keeps :
        (source : Str) (host : Option Str)
        → Keeps (AllMapped H laws mapped) (resolve_source H source host)
    unfolding resolve_source
    resolve-Keeps source none = search keeps_rules
    resolve-Keeps source (some host) =
        search (keeps_rules, Quiet-Safe H laws mapped _ (shares.resolve_ip host)) depth 8

    -- What follows once the share is known.
    share-Keeps :
        (remote_path : Str) (user : Str × Str) (volume_id : Str)
        → Keeps (AllMapped H laws mapped) (
            lift (mapping_of H true (get_root_mapping_path remote_path)) >>= λ mapping_path.
            map_share H true mapping_path remote_path target user volume_id)
    unfolding mapping_of
    share-Keeps remote_path user volume_id =
        elim (Result-cases (get_root_mapping_path remote_path)) [
          | inl (own, e) ↦
              rw e (Keeps-bind-lift own _ (map_share-Keeps own remote_path target user volume_id e))
          | inr (c, e) ↦ rw e (Keeps-bind-lift_err {A = Str} _ _)
        ]

    pub smb_mount-AllMapped :
        (source : Str) (options sensitive : List Str) (volume_id : Str)
        → Keeps
            (AllMapped H laws mapped)
            (smb_mount H true source target options sensitive volume_id)
    unfolding smb_mount
    smb_mount-AllMapped source options sensitive volume_id =
        search (keeps_rules, parent-Keeps, resolve-Keeps, share-Keeps) depth 12

  -- Mounts and unmounts with the removal of mappings, one after the other, each with any result.
  -- Making the directory above a target adds no reference.
  pub data Session (s : State H.files.World) : State H.files.World → Type 0 where
    here : Session s s
    mounted :
        {t : State H.files.World} (source target : Str) (options sensitive : List Str)
        (volume_id : Str)
        → Quiet H laws mapped (H.proxy.mkdir (normalize_windows_path (H.dir target)))
        → Session s t
        → Session s (smb_mount H true source target options sensitive volume_id t).1
    unmounted :
        {t : State H.files.World} (target volume_id : Str)
        → Session s t
        → Session s (smb_unmount H true target volume_id t).1

  -- On a host that obeys ShareLaws, however SMBMount and SMBUnmount follow one another, with any
  -- volumes and whether they succeed or fail, while making the directory above a target adds no
  -- reference: where every share with the reference of a volume is mapped before, it is so
  -- afterwards (of a share whose host or name is "." or ".." nothing is said). No unmount takes the
  -- mapping of a share away from a volume that still has a reference.
  pub Session-AllMapped :
      {s t : State H.files.World}
      → Session s t
      → AllMapped H laws mapped s.world
      → AllMapped H laws mapped t.world
  Session-AllMapped here h = h
  Session-AllMapped (mounted {t} source target options sensitive volume_id outside before) h =
      (smb_mount-AllMapped target outside source options sensitive volume_id).at t
        (Session-AllMapped before h)
  Session-AllMapped (unmounted {t} target volume_id before) h =
      (smb_unmount-AllMapped H laws mapped shares target volume_id).at t
        (Session-AllMapped before h)
