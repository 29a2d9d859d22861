-- ===== src/Mounter/Windows.antt =====
-- What the mounters of a Windows node share: paths, the options of a mount, and the share's host.
use csi_driver_smb_hardend.Base.{
  ℕ, Bool, true, false, ◌||◌, List, [], ◌∷◌, ◌++◌, Str, codes, length, drop, Option, none, some,
  ◌==◌, if◌then◌else◌,
}
use csi_driver_smb_hardend.Errors.{Error, plain, not_exist, Result, ok, err}
use csi_driver_smb_hardend.Strings.{has_prefix, has_suffix, replace_all}
use csi_driver_smb_hardend.Action.{Action, pure, call, attempt, or_plain, ◌>>=◌}
use csi_driver_smb_hardend.Host.{Host}

-- `strings.Replace(path, "/", "\\", -1)`
unfoldable pub with_backslashes : Str → Str
unfolding replace_all
with_backslashes path = replace_all path (codes "/") (codes "\\")

-- `normalizeWindowsPath`
unfoldable pub normalize_windows_path : Str → Str
unfolding with_backslashes has_prefix
normalize_windows_path path =
    let normalized = with_backslashes path in
    if has_prefix normalized (codes "\\") then codes "c:" ++ normalized else normalized

-- `Split`
unfoldable pub is_split : ℕ → Bool
is_split r = (r == b' ') || (r == b'/')

-- The field that the text begins with, up to the next separator.
unfoldable pub field_of : (ℕ → Bool) → Str → Str
field_of cut [] = []
field_of cut (c ∷ s) = let rest = field_of cut s in if cut c then [] else c ∷ rest

-- The first of `strings.FieldsFunc(s, cut)`.
unfoldable pub first_field : (ℕ → Bool) → Str → Option Str
unfolding field_of
first_field cut [] = none
first_field cut (c ∷ s) =
    let rest = first_field cut s in if cut c then rest else some (field_of cut (c ∷ s))

-- `strings.Replace(s, old, new, 1)` for an `old` that is not empty.
unfoldable pub replace_first : Str → Str → Str → Str
unfolding has_prefix
replace_first [] old new = []
replace_first (c ∷ s) old new =
    let rest = replace_first s old new in
    if has_prefix (c ∷ s) old then new ++ drop (length old) (c ∷ s) else c ∷ rest

-- `mountOptions[0]` and `sensitiveMountOptions[0]`, where both are there.
unfoldable pub first_options : List Str → List Str → Result (Str × Str)
first_options (username ∷ options) (password ∷ sensitive) = ok (username, password)
first_options options sensitive =
    err (plain "empty mountOptions(len: %d) or sensitiveMountOptions(len: %d) is not allowed")

-- What `IsLikelyNotMountPoint` makes of the answer whether the path exists.
unfoldable pub likely_not : {W : Type 0} → Bool → Action W Bool → Action W (Bool × Option Error)
likely_not false is_link = pure (true, some not_exist)
likely_not true is_link = do
  r ← attempt is_link
  pure (elim r [ ok b ↦ (if b then false else true, none) | err e ↦ (false, some e) ])

module _ (H : Host) where
  abbrev World : Type 0
  World = H.files.World

  -- The parent of the target is made where it does not exist.
  unfoldable pub make_parent :
      (Str → Action World Bool) → (Str → Action World (Unit {0})) → Str → Action World (Unit {0})
  make_parent exists_path make_dir target = do
    parent_exists ←
        or_plain "parent dir: %s exist check failed with err: %v" (exists_path (H.dir target))
    if parent_exists
        then pure tt
        else or_plain "create of parent dir: %s dailed with error: %v" (make_dir (H.dir target))

  unfoldable pub replace_host : Str → Str → Result Str → Str
  unfolding replace_first
  replace_host source domain_name (ok ip) = replace_first source domain_name ip
  replace_host source domain_name (err e) = source

  -- The name of a service of the cluster is replaced by its address, where it can be resolved.
  unfoldable pub resolve_source : Str → Option Str → Action World Str
  unfolding has_suffix replace_host
  resolve_source source none = pure source
  resolve_source source (some host) =
      if has_suffix host (codes "svc.cluster.local")
      then (do ip ← attempt (call (H.resolve_ip host)); pure (replace_host source host ip))
      else pure source

  -- The answer of a mounter to `IsLikelyNotMountPoint`, with its error.
  unfoldable pub is_likely_not_mount_point :
      Action World Bool → Action World Bool → Action World (Bool × Option Error)
  unfolding likely_not
  is_likely_not_mount_point exists_path is_link = do
    r ← attempt exists_path
    elim r [ ok b ↦ likely_not b is_link | err e ↦ pure (false, some e) ]
