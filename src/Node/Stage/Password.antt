-- ===== src/Node/Stage/Password.antt =====
-- How user and password reach the mount command of a Linux node.
use csi_driver_smb_hardend.Base.{
  ◌≡◌, refl, sym, subst, true, false, List, [], ◌∷◌, ◌++◌, Str, codes, Bool-cases, inl, inr,
}
use csi_driver_smb_hardend.Strings.{has_prefix, has_substring}
use csi_driver_smb_hardend.Constants.{username_field, password_field}
use csi_driver_smb_hardend.Options.{assignment, contains_special_character}
use csi_driver_smb_hardend.Action.{call}
use csi_driver_smb_hardend.Action.Keeps.{
  Safe, Keeps, Keeps-bind, Keeps-call, Keeps-deferred, keeps_rules,
}
use csi_driver_smb_hardend.Env.{Env}
use csi_driver_smb_hardend.Node.Platform.{needs_credentials_option, write_lines, linux_mount}
use csi_driver_smb_hardend.Node.Stage.{Credentials, sensitive_options}

contains_special_character-assignment :
    (password : Str)
    → contains_special_character (assignment password_field password)
      ≡ contains_special_character password
unfolding contains_special_character has_substring has_prefix
contains_special_character-assignment password = refl

-- The test of Mount on the options that NodeStageVolume made is the test of the password.
needs_credentials_option-sensitive_options :
    (c : Credentials)
    → needs_credentials_option (sensitive_options c) ≡ contains_special_character c.password
unfolding needs_credentials_option sensitive_options has_prefix
needs_credentials_option-sensitive_options c =
    elim (Bool-cases (contains_special_character c.password)) [
      | inl e ↦ rw e (rw contains_special_character-assignment e)
      | inr e ↦ rw e
    ]

-- The calls with which the options for a user and a password reach the mount command: the lines
-- "username=…" and "password=…" are written to a file that is made for them and removed behind the
-- mount, which is given the name of the file; the password itself is given to the mount only if it
-- has no double quote, backquote or comma.
pub record CredentialCalls (E : Env) (P : E.World → Type 0) (c : Credentials) : Type 0 where
  pub create : Safe P (E.create_temp (codes "/tmp/") (codes "*.smb.credentials"))
  pub write :
      (file field value : Str) → Safe P (E.append_to file (assignment field value ++ (10 ∷ [])))
  pub remove : (file : Str) → Safe P (E.remove file)
  pub mount_file :
      (source target fs_type : Str) (options : List Str) (file : Str)
      → Safe P
          (E.mount_sensitive source target fs_type options ((codes "credentials=" ++ file) ∷ []))
  pub mount_password :
      (source target fs_type : Str) (options : List Str)
      → contains_special_character c.password ≡ false
      → Safe P (
          E.mount_sensitive source target fs_type options (
            (assignment username_field c.username ++ (b',' ∷ assignment password_field c.password))
            ∷ []))

module _ (E : Env) (P : E.World → Type 0) (c : Credentials) (calls : CredentialCalls E P c) where
  write_lines-Keeps :
      (file : Str)
      → Keeps P (
          write_lines E file
            (assignment username_field c.username ∷ assignment password_field c.password ∷ []))
  unfolding write_lines
  write_lines-Keeps file = search (keeps_rules, calls.write) depth 8

  file_mount-Keeps :
      (source target fs_type : Str) (options : List Str)
      → contains_special_character c.password ≡ true
      → Keeps P (
          linux_mount E source target fs_type options
            (assignment username_field c.username ∷ assignment password_field c.password ∷ []))
  unfolding linux_mount needs_credentials_option has_prefix
  file_mount-Keeps source target fs_type options e =
      let special : contains_special_character (assignment password_field c.password) ≡ true =
        rw contains_special_character-assignment e in
      rw special (
        Keeps-bind (call (E.create_temp (codes "/tmp/") (codes "*.smb.credentials"))) _
          (Keeps-call _ calls.create)
          (λ file. Keeps-deferred (call (E.remove file)) _ (Keeps-call _ (calls.remove file)) (
            Keeps-bind
              (write_lines E file
                (assignment username_field c.username ∷ assignment password_field c.password ∷ []))
              _ (write_lines-Keeps file)
              (λ _. Keeps-call _ (calls.mount_file source target fs_type options file)))))

  -- Mounting on Linux with the options that NodeStageVolume makes of a user and a password makes only
  -- the calls of `CredentialCalls`: a password with a double quote, a backquote or a comma goes
  -- through a file. An invariant that these calls keep, it keeps.
  pub linux_mount-sensitive_options :
      (source target fs_type : Str) (options : List Str)
      → Keeps P (linux_mount E source target fs_type options (sensitive_options c))
  unfolding linux_mount
  linux_mount-sensitive_options source target fs_type options =
      elim (Bool-cases (contains_special_character c.password)) [
        | inl e ↦
            let same : sensitive_options c
                ≡ assignment username_field c.username ∷ assignment password_field c.password ∷ [] =
              unfold sensitive_options in rw e in
            subst (λ sensitive. Keeps P (linux_mount E source target fs_type options sensitive))
              (sym same) (file_mount-Keeps source target fs_type options e)
        | inr e ↦
            let same : sensitive_options c
                ≡ (assignment username_field c.username
                    ++ (b',' ∷ assignment password_field c.password))
                  ∷ [] =
              unfold sensitive_options in rw e in
            rw (needs_credentials_option-sensitive_options, e)
              (subst
                (λ sensitive.
                  Keeps P (call (E.mount_sensitive source target fs_type options sensitive)))
                (sym same) (Keeps-call _ (calls.mount_password source target fs_type options e)))
      ]
