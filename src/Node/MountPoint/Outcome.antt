-- ===== src/Node/MountPoint/Outcome.antt =====
-- `ensureMountPoint` of pkg/smb/nodeserver.go: what its success says of the target.
use csi_driver_smb_hardend.Base.{
  ◌≡◌, refl, sym, ap, subst, ◌∙◌, Bool, true, false, not, Str, if◌then◌else◌,
}
use csi_driver_smb_hardend.Errors.{Result, ok, err}
use csi_driver_smb_hardend.Action.{State, Action, pure, fail, call, ask, attempt, ◌>>=◌, ◌>>◌}
use csi_driver_smb_hardend.Action.Runs.{>>=-ok, >>=-at}
use csi_driver_smb_hardend.Env.{Env, Driver}
use csi_driver_smb_hardend.Node.MountPoint.{
  first_answer, second_answer, probe, check_link, make_dir, ensure_mount_point,
}

-- A run that succeeds, with its state.
run-ok :
    {W A : Type 0} (m : Action W A) (a : A) (s : State W) → (m s).0 ≡ ok a → m s ≡ (ok a, (m s).1)
run-ok m a s e = ap (λ r. (r, (m s).1)) e

module _ (E : Env) (target : Str) where
  -- The target was mounted and could be read, or was not mounted and is a directory now.
  abbrev pub Outcome : Bool → State E.World → State E.World → Type 0
  Outcome true s t = probe E target s ≡ (ok tt, t)
  Outcome false s t = make_dir E target s ≡ (ok tt, t)

  check_link-ok :
      (r : Result (Unit {0})) (b : Bool) (s : State E.World)
      → (check_link E target r s).0 ≡ ok b
      → (r ≡ ok tt) × (b ≡ true) × ((check_link E target r s).1 ≡ s)
  unfolding check_link pure
  check_link-ok (ok u) b s h = (refl, cc h, refl)
  check_link-ok (err e) b s h =
      let (u, _, failed, _) = >>=-ok (call (E.unmount target)) (λ _. fail {A = Bool} e) b s h in
      absurd (unfold fail in cc failed)

  abbrev finish : Bool → Action E.World Bool
  finish not_mnt =
      if not_mnt
      then (make_dir E target >> pure false)
      else (do link ← attempt (probe E target); check_link E target link)

  attempt_state :
      (s : State E.World) (r : Result (Unit {0}))
      → (attempt (probe E target) s).0 ≡ ok r
      → probe E target s ≡ (r, (attempt (probe E target) s).1)
  unfolding attempt
  attempt_state s r e =
      let first : (probe E target s).0 ≡ r = cc e in ap (λ a. (a, (probe E target s).1)) first

  made :
      (b : Bool) (s : State E.World)
      → ((make_dir E target >> pure false) s).0 ≡ ok b
      → (b ≡ false) × (make_dir E target s ≡ (ok tt, ((make_dir E target >> pure false) s).1))
  made b s h =
      let (u, done, rest, whole) = >>=-ok (make_dir E target) (λ _. pure false) b s h in
      let after : (make_dir E target >> pure false) s ≡ (ok false, (make_dir E target s).1) =
        unfold pure in whole in
      (
        unfold pure in cc rest,
        run-ok (make_dir E target) u s done ∙ ap (λ r. (ok tt, r.1)) (sym after),
      )

  read :
      (b : Bool) (s : State E.World)
      → ((attempt (probe E target) >>= check_link E target) s).0 ≡ ok b
      → (b ≡ true)
        × (probe E target s ≡ (ok tt, ((attempt (probe E target) >>= check_link E target) s).1))
  read b s h =
      let (r, done, rest, whole) = >>=-ok (attempt (probe E target)) (check_link E target) b s h in
      let (kept, mounted, same) = check_link-ok r b (attempt (probe E target) s).1 rest in
      (
        mounted,
        attempt_state s r done
            ∙ ap (λ a. (a, (attempt (probe E target) s).1)) kept
            ∙ ap (λ t. (ok tt, t)) (sym same)
            ∙ ap (λ a. (ok tt, a.1)) (sym whole),
      )

  finish-ok :
      (not_mnt b : Bool) (s : State E.World)
      → (finish not_mnt s).0 ≡ ok b
      → (not_mnt ≡ not b) × Outcome b s (finish not_mnt s).1
  finish-ok true true s h = absurd (cc ((made true s h).0))
  finish-ok true false s h = (refl, (made false s h).1)
  finish-ok false true s h = (refl, (read true s h).1)
  finish-ok false false s h = absurd (cc ((read false s h).0))

  -- What the two questions answer: whether nothing is mounted on the target.
  abbrev pub asked : Driver → Action E.World Bool
  asked d = do
    answer ← ask (E.is_likely_not_mount_point target)
    likely ← first_answer E target answer
    second_answer E d target likely

  pub ensure_mount_point-ok :
      (d : Driver) (b : Bool) (s : State E.World)
      → (ensure_mount_point E d target s).0 ≡ ok b
      → (t : State E.World) × (asked d s ≡ (ok (not b), t))
        × Outcome b t (ensure_mount_point E d target s).1
  unfolding ensure_mount_point
  ensure_mount_point-ok d b s h =
      let (answer, e1, r1, w1) =
        >>=-ok (ask (E.is_likely_not_mount_point target))
          (λ answer.
            first_answer E target answer >>= λ likely. second_answer E d target likely >>= finish)
          b s h in
      let s1 = (ask (E.is_likely_not_mount_point target) s).1 in
      let (likely, e2, r2, w2) =
        >>=-ok (first_answer E target answer) (λ likely. second_answer E d target likely >>= finish)
          b s1 r1 in
      let s2 = (first_answer E target answer s1).1 in
      let (not_mnt, e3, r3, w3) = >>=-ok (second_answer E d target likely) finish b s2 r2 in
      let t = (second_answer E d target likely s2).1 in
      let (turned, outcome) = finish-ok not_mnt b t r3 in
      (
        t,
        >>=-at (ask (E.is_likely_not_mount_point target)) _ answer s s1
              (run-ok (ask (E.is_likely_not_mount_point target)) answer s e1)
            ∙ >>=-at (first_answer E target answer) _ likely s1 s2
                (run-ok (first_answer E target answer) likely s1 e2)
            ∙ run-ok (second_answer E d target likely) not_mnt s2 e3
            ∙ ap (λ x. (ok x, t)) turned,
        subst (λ x. Outcome b t x.1) (sym (w1 ∙ w2 ∙ w3)) outcome,
      )
