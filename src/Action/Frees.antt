-- ===== src/Action/Frees.antt =====
-- Handlers that leave the lock set as they found it.
use csi_driver_smb_hardend.Base.{
  ◌≡◌, refl, ap, ◌∙◌, Bool, true, false, Str, String, Bool-cases, inl, inr, if◌then◌else◌,
}
use csi_driver_smb_hardend.Errors.{Code, Error, Result, ok, err}
use csi_driver_smb_hardend.Locks.{try_acquire, release}
use csi_driver_smb_hardend.Locks.Laws.{release-try_acquire, try_acquire_refused}
use csi_driver_smb_hardend.Action.{
  State, Call, Action, pure, fail, lift, call, ask, attempt, or_status, or_code, or_plain, deferred,
  locked, continue, ◌>>=◌,
}

-- Whether it returns a value or an error, the lock set is as it was before.
pub record Frees {W A : Type 0} (m : Action W A) : Type 0 where
  pub same : (s : State W) → (m s).1.locks ≡ s.locks

module _ {W A : Type 0} where
  pub Frees-pure : (a : A) → Frees {W = W} (pure a)
  unfolding pure
  Frees-pure a = record { same = λ s. refl }

  pub Frees-fail : (e : Error) → Frees {W = W} {A = A} (fail e)
  unfolding fail
  Frees-fail e = record { same = λ s. refl }

  pub Frees-lift : (r : Result A) → Frees {W = W} (lift r)
  unfolding lift
  Frees-lift r = record { same = λ s. refl }

  pub Frees-call : (f : Call W A) → Frees (call f)
  unfolding call
  Frees-call f = record { same = λ s. refl }

  pub Frees-ask : (f : W → A × W) → Frees (ask f)
  unfolding ask
  Frees-ask f = record { same = λ s. refl }

  pub Frees-attempt : (m : Action W A) → Frees m → Frees (attempt m)
  unfolding attempt
  Frees-attempt m h = record { same = λ s. h.same s }

  pub Frees-or_status :
      (code : Code) (text : String) (m : Action W A) → Frees m → Frees (or_status code text m)
  unfolding or_status
  Frees-or_status code text m h = record { same = λ s. h.same s }

  pub Frees-or_code : (code : Code) (m : Action W A) → Frees m → Frees (or_code code m)
  unfolding or_code
  Frees-or_code code m h = record { same = λ s. h.same s }

  pub Frees-or_plain : (text : String) (m : Action W A) → Frees m → Frees (or_plain text m)
  unfolding or_plain
  Frees-or_plain text m h = record { same = λ s. h.same s }

  pub Frees-deferred :
      (cleanup : Action W (Unit {0})) (body : Action W A)
      → Frees cleanup
      → Frees body
      → Frees (deferred cleanup body)
  unfolding deferred
  Frees-deferred cleanup body hc hb = record { same = λ s. hc.same (body s).1 ∙ hb.same s }

  pub Frees-locked :
      (key : Str) (text : String) (body : Action W A) → Frees body → Frees (locked key text body)
  unfolding locked
  Frees-locked key text body h = record {
    same = λ s. elim (Bool-cases (try_acquire key s.locks).0) [
      | inl e ↦
          let inside : State W = record { locks = (try_acquire key s.locks).1; world = s.world } in
          rw (e, locked) (ap (release key) (h.same inside) ∙ release-try_acquire key s.locks e)
      | inr e ↦ rw (e, locked) (try_acquire_refused key s.locks e)
    ];
  }

  pub Frees-if : (b : Bool) (m n : Action W A) → Frees m → Frees n → Frees (if b then m else n)
  Frees-if true m n hm hn = hm
  Frees-if false m n hm hn = hn

module _ {W A B : Type 0} where
  Frees-continue :
      (r : Result A) (f : A → Action W B) (t : State W)
      → ((a : A) → Frees (f a))
      → (continue r f t).1.locks ≡ t.locks
  unfolding continue
  Frees-continue (ok a) f t h = (h a).same t
  Frees-continue (err e) f t h = refl

  pub Frees-bind :
      (m : Action W A) (f : A → Action W B) → Frees m → ((a : A) → Frees (f a)) → Frees (m >>= f)
  unfolding ◌>>=◌
  Frees-bind m f hm hf = record { same = λ s. Frees-continue (m s).0 f (m s).1 hf ∙ hm.same s }

pub ruleset frees_rules = (
  Frees-pure, Frees-fail, Frees-lift, Frees-call, Frees-ask, Frees-attempt, Frees-or_status,
  Frees-or_code, Frees-or_plain, Frees-deferred, Frees-locked, Frees-if, Frees-bind,
)
