-- ===== src/Action/Keeps.antt =====
-- Invariants of the world outside, one rule for each way to build a handler. With a rule for each
-- call that is allowed, an invariant says which calls a handler makes.
use csi_driver_smb_hardend.Base.{
  Bool, true, false, Str, String, Bool-cases, inl, inr, ◌≡◌, refl, ◌⊎◌, if◌then◌else◌,
}
use csi_driver_smb_hardend.Errors.{Code, Error, Result, ok, err, with_code}
use csi_driver_smb_hardend.Locks.{try_acquire}
use csi_driver_smb_hardend.Action.{
  State, Call, Action, pure, fail, lift, call, ask, attempt, or_status, or_code, or_plain, deferred,
  locked, continue, ◌>>=◌,
}

-- To split on a result and keep the equation.
pub Result-cases {ℓ} :
    {A : Type ℓ} (r : Result A) → ((a : A) × (r ≡ ok a)) ⊎ ((e : Error) × (r ≡ err e))
Result-cases (ok a) = inl (a, refl)
Result-cases (err e) = inr (e, refl)

-- The call keeps `P`, whether it fails or not.
pub record Safe {W A : Type 0} (P : W → Type 0) (f : W → A × W) : Type 0 where
  pub kept : (w : W) → P w → P (f w).1

-- Whether it returns a value or an error, the handler keeps `P` of the world.
pub record Keeps {W A : Type 0} (P : W → Type 0) (m : Action W A) : Type 0 where
  pub at : (s : State W) → P s.world → P (m s).1.world

module _ {W A : Type 0} {P : W → Type 0} where
  pub Keeps-pure : (a : A) → Keeps P (pure a)
  unfolding pure
  Keeps-pure a = record { at = λ s h. h }

  pub Keeps-fail : (e : Error) → Keeps {A = A} P (fail e)
  unfolding fail
  Keeps-fail e = record { at = λ s h. h }

  pub Keeps-lift : (r : Result A) → Keeps P (lift r)
  unfolding lift
  Keeps-lift r = record { at = λ s h. h }

  pub Keeps-call : (f : Call W A) → Safe P f → Keeps P (call f)
  unfolding call
  Keeps-call f safe = record { at = λ s h. safe.kept s.world h }

  pub Keeps-ask : (f : W → A × W) → Safe P f → Keeps P (ask f)
  unfolding ask
  Keeps-ask f safe = record { at = λ s h. safe.kept s.world h }

  pub Keeps-attempt : (m : Action W A) → Keeps P m → Keeps P (attempt m)
  unfolding attempt
  Keeps-attempt m k = record { at = λ s h. k.at s h }

  pub Keeps-or_status :
      (code : Code) (text : String) (m : Action W A) → Keeps P m → Keeps P (or_status code text m)
  unfolding or_status
  Keeps-or_status code text m k = record { at = λ s h. k.at s h }

  pub Keeps-or_code : (code : Code) (m : Action W A) → Keeps P m → Keeps P (or_code code m)
  unfolding or_code
  Keeps-or_code code m k = record { at = λ s h. k.at s h }

  pub Keeps-or_plain : (text : String) (m : Action W A) → Keeps P m → Keeps P (or_plain text m)
  unfolding or_plain
  Keeps-or_plain text m k = record { at = λ s h. k.at s h }

  pub Keeps-deferred :
      (cleanup : Action W (Unit {0})) (body : Action W A)
      → Keeps P cleanup
      → Keeps P body
      → Keeps P (deferred cleanup body)
  unfolding deferred
  Keeps-deferred cleanup body kc kb = record { at = λ s h. kc.at (body s).1 (kb.at s h) }

  pub Keeps-locked :
      (key : Str) (text : String) (body : Action W A)
      → Keeps P body
      → Keeps P (locked key text body)
  unfolding locked
  Keeps-locked key text body k = record {
    at = λ s h. elim (Bool-cases (try_acquire key s.locks).0) [
      | inl e ↦
          rw (e, locked) (k.at (record { locks = (try_acquire key s.locks).1; world = s.world }) h)
      | inr e ↦ rw (e, locked) h
    ];
  }

  -- The condition is known in each branch.
  pub Keeps-if :
      (here there : Action W A) (b : Bool)
      → (b ≡ false → Keeps P there)
      → (b ≡ true → Keeps P here)
      → Keeps P (if b then here else there)
  Keeps-if here there false k_there k_here = k_there refl
  Keeps-if here there true k_there k_here = k_here refl

module _ {W A B : Type 0} {P : W → Type 0} where
  Keeps-continue :
      (r : Result A) (f : A → Action W B) (t : State W)
      → ((a : A) → Keeps P (f a))
      → P t.world
      → P (continue r f t).1.world
  unfolding continue
  Keeps-continue (ok a) f t k h = (k a).at t h
  Keeps-continue (err e) f t k h = h

  pub Keeps-bind :
      (m : Action W A) (f : A → Action W B)
      → Keeps P m
      → ((a : A) → Keeps P (f a))
      → Keeps P (m >>= f)
  unfolding ◌>>=◌
  Keeps-bind m f first rest = record {
    at = λ s h. Keeps-continue (m s).0 f (m s).1 rest (first.at s h);
  }

  -- The rest of a block may rely on what the first step returned, and on the state it left.
  pub Keeps-bind_value :
      (m : Action W A) (f : A → Action W B)
      → Keeps P m
      → ((a : A) (s : State W) → (m s).0 ≡ ok a → P (m s).1.world → P (f a (m s).1).1.world)
      → Keeps P (m >>= f)
  unfolding ◌>>=◌ continue
  Keeps-bind_value m f first rest = record {
    at = λ s h. elim (Result-cases (m s).0) [
      | inl (a, e) ↦ rw (e, continue) (rest a s e (first.at s h))
      | inr (c, e) ↦ rw (e, continue) (first.at s h)
    ];
  }

  -- The rest of a block behind a result that is known.
  pub Keeps-bind-lift : (a : A) (f : A → Action W B) → Keeps P (f a) → Keeps P (lift (ok a) >>= f)
  unfolding ◌>>=◌ lift
  Keeps-bind-lift a f k = record { at = λ s h. k.at s h }

  pub Keeps-bind-lift_err : (e : Error) (f : A → Action W B) → Keeps P (lift (err e) >>= f)
  unfolding ◌>>=◌ lift
  Keeps-bind-lift_err e f = record { at = λ s h. h }

  pub Keeps-bind-or_code :
      (code : Code) (a : A) (f : A → Action W B)
      → Keeps P (f a)
      → Keeps P (or_code code (lift (ok a)) >>= f)
  unfolding ◌>>=◌ or_code lift with_code
  Keeps-bind-or_code code a f k = record { at = λ s h. k.at s h }

pub ruleset keeps_rules = (
  Keeps-pure, Keeps-fail, Keeps-lift, Keeps-call, Keeps-ask, Keeps-attempt, Keeps-or_status,
  Keeps-or_code, Keeps-or_plain, Keeps-deferred, Keeps-locked, Keeps-if, Keeps-bind,
)
