-- ===== src/Action/Runs.antt =====
-- What a handler returns and leaves, one rule for each way to build it.
use csi_driver_smb_hardend.Base.{◌≡◌, refl, ap, String}
use csi_driver_smb_hardend.Errors.{Code, Result, ok, err, with_status, with_code}
use csi_driver_smb_hardend.Action.{
  State, Call, Action, call, attempt, or_status, or_code, continue, ◌>>=◌,
}

module _ {W A : Type 0} where
  pub call_at :
      (f : Call W A) (r : Result A) (s : State W) (w : W)
      → f s.world ≡ (r, w)
      → call f s ≡ (r, record s { world = w })
  unfolding call
  call_at f r s w e = ap (λ p. (p.0, record s { world = p.1 })) e

  pub attempt_at :
      (m : Action W A) (r : Result A) (s t : State W) → m s ≡ (r, t) → attempt m s ≡ (ok r, t)
  unfolding attempt
  attempt_at m r s t e = ap (λ p. (ok p.0, p.1)) e

  pub or_status_at :
      (code : Code) (text : String) (m : Action W A) (r : Result A) (s t : State W)
      → m s ≡ (r, t)
      → or_status code text m s ≡ (with_status code text r, t)
  unfolding or_status
  or_status_at code text m r s t e = ap (λ p. (with_status code text p.0, p.1)) e

  pub or_code_at :
      (code : Code) (m : Action W A) (r : Result A) (s t : State W)
      → m s ≡ (r, t)
      → or_code code m s ≡ (with_code code r, t)
  unfolding or_code
  or_code_at code m r s t e = ap (λ p. (with_code code p.0, p.1)) e

module _ {W A B : Type 0} where
  pub >>=-at :
      (m : Action W A) (f : A → Action W B) (a : A) (s t : State W)
      → m s ≡ (ok a, t)
      → (m >>= f) s ≡ f a t
  unfolding ◌>>=◌ continue
  >>=-at m f a s t e = ap (λ p. continue p.0 f p.1) e

-- The steps of a block that succeeds.
module _ {W A B : Type 0} where
  pub >>=-ok :
      (m : Action W A) (f : A → Action W B) (b : B) (s : State W)
      → ((m >>= f) s).0 ≡ ok b
      → (a : A) × ((m s).0 ≡ ok a) × ((f a (m s).1).0 ≡ ok b) × ((m >>= f) s ≡ f a (m s).1)
  unfolding ◌>>=◌
  >>=-ok m f b s h = continued (m s).0 f (m s).1 h
    where
      continued :
          (r : Result A) (f : A → Action W B) (t : State W)
          → (continue r f t).0 ≡ ok b
          → (a : A) × (r ≡ ok a) × ((f a t).0 ≡ ok b) × (continue r f t ≡ f a t)
      continued (ok a) f t h = (a, refl, h, refl)
      continued (err e) f t h = cc
