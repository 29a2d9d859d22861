-- ===== src/Action.antt =====
-- A handler of the driver: it changes the lock set and the world outside, and what it changed before
-- an error stays changed. `W` is the world, of which the driver sees only what its calls return.
pub mod Frees
pub mod Keeps
pub mod Runs
use csi_driver_smb_hardend.Base.{Bool, true, false, Str, String, Option, none, some}
use csi_driver_smb_hardend.Errors.{
  Code, aborted, Error, status, Result, ok, err, with_code, with_status, with_plain,
}
use csi_driver_smb_hardend.Locks.{VolumeLocks, try_acquire, release}

pub record State (W : Type 0) : Type 0 where
  pub locks : VolumeLocks
  pub world : W

-- A call that leaves the lock set alone.
abbrev pub Call : Type 0 → Type 0 → Type 0
Call W A = W → Result A × W

abbrev pub Action : Type 0 → Type 0 → Type 0
Action W A = State W → Result A × State W

module _ {W A : Type 0} where
  unfoldable pub pure : A → Action W A
  pure a s = (ok a, s)

  unfoldable pub fail : Error → Action W A
  fail e s = (err e, s)

  unfoldable pub lift : Result A → Action W A
  lift r s = (r, s)

  unfoldable pub call : Call W A → Action W A
  call f s = let (r, w) = f s.world in (r, record { locks = s.locks; world = w })

  -- A call that returns a value and no error.
  unfoldable pub ask : (W → A × W) → Action W A
  ask f s = let (a, w) = f s.world in (ok a, record { locks = s.locks; world = w })

  -- The error is handed to what follows.
  unfoldable pub attempt : Action W A → Action W (Result A)
  attempt m s = let (r, t) = m s in (ok r, t)

  -- `if err != nil { return nil, status.Errorf(code, text, err) }`
  unfoldable pub or_status : Code → String → Action W A → Action W A
  or_status code text m s = let (r, t) = m s in (with_status code text r, t)

  -- `if err != nil { return nil, status.Error(code, err.Error()) }`
  unfoldable pub or_code : Code → Action W A → Action W A
  or_code code m s = let (r, t) = m s in (with_code code r, t)

  -- `if err != nil { return nil, fmt.Errorf(text, err) }`
  unfoldable pub or_plain : String → Action W A → Action W A
  or_plain text m s = let (r, t) = m s in (with_plain text r, t)

  -- `defer cleanup()`: the cleanup runs whatever the body returns, and its error is only logged.
  unfoldable pub deferred : Action W (Unit {0}) → Action W A → Action W A
  deferred cleanup body s = let (r, t) = body s in (r, (cleanup t).1)

  unfoldable pub release_after : Str → Result A × State W → Result A × State W
  release_after key (r, t) = (r, record { locks = release key t.locks; world = t.world })

  -- `if !TryAcquire(key) { return Aborted }; defer Release(key)` in front of the body.
  unfoldable pub locked : Str → String → Action W A → Action W A
  unfolding release_after
  locked key text body s =
      let (acquired, vl) = try_acquire key s.locks in
      elim acquired [
        | true ↦ release_after key (body (record { locks = vl; world = s.world }))
        | false ↦ (err (status aborted text), record { locks = vl; world = s.world })
      ]

module _ {W A B : Type 0} where
  unfoldable pub continue : Result A → (A → Action W B) → Action W B
  continue (ok a) f s = f a s
  continue (err e) f s = (err e, s)

  infixl 10 ◌>>=◌ ◌>>◌
  unfoldable pub ◌>>=◌ : Action W A → (A → Action W B) → Action W B
  unfolding continue
  ◌>>=◌ m f s = let (r, t) = m s in continue r f t

  abbrev pub ◌>>◌ : Action W A → Action W B → Action W B
  m >> n = m >>= λ _. n
