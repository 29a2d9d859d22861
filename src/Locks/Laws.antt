-- ===== src/Locks/Laws.antt =====
-- What `TryAcquire` and `Release` do to the set.
use csi_driver_smb_hardend.Base.{
  ◌≡◌, Bool, true, false, not, arith, Str, str_eq, str_eq_iff, str_eq_refl, contains,
  contains-without, without-eq_of_absent, if◌then◌else◌, Bool-cases, inl, inr, ap,
}
use csi_driver_smb_hardend.Locks.{VolumeLocks, try_acquire, release}

abbrev pub is_held : Str → VolumeLocks → Bool
is_held id vl = contains id vl.locks

-- TryAcquire succeeds exactly when the id is not held; afterwards the id is held in either case,
-- and whether another id is held has not changed.
pub try_acquire_lem :
    (id j : Str) (vl : VolumeLocks)
    → ((try_acquire id vl).0 ≡ not (is_held id vl))
      × (is_held j (try_acquire id vl).1 ≡ (if str_eq id j then true else is_held j vl))
unfolding try_acquire contains
try_acquire_lem id j vl = ground (arith, str_eq_iff id j)

-- Releasing frees the id and no other.
pub is_held-release :
    (id j : Str) (vl : VolumeLocks)
    → is_held j (release id vl) ≡ (if str_eq id j then false else is_held j vl)
unfolding release
is_held-release id j vl = contains-without id j vl.locks

-- Where TryAcquire succeeds, a Release of the same id restores the lock set.
pub release-try_acquire :
    (id : Str) (vl : VolumeLocks)
    → (try_acquire id vl).0 ≡ true
    → release id (try_acquire id vl).1 ≡ vl
unfolding try_acquire release
release-try_acquire id vl h = elim (Bool-cases (contains id vl.locks)) [
  | inl e ↦ cc (rw e at h)
  | inr e ↦
      rw e (ap (λ ls. record { locks = ls }) rw str_eq_refl (without-eq_of_absent id vl.locks e))
]

-- A refused call changes nothing.
pub try_acquire_refused :
    (id : Str) (vl : VolumeLocks) → (try_acquire id vl).0 ≡ false → (try_acquire id vl).1 ≡ vl
unfolding try_acquire
try_acquire_refused id vl h = elim (Bool-cases (contains id vl.locks)) [
  | inl e ↦ rw e
  | inr e ↦ cc (rw e at h)
]
