-- ===== src/Locks/Progress.antt =====
-- The end of operations: no id stays locked.
use csi_driver_smb_hardend.Base.{
  ◌≡◌, refl, subst, true, false, List, [], ◌∷◌, ◌⊎◌, inl, inr, arith, Str, str_eq_refl, contains,
  Bool-cases,
}
use csi_driver_smb_hardend.Locks.{VolumeLocks, try_acquire, release}
use csi_driver_smb_hardend.Locks.Laws.{is_held, try_acquire_lem, is_held-release}
use csi_driver_smb_hardend.Locks.Steps.{
  System, ended, Step, finish, Reach, here, next, initial, IsExclusive, Step-IsExclusive,
  Reach-IsExclusive,
}

Reach-first : {s t u : System} → Step s t → Reach t u → Reach s u
Reach-first st here = next here st
Reach-first st (next r last) = next (Reach-first st r) last

ended-cons : (id : Str) (ids : List Str) → ended id (id ∷ ids) ≡ ids
unfolding ended
ended-cons id ids = rw str_eq_refl

-- The operations that run can all end, one after the other, and then no id is held.
drained :
    (ids : List Str) (vl : VolumeLocks)
    → IsExclusive (record { vl = vl; running = ids })
    → (t : System) × Reach (record { vl = vl; running = ids }) t
      × (t.running ≡ [])
      × ((j : Str) → is_held j t.vl ≡ false)
unfolding contains
drained [] vl h = (record { vl = vl; running = [] }, here, refl, h.0)
drained (id ∷ ids) vl h =
    let runs : contains id (id ∷ ids) ≡ true = unfold contains in rw str_eq_refl in
    let step : Step (record { vl = vl; running = id ∷ ids })
        (record { vl = release id vl; running = ids }) =
      subst
        (λ rest.
          Step (record { vl = vl; running = id ∷ ids })
            (record { vl = release id vl; running = rest }))
        (ended-cons id ids) (finish id runs) in
    let (t, reach, ends, free) = drained ids (release id vl) (Step-IsExclusive step h) in
    (t, Reach-first step reach, ends, free)

-- In every state that interleaved calls of TryAcquire and Release reach from the empty set,
-- TryAcquire of an id succeeds, or an operation on the id runs, and TryAcquire succeeds right after
-- the end of that operation. The operations that run can all end, and then no id is held.
pub Reach-try_acquire :
    {s : System}
    → Reach initial s
    → (id : Str)
    → (((try_acquire id s.vl).0 ≡ true)
        ⊎ ((contains id s.running ≡ true) × ((try_acquire id (release id s.vl)).0 ≡ true)))
      × ((t : System) × Reach s t × (t.running ≡ []) × ((j : Str) → is_held j t.vl ≡ false))
Reach-try_acquire {s} r id =
    let exclusive : IsExclusive s = Reach-IsExclusive r in
    (
      elim (Bool-cases (is_held id s.vl)) [
        | inl e ↦ inr (
          ground (arith, exclusive.0 id),
          ground (
            arith,
            try_acquire_lem id id (release id s.vl),
            is_held-release id id s.vl,
            str_eq_refl id,
          ),
        )
        | inr e ↦ inl (ground (arith, try_acquire_lem id id s.vl))
      ],
      drained s.running s.vl exclusive,
    )
