-- ===== src/Locks/Steps.antt =====
-- Operations that run at once, as an interleaving of their calls of `TryAcquire` and `Release`.
use csi_driver_smb_hardend.Base.{
  ◌≡◌, refl, true, false, List, [], ◌∷◌, ◌∙◌, arith, Str, str_eq, str_eq_iff, contains,
  if◌then◌else◌, Bool-cases, inl, inr,
}
use csi_driver_smb_hardend.Locks.{VolumeLocks, new_volume_locks, try_acquire, release}
use csi_driver_smb_hardend.Locks.Laws.{is_held, try_acquire_lem, is_held-release}

-- The lock set, and the ids of the operations that are between `TryAcquire` and `Release`.
pub record System : Type 0 where
  pub vl : VolumeLocks
  pub running : List Str

-- The list without the first occurrence: one operation has ended.
unfoldable pub ended : Str → List Str → List Str
ended id [] = []
ended id (j ∷ ids) = let rest = ended id ids in if str_eq j id then ids else j ∷ rest

-- An operation gets the lock and runs, is turned away, or ends.
pub data Step (s : System) : System → Type 0 where
  start :
      (id : Str)
      → (try_acquire id s.vl).0 ≡ true
      → Step s (record { vl = (try_acquire id s.vl).1; running = id ∷ s.running })
  refuse :
      (id : Str)
      → (try_acquire id s.vl).0 ≡ false
      → Step s (record { vl = (try_acquire id s.vl).1; running = s.running })
  finish :
      (id : Str)
      → contains id s.running ≡ true
      → Step s (record { vl = release id s.vl; running = ended id s.running })

pub data Reach (s : System) : System → Type 0 where
  here : Reach s s
  next : {t u : System} → Reach s t → Step t u → Reach s u

abbrev pub initial : System
initial = record { vl = new_volume_locks; running = [] }

-- No id runs twice.
abbrev pub NoRepeat : List Str → Type 0
NoRepeat [] = Unit
NoRepeat (id ∷ ids) = (contains id ids ≡ false) × NoRepeat ids

-- The locks held are the ids that run, and no id runs twice.
abbrev pub IsExclusive : System → Type 0
IsExclusive s = ((j : Str) → is_held j s.vl ≡ contains j s.running) × NoRepeat s.running

contains-ended :
    (id j : Str) (ids : List Str)
    → NoRepeat ids
    → contains j (ended id ids) ≡ (if str_eq id j then false else contains j ids)
unfolding ended contains
contains-ended id j [] h = ground arith
contains-ended id j (i ∷ ids) h =
    ground (arith, contains-ended id j ids h.1, str_eq_iff id j, str_eq_iff i id, str_eq_iff i j)

ended-NoRepeat : (id : Str) (ids : List Str) → NoRepeat ids → NoRepeat (ended id ids)
unfolding ended
ended-NoRepeat id [] h = tt
ended-NoRepeat id (i ∷ ids) h = elim (Bool-cases (str_eq i id)) [
  | inl e ↦ rw e h.1
  | inr e ↦ rw e (rw (contains-ended id i ids h.1) (ground (arith, h.0)), ended-NoRepeat id ids h.1)
]

pub Step-IsExclusive : {s t : System} → Step s t → IsExclusive s → IsExclusive t
Step-IsExclusive {s} (start id got) h =
    let free : contains id s.running ≡ false = ground (arith, h.0 id, try_acquire_lem id id s.vl) in
    (λ j. (try_acquire_lem id j s.vl).1 ∙ unfold contains in ground (arith, h.0 j), (free, h.1))
Step-IsExclusive {s} (refuse id busy) h = (
  λ j.
      (try_acquire_lem id j s.vl).1
      ∙ ground (arith, h.0 j, str_eq_iff id j, try_acquire_lem id id s.vl),
  h.1,
)
Step-IsExclusive {s} (finish id runs) h = (
  λ j. is_held-release id j s.vl ∙ rw (h.0 j, contains-ended id j s.running h.1),
  ended-NoRepeat id s.running h.1,
)

-- In every state that interleaved calls of TryAcquire and Release reach from the empty set, the
-- ids held are exactly the ids of the operations that run, and no two operations run on one id.
pub Reach-IsExclusive : {s : System} → Reach initial s → IsExclusive s
Reach-IsExclusive here = (λ j. refl, tt)
Reach-IsExclusive (next r st) = Step-IsExclusive st (Reach-IsExclusive r)
