-- ===== src/Mounter/Mutexes.antt =====
-- lock of pkg/mounter/refcounter_windows.go: a mutex for each mapping path, kept in a sync.Map.
pub mod Exclusive
use csi_driver_smb_hardend.Base.{
  ℕ, suc, Bool, true, false, Str, str_eq, Option, none, some, ◌==◌, if◌then◌else◌,
}

-- `mutexes`, the number of mutexes that were allocated, and which of them are locked. A pointer to a
-- mutex is the number of its allocation.
pub record Mutexes : Type 0 where
  pub entries : Str → Option ℕ
  pub allocated : ℕ
  pub is_locked : ℕ → Bool

abbrev pub no_mutexes : Mutexes
no_mutexes = record { entries = λ key. none; allocated = 0; is_locked = λ p. false }

-- `mutexes.LoadOrStore(key, &sync.Mutex{})`, by what the map has at the key: the mutex is allocated in
-- any case, and stored where the key has none.
unfoldable pub loaded_or_stored : Str → Mutexes → Option ℕ → ℕ × Mutexes
loaded_or_stored key m (some p) =
    (p, record { entries = m.entries; allocated = suc m.allocated; is_locked = m.is_locked })
loaded_or_stored key m none = (
  m.allocated,
  record {
    entries = λ k. if str_eq k key then some m.allocated else m.entries k;
    allocated = suc m.allocated;
    is_locked = m.is_locked;
  },
)

unfoldable pub load_or_store : Str → Mutexes → ℕ × Mutexes
unfolding loaded_or_stored
load_or_store key m = loaded_or_stored key m (m.entries key)

abbrev pub set_locked : ℕ → Bool → Mutexes → Mutexes
set_locked p b m = record {
  entries = m.entries;
  allocated = m.allocated;
  is_locked = λ q. if q == p then b else m.is_locked q;
}

-- `mtx.Lock()`, with no result while the mutex is locked.
unfoldable pub lock_mutex : ℕ → Mutexes → Option Mutexes
lock_mutex p m = if m.is_locked p then none else some (set_locked p true m)

-- `mtx.Unlock()`
abbrev pub unlock_mutex : ℕ → Mutexes → Mutexes
unlock_mutex p m = set_locked p false m
