-- ===== src/Locks.antt =====
-- pkg/smb/volume_lock.go: the set of volume ids with an operation under way.
pub mod Laws
pub mod Progress
pub mod Steps
use csi_driver_smb_hardend.Base.{
  Bool, true, false, List, [], ◌∷◌, Str, contains, without, if◌then◌else◌,
}

-- `volumeLocks`: the members of `locks`. The mutex makes each method one step.
pub record VolumeLocks : Type 0 where
  pub locks : List Str

-- `newVolumeLocks`
abbrev pub new_volume_locks : VolumeLocks
new_volume_locks = record { locks = [] }

-- `TryAcquire`
unfoldable pub try_acquire : Str → VolumeLocks → Bool × VolumeLocks
unfolding contains
try_acquire id vl =
    if contains id vl.locks then (false, vl) else (true, record { locks = id ∷ vl.locks })

-- `Release`
unfoldable pub release : Str → VolumeLocks → VolumeLocks
unfolding without
release id vl = record { locks = without id vl.locks }
