-- ===== src/Tests/Concurrent.antt =====
-- The theorems about goroutines at concrete inputs.
use csi_driver_smb_hardend.Base.{
  ◌≡◌, ◌≢◌, refl, ◌↔◌, ◌⊎◌, ℕ, ◌≤◌, true, false, [], ◌∷◌, Str, codes, length, str_eq, none, some,
}
use csi_driver_smb_hardend.Mounter.Mutexes.{Mutexes, load_or_store, lock_mutex, set_locked}
use csi_driver_smb_hardend.Mounter.Mutexes.Exclusive.{
  waiting, running, enter, Reach-exclusive, Reach-lock,
}
use csi_driver_smb_hardend.Mounter.Mutexes.Exclusive as Goroutines
use csi_driver_smb_hardend.SmbShare.Semaphore.{take_place, give_back, Reach-take_place}
use csi_driver_smb_hardend.SmbShare.Semaphore as Commands
use csi_driver_smb_hardend.CsiCommon.Lifetime.{wait, set_up, started, Reach-wait}
use csi_driver_smb_hardend.CsiCommon.Lifetime as Lifetime

abbrev share_a : Str
share_a = codes "\\\\host\\a"

abbrev share_b : Str
share_b = codes "\\\\host\\b"

-- Goroutine 0 runs on one share, goroutine 1 on another, and goroutine 2 waits for the first share.
abbrev two_run : Goroutines.System
unfolding load_or_store lock_mutex enter
two_run =
    let first = (load_or_store share_a Goroutines.initial.mutexes).1 in
    let second = (load_or_store share_b (set_locked 0 true first)).1 in
    let third = (load_or_store share_a (set_locked 1 true second)).1 in
    record {
      mutexes = third;
      phase = enter 2 (waiting share_a 0) (
          enter 1 (running share_b 1) (
            enter 1 (waiting share_b 1) (
              enter 0 (running share_a 0) (enter 0 (waiting share_a 0) Goroutines.initial.phase))));
    }

two_run-Reach : Goroutines.Reach Goroutines.initial two_run
unfolding two_run load_or_store lock_mutex enter str_eq
two_run-Reach =
    Goroutines.next
      (Goroutines.next
        (Goroutines.next
          (Goroutines.next (Goroutines.next Goroutines.here (Goroutines.look_up 0 share_a refl))
            (Goroutines.acquire 0 share_a 0 _ refl refl))
          (Goroutines.look_up 1 share_b refl))
        (Goroutines.acquire 1 share_b 1 _ refl refl))
      (Goroutines.look_up 2 share_a refl)

Reach-exclusive_example : (◌≡◌ {A = ℕ} 0 1) ⊎ ((share_a ≢ share_b) × (◌≢◌ {A = ℕ} 0 1))
unfolding two_run enter
Reach-exclusive_example = Reach-exclusive two_run-Reach 0 1 share_a share_b 0 1 refl refl

Reach-lock_example :
    ((m : Mutexes) × (lock_mutex 0 two_run.mutexes ≡ some m))
    ⊎ ((j : ℕ) × (two_run.phase j ≡ running share_a 0) × (2 ≢ j))
unfolding two_run enter
Reach-lock_example = Reach-lock two_run-Reach 2 share_a 0 refl

-- A command runs.
abbrev one_command : Commands.System
one_command = record { sem = 1; running = codes "Test-Path" ∷ [] }

one_command-Reach : Commands.Reach Commands.initial one_command
unfolding take_place
one_command-Reach = Commands.next Commands.here (Commands.start (codes "Test-Path") 1 refl)

Reach-take_place_example :
    (length one_command.running ≤ 3)
    × ((take_place 1 ≡ none) ↔ (length one_command.running ≡ 3))
    × ((give_back 1 ≡ none) ↔ (one_command.running ≡ []))
Reach-take_place_example = Reach-take_place one_command-Reach

-- The server of the driver, which has been set up.
abbrev listening : Lifetime.GrpcServer
listening = record { wg = 1; server = true; test_mode = false; place = Lifetime.serving }

listening-Reach : Lifetime.Reach (started false) listening
unfolding set_up Lifetime.start Lifetime.with_count Lifetime.new_non_blocking_grpc_server
listening-Reach = Lifetime.next Lifetime.here (Lifetime.sets_up listening refl refl)

Reach-wait_example :
    ((wait listening ≡ true) ↔ ((false ≡ true) × (true ≡ true)))
    × ((set_up listening ≢ none) ⊎ (listening.place ≢ Lifetime.binding))
Reach-wait_example = Reach-wait listening-Reach
