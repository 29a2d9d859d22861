-- ===== src/SmbShare/Semaphore.antt =====
-- powershellCmdSem of pkg/util/util.go: the channel that RunPowershellCmd sends to before a command
-- and receives from after it.
use csi_driver_smb_hardend.Base.{
  ◌≡◌, refl, ap, ◌↔◌, ℕ, zero, suc, ◌≤◌, ◌<◌, List, [], ◌∷◌, Str, length, Option, none, some, ltb,
  if◌then◌else◌, arith,
}

-- `make(chan struct{}, 3)`
abbrev pub powershell_cmd_limit : ℕ
powershell_cmd_limit = 3

-- `powershellCmdSem <- struct{}{}`, by the number of elements in the channel: with no result while
-- the channel is full.
unfoldable pub take_place : ℕ → Option ℕ
take_place n = if ltb n powershell_cmd_limit then some (suc n) else none

-- `<-powershellCmdSem`, with no result while the channel is empty.
unfoldable pub give_back : ℕ → Option ℕ
give_back zero = none
give_back (suc n) = some n

-- The number of elements in the channel, and the commands that run.
pub record System : Type 0 where
  pub sem : ℕ
  pub running : List Str

-- The list without the command at a place.
unfoldable pub ended_at : ℕ → List Str → List Str
ended_at i [] = []
ended_at zero (command ∷ commands) = commands
ended_at (suc i) (command ∷ commands) = command ∷ ended_at i commands

-- A command starts behind the semaphore, or ends and gives its place back.
pub data Step (s : System) : System → Type 0 where
  start :
      (command : Str) (n : ℕ)
      → take_place s.sem ≡ some n
      → Step s (record { sem = n; running = command ∷ s.running })
  finish :
      (i n : ℕ)
      → i < length s.running
      → give_back s.sem ≡ some n
      → Step s (record { sem = n; running = ended_at i s.running })

pub data Reach (s : System) : System → Type 0 where
  here : Reach s s
  next : {t u : System} → Reach s t → Step t u → Reach s u

abbrev pub initial : System
initial = record { sem = 0; running = [] }

length-ended_at :
    (i : ℕ) (commands : List Str)
    → i < length commands
    → suc (length (ended_at i commands)) ≡ length commands
unfolding ended_at
length-ended_at i [] h = absurd (omega arith)
length-ended_at zero (command ∷ commands) h = refl
length-ended_at (suc i) (command ∷ commands) h = ap suc (length-ended_at i commands (omega arith))

abbrev IsBounded : System → Type 0
IsBounded s = (s.sem ≡ length s.running) × (s.sem ≤ 3)

give_back-some : (m n : ℕ) → give_back m ≡ some n → m ≡ suc n
unfolding give_back
give_back-some zero n h = absurd (grind arith)
give_back-some (suc m) n h = grind arith

Step-IsBounded : {s t : System} → Step s t → IsBounded s → IsBounded t
unfolding take_place give_back
Step-IsBounded {s} (start command n got) h = ground (arith, got, h.0, h.1)
Step-IsBounded {s} (finish i n inside got) h = (
  omega (arith, h.0, h.1, give_back-some s.sem n got, length-ended_at i s.running inside),
  omega (arith, h.1, give_back-some s.sem n got),
)

Reach-IsBounded : {s : System} → Reach initial s → IsBounded s
Reach-IsBounded here = (refl, omega arith)
Reach-IsBounded (next r st) = Step-IsBounded st (Reach-IsBounded r)

give_back-none :
    (n : ℕ) (commands : List Str) → n ≡ length commands → (give_back n ≡ none) ↔ (commands ≡ [])
unfolding give_back
give_back-none zero [] h = (λ e. refl, λ e. refl)
give_back-none (suc n) [] h = absurd (omega (arith, h))
give_back-none zero (command ∷ commands) h = absurd (omega (arith, h))
give_back-none (suc n) (command ∷ commands) h = (λ e. absurd (grind arith), λ e. absurd (cc e))

-- In every interleaving of calls of RunPowershellCmd, at most three commands run, a command has to
-- wait only while three run, and a command that runs can give its place back.
pub Reach-take_place :
    {s : System}
    → Reach initial s
    → (length s.running ≤ 3)
      × ((take_place s.sem ≡ none) ↔ (length s.running ≡ 3))
      × ((give_back s.sem ≡ none) ↔ (s.running ≡ []))
unfolding take_place
Reach-take_place {s} r =
    let (same, below) = Reach-IsBounded r in
    (omega (arith, same, below), ground (arith, same, below), give_back-none s.sem s.running same)
