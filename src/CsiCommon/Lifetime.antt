-- ===== src/CsiCommon/Lifetime.antt =====
-- pkg/csi-common/server.go: the goroutines of the server, from Start to the return of Wait.
use csi_driver_smb_hardend.Base.{
  ◌≡◌, ◌≢◌, ◌⊎◌, inl, inr, subst, refl, ◌↔◌, ℕ, zero, suc, Bool, true, false, ◌==◌, Option, none,
  some, if◌then◌else◌, arith,
}

-- Where the goroutine of `serve` is: not begun, before the server is set up, in `Serve`, or past it.
pub data Place : Type 0 where
  not_started binding serving returned : Place

-- `nonBlockingGRPCServer`: the counter of the wait group and whether `server` is set, with the
-- argument `testMode` and the place of the goroutine.
pub record GrpcServer : Type 0 where
  pub wg : ℕ
  pub server : Bool
  pub test_mode : Bool
  pub place : Place

-- `NewNonBlockingGRPCServer`, before `Start` with this mode.
unfoldable pub new_non_blocking_grpc_server : Bool → GrpcServer
new_non_blocking_grpc_server test_mode = record {
  wg = 0;
  server = false;
  test_mode = test_mode;
  place = not_started;
}

-- `Start`
unfoldable pub start : GrpcServer → GrpcServer
start s = record s { wg = suc s.wg; place = binding }

-- `wg.Done()`, which panics at zero.
unfoldable pub done : ℕ → Option ℕ
done zero = none
done (suc n) = some n

-- The server set up, with this counter, `none` for a panic.
unfoldable pub with_count : GrpcServer → Option ℕ → Option GrpcServer
with_count s none = none
with_count s (some n) = some (record s { wg = n; server = true; place = serving })

-- What `serve` does from the call of `NewServer` to that of `Serve`: in the tests the wait group is
-- done.
unfoldable pub set_up : GrpcServer → Option GrpcServer
unfolding done with_count
set_up s = with_count s (if s.test_mode then done s.wg else some s.wg)

-- Whether `Wait` returns.
unfoldable pub wait : GrpcServer → Bool
wait s = s.wg == 0

-- `Serve` returns, by an error, by `Stop`, by `ForceStop`, or by the goroutine that stops the server
-- of the tests: the wait group is left as it is.
unfoldable pub serve_returned : GrpcServer → GrpcServer
serve_returned s = record s { place = returned }

pub data Step (s : GrpcServer) : GrpcServer → Type 0 where
  starts : s.place ≡ not_started → Step s (start s)
  sets_up : (t : GrpcServer) → s.place ≡ binding → set_up s ≡ some t → Step s t
  returns : s.place ≡ serving → Step s (serve_returned s)

pub data Reach (s : GrpcServer) : GrpcServer → Type 0 where
  here : Reach s s
  next : {t u : GrpcServer} → Reach s t → Step t u → Reach s u

-- The server as `Run` starts it.
abbrev pub started : Bool → GrpcServer
started test_mode = start (new_non_blocking_grpc_server test_mode)

-- The counter and whether the server is set, at each place behind `Start`.
abbrev Fits : Bool → GrpcServer → Place → Type 0
Fits mode s not_started = ⊥
Fits mode s binding = (s.wg ≡ 1) × (s.server ≡ false)
Fits mode s serving = (s.wg ≡ (if mode then 0 else 1)) × (s.server ≡ true)
Fits mode s returned = (s.wg ≡ (if mode then 0 else 1)) × (s.server ≡ true)

abbrev IsSound : Bool → GrpcServer → Type 0
IsSound mode s = (s.test_mode ≡ mode) × Fits mode s s.place

-- Where the place is known, the fields are.
at_place : (mode : Bool) (s : GrpcServer) (p : Place) → IsSound mode s → s.place ≡ p → Fits mode s p
at_place mode s p h e = subst (Fits mode s) e h.1

set_up_at :
    (mode : Bool) (s : GrpcServer)
    → s.test_mode ≡ mode
    → s.wg ≡ 1
    → set_up s ≡ some (record s { wg = if mode then 0 else 1; server = true; place = serving })
unfolding set_up
set_up_at true s h e = rw (h, e)
set_up_at false s h e = rw (h, e)

set_up-IsSound :
    (mode : Bool) (s t : GrpcServer)
    → IsSound mode s
    → s.place ≡ binding
    → set_up s ≡ some t
    → IsSound mode t
set_up-IsSound mode s t h e got =
    let fits = at_place mode s binding h e in
    let same : record s { wg = if mode then 0 else 1; server = true; place = serving } ≡ t =
      grind (arith, got, set_up_at mode s h.0 fits.0) in
    subst (IsSound mode) same (h.0, (refl, refl))

Step-IsSound : {mode : Bool} {s t : GrpcServer} → Step s t → IsSound mode s → IsSound mode t
unfolding start serve_returned
Step-IsSound {mode} {s} (starts e) h = absurd (at_place mode s not_started h e)
Step-IsSound {mode} {s} (sets_up t e got) h = set_up-IsSound mode s t h e got
Step-IsSound {mode} {s} (returns e) h = (h.0, at_place mode s serving h e)

Reach-IsSound : {mode : Bool} {s : GrpcServer} → Reach (started mode) s → IsSound mode s
unfolding start new_non_blocking_grpc_server
Reach-IsSound here = (refl, (refl, refl))
Reach-IsSound (next r st) = Step-IsSound st (Reach-IsSound r)

waits_at :
    (mode : Bool) (s : GrpcServer) (p : Place)
    → Fits mode s p
    → (wait s ≡ true) ↔ ((mode ≡ true) × (s.server ≡ true))
unfolding wait
waits_at mode s not_started h = absurd h
waits_at mode s binding h = ground (arith, h.0, h.1)
waits_at true s serving h = ground (arith, h.0, h.1)
waits_at false s serving h = ground (arith, h.0, h.1)
waits_at true s returned h = ground (arith, h.0, h.1)
waits_at false s returned h = ground (arith, h.0, h.1)

-- Setting up the server panics only past its place.
sets_up_at :
    (mode : Bool) (s : GrpcServer) (p : Place)
    → s.test_mode ≡ mode
    → Fits mode s p
    → (set_up s ≢ none) ⊎ (p ≢ binding)
sets_up_at mode s not_started e h = absurd h
sets_up_at mode s binding e h = inl (λ c. grind (arith, c, set_up_at mode s e h.0))
sets_up_at mode s serving e h = inr (λ c. cc c)
sets_up_at mode s returned e h = inr (λ c. cc c)

-- From the start of the server on, Wait returns exactly in the tests once the server is set up:
-- outside the tests it never returns, also after Serve has returned. Setting the server up never
-- takes the wait group below zero.
pub Reach-wait :
    {mode : Bool} {s : GrpcServer}
    → Reach (started mode) s
    → ((wait s ≡ true) ↔ ((mode ≡ true) × (s.server ≡ true)))
      × ((set_up s ≢ none) ⊎ (s.place ≢ binding))
Reach-wait {mode} {s} r =
    let (same, fits) = Reach-IsSound r in
    (waits_at mode s s.place fits, sets_up_at mode s s.place same fits)
