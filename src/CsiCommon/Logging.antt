-- ===== src/CsiCommon/Logging.antt =====
-- logGRPC of pkg/csi-common/utils.go: the interceptor that logs each request and its answer.
use csi_driver_smb_hardend.Base.{◌≡◌, refl, ℕ, List, ◌∷◌, Str}
use csi_driver_smb_hardend.Errors.{Error, Result, ok, err}
use csi_driver_smb_hardend.CsiCommon.{get_log_level}

-- A line of the log: at a level, or an error.
pub data Line : Type 0 where
  method_line request_line response_line : (level : ℕ) (text : Str) → Line
  error_line : Error → Line

-- The log, the last line first, and the world.
pub record Logged (W : Type 0) : Type 0 where
  pub log : List Line
  pub world : W

abbrev pub Handler : (W Request Response : Type 0) → Type 0
Handler W Request Response = Request → Logged W → Result Response × Logged W

unfoldable pub note : {W : Type 0} → Line → Logged W → Logged W
note line s = record { log = line ∷ s.log; world = s.world }

-- The line for what the handler returned; a response is shown by `protosanitizer.StripSecrets`.
unfoldable pub answer_line : {Response : Type 0} → (Response → Str) → ℕ → Result Response → Line
answer_line strip level (ok response) = response_line level (strip response)
answer_line strip level (err e) = error_line e

-- A request is shown by `protosanitizer.StripSecrets` too, and the handler may log.
module _ {W Request Response : Type 0} (strip : Request → Str)
    (strip_response : Response → Str) where
  -- The log before the handler is called.
  unfoldable pub announced : Str → Request → Logged W → Logged W
  unfolding get_log_level note
  announced method request s =
      note (request_line (get_log_level method) (strip request))
        (note (method_line (get_log_level method) method) s)

  -- `logGRPC`
  unfoldable pub log_grpc :
      Handler W Request Response → Str → Request → Logged W → Result Response × Logged W
  unfolding get_log_level announced answer_line note
  log_grpc handler method request s =
      let (r, t) = handler request (announced method request s) in
      (r, note (answer_line strip_response (get_log_level method) r) t)

  -- logGRPC returns what the handler returns. For two requests, and two handlers, that look alike
  -- without their secrets, whose handlers log alike and whose answers look alike, it writes the same
  -- log, whatever the secrets are.
  pub log_grpc_strips :
      (handler other : Handler W Request Response) (method : Str) (request secret : Request)
      (s : Logged W)
      → strip request ≡ strip secret
      → (handler request (announced method request s)).1.log
        ≡ (other secret (announced method secret s)).1.log
      → answer_line strip_response
          (get_log_level method)
          (handler request (announced method request s)).0
        ≡ answer_line strip_response
            (get_log_level method)
            (other secret (announced method secret s)).0
      → ((log_grpc handler method request s).0 ≡ (handler request (announced method request s)).0)
        × ((log_grpc handler method request s).1.log ≡ (log_grpc other method secret s).1.log)
  unfolding log_grpc note
  log_grpc_strips handler other method request secret s stripped logged answered =
      (refl, rw (answered, logged))
