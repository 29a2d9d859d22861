-- ===== src/Startup/Main.antt =====
-- main, exportMetrics, serve, serveMetrics and trapClosedConnErr of cmd/smbplugin/main.go.
use csi_driver_smb_hardend.Base.{Bool, Str, codes, is_empty, if◌then◌else◌}
use csi_driver_smb_hardend.Errors.{Error, Result, ok, err}
use csi_driver_smb_hardend.Strings.{has_substring}
use csi_driver_smb_hardend.Action.{Action, Call, pure, lift, call, attempt, ◌>>=◌, ◌>>◌}
use csi_driver_smb_hardend.Startup.{Process, Flags}
use csi_driver_smb_hardend.Startup.Run.{get_version_yaml, handle}

-- The command line: the flags that `handle` reads, and the two that `main` and `exportMetrics` read.
pub record CommandLine : Type 0 where
  pub flags : Flags
  pub ver : Bool
  pub metrics_address : Str

-- What `main` calls: `fmt.Println`, `http.Serve` of the metrics at a listener, `Close` of the
-- listener, the text of an error, and the start of a goroutine, whose effects belong to the
-- environment.
pub record Outside (P : Process) : Type 0 where
  pub println : Str → Call P.World (Unit {0})
  pub serve_http : Call P.World (Unit {0})
  pub close : Call P.World (Unit {0})
  pub text_of : Error → Str
  pub spawn : Action P.World (Unit {0}) → Call P.World (Unit {0})

module _ (P : Process) (O : Outside P) where
  -- `trapClosedConnErr`
  unfoldable pub trap_closed_conn_err : Result (Unit {0}) → Result (Unit {0})
  unfolding has_substring
  trap_closed_conn_err (ok _) = ok tt
  trap_closed_conn_err (err e) =
      if has_substring (O.text_of e) (codes "use of closed network connection")
      then ok tt
      else err e

  -- `serveMetrics`
  unfoldable pub serve_metrics : Action P.World (Unit {0})
  unfolding trap_closed_conn_err
  serve_metrics = attempt (call O.serve_http) >>= λ r. lift (trap_closed_conn_err r)

  -- The goroutine of `serve`: an error kills the process before the listener is closed.
  unfoldable pub serve_goroutine : Action P.World (Unit {0})
  unfolding serve_metrics
  serve_goroutine = do serve_metrics; attempt (call O.close); pure tt

  -- What `exportMetrics` does with the listener: an error is only logged.
  unfoldable pub serve_listener : Result (Unit {0}) → Action P.World (Unit {0})
  unfolding serve_goroutine
  serve_listener (ok _) = call (O.spawn serve_goroutine)
  serve_listener (err e) = pure tt

  -- `exportMetrics`
  unfoldable pub export_metrics : Str → Action P.World (Unit {0})
  unfolding serve_listener
  export_metrics metrics_address =
      if is_empty metrics_address
      then pure tt
      else attempt (call (P.listen (codes "tcp") metrics_address)) >>= serve_listener

  unfoldable pub print_version : Str → Action P.World (Unit {0})
  print_version driver_name = do info ← get_version_yaml P driver_name; call (O.println info)

  -- `main`, before it exits with 0. What kills the process is an error.
  unfoldable pub main : CommandLine → Action P.World (Unit {0})
  unfolding print_version export_metrics handle
  main c =
      if c.ver
      then print_version c.flags.driver_name
      else (do export_metrics c.metrics_address; handle P c.flags; pure tt)
