-- ===== src/Process.antt =====
-- cmd/rtc-server/main.go: `run` and shutdownHTTPServer. The HTTP server, the listener, the signals
-- and the timers are the surroundings. What the handlers, the timers and the peer connections do to
-- the sessions meanwhile is a sequence of events of the Manager.
pub mod Shutdown
use homebrain.Prelude.{
  ℕ, Bool, true, false, not, ◌&&◌, ◌||◌, Option, none, some, List, [], ◌∷◌, ◌++◌, if◌then◌else◌,
}
use homebrain.Text.{Text}
use homebrain.Text.Number.{ℤ, pos}
use homebrain.Config.{ConfigError, ok, err, load}
use homebrain.Server.Options.{
  Library, ServerError, refused, made, new_server, options_of, or_default,
}
use homebrain.Manager.{World, Event, closes_all, start, step}
use homebrain.Manager

-- Go's errors, with what errors.Join makes of them.
pub data Failure : Type 0 where
  bad_configuration : ConfigError → Failure
  no_server : ServerError → Failure
  not_listening server_closed deadline_exceeded not_stopped : Failure
  other_failure : ℕ → Failure
  joined_one : Failure → Failure
  joined_two : Failure → Failure → Failure

-- errors.Is(err, http.ErrServerClosed)
unfoldable pub is_server_closed : Failure → Bool
is_server_closed server_closed = true
is_server_closed (joined_one e) = is_server_closed e
is_server_closed (joined_two e f) = is_server_closed e || is_server_closed f
is_server_closed _ = false

-- errors.Is(err, context.DeadlineExceeded)
unfoldable pub is_deadline : Failure → Bool
is_deadline deadline_exceeded = true
is_deadline (joined_one e) = is_deadline e
is_deadline (joined_two e f) = is_deadline e || is_deadline f
is_deadline _ = false

-- errors.Join
abbrev pub error_join : Option Failure → Option Failure → Option Failure
error_join none none = none
error_join (some e) none = some (joined_one e)
error_join none (some f) = some (joined_one f)
error_join (some e) (some f) = some (joined_two e f)

-- `if errors.Is(err, http.ErrServerClosed) { err = nil }`
abbrev pub forgive : Option Failure → Option Failure
forgive none = none
forgive (some e) = if is_server_closed e then none else some e

-- http.Server by what it answers: Shutdown, the Close behind a failed Shutdown, and what Serve
-- returns before the timer of shutdownHTTPServer fires, if it does.
pub record HttpServer : Type 0 where
  pub shutdown : Option Failure
  pub close : Option Failure
  pub served : Option (Option Failure)

pub data Call : Type 0 where
  shuts_down : ℕ → Call  -- with the time that it is given
  closes_server : Call
  closes_sessions : Call

-- The wait for the result of Serve.
wait_stage : Option (Option Failure) → Option Failure → List Call → List Call × Option Failure
wait_stage (some served) shutdown_err calls = (calls, error_join shutdown_err (forgive served))
wait_stage none shutdown_err calls = (calls ++ closes_server ∷ [], some not_stopped)

-- shutdownHTTPServer, behind Shutdown.
shutdown_stage : HttpServer → List Call → Option Failure → List Call × Option Failure
unfolding wait_stage
shutdown_stage server calls none = wait_stage server.served none calls
shutdown_stage server calls (some e) =
    let closing = calls ++ closes_server ∷ [] in
    elim server.close [
      | some f ↦ (closing, error_join (some e) (some f))
      | none ↦ wait_stage server.served (if is_deadline e then none else some e) closing
    ]

-- shutdownHTTPServer, with a timeout in nanoseconds
unfoldable pub shutdown_http_server : HttpServer → ℤ → List Call × Option Failure
unfolding shutdown_stage or_default
shutdown_http_server server timeout =
    shutdown_stage server (shuts_down (or_default timeout 10000000000) ∷ []) server.shutdown

-- What ends the select of `run`.
pub data Wake : Type 0 where
  serve_ended : Option Failure → Wake
  stopped : Wake  -- ctx.Done()

pub record Surroundings : Type 0 where
  pub library : Library
  pub listening : Bool
  pub while_serving : List Event
  pub wake : Wake
  pub http : HttpServer
  pub while_stopping : List Event
  pub close_all : Option Failure  -- what CloseAll answers

-- What `run` leaves behind.
pub record Ran : Type 0 where
  pub world : World
  pub calls : List Call
  pub result : Option Failure

abbrev pub not_started : Failure → Ran
not_started e = record { world = start; calls = []; result = some e }

module _ (around : Surroundings) where
  abbrev pub world_served : World
  world_served = Manager.run around.while_serving start

  abbrev pub world_stopped : World
  world_stopped = Manager.run around.while_stopping world_served

  -- The select of `run`.
  serve_stage : Wake → Ran
  serve_stage (serve_ended e) = record {
    world = step closes_all world_served;
    calls = closes_sessions ∷ [];
    result = forgive e;
  }
  serve_stage stopped =
      let (calls, shutdown_err) = shutdown_http_server around.http (pos 10000000000) in
      record {
        world = step closes_all world_stopped;
        calls = calls ++ closes_sessions ∷ [];
        result = error_join shutdown_err around.close_all;
      }

  -- run
  unfoldable pub run : (Text → Text) → (Text → Bool) → (Text → Option ℤ) → Ran
  unfolding serve_stage
  run getenv is_writable parse_duration = elim (load getenv is_writable parse_duration) [
    | err e ↦ not_started (bad_configuration e)
    | ok c ↦ elim (new_server around.library (options_of c)) [
      | refused e ↦ not_started (no_server e)
      | made server ↦
          if not around.listening then not_started not_listening else serve_stage around.wake
    ]
  ]
