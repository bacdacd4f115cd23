-- ===== src/Session.antt =====
-- internal/rtc/session.go: the state of a Session and its methods. Goroutines, timers and the
-- callbacks of the peer connection interleave: an `Action` is one stretch of code that nothing
-- else cuts into (a section under `stateMu`, or code between two such sections), `perform` runs
-- it, and the actions that it returns are what the same goroutine, or one that it starts, goes on
-- with later. The context of a session is cancelled by its Close alone, so `ctx.Err() != nil` is
-- one flag. A locked section reads that flag once, so a cancellation during it acts like one
-- behind it.
pub mod Closing
pub mod Finishing
pub mod Grace
pub mod Track
use homebrain.Prelude.{
  ℕ, zero, suc, ◌+◌, ◌%◌, ◌^◌, Bool, true, false, not, ◌&&◌, ◌||◌, Option, none, some, List, [],
  ◌∷◌, ◌==◌, if◌then◌else◌,
}

-- webrtc.PeerConnectionState
pub data PeerState : Type 0 where
  unknown fresh connecting connected disconnected failed closed : PeerState

abbrev pub is_connected : PeerState → Bool
is_connected connected = true
is_connected _ = false

abbrev pub is_disconnected : PeerState → Bool
is_disconnected disconnected = true
is_disconnected _ = false

abbrev pub is_over : PeerState → Bool
is_over failed = true
is_over closed = true
is_over _ = false

-- What the session does to the world around it. Recorders and timers go by numbers, the timer of
-- a disconnection by its generation.
pub data Effect : Type 0 where
  recorder_opened recorder_closed : ℕ → Effect
  grace_armed grace_stopped : ℕ → Effect
  expiry_stopped : ℕ → Effect
  prime_started prime_cancelled : Effect
  peer_shut terminal_called : Effect

-- How far the body of `closeOnce.Do` has come: `taken` has released the lock and holds the
-- recorder that it found.
pub data Phase : Type 0 where
  idle cancelled prime_stopped : Phase
  taken : Option ℕ → Phase
  recorder_done peer_done finished : Phase

abbrev pub is_idle : Phase → Bool
is_idle idle = true
is_idle _ = false

pub record Session : Type 0 where
  pub prime_wanted : Bool  -- audioPrimeEnabled && audioPrimeWriter != nil
  pub connected_mark : Bool
  pub audio_claimed : Bool
  pub recorder : Option ℕ
  pub disconnect_timer : Option ℕ
  pub disconnect_generation : ℕ  -- uint64
  pub peer_state : PeerState
  pub expiry_timer : Option ℕ
  pub prime_cancel : Bool  -- audioPrimeCancel != nil
  pub prime_once : Bool  -- audioPrimeOnce is done
  pub phase : Phase
  pub close_err : Option ℕ  -- an error by its number
  pub effects : List Effect  -- the latest first

-- NewSession's literal, before any callback.
abbrev pub new_session : Bool → Session
new_session wanted = record {
  prime_wanted = wanted;
  connected_mark = false;
  audio_claimed = false;
  recorder = none;
  disconnect_timer = none;
  disconnect_generation = 0;
  peer_state = unknown;
  expiry_timer = none;
  prime_cancel = false;
  prime_once = false;
  phase = idle;
  close_err = none;
  effects = [];
}

-- s.ctx.Err() != nil
abbrev pub is_cancelled : Session → Bool
is_cancelled s = not (is_idle s.phase)

abbrev pub does : Effect → Session → Session
does e s = record s { effects = e ∷ s.effects }

pub data Action : Type 0 where
  peer_changed : PeerState → Action
  start_prime stop_prime : Action
  claim_track : Option ℕ → Action  -- with what recordings.New answers
  mark : Action
  set_expiry : ℕ → Action
  grace_passed : ℕ → Action  -- the timer of this generation fires
  write_failed : Action
  close_begin close_stop_prime close_take : Action
  close_recorder close_peer : Option ℕ → Action  -- with the error that it meets
  close_finish : Action

-- `if s.disconnectTimer != nil { Stop; nil }`
stop_timer : Option ℕ → Session → Session
stop_timer none s = s
stop_timer (some g) s = record (does (grace_stopped g) s) { disconnect_timer = none }

stop_expiry : Option ℕ → Session → Session
stop_expiry none s = s
stop_expiry (some t) s = record (does (expiry_stopped t) s) { expiry_timer = none }

arm_timer : Session → Session
arm_timer s =
    if is_disconnected s.peer_state && not (is_cancelled s)
    then record (does (grace_armed s.disconnect_generation) s) {
      disconnect_timer = some s.disconnect_generation;
    }
    else s

-- handlePeerConnectionState, up to the unlock.
unfoldable pub peer_section : PeerState → Session → Session
unfolding stop_timer arm_timer
peer_section state s = arm_timer (
    stop_timer s.disconnect_timer (record s {
      disconnect_generation = (s.disconnect_generation + 1) % 2 ^ 64;
      peer_state = state;
    }))

-- handlePeerConnectionState, behind the unlock.
abbrev pub peer_next : PeerState → List Action
peer_next state =
    if is_connected state
    then start_prime ∷ []
    else if is_over state
    then stop_prime ∷ close_begin ∷ []
    else []

-- startAudioPrime. A context derived from one that is cancelled is cancelled too, so the branch
-- that calls `primeCancel` and the guard outside the lock act alike but for the `Once`.
unfoldable pub start_audio_prime : Session → Session
start_audio_prime s =
    if not s.prime_wanted || is_cancelled s || s.prime_once
    then s
    else record (does prime_started s) { prime_once = true; prime_cancel = true }

-- stopAudioPrime
unfoldable pub stop_audio_prime : Session → Session
stop_audio_prime s = if s.prime_cancel then does prime_cancelled s else s

-- startRecorder, with the answer of recordings.New: what it starts, and the recorder that it
-- returns, if it returns one.
unfoldable pub start_recorder : Option ℕ → Session → Session × List Action × Option ℕ
start_recorder created s =
    if s.audio_claimed || is_cancelled s then (s, [], none) else elim created [
      | none ↦ (record s { audio_claimed = true }, close_begin ∷ [], none)
      | some r ↦ (
        record (does (recorder_opened r) s) { audio_claimed = true; recorder = some r },
        [],
        some r,
      )
    ]

-- setExpiryTimer
unfoldable pub set_expiry_timer : ℕ → Session → Session
set_expiry_timer t s =
    if is_cancelled s then does (expiry_stopped t) s else record s { expiry_timer = some t }

abbrev pub should_close : ℕ → Session → Bool
should_close g s =
    not (is_cancelled s) && is_disconnected s.peer_state && s.disconnect_generation == g

-- closeIfStillDisconnected
unfoldable pub close_if_still_disconnected : ℕ → Session → Session × List Action
close_if_still_disconnected g s =
    if should_close g s then (record s { disconnect_timer = none }, close_begin ∷ []) else (s, [])

-- The body of `closeOnce.Do`, a stretch at a time. Each stretch runs at its own phase only: the
-- body is one goroutine's, and `Once` keeps every other out. The terminal callback is not nil: the
-- only caller of NewSession, Manager.Create, hands one over.
close_at : Phase → Action → Session → Session
unfolding stop_timer stop_expiry stop_audio_prime
close_at idle close_begin s = record s { phase = cancelled }
close_at cancelled close_stop_prime s = record (stop_audio_prime s) { phase = prime_stopped }
close_at prime_stopped close_take s =
    let t = stop_expiry s.expiry_timer (stop_timer s.disconnect_timer s) in
    record t { recorder = none; phase = taken s.recorder }
close_at (taken none) (close_recorder e) s = record s { phase = recorder_done }
close_at (taken (some r)) (close_recorder e) s = record (does (recorder_closed r) s) {
  close_err = e;
  phase = recorder_done;
}
close_at recorder_done (close_peer e) s = record (does peer_shut s) {
  close_err = elim s.close_err [ none ↦ e | some first ↦ some first ];
  phase = peer_done;
}
close_at peer_done close_finish s = record (does terminal_called s) { phase = finished }
close_at _ _ s = s

unfoldable pub close_stretch : Action → Session → Session
unfolding close_at
close_stretch a s = close_at s.phase a s

unfoldable pub perform : Action → Session → Session × List Action
unfolding peer_section start_audio_prime stop_audio_prime start_recorder set_expiry_timer
    close_if_still_disconnected close_stretch
perform (peer_changed state) s = (peer_section state s, peer_next state)
perform start_prime s = (start_audio_prime s, [])
perform stop_prime s = (stop_audio_prime s, [])
perform (claim_track created) s = let (s', next, recorder) = start_recorder created s in (s', next)
perform mark s = (record s { connected_mark = true }, [])
perform (set_expiry t) s = (set_expiry_timer t s, [])
perform (grace_passed g) s = close_if_still_disconnected g s
perform write_failed s = (s, close_begin ∷ [])
perform a s = (close_stretch a s, [])

-- A schedule: the actions in the order in which they happen to run.
unfoldable pub run : List Action → Session → Session
unfolding perform
run [] s = s
run (a ∷ as') s = run as' (perform a s).0
