-- ===== src/Session/Grace.antt =====
-- The grace period after a disconnection: which timer may still close the session.
use homebrain.Prelude.{
  ℕ, suc, ◌+◌, ◌%◌, ◌^◌, ◌<◌, ◌≡◌, Bool, true, false, some, List, [], ◌∷◌, arith,
}
use homebrain.Session.{
  Session, Action, new_session, perform, run, is_disconnected, should_close,
  close_if_still_disconnected, peer_changed, disconnected, grace_passed, idle, mark, close_begin,
}

-- How often the state of the peer connection changes in a schedule.
abbrev pub changes : List Action → ℕ
changes [] = 0
changes (peer_changed state ∷ as') = suc (changes as')
changes (_ ∷ as') = changes as'

abbrev step_of : Action → ℕ
step_of (peer_changed state) = 1
step_of _ = 0

perform_generation :
    (a : Action) (s : Session)
    → s.disconnect_generation < 2 ^ 64
    → (perform a s).0.disconnect_generation ≡ (s.disconnect_generation + step_of a) % 2 ^ 64
unfolding perform
perform_generation mark s h = ground arith
perform_generation _ s h = ground arith

changes_cons : (a : Action) (as' : List Action) → changes (a ∷ as') ≡ step_of a + changes as'
changes_cons (peer_changed state) as' = omega arith
changes_cons _ as' = omega arith

run_generation :
    (as' : List Action) (s : Session)
    → s.disconnect_generation < 2 ^ 64
    → (run as' s).disconnect_generation ≡ (s.disconnect_generation + changes as') % 2 ^ 64
unfolding run
run_generation [] s h = omega arith
run_generation (a ∷ as') s h =
    omega (arith, run_generation as' (perform a s).0, perform_generation a s h, changes_cons a as')

-- A timer of a disconnection closes nothing once the state of the peer connection has changed
-- again, however often up to 2^64 - 1 times and whatever else happened: it finds the session as
-- it is, leaves it so, and asks for no Close.
pub stale_timer :
    (as' : List Action) (s : Session)
    → s.disconnect_generation < 2 ^ 64
    → 0 < changes as'
    → changes as' < 2 ^ 64
    → close_if_still_disconnected s.disconnect_generation (run as' s) ≡ (run as' s, [])
unfolding close_if_still_disconnected
stale_timer as' s h some' few = ground (arith, run_generation as' s h)

-- Nothing in the schedule changes the peer connection's state or begins a Close.
abbrev pub is_quiet : Action → Bool
is_quiet (peer_changed state) = false
is_quiet close_begin = false
is_quiet _ = true

abbrev pub AllQuiet : List Action → Type 0
AllQuiet [] = Unit
AllQuiet (a ∷ as') = (is_quiet a ≡ true) × AllQuiet as'

quiet_keeps :
    (a : Action) (s : Session) (g : ℕ)
    → is_quiet a ≡ true
    → should_close g s ≡ true
    → should_close g (perform a s).0 ≡ true
unfolding perform
quiet_keeps mark s g q h = ground arith
quiet_keeps _ s g q h = ground arith

quiet_run :
    (as' : List Action) (s : Session) (g : ℕ)
    → AllQuiet as'
    → should_close g s ≡ true
    → should_close g (run as' s) ≡ true
unfolding run
quiet_run [] s g q h = h
quiet_run (a ∷ as') s g (qa, q) h = quiet_run as' (perform a s).0 g q (quiet_keeps a s g qa h)

grace_closes :
    (g : ℕ) (s : Session)
    → should_close g s ≡ true
    → (close_if_still_disconnected g s).1 ≡ close_begin ∷ []
unfolding close_if_still_disconnected
grace_closes g s h = ground (arith, h)

disconnected_arms :
    (s : Session)
    → s.phase ≡ idle
    → let g = (s.disconnect_generation + 1) % 2 ^ 64 in
      let s' = (perform (peer_changed disconnected) s).0 in
      (s'.disconnect_timer ≡ some g) × (should_close g s' ≡ true)
unfolding perform
disconnected_arms s h = ground (arith, h)

-- A disconnection of a session that no Close has begun on arms the timer of its new generation, and
-- if the state of the peer connection does not change again and no Close begins, whatever else
-- happens, that timer asks for Close.
pub lasting_timer :
    (as' : List Action) (s : Session)
    → s.phase ≡ idle
    → AllQuiet as'
    → let g = (s.disconnect_generation + 1) % 2 ^ 64 in
      ((perform (peer_changed disconnected) s).0.disconnect_timer ≡ some g)
      × ((perform (grace_passed g) (run (peer_changed disconnected ∷ as') s)).1 ≡ close_begin ∷ [])
unfolding perform run
lasting_timer as' s h q =
    let g = (s.disconnect_generation + 1) % 2 ^ 64 in
    let (armed, due) = disconnected_arms s h in
    (
      armed,
      grace_closes g (run as' (perform (peer_changed disconnected) s).0)
          (quiet_run as' (perform (peer_changed disconnected) s).0 g q due),
    )

-- The timer that a session holds is that of its last change of state, which was a disconnection.
pub record IsArmed (s : Session) : Type 0 where
  pub in_range : s.disconnect_generation < 2 ^ 64
  pub of_last : {g : ℕ} → s.disconnect_timer ≡ some g → s.disconnect_generation ≡ g
  pub of_disconnection : {g : ℕ} → s.disconnect_timer ≡ some g → is_disconnected s.peer_state ≡ true

perform-IsArmed : (a : Action) (s : Session) → IsArmed s → IsArmed (perform a s).0
unfolding perform
perform-IsArmed mark s h = ground arith
perform-IsArmed _ s h = ground arith

run-IsArmed-from : (as' : List Action) (s : Session) → IsArmed s → IsArmed (run as' s)
unfolding run
run-IsArmed-from [] s h = h
run-IsArmed-from (a ∷ as') s h = run-IsArmed-from as' (perform a s).0 (perform-IsArmed a s h)

-- In every state that a session reaches, in any interleaving, the timer that it holds belongs to
-- the last change of state, and that was a disconnection.
pub run-IsArmed : (wanted : Bool) (as' : List Action) → IsArmed (run as' (new_session wanted))
run-IsArmed wanted as' = run-IsArmed-from as' (new_session wanted) (ground arith)
