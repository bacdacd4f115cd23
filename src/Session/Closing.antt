-- ===== src/Session/Closing.antt =====
-- What holds of a session however its goroutines, timers and callbacks interleave.
use homebrain.Prelude.{
  ℕ, suc, ◌+◌, ◌≤◌, Bool, true, false, Option, none, some, List, [], ◌∷◌, ◌≡◌, refl, ◌∙◌, arith,
}
use homebrain.Session.{
  Effect, Phase, Session, Action, new_session, perform, run, is_idle, taken, recorder_done,
  peer_done, finished, mark,
}

-- How often the session did a thing.
abbrev pub count : (Effect → Bool) → List Effect → ℕ
count p [] = 0
count p (e ∷ es) = elim (p e) [ true ↦ suc (count p es) | false ↦ count p es ]

abbrev pub is_open : Effect → Bool
is_open (Effect.recorder_opened r) = true
is_open _ = false

abbrev pub is_close : Effect → Bool
is_close (Effect.recorder_closed r) = true
is_close _ = false

abbrev pub is_start : Effect → Bool
is_start Effect.prime_started = true
is_start _ = false

abbrev pub is_shut : Effect → Bool
is_shut Effect.peer_shut = true
is_shut _ = false

abbrev pub is_terminal : Effect → Bool
is_terminal Effect.terminal_called = true
is_terminal _ = false

abbrev held : Option ℕ → ℕ
held none = 0
held (some r) = 1

-- The recorder that the closing goroutine has taken and not yet closed.
abbrev in_hand : Phase → ℕ
in_hand (taken (some r)) = 1
in_hand _ = 0

abbrev pub is_released : Phase → Bool
is_released (taken r) = true
is_released recorder_done = true
is_released peer_done = true
is_released finished = true
is_released _ = false

abbrev shuts : Phase → ℕ
shuts peer_done = 1
shuts finished = 1
shuts _ = 0

abbrev terminals : Phase → ℕ
terminals finished = 1
terminals _ = 0

pub record IsSound (s : Session) : Type 0 where
  -- every recorder opened is the session's, or in the closer's hands, or closed
  pub balance :
      count is_open s.effects ≡ count is_close s.effects + held s.recorder + in_hand s.phase
  pub unclaimed : s.audio_claimed ≡ false → count is_open s.effects ≡ 0
  pub one_recorder : count is_open s.effects ≤ 1
  pub released :
      is_released s.phase ≡ true
      → (s.recorder ≡ none) × (s.disconnect_timer ≡ none) × (s.expiry_timer ≡ none)
  pub unprimed : s.prime_once ≡ false → count is_start s.effects ≡ 0
  pub one_prime : count is_start s.effects ≤ 1
  pub shut_once : count is_shut s.effects ≡ shuts s.phase
  pub terminal_once : count is_terminal s.effects ≡ terminals s.phase

pub new_session-IsSound : (wanted : Bool) → IsSound (new_session wanted)
new_session-IsSound wanted = ground arith

pub perform-IsSound : (a : Action) (s : Session) → IsSound s → IsSound (perform a s).0
unfolding perform
perform-IsSound mark s h = ground arith
perform-IsSound _ s h = ground arith

run-IsSound-from : (as' : List Action) (s : Session) → IsSound s → IsSound (run as' s)
unfolding run
run-IsSound-from [] s h = h
run-IsSound-from (a ∷ as') s h = run-IsSound-from as' (perform a s).0 (perform-IsSound a s h)

-- Every session reached from a new one, in any interleaving, is sound.
pub run-IsSound : (wanted : Bool) (as' : List Action) → IsSound (run as' (new_session wanted))
run-IsSound wanted as' = run-IsSound-from as' (new_session wanted) (new_session-IsSound wanted)

-- When Close has finished, whatever was interleaved with it, the recorder that was opened is
-- closed, the session holds no recorder and no timer, the peer connection was closed once and
-- the terminal callback was called once.
pub finished_clean :
    (wanted : Bool) (as' : List Action)
    → let s = run as' (new_session wanted) in
      s.phase ≡ finished
      → (count is_open s.effects ≡ count is_close s.effects)
        × (s.recorder ≡ none)
        × (s.disconnect_timer ≡ none)
        × (s.expiry_timer ≡ none)
        × (count is_shut s.effects ≡ 1)
        × (count is_terminal s.effects ≡ 1)
finished_clean wanted as' h = ground (arith, run-IsSound wanted as')

-- In any interleaving a session opens one recorder at most, starts priming once at most, and
-- closes its peer connection and calls the terminal callback once at most.
pub run_at_most_once :
    (wanted : Bool) (as' : List Action)
    → let es = (run as' (new_session wanted)).effects in
      (count is_open es ≤ 1)
      × (count is_start es ≤ 1)
      × (count is_shut es ≤ 1)
      × (count is_terminal es ≤ 1)
run_at_most_once wanted as' = ground (arith, run-IsSound wanted as')

opens_nothing :
    (a : Action) (s : Session)
    → is_idle s.phase ≡ false
    → (is_idle (perform a s).0.phase ≡ false)
      × (count is_open (perform a s).0.effects ≡ count is_open s.effects)
      × (count is_start (perform a s).0.effects ≡ count is_start s.effects)
unfolding perform
opens_nothing mark s h = ground arith
opens_nothing _ s h = ground arith

-- Once Close has begun, no interleaving opens a recorder or starts priming any more.
pub closing_opens_nothing :
    (as' : List Action) (s : Session)
    → is_idle s.phase ≡ false
    → (count is_open (run as' s).effects ≡ count is_open s.effects)
      × (count is_start (run as' s).effects ≡ count is_start s.effects)
unfolding run
closing_opens_nothing [] s h = (refl, refl)
closing_opens_nothing (a ∷ as') s h =
    let (still, opens, starts) = opens_nothing a s h in
    let (opens', starts') = closing_opens_nothing as' (perform a s).0 still in
    (opens' ∙ opens, starts' ∙ starts)
