-- ===== src/Session/Finishing.antt =====
-- That Close of internal/rtc/session.go comes to its end, whatever its stretches interleave with.
use homebrain.Prelude.{
  ℕ, Bool, true, false, Option, none, some, List, [], ◌∷◌, ◌++◌, ◌≡◌, ◌⊎◌, inl, inr, ap, sym, refl,
  ◌∙◌, arith,
}
use mathlib.Core.Path.{subst}
use homebrain.Session.{
  Phase, Session, Action, new_session, perform, run, is_idle, idle, cancelled, prime_stopped, taken,
  recorder_done, peer_done, finished, mark, close_begin, close_stop_prime, close_take,
  close_recorder, close_peer, close_finish,
}
use homebrain.Session.Closing.{count, is_open, is_close, is_shut, is_terminal, finished_clean}

-- The stretches of Close in their order, with the errors that closing the recorder and the peer
-- connection meet.
abbrev pub closing : Option ℕ → Option ℕ → List Action
closing e f =
    close_begin
    ∷ close_stop_prime
    ∷ close_take
    ∷ close_recorder e
    ∷ close_peer f
    ∷ close_finish
    ∷ []

abbrev pub first_error : Option ℕ → Option ℕ → Option ℕ
first_error none f = f
first_error (some e) f = some e

-- Whether an action is a stretch of Close behind the cancellation. Another call of Close is not:
-- `Once` lets it do nothing.
abbrev pub is_stretch : Action → Bool
is_stretch close_stop_prime = true
is_stretch close_take = true
is_stretch (close_recorder e) = true
is_stretch (close_peer e) = true
is_stretch close_finish = true
is_stretch _ = false

-- These stretches run in this order, with any other actions in front of, between and behind them.
abbrev pub Weaves : List Action → List Action → Type 0
Weaves [] [] = Unit
Weaves [] (a ∷ as') = (is_stretch a ≡ false) × Weaves [] as'
Weaves (x ∷ xs) [] = ⊥
Weaves (x ∷ xs) (a ∷ as') =
    ((a ≡ x) × Weaves xs as') ⊎ ((is_stretch a ≡ false) × Weaves (x ∷ xs) as')

-- How far Close has come, with the error that it has met; behind the cancellation the recorder is
-- Close's own.
record IsAt (phase : Phase) (err recorder : Option ℕ) (s : Session) : Type 0 where
  at : s.phase ≡ phase
  met : s.close_err ≡ err
  owned : is_idle phase ≡ false → s.recorder ≡ recorder

other-IsAt :
    {phase : Phase} {err recorder : Option ℕ} (a : Action) (s : Session)
    → is_stretch a ≡ false
    → is_idle phase ≡ false
    → IsAt phase err recorder s
    → IsAt phase err recorder (perform a s).0
unfolding perform
other-IsAt mark s o p h = ground arith
other-IsAt _ s o p h = ground arith

-- The other actions run up to the next stretch.
next_stretch :
    {phase : Phase} {err recorder : Option ℕ} (x : Action) (xs as' : List Action) (s : Session)
    → Weaves (x ∷ xs) as'
    → is_idle phase ≡ false
    → IsAt phase err recorder s
    → (s' : Session) × (rest : List Action) × IsAt phase err recorder s'
      × Weaves xs rest
      × (run as' s ≡ run rest (perform x s').0)
unfolding run
next_stretch x xs [] s w p h = absurd w
next_stretch x xs (a ∷ as') s (inl (e, w)) p h =
    (s, as', h, w, ap (λ (b : Action). run as' (perform b s).0) e)
next_stretch x xs (a ∷ as') s (inr (o, w)) p h =
    next_stretch x xs as' (perform a s).0 w p (other-IsAt a s o p h)

last_stretch :
    {phase : Phase} {err recorder : Option ℕ} (as' : List Action) (s : Session)
    → Weaves [] as'
    → is_idle phase ≡ false
    → IsAt phase err recorder s
    → IsAt phase err recorder (run as' s)
unfolding run
last_stretch [] s w p h = h
last_stretch (a ∷ as') s (o, w) p h = last_stretch as' (perform a s).0 w p (other-IsAt a s o p h)

-- The error of closing a recorder, if there is one.
abbrev pub recorder_error : Option ℕ → Option ℕ → Option ℕ
recorder_error none e = none
recorder_error (some r) e = e

stop_prime_step :
    {r : Option ℕ} (s : Session)
    → IsAt cancelled none r s
    → IsAt prime_stopped none r (perform close_stop_prime s).0
unfolding perform
stop_prime_step s h = ground arith

take_step :
    {r : Option ℕ} (s : Session)
    → IsAt prime_stopped none r s
    → IsAt (taken r) none none (perform close_take s).0
unfolding perform
take_step s h = ground arith

recorder_step :
    {r : Option ℕ} (e : Option ℕ) (s : Session)
    → IsAt (taken r) none none s
    → IsAt recorder_done (recorder_error r e) none (perform (close_recorder e) s).0
unfolding perform
recorder_step {r = none} e s h = ground arith
recorder_step {r = some r} e s h = ground arith

peer_step :
    {g : Option ℕ} (f : Option ℕ) (s : Session)
    → IsAt recorder_done g none s
    → IsAt peer_done (first_error g f) none (perform (close_peer f) s).0
unfolding perform
peer_step {g = none} f s h = ground arith
peer_step {g = some g} f s h = ground arith

finish_step :
    {g : Option ℕ} (s : Session)
    → IsAt peer_done g none s
    → IsAt finished g none (perform close_finish s).0
unfolding perform
finish_step s h = ground arith

-- What is left to do of Close once it has cancelled the context.
abbrev pub stretches : Option ℕ → Option ℕ → List Action
stretches e f = close_stop_prime ∷ close_take ∷ close_recorder e ∷ close_peer f ∷ close_finish ∷ []

stretches_finish :
    {r : Option ℕ} (e f : Option ℕ) (as' : List Action) (s : Session)
    → Weaves (stretches e f) as'
    → IsAt cancelled none r s
    → IsAt finished (first_error (recorder_error r e) f) none (run as' s)
stretches_finish {r} e f as' s w h =
    let g = recorder_error r e in
    let (s1, as1, h1, w1, e1) =
      next_stretch close_stop_prime
        (close_take ∷ close_recorder e ∷ close_peer f ∷ close_finish ∷ []) as' s w refl h in
    let t1 = (perform close_stop_prime s1).0 in
    let (s2, as2, h2, w2, e2) =
      next_stretch close_take (close_recorder e ∷ close_peer f ∷ close_finish ∷ []) as1 t1 w1 refl
        (stop_prime_step s1 h1) in
    let t2 = (perform close_take s2).0 in
    let (s3, as3, h3, w3, e3) =
      next_stretch (close_recorder e) (close_peer f ∷ close_finish ∷ []) as2 t2 w2 refl
        (take_step s2 h2) in
    let t3 = (perform (close_recorder e) s3).0 in
    let (s4, as4, h4, w4, e4) =
      next_stretch (close_peer f) (close_finish ∷ []) as3 t3 w3 refl (recorder_step e s3 h3) in
    let t4 = (perform (close_peer f) s4).0 in
    let (s5, as5, h5, w5, e5) = next_stretch close_finish [] as4 t4 w4 refl (peer_step f s4 h4) in
    subst (IsAt finished (first_error g f) none) (sym (e1 ∙ e2 ∙ e3 ∙ e4 ∙ e5))
      (last_stretch as5 (perform close_finish s5).0 w5 refl (finish_step s5 h5))

-- No error is met before Close begins.
idle_err :
    (a : Action) (s : Session)
    → ((s.phase ≡ idle) → (s.close_err ≡ none))
    → (perform a s).0.phase ≡ idle
    → (perform a s).0.close_err ≡ none
unfolding perform
idle_err mark s h = ground arith
idle_err _ s h = ground arith

run_idle_err :
    (as' : List Action) (s : Session)
    → ((s.phase ≡ idle) → (s.close_err ≡ none))
    → (run as' s).phase ≡ idle
    → (run as' s).close_err ≡ none
unfolding run
run_idle_err [] s h = h
run_idle_err (a ∷ as') s h = run_idle_err as' (perform a s).0 (idle_err a s h)

run-append : (as' bs : List Action) (s : Session) → run bs (run as' s) ≡ run (as' ++ bs) s
unfolding run
run-append [] bs s = refl
run-append (a ∷ as') bs s = run-append as' bs (perform a s).0

begin_step :
    (s : Session)
    → s.phase ≡ idle
    → s.close_err ≡ none
    → IsAt cancelled none s.recorder (perform close_begin s).0
unfolding perform
begin_step s h e = ground arith

-- What a Close that has come to its end leaves.
pub record IsFinished (recorder e f : Option ℕ) (s : Session) : Type 0 where
  pub over : s.phase ≡ finished
  pub err : s.close_err ≡ first_error (recorder_error recorder e) f
  pub recorders : count is_open s.effects ≡ count is_close s.effects
  pub peer : count is_shut s.effects ≡ 1
  pub terminal : count is_terminal s.effects ≡ 1

-- A Close that begins on any session that is reached, and whose stretches then run in their order,
-- comes to its end, whatever other goroutines, timers, callbacks and calls of Close do between
-- them, and whichever errors it meets: every recorder is closed, the peer connection is closed once
-- and the terminal callback called once, and the error kept is that of the recorder that the
-- session held, or else that of the peer connection.
pub closing_finishes :
    (wanted : Bool) (before as' : List Action) (e f : Option ℕ)
    → let s = run before (new_session wanted) in
      s.phase ≡ idle
      → Weaves (stretches e f) as'
      → IsFinished s.recorder e f (run (close_begin ∷ as') s)
unfolding run
closing_finishes wanted before as' e f i w =
    let s = run before (new_session wanted) in
    let h =
      stretches_finish e f as' (perform close_begin s).0 w
        (begin_step s i (run_idle_err before (new_session wanted) (λ _. refl) i)) in
    let whole = run-append before (close_begin ∷ as') (new_session wanted) in
    let (opens, _, _, _, shuts, calls) =
      finished_clean wanted (before ++ close_begin ∷ as')
        (ap (λ (t : Session). t.phase) (sym whole) ∙ h.at) in
    record {
      over = h.at;
      err = h.met;
      recorders =
          subst (λ (t : Session). count is_open t.effects ≡ count is_close t.effects) (sym whole)
            opens;
      peer = subst (λ (t : Session). count is_shut t.effects ≡ 1) (sym whole) shuts;
      terminal = subst (λ (t : Session). count is_terminal t.effects ≡ 1) (sym whole) calls;
    }
