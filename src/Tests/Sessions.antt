-- ===== src/Tests/Sessions.antt =====
-- Lives of a session, and of a manager with sessions of one id.
use homebrain.Prelude.{
  ◌≤◌, true, false, none, some, List, [], ◌∷◌, ◌++◌, ◌≡◌, ◌⊎◌, inl, inr, refl, arith,
}
use homebrain.Text.{Text, codes}
use homebrain.Session.{
  Session, Action, disconnected, connected, peer_changed, claim_track, mark, set_expiry,
  grace_passed, close_begin, close_stop_prime, close_take, close_recorder, close_peer, close_finish,
  finished, new_session, perform, run, close_if_still_disconnected,
}
use homebrain.Session.Closing.{
  count, is_open, is_close, is_start, is_shut, is_terminal, finished_clean, run_at_most_once,
}
use homebrain.Session.Finishing.{closing, IsFinished, closing_finishes}
use homebrain.Session.Grace.{stale_timer, lasting_timer, IsArmed, run-IsArmed}
use homebrain.Manager.{
  World, Event, begin, made, attaches, ended, closes, closes_all, holding, start, session_under,
  step,
}
use homebrain.Manager
use homebrain.Manager.Table.{lookup, delete}
use homebrain.Manager.Leaks.{no_session_lost, ended_spares}

-- A recorder is opened, the peer is lost, and Close runs while the callback still fires.
abbrev life : List Action
life =
    claim_track (some 7)
    ∷ set_expiry 3
    ∷ peer_changed connected
    ∷ peer_changed disconnected
    ∷ grace_passed 2
    ∷ (closing (some 1) none ++ (peer_changed disconnected ∷ claim_track (some 8) ∷ []))

life_finished : (run life (new_session true)).phase ≡ finished
unfolding run
life_finished = refl

finished_clean_example :
    let s = run life (new_session true) in
    (count is_open s.effects ≡ count is_close s.effects)
    × (s.recorder ≡ none)
    × (s.disconnect_timer ≡ none)
    × (s.expiry_timer ≡ none)
    × (count is_shut s.effects ≡ 1)
    × (count is_terminal s.effects ≡ 1)
finished_clean_example = finished_clean true life life_finished

run_at_most_once_example :
    let es = (run life (new_session true)).effects in
    (count is_open es ≤ 1)
    × (count is_start es ≤ 1)
    × (count is_shut es ≤ 1)
    × (count is_terminal es ≤ 1)
run_at_most_once_example = run_at_most_once true life

-- A recorder is opened, and Close begins: another call of Close, a change of state, two timers
-- and MarkConnected run between its stretches.
abbrev opening : List Action
opening = claim_track (some 7) ∷ peer_changed disconnected ∷ []

abbrev crowd : List Action
crowd =
    close_begin
    ∷ close_stop_prime
    ∷ peer_changed disconnected
    ∷ close_take
    ∷ grace_passed 2
    ∷ close_recorder (some 1)
    ∷ set_expiry 3
    ∷ close_peer (some 2)
    ∷ close_finish
    ∷ mark
    ∷ []

closing_finishes_example :
    IsFinished
      (some 7)
      (some 1)
      (some 2)
      (run (close_begin ∷ crowd) (run opening (new_session true)))
unfolding run
closing_finishes_example = closing_finishes true opening crowd (some 1) (some 2) refl (
    inr (
      refl,
      inl (
        refl,
        inr (
          refl,
          inl (refl, inr (refl, inl (refl, inr (refl, inl (refl, inl (refl, (refl, tt))))))),
        ),
      ),
    ))

abbrev lost : Session
lost = record (new_session false) {
  disconnect_generation = 1;
  peer_state = disconnected;
  disconnect_timer = some 1;
}

stale_timer_example :
    close_if_still_disconnected 1 (run (peer_changed connected ∷ mark ∷ []) lost)
    ≡ (run (peer_changed connected ∷ mark ∷ []) lost, [])
stale_timer_example =
    stale_timer (peer_changed connected ∷ mark ∷ []) lost (omega arith) (omega arith) (omega arith)

lasting_timer_example :
    ((perform (peer_changed disconnected) lost).0.disconnect_timer ≡ some 2)
    × ((perform
          (grace_passed 2)
          (run (peer_changed disconnected ∷ mark ∷ claim_track none ∷ []) lost)).1
        ≡ close_begin ∷ [])
lasting_timer_example = lasting_timer (mark ∷ claim_track none ∷ []) lost refl (refl, (refl, tt))

run-IsArmed_example : IsArmed (run life (new_session false))
run-IsArmed_example = run-IsArmed false life

abbrev id : Text
id = codes "session-1"

-- The id is taken, closed while NewSession runs, taken again, and both calls go on.
abbrev story : List Event
story = begin id ∷ closes id ∷ begin id ∷ made 0 ∷ made 1 ∷ attaches 0 ∷ attaches 1 ∷ []

no_session_lost_example :
    let w = Manager.run story start in
    (w.shut 0 ≡ true)
    ⊎ ((w.stage (w.owner 0) ≡ holding 0) ⊎ (session_under (w.id_of (w.owner 0)) w.manager ≡ some 0))
unfolding Manager.run lookup delete
no_session_lost_example = no_session_lost story 0 (omega arith)

-- The first session ends late, and the second stays.
ended_spares_example : lookup id (step (ended 0) (Manager.run story start)).manager.table ≡ some 1
unfolding Manager.run lookup delete
ended_spares_example = ended_spares story 0 id 1 refl (omega arith)
