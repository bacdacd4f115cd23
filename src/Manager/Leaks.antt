-- ===== src/Manager/Leaks.antt =====
-- What the invariant of a Manager means for the sessions: none is lost, and none is closed for
-- another.
use homebrain.Prelude.{ℕ, ◌<◌, true, none, some, List, [], ◌∷◌, ◌≡◌, ◌≢◌, ◌⊎◌, refl, arith}
use homebrain.Text.{Text, text_eq_iff, text_eq_refl}
use homebrain.Manager.Table.{lookup, delete, lookup-nil, lookup-delete}
use homebrain.Manager.Invariant.{IsSound, nobody, start-IsSound}
use homebrain.Manager.Steps.{run-IsSound, step-IsSound}
use homebrain.Manager.{
  attached_sessions, World, holding, Event, ended, closes, closes_all, start, session_under,
  close_session, close_sessions, close_section, step, run,
}

abbrev reached : List Event → World
reached es = run es start

reached-IsSound : (es : List Event) → IsSound nobody (reached es)
reached-IsSound es = run-IsSound es start start-IsSound

-- Whatever creations, failures, expiries and closes interleave, a session that NewSession made is
-- closed, or its Create call still holds it, or the table has it under its id. None is lost.
pub no_session_lost :
    (es : List Event) (s : ℕ)
    → let w = run es start in
      s < w.next_session
      → (w.shut s ≡ true)
        ⊎ ((w.stage (w.owner s) ≡ holding s)
            ⊎ (session_under (w.id_of (w.owner s)) w.manager ≡ some s))
no_session_lost es s h = ground (arith, (reached-IsSound es).safe s h)

close_session-empty :
    (s : ℕ) (w : World) → w.manager.table ≡ [] → (close_session s w).manager.table ≡ []
unfolding close_session
close_session-empty s w h = ground (arith, lookup-nil (w.id_of (w.owner s)))

close_sessions-empty :
    (ss : List ℕ) (w : World) → w.manager.table ≡ [] → (close_sessions ss w).manager.table ≡ []
unfolding close_sessions
close_sessions-empty [] w h = h
close_sessions-empty (s ∷ ss) w h =
    close_sessions-empty ss (close_session s w) (close_session-empty s w h)

pub closes_all-empty : (w : World) → (step closes_all w).manager.table ≡ []
unfolding step
closes_all-empty w =
    close_sessions-empty (attached_sessions w.manager.slot w.manager.table)
      (record w { manager = record w.manager { table = [] } }) refl

-- CloseAll leaves the table empty, and every session that no Create call holds closed.
pub closes_all_shuts :
    (es : List Event) (s : ℕ)
    → let w = step closes_all (run es start) in
      s < w.next_session
      → (w.manager.table ≡ []) × ((w.stage (w.owner s) ≡ holding s) ⊎ (w.shut s ≡ true))
closes_all_shuts es s h =
    let w = step closes_all (run es start) in
    let empty = closes_all-empty (run es start) in
    let sound = step-IsSound closes_all (run es start) (reached-IsSound es) in
    (empty, ground (arith, empty, sound.safe s h, lookup-nil (w.id_of (w.owner s))))

-- Close takes the id out of the table and closes the session that stood there.
pub closes_shuts :
    (id : Text) (w : World) (s : ℕ)
    → session_under id w.manager ≡ some s
    → (lookup id (step (closes id) w).manager.table ≡ none) × ((step (closes id) w).shut s ≡ true)
unfolding step
closes_shuts id w s e =
    let key = w.id_of (w.owner s) in
    rw (e, step, close_section)
      (
        ground (
          arith,
          lookup-delete id id w.manager.table,
          lookup-delete id key (delete id w.manager.table),
          text_eq_refl id,
        ),
        ground arith,
      )

-- When a session closes by itself, every entry but its own stays in the table, also one that a
-- later Create made under the same id.
pub ended_spares :
    (es : List Event) (s : ℕ) (id : Text) (entry : ℕ)
    → let w = run es start in
      lookup id w.manager.table ≡ some entry
      → entry ≢ w.owner s
      → lookup id (step (ended s) w).manager.table ≡ some entry
unfolding step
ended_spares es s id entry h ne =
    let w = run es start in
    ground (
      arith,
      lookup-delete id (w.id_of (w.owner s)) w.manager.table,
      (reached-IsSound es).keyed id entry,
      text_eq_iff (w.id_of (w.owner s)) id,
    )
