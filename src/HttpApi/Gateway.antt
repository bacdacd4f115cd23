-- ===== src/HttpApi/Gateway.antt =====
-- cmd/rtc-server/main.go hands the Manager to httpapi.New: the Manager as the service of the HTTP
-- API. The sessions are an argument: what NewSession and Session.Close answer. A call runs here
-- from its beginning to its end; the interleavings of calls are those of the Manager's events.
use homebrain.Prelude.{
  ap, ◌∙◌, ◌≢◌, ℕ, ◌<◌, true, false, refl, none, some, Option, List, [], ◌∷◌, ◌≡◌, ◌⊎◌, arith,
  Option-cases, inl, inr,
}
use homebrain.Text.{Text, text_eq_refl}
use homebrain.Manager.Table.{lookup}
use homebrain.Manager.{
  World, holds, begin, made, not_made, attaches, closes, holding, start, session_under,
  mark_connected, step,
}
use homebrain.Manager.Invariant.{IsSound, nobody, start-IsSound}
use homebrain.Manager.Steps.{step-IsSound}
use homebrain.HttpApi.{
  SessionService, ServiceError, session_exists, session_not_found, Answer, done, refused, Request,
  serve_http,
}
use homebrain.HttpApi.Access.{IsKept, serve_http_keeps}

-- What NewSession answers to an id and an offer, and Close to a session, by its number.
pub record Sessions : Type 0 where
  pub answer : Text → Text → Answer Text
  pub close : ℕ → Answer Unit

-- No Create call holds a session between two requests.
abbrev IsQuiet : World → Type 0
IsQuiet w = (entry s : ℕ) → w.stage entry ≢ holding s

attached-IsQuiet :
    (entry : ℕ) (w : World) → IsQuiet w → IsQuiet (step (attaches entry) (step (made entry) w))
unfolding step
attached-IsQuiet entry w h e s = ground (arith, h e s, h entry)

not_made-IsQuiet : (entry : ℕ) (w : World) → IsQuiet w → IsQuiet (step (not_made entry) w)
unfolding step
not_made-IsQuiet entry w h e s = ground (arith, h e s, h entry)

begin-IsQuiet : (id : Text) (w : World) → IsQuiet w → IsQuiet (step (begin id) w)
unfolding step
begin-IsQuiet id w h e s = ground (arith, h e s)

closes-IsQuiet : (id : Text) (w : World) → IsQuiet w → IsQuiet (step (closes id) w)
unfolding step
closes-IsQuiet id w h e s = ground (arith, h e s)

pub record IsResting (w : World) : Type 0 where
  pub sound : IsSound nobody w
  pub quiet : (entry s : ℕ) → w.stage entry ≢ holding s

pub start-IsResting : IsResting start
start-IsResting = record { sound = start-IsSound; quiet = λ entry s. ground arith }

-- The entry that Create has made is in place when NewSession returns, if nothing else runs.
still_entered :
    (id : Text) (w : World)
    → lookup id w.manager.table ≡ none
    → holds
        (lookup id (step (made w.manager.next_entry) (step (begin id) w)).manager.table)
        w.manager.next_entry
      ≡ true
unfolding step lookup
still_entered id w e = ground (arith, e, text_eq_refl id)

module _ (sessions : Sessions) where
  -- Manager.Create behind its first locked section, which has made this entry for this id.
  create_entered : Text → Answer Text → ℕ → World → World × Answer Text
  create_entered id (refused e) entry w = (step (not_made entry) w, refused e)
  create_entered id (done answer) entry w =
      let created = step (made entry) w in
      (
        step (attaches entry) created,
        elim (holds (lookup id created.manager.table) entry) [
          | true ↦ done answer
          | false ↦ refused session_not_found
        ],
      )

  -- Manager.Create
  create : Text → Text → World → World × Answer Text
  unfolding create_entered
  create id offer w = elim (lookup id w.manager.table) [
    | some entry ↦ (w, refused session_exists)
    | none ↦ create_entered id (sessions.answer id offer) w.manager.next_entry (step (begin id) w)
  ]

  mark_answer : Option ℕ → Answer Unit
  mark_answer none = refused session_not_found
  mark_answer (some s) = done tt

  close_answer : Option ℕ → Answer Unit
  close_answer none = refused session_not_found
  close_answer (some s) = sessions.close s

  -- Manager.MarkConnected and Manager.Close, by whether a session stands under the id.
  unfoldable pub manager_service : SessionService World
  unfolding create mark_answer close_answer
  manager_service = record {
    create = create;
    mark_connected = λ id w. (w, mark_answer (mark_connected id w.manager));
    close = λ id w. (step (closes id) w, close_answer (session_under id w.manager));
  }

  create_absent :
      (id offer : Text) (w : World)
      → lookup id w.manager.table ≡ none
      → create id offer w
        ≡ create_entered id (sessions.answer id offer) w.manager.next_entry (step (begin id) w)
  unfolding create
  create_absent id offer w e = rw (e, create)

  -- Create for an id that nothing stands under, by what NewSession answers.
  pub create-refused :
      (id offer : Text) (w : World) (e : ServiceError)
      → lookup id w.manager.table ≡ none
      → sessions.answer id offer ≡ refused e
      → manager_service.create id offer w
        ≡ (step (not_made w.manager.next_entry) (step (begin id) w), refused e)
  unfolding manager_service
  create-refused id offer w e absent n =
      create_absent id offer w absent
      ∙ ap (λ a. create_entered id a w.manager.next_entry (step (begin id) w)) n

  pub create-done :
      (id offer : Text) (w : World) (answer : Text)
      → lookup id w.manager.table ≡ none
      → sessions.answer id offer ≡ done answer
      → manager_service.create id offer w ≡ (
        step (attaches w.manager.next_entry) (step (made w.manager.next_entry) (step (begin id) w)),
        done answer,
      )
  unfolding manager_service
  create-done id offer w answer absent n =
      create_absent id offer w absent
      ∙ ap (λ a. create_entered id a w.manager.next_entry (step (begin id) w)) n
      ∙ rw (still_entered id w absent) refl

  create_entered-IsResting :
      (id : Text) (a : Answer Text) (entry : ℕ) (w : World)
      → IsResting w
      → IsResting (create_entered id a entry w).0
  unfolding create_entered
  create_entered-IsResting id (refused e) entry w h = record {
    sound = step-IsSound (not_made entry) w h.sound;
    quiet = not_made-IsQuiet entry w h.quiet;
  }
  create_entered-IsResting id (done answer) entry w h = record {
    sound =
        step-IsSound (attaches entry) (step (made entry) w) (step-IsSound (made entry) w h.sound);
    quiet = attached-IsQuiet entry w h.quiet;
  }

  create-IsResting : (id offer : Text) (w : World) → IsResting w → IsResting (create id offer w).0
  unfolding create
  create-IsResting id offer w h = elim (Option-cases (lookup id w.manager.table)) [
    | inl e ↦
        rw (e, create)
          (create_entered-IsResting id (sessions.answer id offer) w.manager.next_entry
            (step (begin id) w)
            (record {
              sound = step-IsSound (begin id) w h.sound;
              quiet = begin-IsQuiet id w h.quiet;
            }))
    | inr (entry, e) ↦ rw (e, create) h
  ]

  pub manager_service-IsKept : IsKept manager_service IsResting
  unfolding manager_service
  manager_service-IsKept = record {
    create = λ id offer w _ h. create-IsResting id offer w h;
    mark = λ id w _ h. h;
    close = λ id w _ h. record {
      sound = step-IsSound (closes id) w h.sound;
      quiet = closes-IsQuiet id w h.quiet;
    };
  }

  -- Requests that are served one after the other.
  unfoldable pub serve_all : (Text → Text) → Text → List Request → World → World
  serve_all digest token [] w = w
  serve_all digest token (r ∷ rs) w =
      serve_all digest token rs (serve_http manager_service digest token r w).0

  serve_all-IsResting :
      (digest : Text → Text) (token : Text) (rs : List Request) (w : World)
      → IsResting w
      → IsResting (serve_all digest token rs w)
  unfolding serve_all
  serve_all-IsResting digest token [] w h = h
  serve_all-IsResting digest token (r ∷ rs) w h =
      serve_all-IsResting digest token rs (serve_http manager_service digest token r w).0
        (serve_http_keeps manager_service IsResting manager_service-IsKept digest token r w h)

  -- Whatever requests the gateway serves one after the other, with whatever methods, paths, tokens
  -- and bodies, and whatever NewSession answers: a session that was made is closed, or it stands in
  -- the table under its id, where a later request can close it.
  pub requests_lose_no_session :
      (digest : Text → Text) (token : Text) (rs : List Request) (s : ℕ)
      → let w = serve_all digest token rs start in
        s < w.next_session
        → (w.shut s ≡ true) ⊎ (session_under (w.id_of (w.owner s)) w.manager ≡ some s)
  requests_lose_no_session digest token rs s h =
      let w = serve_all digest token rs start in
      let resting = serve_all-IsResting digest token rs start start-IsResting in
      ground (arith, resting.sound.safe s h, resting.quiet (w.owner s) s)
