-- ===== src/Process/Shutdown.antt =====
-- What the gateway's process leaves behind when it ends.
use homebrain.Prelude.{
  ℕ, ◌<◌, Bool, true, Option, none, some, List, [], ◌∷◌, ◌++◌, ◌≡◌, ◌≢◌, ◌⊎◌, ◌↔◌, refl, arith, inl,
  inr, Bool-cases, sym, ap, ◌∙◌, Option-cases,
}
use homebrain.Text.{Text}
use homebrain.Text.Number.{ℤ}
use homebrain.Config.{load}
use homebrain.Server.Options.{Made, Server, ServerError, refused, made, new_server, options_of}
use homebrain.Manager.Leaks.{closes_all-empty, closes_all_shuts}
use homebrain.Config.Valid.{Loaded-cases}
use homebrain.Manager.{
  close_session, close_sessions, close_all_section, Stage, World, Event, closes_all, holding, start,
  step,
}
use homebrain.Manager
use homebrain.Process.{
  Call, closes_server, Failure, is_deadline, forgive, error_join, HttpServer, wait_stage,
  shutdown_stage, shutdown_http_server, Wake, serve_ended, stopped, Surroundings, serve_stage,
  world_stopped, run,
}

-- Shutdown went well, or ran out of time and Close went well.
abbrev pub HasShut : HttpServer → Type 0
HasShut server =
    (server.shutdown ≡ none)
    ⊎ ((e : Failure) × (server.shutdown ≡ some e) × (is_deadline e ≡ true) × (server.close ≡ none))

-- Serve returned in time, with no error but http.ErrServerClosed.
abbrev pub HasServed : HttpServer → Type 0
HasServed server = (e : Option Failure) × (server.served ≡ some e) × (forgive e ≡ none)

error_join-none : (a b : Option Failure) → error_join a b ≡ none ↔ (a ≡ none) × (b ≡ none)
error_join-none none none = (λ _. (refl, refl), λ _. refl)
error_join-none (some e) none = (λ h. absurd (ground arith), λ h. absurd (ground arith))
error_join-none none (some e) = (λ h. absurd (ground arith), λ h. absurd (ground arith))
error_join-none (some e) (some f) = (λ h. absurd (ground arith), λ h. absurd (ground arith))

wait_stage-none :
    (server : HttpServer) (served : Option (Option Failure)) (e : Option Failure)
    (calls : List Call)
    → server.served ≡ served
    → (wait_stage served e calls).1 ≡ none ↔ (e ≡ none) × HasServed server
unfolding wait_stage
wait_stage-none server none e calls k =
    (λ h. absurd (ground arith), λ (_, (f, s, _)). absurd (cc (k, s)))
wait_stage-none server (some served) e calls k =
    let (to, from) = error_join-none e (forgive served) in
    (λ h. ((to h).0, (served, k, (to h).1)), λ (n, (f, s, g)). from (n, ground (arith, k, s, g)))

shutdown_stage-none :
    (server : HttpServer) (shutdown : Option Failure) (calls : List Call)
    → server.shutdown ≡ shutdown
    → (shutdown_stage server calls shutdown).1 ≡ none ↔ HasShut server × HasServed server
unfolding shutdown_stage
shutdown_stage-none server none calls k =
    let (to, from) = wait_stage-none server server.served none calls refl in
    (λ h. (inl k, (to h).1), λ (_, s). from (refl, s))
shutdown_stage-none server (some e) calls k = elim (Option-cases server.close) [
  | inr (f, c) ↦ rw c (λ h. absurd (ground arith), λ (h, _). absurd (ground (arith, h)))
  | inl c ↦ rw c (elim (Bool-cases (is_deadline e)) [
    | inl d ↦ rw d (
        let (to, from) =
          wait_stage-none server server.served none (calls ++ closes_server ∷ []) refl in
        (λ h. (inr (e, k, d, refl), (to h).1), λ (_, s). from (refl, s)))
    | inr d ↦ rw d (
        let (to, from) =
          wait_stage-none server server.served (some e) (calls ++ closes_server ∷ []) refl in
        (λ h. absurd (ground (arith, (to h).0)), λ (h, _). absurd (ground (arith, h))))
  ])
]

-- shutdownHTTPServer reports no error exactly if Serve returned in time, with no error but
-- http.ErrServerClosed, and Shutdown went well, or ran out of time and Close went well.
pub shutdown_http_server_iff :
    (server : HttpServer) (timeout : ℤ)
    → (shutdown_http_server server timeout).1 ≡ none ↔ HasShut server × HasServed server
unfolding shutdown_http_server
shutdown_http_server_iff server timeout = shutdown_stage-none server server.shutdown _ refl

-- What `run` leaves of the sessions that were made: none in the table, and each one closed, or
-- still in the hands of its Create call.
pub record IsCleared (w : World) : Type 0 where
  pub empty : w.manager.table ≡ []
  pub closed : (s : ℕ) → s < w.next_session → (w.stage (w.owner s) ≡ holding s) ⊎ (w.shut s ≡ true)

start-IsCleared : IsCleared start
start-IsCleared = record { empty = refl; closed = λ s h. absurd (omega arith) }

closes_all-IsCleared : (es : List Event) → IsCleared (step closes_all (Manager.run es start))
closes_all-IsCleared es = record {
  empty = closes_all-empty (Manager.run es start);
  closed = λ s h. (closes_all_shuts es s h).1;
}

run-append :
    (es fs : List Event) (w : World) → Manager.run fs (Manager.run es w) ≡ Manager.run (es ++ fs) w
unfolding Manager.run
run-append [] fs w = refl
run-append (e ∷ es) fs w = run-append es fs (step e w)

serve_stage-IsCleared :
    (around : Surroundings) (wake : Wake) → IsCleared (serve_stage around wake).world
unfolding serve_stage
serve_stage-IsCleared around (serve_ended e) = closes_all-IsCleared around.while_serving
serve_stage-IsCleared around stopped =
    rw (run-append around.while_serving around.while_stopping start)
      (closes_all-IsCleared (around.while_serving ++ around.while_stopping))

close_sessions-stage : (ss : List ℕ) (w : World) → (close_sessions ss w).stage ≡ w.stage
unfolding close_sessions close_session
close_sessions-stage [] w = refl
close_sessions-stage (s ∷ ss) w = close_sessions-stage ss (close_session s w)

closes_all-stage : (w : World) → (step closes_all w).stage ≡ w.stage
unfolding step
closes_all-stage w =
    close_sessions-stage (close_all_section w.manager).0
      (record w { manager = (close_all_section w.manager).1 })

stopped-stage :
    (around : Surroundings)
    → (serve_stage around stopped).world.stage ≡ (world_stopped around).stage
unfolding serve_stage
stopped-stage around = closes_all-stage (world_stopped around)

Made-cases : (m : Made) → ((e : ServerError) × (m ≡ refused e)) ⊎ ((s : Server) × (m ≡ made s))
Made-cases (refused e) = inl (e, refl)
Made-cases (made s) = inr (s, refl)

module _ (getenv : Text → Text) (is_writable : Text → Bool) (parse : Text → Option ℤ) where
  run_cases :
      (around : Surroundings)
      → ((run around getenv is_writable parse).world ≡ start)
        ⊎ ((run around getenv is_writable parse).world ≡ (serve_stage around around.wake).world)
  unfolding run
  run_cases around = elim (Loaded-cases (load getenv is_writable parse)) [
    | inl (e, h) ↦ rw (h, run) (inl refl)
    | inr (c, h) ↦
        rw (h, run)
          (elim (Made-cases (new_server around.library (options_of c))) [
            | inl (e, k) ↦ rw k (inl refl)
            | inr (server, k) ↦ rw k (elim (Bool-cases around.listening) [
              | inl l ↦ rw l (inr refl)
              | inr l ↦ rw l (inl refl)
            ])
          ])
  ]

  -- However the gateway's process ends, by a configuration that does not load, by a listener that
  -- fails, by an end of Serve or by a signal, and whatever the handlers and the sessions did before:
  -- the table is empty, and every session that was made is closed or held by its Create call.
  pub run-IsCleared :
      (around : Surroundings) → IsCleared (run around getenv is_writable parse).world
  run-IsCleared around = elim (run_cases around) [
    | inl h ↦ rw h start-IsCleared
    | inr h ↦ rw h (serve_stage-IsCleared around around.wake)
  ]

  -- A gateway that is told to stop closes every session that was made, where Shutdown reports no
  -- error and, as it then promises, no handler, so no Create call, is left that holds one.
  pub stopped_run_closes :
      (around : Surroundings) (s : ℕ)
      → around.wake ≡ stopped
      → around.http.shutdown ≡ none
      → (around.http.shutdown ≡ none → (e t : ℕ) → (world_stopped around).stage e ≢ holding t)
      → s < (run around getenv is_writable parse).world.next_session
      → (run around getenv is_writable parse).world.shut s ≡ true
  stopped_run_closes around s wake well returned h = elim ((run-IsCleared around).closed s h) [
    | inr closed ↦ closed
    | inl held ↦ elim (run_cases around) [
      | inl none_made ↦ absurd (omega (arith, ap (λ (w : World). w.next_session) none_made))
      | inr served ↦
          let w = (run around getenv is_writable parse).world in
          let same =
            ap (λ (v : World). v.stage (w.owner s)) served
            ∙ ap (λ (k : Wake). (serve_stage around k).world.stage (w.owner s)) wake
            ∙ ap (λ (f : ℕ → Stage). f (w.owner s)) (stopped-stage around) in
          absurd (returned well (w.owner s) s (sym same ∙ held))
    ]
  ]
