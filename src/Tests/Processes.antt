-- ===== src/Tests/Processes.antt =====
-- Ends of the gateway's process, and a track that is recorded until its session closes.
use homebrain.Prelude.{ℕ, true, false, none, some, List, [], ◌∷◌, ◌≡◌, ◌≢◌, ◌⊎◌, ◌↔◌, refl, arith}
use homebrain.Text.{codes}
use homebrain.Text.Number.{pos, negsuc}
use homebrain.Manager.Table.{lookup, delete}
use homebrain.Server.Options.{new_server, options_of}
use homebrain.Tests.Settings.{environment, writable, no_duration, willing, settings_loaded}
use homebrain.Manager.{step, not_made, begin, made, attaches, Stage, holding}
use homebrain.Manager
use homebrain.Process.{
  is_deadline, is_server_closed, deadline_exceeded, server_closed, HttpServer, Surroundings,
  stopped, shutdown_http_server, run, world_stopped,
}
use homebrain.Process.Shutdown.{
  HasShut, HasServed, shutdown_http_server_iff, IsCleared, run-IsCleared, stopped_run_closes,
}
use homebrain.Recording.{write_rtp, close, new_recorder}
use homebrain.Session.{new_session, is_cancelled}
use homebrain.Session.Track.{
  Turn, record_track, IsRecorded, record_track-IsRecorded, on_track, is_opus, on_track-recorder,
}

abbrev late_server : HttpServer
late_server = record {
  shutdown = some deadline_exceeded;
  close = none;
  served = some (some server_closed);
}

shutdown_http_server_iff_example :
    (shutdown_http_server late_server (negsuc 0)).1 ≡ none
    ↔ HasShut late_server × HasServed late_server
shutdown_http_server_iff_example = shutdown_http_server_iff late_server (negsuc 0)

late_server_stops : (shutdown_http_server late_server (pos 0)).1 ≡ none
unfolding shutdown_http_server is_deadline is_server_closed
late_server_stops = refl

-- One session is made and attached, then a signal comes and every handler returns in time.
abbrev calm : Surroundings
calm = record {
  library = willing;
  listening = true;
  while_serving = begin (codes "a") ∷ made 0 ∷ attaches 0 ∷ [];
  wake = stopped;
  http = record { shutdown = none; close = none; served = some (some server_closed) };
  while_stopping = begin (codes "b") ∷ not_made 1 ∷ [];
  close_all = none;
}

nothing_held : (e t : ℕ) → (world_stopped calm).stage e ≢ holding t
unfolding Manager.run step lookup
nothing_held e t = ground arith

one_session : (run calm environment writable no_duration).world.next_session ≡ 1
unfolding run new_server options_of Manager.run step lookup delete shutdown_http_server
one_session = rw (settings_loaded, run) refl

run-IsCleared_example : IsCleared (run calm environment writable no_duration).world
run-IsCleared_example = run-IsCleared environment writable no_duration calm

stopped_run_closes_example : (run calm environment writable no_duration).world.shut 0 ≡ true
stopped_run_closes_example =
    stopped_run_closes environment writable no_duration calm 0 refl refl (λ _. nothing_held)
      (omega (arith, one_session))

abbrev turns : List Turn
turns =
    record { closed_before = false; packet = 4; failure = none }
    ∷ record { closed_before = false; packet = 5; failure = none }
    ∷ record { closed_before = true; packet = 6; failure = none }
    ∷ []

record_track-IsRecorded_example :
    IsRecorded [] (4 ∷ 5 ∷ 6 ∷ []) (record_track true turns new_recorder)
record_track-IsRecorded_example = record_track-IsRecorded true turns new_recorder

two_recorded : (record_track true turns new_recorder).recorder.packets ≡ 4 ∷ 5 ∷ []
unfolding record_track write_rtp close
two_recorded = refl

on_track-recorder_example :
    let x = on_track true (codes "audio/OPUS") (some 3) (new_session true) in
    ((x.2 ≡ none) × (x.0.recorder ≡ none))
    ⊎ ((true ≡ true)
        × (is_opus (codes "audio/OPUS") ≡ true)
        × (false ≡ false)
        × (is_cancelled (new_session true) ≡ false)
        × ((r : ℕ) × (x.2 ≡ some r) × (x.0.recorder ≡ some r) × (x.0.audio_claimed ≡ true)))
on_track-recorder_example = on_track-recorder true (codes "audio/OPUS") (some 3) (new_session true)
