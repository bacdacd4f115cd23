-- ===== src/Tests/Probing.antt =====
-- Runs of the probe, against a gateway with no sessions.
use homebrain.Prelude.{
  ℕ, true, false, Option, none, some, List, [], ◌∷◌, ◌++◌, ◌≡◌, refl, arith, if◌then◌else◌, All,
}
use homebrain.Text.{Text, codes, text_eq}
use homebrain.HttpApi.{done}
use homebrain.HttpApi.Gateway.{Sessions}
use homebrain.Manager.{start}
use homebrain.Manager.Table.{lookup}
use homebrain.Session.{connected, failed}
use homebrain.Probe.{peer_connection_failed}
use homebrain.Probe.Client.{Client, Url, trim_slashes, path_escape}
use homebrain.Probe.Gateway.{gateway_send}
use homebrain.Probe.Leftovers.{IsLeft, run_leaves_nothing}
use homebrain.Probe.Main.{Library, IsShut, hex, run, run-IsShut}
use homebrain.Probe.NewId.{IsByte}
use homebrain.Probe.Peer.{
  Pion, Setting, ice_changed, peer_changed, pion_probe, signal_of, first_signal,
}
use homebrain.Probe.Signals.{result_of, apply_answer_and_wait-first_signal}

abbrev local_client : Client
local_client = record { base_url = codes "http://gateway:8080/rtc"; token = codes "token" }

-- An id with a slash, a percent sign and a byte above 127.
abbrev odd_id : Text
odd_id = codes "a/b%2F" ++ (200 ∷ [])

escaped : path_escape (codes "a/b c") ≡ codes "a%2Fb%20c"
unfolding path_escape
escaped = refl

-- The connection fails while the probe offers, and is called connected later.
abbrev quarrel : Setting
quarrel = record {
  offer_made = true;
  local_set = true;
  gathered = true;
  local = some (codes "v=0");
  remote_set = true;
  deadline_first = false;
  while_offering =
      ice_changed false (codes "checking") ∷ peer_changed failed false (codes "failed") ∷ [];
  while_waiting = peer_changed connected false (codes "connected") ∷ [];
}

abbrev fresh_peer : Pion
fresh_peer = record { connection = none; closed = 0 }

apply_answer_and_wait-first_signal_example :
    ((pion_probe quarrel).apply_answer_and_wait [] ((pion_probe quarrel).offer fresh_peer).0).2
    ≡ result_of false (first_signal (quarrel.while_offering ++ quarrel.while_waiting))
unfolding pion_probe
apply_answer_and_wait-first_signal_example =
    apply_answer_and_wait-first_signal quarrel fresh_peer (codes "v=0") [] refl refl refl

first_failure :
    first_signal (quarrel.while_offering ++ quarrel.while_waiting)
    ≡ some (some peer_connection_failed)
unfolding first_signal signal_of
first_failure = refl

abbrev environment : Text → Text
environment name =
    if text_eq name (codes "RTC_SERVER_URL")
    then codes "http://gateway/"
    else if text_eq name (codes "RTC_SERVER_TOKEN")
    then codes "t"
    else []

abbrev parse_any_url : Text → Option Url
parse_any_url raw = some (record {
  scheme = codes "http";
  host = codes "gateway";
  has_user = false;
  raw_query = [];
  fragment = [];
})

abbrev willing : Library
willing = record {
  opus_registered = true;
  video_registered = true;
  peer_made = true;
  audio_added = true;
  video_added = true;
}

abbrev zeros : List ℕ
zeros = 0 ∷ 0 ∷ 0 ∷ 0 ∷ 0 ∷ 0 ∷ 0 ∷ 0 ∷ []

zeros_are_bytes : All IsByte zeros
zeros_are_bytes = ground arith

abbrev probe_id : Text
probe_id = codes "rtc-probe-" ++ hex zeros

abbrev accept_all : Sessions
accept_all = record { answer = λ id offer. done (codes "v=0"); close = λ s. done tt }

abbrev gateway_base : Text
gateway_base = trim_slashes (environment (codes "RTC_SERVER_URL"))

run_leaves_nothing_example : IsLeft probe_id (
    run
      (gateway_send accept_all (λ s. s) (codes "t") gateway_base)
      environment
      parse_any_url
      willing
      (some zeros)
      quarrel
      start)
unfolding lookup
run_leaves_nothing_example =
    run_leaves_nothing accept_all (λ s. s) (codes "t") environment parse_any_url willing zeros
      quarrel start zeros_are_bytes refl refl

run-IsShut_example : IsShut (
    run
      (gateway_send accept_all (λ s. s) (codes "t") gateway_base)
      environment
      parse_any_url
      willing
      none
      quarrel
      start)
run-IsShut_example =
    run-IsShut (gateway_send accept_all (λ s. s) (codes "t") gateway_base) environment parse_any_url
      willing none quarrel start
