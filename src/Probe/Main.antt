-- ===== src/Probe/Main.antt =====
-- newPionProbeWithLogger, parseIncludeVideo, newSessionID and run of cmd/rtc-probe/main.go. What the
-- WebRTC library answers, the random bytes and url.Parse are arguments.
use homebrain.Prelude.{
  ℕ, ◌+◌, ◌-◌, ◌/◌, ◌%◌, ◌≤◌, Bool, false, not, ◌&&◌, ◌||◌, Option, none, some, List, [], ◌∷◌, ◌++◌,
  ◌≡◌, ltb, if◌then◌else◌, is_empty, refl, arith, Bool-cases, Option-cases, inl, inr,
}
use homebrain.Text.{Text, codes}
use homebrain.Text.Booleans
use homebrain.Probe.{Line, probe_failed, exit_probe_failure, Run, run_probe}
use homebrain.Probe.Client.{
  HttpRequest, HttpResponse, Url, Client, new_session_client, session_client,
}
use homebrain.Probe.Peer.{Pion, Setting, pion_probe}
use homebrain.Probe.Signals.{run_probe_closes}

pub record Library : Type 0 where
  pub opus_registered : Bool
  pub video_registered : Bool
  pub peer_made : Bool
  pub audio_added : Bool
  pub video_added : Bool

-- What newPionProbeWithLogger leaves: the probe, if there is one, and how many peer connections it
-- opened and closed again.
pub record NewProbe : Type 0 where
  pub probe : Option Pion
  pub opened : ℕ
  pub closed : ℕ

abbrev fresh : Pion
fresh = record { connection = none; closed = 0 }

abbrev no_peer : NewProbe
no_peer = record { probe = none; opened = 0; closed = 0 }

abbrev peer_dropped : NewProbe
peer_dropped = record { probe = none; opened = 1; closed = 1 }

-- newPionProbeWithLogger
unfoldable pub new_pion_probe : Library → Bool → NewProbe
new_pion_probe lib include_video =
    if not lib.opus_registered
    then no_peer
    else if include_video && not lib.video_registered
    then no_peer
    else if not lib.peer_made
    then no_peer
    else if not lib.audio_added
    then peer_dropped
    else if include_video && not lib.video_added
    then peer_dropped
    else record { probe = some fresh; opened = 1; closed = 0 }

-- parseIncludeVideo; `none` is errProbeConfig.
unfoldable pub parse_include_video : Text → Option Bool
parse_include_video raw = if is_empty raw then some false else Booleans.parse_bool raw

-- A byte by the verb %x.
abbrev pub hex_digit : ℕ → ℕ
hex_digit n = if ltb n 10 then b'0' + n else b'a' + n - 10

unfoldable pub hex : List ℕ → Text
hex [] = []
hex (b ∷ bytes) = hex_digit (b / 16) ∷ hex_digit (b % 16) ∷ hex bytes

-- newSessionID, with the random bytes
unfoldable pub new_session_id : Option (List ℕ) → Option Text
unfolding hex
new_session_id none = none
new_session_id (some random) = some (codes "rtc-probe-" ++ hex random)

-- What `run` leaves behind.
pub record Outcome (S : Type 0) : Type 0 where
  pub api : S
  pub log : List Line
  pub exit : ℕ
  pub opened : ℕ
  pub closed : ℕ

module _ {S : Type 0} (send : HttpRequest → S → S × Option HttpResponse) where
  abbrev fail : Text → ℕ → ℕ → S → Outcome S
  fail kind opened closed s = record {
    api = s;
    log = probe_failed kind ∷ [];
    exit = exit_probe_failure;
    opened = opened;
    closed = closed;
  }

  abbrev outcome_of : NewProbe → Run S Pion → Outcome S
  outcome_of made r = record {
    api = r.api;
    log = r.log;
    exit = r.exit;
    opened = made.opened;
    closed = made.closed + r.peer.closed;
  }

  -- Behind newPionProbeWithLogger.
  unfoldable pub run_peer : Option Pion → NewProbe → Option Text → Client → Setting → S → Outcome S
  run_peer none made id client setting s = fail (codes "peer") made.opened made.closed s
  run_peer (some p) made none client setting s =
      fail (codes "session") made.opened (made.closed + 1) s
  run_peer (some p) made (some id) client setting s =
      outcome_of made (run_probe (session_client send client) (pion_probe setting) id s p)

  -- run
  unfoldable pub run :
      (Text → Text) → (Text → Option Url) → Library → Option (List ℕ) → Setting → S → Outcome S
  unfolding run_peer
  run getenv parse_url lib random setting s =
      let base_url = getenv (codes "RTC_SERVER_URL") in
      let token = getenv (codes "RTC_SERVER_TOKEN") in
      if is_empty base_url || is_empty token
      then fail (codes "configuration") 0 0 s
      else elim (parse_include_video (getenv (codes "RTC_PROBE_INCLUDE_VIDEO"))) [
        | none ↦ fail (codes "configuration") 0 0 s
        | some include_video ↦ elim (new_session_client parse_url base_url token) [
          | none ↦ fail (codes "configuration") 0 0 s
          | some client ↦
              let made = new_pion_probe lib include_video in
              run_peer made.probe made (new_session_id random) client setting s
        ]
      ]

-- Every peer connection that was opened is closed, and at most one is opened.
pub record IsShut {S : Type 0} (o : Outcome S) : Type 0 where
  pub all_closed : o.closed ≡ o.opened
  pub one : o.opened ≤ 1

-- What newPionProbeWithLogger leaves is closed where there is no probe.
record IsKeeping (m : NewProbe) (p : Option Pion) : Type 0 where
  dropped : p ≡ none → m.closed ≡ m.opened
  held : (q : Pion) → p ≡ some q → (m.opened ≡ 1) × (m.closed ≡ 0) × (q.closed ≡ 0)
  one : m.opened ≤ 1

new_pion_probe-IsKeeping :
    (lib : Library) (v : Bool) → IsKeeping (new_pion_probe lib v) (new_pion_probe lib v).probe
unfolding new_pion_probe
new_pion_probe-IsKeeping lib v = record {
  dropped = ground arith;
  held = ground arith;
  one = ground arith;
}

module _ {S : Type 0} (send : HttpRequest → S → S × Option HttpResponse) where
  run_peer-IsShut :
      (p : Option Pion) (m : NewProbe) (id : Option Text) (client : Client) (setting : Setting)
      (s : S)
      → IsKeeping m p
      → IsShut (run_peer send p m id client setting s)
  unfolding run_peer
  run_peer-IsShut none m id client setting s k = record { all_closed = k.dropped refl; one = k.one }
  run_peer-IsShut (some p) m none client setting s k =
      let (opened, closed, fresh') = k.held p refl in
      record { all_closed = omega arith; one = k.one }
  run_peer-IsShut (some p) m (some id) client setting s k =
      let (opened, closed, fresh') = k.held p refl in
      record {
        all_closed = omega (arith, run_probe_closes (session_client send client) setting id s p);
        one = k.one;
      }

  -- On every path, whatever the configuration, the WebRTC library and the gateway answer, `run`
  -- closes each peer connection that it opened, once, and opens one at most.
  pub run-IsShut :
      (getenv : Text → Text) (parse_url : Text → Option Url) (lib : Library)
      (random : Option (List ℕ)) (setting : Setting) (s : S)
      → IsShut (run send getenv parse_url lib random setting s)
  unfolding run
  run-IsShut getenv parse_url lib random setting s =
      let base_url = getenv (codes "RTC_SERVER_URL") in
      let token = getenv (codes "RTC_SERVER_TOKEN") in
      let video = getenv (codes "RTC_PROBE_INCLUDE_VIDEO") in
      elim (Bool-cases (is_empty base_url || is_empty token)) [
        | inl e ↦ rw e (record { all_closed = refl; one = omega arith })
        | inr e ↦ rw e (elim (Option-cases (parse_include_video video)) [
          | inl f ↦ rw f (record { all_closed = refl; one = omega arith })
          | inr (v, f) ↦ rw f (elim (Option-cases (new_session_client parse_url base_url token)) [
            | inl g ↦ rw g (record { all_closed = refl; one = omega arith })
            | inr (client, g) ↦ rw g (
                run_peer-IsShut (new_pion_probe lib v).probe (new_pion_probe lib v)
                  (new_session_id random) client setting s (new_pion_probe-IsKeeping lib v))
          ])
        ])
      ]
