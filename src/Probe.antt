-- ===== src/Probe.antt =====
-- cmd/rtc-probe/main.go: the probe that creates a session, connects to it and deletes it again.
-- runProbe stands over the two interfaces that it takes; its log and its exit code are values.
pub mod Cleanup
pub mod Client
pub mod Peer
pub mod Signals
pub mod Main
pub mod Wire
pub mod NewId
pub mod Leftovers
pub mod Gateway
use homebrain.Prelude.{
  ℕ, Bool, true, false, ◌||◌, Option, none, some, List, [], ◌∷◌, ◌++◌, if◌then◌else◌, is_empty,
}
use homebrain.Text.{Text, codes}

-- The errors that runProbe tells apart, and `other_failure` for the rest.
pub data ProbeError : Type 0 where
  offer_create local_description ice_gathering remote_description : ProbeError
  ice_failed peer_connection_failed connection_timeout other_failure : ProbeError

pub data ClientError : Type 0 where
  create_request invalid_answer : ClientError

-- What probeLogger writes: an event, or an event with a category or a state.
pub data Line : Type 0 where
  event : Text → Line
  category state : Text → Text → Line

-- The results of Create: with an error, whether the session was created.
pub data Created : Type 0 where
  answered : Text → Created
  not_answered : Bool → ClientError → Created

pub data Offered : Type 0 where
  offered : Text → Offered
  not_offered : ProbeError → Offered

-- sessionAPI, over the state of what it talks to. `true` is a failure of Delete.
pub record SessionApi (S : Type 0) : Type 0 where
  pub create : Text → Text → S → S × Created
  pub delete : Text → S → S × Bool

-- peerProbe, over its state; each call says what it logs.
pub record PeerProbe (P : Type 0) : Type 0 where
  pub offer : P → P × List Line × Offered
  pub apply_answer_and_wait : Text → P → P × List Line × Option ProbeError
  pub close : P → P

-- What runProbe leaves behind.
pub record Run (S P : Type 0) : Type 0 where
  pub api : S
  pub peer : P
  pub log : List Line
  pub exit : ℕ

abbrev pub exit_success : ℕ
exit_success = 0

abbrev pub exit_probe_failure : ℕ
exit_probe_failure = 1

abbrev pub exit_cleanup_failure : ℕ
exit_cleanup_failure = 2

-- probeFailureCategory
unfoldable pub failure_category : ProbeError → Text
failure_category offer_create = codes "offer_create"
failure_category local_description = codes "local_description"
failure_category ice_gathering = codes "ice_gathering"
failure_category remote_description = codes "remote_description"
failure_category ice_failed = codes "ice_failed"
failure_category peer_connection_failed = codes "peer_connection_failed"
failure_category connection_timeout = codes "timeout"
failure_category other_failure = []

-- `if category == "" { category = fallback }`
abbrev pub category_or : ProbeError → Text → Text
category_or e fallback = if is_empty (failure_category e) then fallback else failure_category e

abbrev pub probe_failed : Text → Line
probe_failed kind = category (codes "probe_failed") kind

abbrev pub cleanup_failed : Line
cleanup_failed = event (codes "cleanup_failed")

-- reportCleanupFailure
abbrev pub cleanup_report : List Line
cleanup_report = probe_failed (codes "cleanup") ∷ cleanup_failed ∷ []

abbrev pub report_if : Bool → List Line
report_if true = cleanup_report
report_if false = []

abbrev is_invalid_answer : ClientError → Bool
is_invalid_answer invalid_answer = true
is_invalid_answer create_request = false

-- The category of a failed Create.
abbrev pub create_category : Bool → ClientError → Text
create_category created e =
    if created || is_invalid_answer e then codes "answer_invalid" else codes "request"

module _ {S P : Type 0} (api : SessionApi S) (peer : PeerProbe P) (id : Text) where
  abbrev finish : S → P → List Line → ℕ → Run S P
  finish s p log exit = record { api = s; peer = p; log = log; exit = exit }

  -- The end of runProbe, when the peer is connected.
  connected_end : S × Bool → P → List Line → Run S P
  connected_end (s, true) p log = finish s p (log ++ cleanup_report) exit_cleanup_failure
  connected_end (s, false) p log =
      finish s p (log ++ event (codes "probe_succeeded") ∷ []) exit_success

  -- A failure behind which the session is deleted.
  failed_end : S × Bool → P → List Line → Run S P
  failed_end (s, failure) p log = finish s p (log ++ report_if failure) exit_probe_failure

  apply_stage : Option ProbeError → S → P → List Line → Run S P
  apply_stage none s p log =
      connected_end (api.delete id s) p (log ++ event (codes "probe_connected") ∷ [])
  apply_stage (some e) s p log =
      failed_end (api.delete id s) p
        (log ++ probe_failed (category_or e (codes "peer_connection_failed")) ∷ [])

  create_stage : S × Created → P → List Line → Run S P
  create_stage (s, not_answered false e) p log =
      finish s p (log ++ probe_failed (create_category false e) ∷ []) exit_probe_failure
  create_stage (s, not_answered true e) p log =
      failed_end (api.delete id s) p (log ++ probe_failed (create_category true e) ∷ [])
  create_stage (s, answered answer) p log =
      let (p', lines, result) = peer.apply_answer_and_wait answer p in
      apply_stage result s p' ((log ++ event (codes "answer_received") ∷ []) ++ lines)

  offer_stage : P × List Line × Offered → S → Run S P
  offer_stage (p, lines, not_offered e) s =
      finish s p (lines ++ probe_failed (category_or e (codes "offer_create")) ∷ [])
        exit_probe_failure
  offer_stage (p, lines, offered offer) s = create_stage (api.create id offer s) p lines

  -- runProbe; the deferred peer.Close() runs on every return.
  unfoldable pub run_probe : S → P → Run S P
  unfolding offer_stage create_stage apply_stage connected_end failed_end
  run_probe s p = let r = offer_stage (peer.offer p) s in record r { peer = peer.close r.peer }
