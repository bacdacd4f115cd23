-- ===== src/Probe/Peer.antt =====
-- pionProbe of cmd/rtc-probe/main.go. The peer connection is third-party code: a `Setting` says what
-- its calls answer and which callbacks it makes during Offer and ApplyAnswerAndWait.
use homebrain.Prelude.{
  ℕ, ◌+◌, Bool, not, Option, none, some, List, [], ◌∷◌, ◌++◌, if◌then◌else◌, is_empty,
}
use homebrain.Text.{Text, codes}
use homebrain.Session.{PeerState, is_connected, is_over}
use homebrain.Probe.{
  ProbeError, offer_create, local_description, ice_gathering, remote_description, ice_failed,
  peer_connection_failed, connection_timeout, Line, event, state, Offered, offered, not_offered,
  PeerProbe,
}

-- A callback: the new state of ICE (whether it is Failed) or of the peer connection (with whether
-- ICEConnectionState() is Failed then), and its name.
pub data Callback : Type 0 where
  ice_changed : Bool → Text → Callback
  peer_changed : PeerState → Bool → Text → Callback

-- The channel `connection` holds one result at most; no error is a connection.
pub record Pion : Type 0 where
  pub connection : Option (Option ProbeError)
  pub closed : ℕ  -- how often the peer connection was closed

-- signalConnection
signal_connection : Option ProbeError → Option (Option ProbeError) → Option (Option ProbeError)
signal_connection result none = some result
signal_connection result (some earlier) = some earlier

-- What a callback signals, if anything.
unfoldable pub signal_of : Callback → Option (Option ProbeError)
signal_of (ice_changed failed name) = if failed then some (some ice_failed) else none
signal_of (peer_changed s failed name) =
    if is_connected s
    then some none
    else if is_over s
    then some (some (if failed then ice_failed else peer_connection_failed))
    else none

abbrev line_of : Callback → Line
line_of (ice_changed failed name) = state (codes "ice_connection_state") name
line_of (peer_changed s failed name) = state (codes "peer_connection_state") name

abbrev signal : Option (Option ProbeError) → Option (Option ProbeError) → Option (Option ProbeError)
signal none buffer = buffer
signal (some result) buffer = signal_connection result buffer

unfoldable pub call_back : List Callback → Option (Option ProbeError) → Option (Option ProbeError)
unfolding signal_connection signal_of
call_back [] buffer = buffer
call_back (c ∷ cs) buffer = call_back cs (signal (signal_of c) buffer)

abbrev pub lines_of : List Callback → List Line
lines_of [] = []
lines_of (c ∷ cs) = line_of c ∷ lines_of cs

pub record Setting : Type 0 where
  pub offer_made : Bool
  pub local_set : Bool
  pub gathered : Bool  -- `false`: the select takes ctx.Done()
  pub local : Option Text  -- LocalDescription(), by its SDP
  pub remote_set : Bool
  pub deadline_first : Bool  -- the select takes waitCtx.Done(), also where a result is there
  pub while_offering : List Callback
  pub while_waiting : List Callback

module _ (setting : Setting) where
  -- LocalDescription, behind the gathering.
  local_offer : Option Text → List Line → List Line × Offered
  local_offer none log = (log, not_offered ice_gathering)
  local_offer (some sdp) log =
      if is_empty sdp
      then (log, not_offered ice_gathering)
      else (log ++ event (codes "ice_gathering_completed") ∷ [], offered sdp)

  -- Offer. The callbacks are logged behind its first two events.
  offer : Pion → Pion × List Line × Offered
  unfolding local_offer
  offer p =
      let created = event (codes "offer_created") ∷ [] in
      let set =
        created ++ (event (codes "local_description_set") ∷ lines_of setting.while_offering) in
      let p' = record p { connection = call_back setting.while_offering p.connection } in
      if not setting.offer_made
      then (p, [], not_offered offer_create)
      else if not setting.local_set
      then (p, created, not_offered local_description)
      else if not setting.gathered
      then (p', set, not_offered ice_gathering)
      else (p', (local_offer setting.local set).0, (local_offer setting.local set).1)

  -- The select of ApplyAnswerAndWait. With no result the deadline comes at last.
  pub await_connection : Option (Option ProbeError) → Option ProbeError
  await_connection none = some connection_timeout
  await_connection (some result) =
      if setting.deadline_first then some connection_timeout else result

  -- ApplyAnswerAndWait
  apply_answer_and_wait : Text → Pion → Pion × List Line × Option ProbeError
  unfolding await_connection
  apply_answer_and_wait answer p =
      let buffer = call_back setting.while_waiting p.connection in
      if not setting.remote_set then (p, [], some remote_description) else (
        record p { connection = if setting.deadline_first then buffer else none },
        event (codes "remote_description_applied") ∷ lines_of setting.while_waiting,
        await_connection buffer,
      )

  unfoldable pub pion_probe : PeerProbe Pion
  unfolding offer apply_answer_and_wait
  pion_probe = record {
    offer = offer;
    apply_answer_and_wait = apply_answer_and_wait;
    close = λ p. record p { closed = p.closed + 1 };
  }

-- The first callback that signals anything.
unfoldable pub first_signal : List Callback → Option (Option ProbeError)
first_signal [] = none
first_signal (c ∷ cs) = elim (signal_of c) [ none ↦ first_signal cs | some result ↦ some result ]
