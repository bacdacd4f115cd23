-- ===== src/Server/Creation.antt =====
-- NewSession of internal/rtc/server.go. The WebRTC library, the parser of session descriptions and
-- the clock are the environment: its fields say what they answer in one call.
use homebrain.Prelude.{
  ℕ, ◌+◌, Bool, true, not, ◌&&◌, Option, none, some, List, [], ◌∷◌, ◌≡◌, refl, arith, if◌then◌else◌,
  Any,
}
use homebrain.Text.{Text}
use homebrain.Sdp.RtcpMux.{normalize_rtcp_mux_candidates}
use homebrain.Sdp.RtcpMux.Idempotence.{normalize_rtcp_mux_candidates_idem}
use homebrain.Sdp.MediaIds.{normalize_rejected_media_mids}
use homebrain.Sdp.Video.{normalize_rejected_video_payloads}
use homebrain.Server.Offer.{
  MediaDescription, OfferError, OffersOpus, validate_offer, validate_offer_iff,
}

pub record Environment : Type 0 where
  pub parse : Text → Option (List MediaDescription)
  pub valid_candidate : Text → Bool  -- ice.UnmarshalCandidate accepts
  pub expired : Bool  -- deadlineCtx.Err() != nil at the start
  pub peer_made : Bool
  pub track_made : Bool
  pub track_added : Bool
  pub remote_set : Bool
  pub answer_made : Bool
  pub local_set : Bool
  -- The select: the deadline, or the end of gathering with the local description, if there is one.
  pub gathered : Option (Option Text)

-- The errors, one for each return.
pub data CreationError : Type 0 where
  timed_out : CreationError
  offer_refused : OfferError → CreationError
  peer_failed track_failed add_failed remote_failed answer_failed local_failed : CreationError
  description_missing : CreationError

pub data Outcome : Type 0 where
  failed : CreationError → Outcome
  answered : Text → Outcome

-- What NewSession does to the peer connection and the session, in order. Session.Close closes the
-- session's peer connection.
pub data Deed : Type 0 where
  peer_opened peer_closed session_made session_closed : Deed

-- The three passes over the local description.
unfoldable pub normalize_answer : (Text → Bool) → Text → Text → Text
normalize_answer valid offer answer =
    normalize_rtcp_mux_candidates valid
      (normalize_rejected_media_mids offer (normalize_rejected_video_payloads offer answer))

module _ (env : Environment) (offer : Text) where
  abbrev give_up : CreationError → Outcome × List Deed
  give_up e = (failed e, peer_opened ∷ session_made ∷ session_closed ∷ [])

  -- The select, behind SetLocalDescription.
  await_candidates : Option (Option Text) → Outcome × List Deed
  await_candidates none = give_up timed_out
  await_candidates (some none) = give_up description_missing
  await_candidates (some (some sdp)) =
      (answered (normalize_answer env.valid_candidate offer sdp), peer_opened ∷ session_made ∷ [])

  -- Behind the session's literal.
  negotiate : Outcome × List Deed
  unfolding await_candidates
  negotiate =
      if not env.track_added
      then give_up add_failed
      else if not env.remote_set
      then give_up remote_failed
      else if not env.answer_made
      then give_up answer_failed
      else if not env.local_set
      then give_up local_failed
      else await_candidates env.gathered

  open_peer : Outcome × List Deed
  unfolding negotiate
  open_peer =
      if not env.peer_made
      then (failed peer_failed, [])
      else if not env.track_made
      then (failed track_failed, peer_opened ∷ peer_closed ∷ [])
      else negotiate

  -- NewSession
  unfoldable pub new_session : Outcome × List Deed
  unfolding open_peer
  new_session =
      if env.expired then (failed timed_out, []) else elim (validate_offer env.parse offer) [
        | some e ↦ (failed (offer_refused e), [])
        | none ↦ open_peer
      ]

abbrev opened : Deed → ℕ
opened peer_opened = 1
opened _ = 0

abbrev closed : Deed → ℕ
closed peer_closed = 1
closed session_closed = 1
closed _ = 0

-- Peer connections opened, and closed by NewSession or by its session.
abbrev pub total : (Deed → ℕ) → List Deed → ℕ
total f [] = 0
total f (d ∷ ds) = f d + total f ds

-- A failed call leaves no peer connection open, and a call that answers leaves open the one that
-- its session has, and closes nothing.
pub IsBalanced : Outcome × List Deed → Type 0
IsBalanced (failed e, deeds) = total opened deeds ≡ total closed deeds
IsBalanced (answered a, deeds) = (total opened deeds ≡ 1) × (total closed deeds ≡ 0)

-- Nothing in the environment fails before the candidates are gathered.
abbrev pub all_well : Environment → Bool
all_well env =
    not env.expired
    && env.peer_made
    && env.track_made
    && env.track_added
    && env.remote_set
    && env.answer_made
    && env.local_set

await_candidates-IsBalanced :
    (env : Environment) (offer : Text) (g : Option (Option Text))
    → IsBalanced (await_candidates env offer g)
unfolding await_candidates IsBalanced
await_candidates-IsBalanced env offer none = ground arith
await_candidates-IsBalanced env offer (some none) = ground arith
await_candidates-IsBalanced env offer (some (some sdp)) = ground arith

-- Whatever the environment answers, a failed NewSession leaves no peer connection open, and one
-- that answers leaves open the one of its session and closes nothing.
pub new_session-IsBalanced : (env : Environment) (offer : Text) → IsBalanced (new_session env offer)
unfolding new_session IsBalanced
new_session-IsBalanced env offer =
    ground (arith, await_candidates-IsBalanced env offer env.gathered)

await_candidates_answers :
    (env : Environment) (offer answer : Text) (g : Option (Option Text))
    → (await_candidates env offer g).0 ≡ answered answer
    → (sdp : Text) × (g ≡ some (some sdp))
      × (answer ≡ normalize_answer env.valid_candidate offer sdp)
unfolding await_candidates
await_candidates_answers env offer answer none h = absurd (ground arith)
await_candidates_answers env offer answer (some none) h = absurd (ground arith)
await_candidates_answers env offer answer (some (some sdp)) h = (sdp, refl, ground arith)

open_peer_answers :
    (env : Environment) (offer answer : Text)
    → (open_peer env offer).0 ≡ answered answer
    → (await_candidates env offer env.gathered).0 ≡ answered answer
unfolding open_peer
open_peer_answers env offer answer h = ground arith

new_session_accepts :
    (env : Environment) (offer answer : Text)
    → (new_session env offer).0 ≡ answered answer
    → (validate_offer env.parse offer ≡ none) × ((open_peer env offer).0 ≡ answered answer)
unfolding new_session
new_session_accepts env offer answer h = ground arith

normalize_answer_fixed :
    (valid : Text → Bool) (offer sdp : Text)
    → normalize_rtcp_mux_candidates valid (normalize_answer valid offer sdp)
      ≡ normalize_answer valid offer sdp
unfolding normalize_answer
normalize_answer_fixed valid offer sdp =
    normalize_rtcp_mux_candidates_idem valid
      (normalize_rejected_media_mids offer (normalize_rejected_video_payloads offer sdp))

-- NewSession answers an offer only if it has an open audio section with Opus, and what it answers
-- is the local description after the three passes; the last pass would change nothing any more.
pub new_session_answers :
    (env : Environment) (offer answer : Text)
    → (new_session env offer).0 ≡ answered answer
    → ((sections : List MediaDescription) × (env.parse offer ≡ some sections)
        × Any OffersOpus sections)
      × ((sdp : Text) × (env.gathered ≡ some (some sdp))
          × (answer ≡ normalize_answer env.valid_candidate offer sdp))
      × (normalize_rtcp_mux_candidates env.valid_candidate answer ≡ answer)
new_session_answers env offer answer h =
    let (accepted, opened') = new_session_accepts env offer answer h in
    let (sdp, e, q) =
      await_candidates_answers env offer answer env.gathered
        (open_peer_answers env offer answer opened') in
    (
      (validate_offer_iff env.parse offer).0 accepted,
      (sdp, e, q),
      rw q (normalize_answer_fixed env.valid_candidate offer sdp),
    )

open_peer_succeeds :
    (env : Environment) (offer sdp : Text)
    → all_well env ≡ true
    → env.gathered ≡ some (some sdp)
    → validate_offer env.parse offer ≡ none
    → (new_session env offer).0 ≡ answered (normalize_answer env.valid_candidate offer sdp)
unfolding new_session
open_peer_succeeds env offer sdp well e accepted = ground arith

-- NewSession answers every offer that parses and has an open audio section with Opus, where nothing
-- in the environment fails and gathering ends before the deadline.
pub new_session_succeeds :
    (env : Environment) (offer sdp : Text) (sections : List MediaDescription)
    → all_well env ≡ true
    → env.gathered ≡ some (some sdp)
    → env.parse offer ≡ some sections
    → Any OffersOpus sections
    → (new_session env offer).0 ≡ answered (normalize_answer env.valid_candidate offer sdp)
new_session_succeeds env offer sdp sections well e p opus =
    open_peer_succeeds env offer sdp well e
      ((validate_offer_iff env.parse offer).1 (sections, p, opus))
