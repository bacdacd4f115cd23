-- ===== src/Tests/Gateway.antt =====
-- Offers, NewSession and HTTP requests on concrete inputs.
use homebrain.Prelude.{
  true, false, Option, none, some, List, [], ◌∷◌, ◌≡◌, ◌↔◌, ◌⊎◌, inl, refl, arith, Any, All,
}
use homebrain.Text.{Text, codes, split, fields, has_prefix, join, is_blank}
use homebrain.Manager.Table.{lookup}
use homebrain.Text.Number.{pos}
use homebrain.Sdp.{has_line}
use homebrain.Sdp.RtcpMux.{normalize_rtcp_mux_candidates}
use homebrain.Server.Offer.{
  MediaDescription, OffersOpus, IsOther, invalid_sdp, audio_missing, validate_offer,
  validate_offer_iff, validate_offer_errors,
}
use homebrain.Server.Creation.{
  Environment, answered, IsBalanced, normalize_answer, new_session, new_session-IsBalanced,
  new_session_answers, new_session_succeeds,
}
use homebrain.HttpApi.{
  done, refused, other, Request, read, end_of_body, error_response, serve_http, is_authorized,
  is_session_id, route, decode_json, rtc_error,
}
use homebrain.HttpApi.Access.{serve_http_keeps, unauthorized_changes_nothing}
use homebrain.HttpApi.Gateway.{
  Sessions, manager_service, manager_service-IsKept, IsResting, start-IsResting, serve_all,
  requests_lose_no_session,
}
use homebrain.Manager.{start, session_under, step}

abbrev opus_section : MediaDescription
opus_section = record {
  media = codes "audio";
  port = pos 9;
  formats = codes "111" ∷ [];
  attributes = record { key = codes "rtpmap"; content = codes "111 OPUS/48000/2" } ∷ [];
}

abbrev parse_any : Text → Option (List MediaDescription)
parse_any raw = some (opus_section ∷ [])

opus_accepted : validate_offer parse_any [] ≡ none
unfolding validate_offer split fields has_line
opus_accepted = refl

validate_offer_iff_example : (validate_offer parse_any [] ≡ none) ↔ (
    (sections : List MediaDescription) × (parse_any [] ≡ some sections) × Any OffersOpus sections)
validate_offer_iff_example = validate_offer_iff parse_any []

validate_offer_errors_example :
    ((validate_offer parse_any [] ≡ some invalid_sdp) ↔ (parse_any [] ≡ none))
    × ((sections : List MediaDescription)
        → parse_any [] ≡ some sections
        → (validate_offer parse_any [] ≡ some audio_missing) ↔ All IsOther sections)
validate_offer_errors_example = validate_offer_errors parse_any []

abbrev local : Text
local = codes "v=0\r\nm=audio 9 UDP/TLS/RTP/SAVPF 111\r\n"

abbrev calm : Environment
calm = record {
  parse = parse_any;
  valid_candidate = λ _. true;
  expired = false;
  peer_made = true;
  track_made = true;
  track_added = true;
  remote_set = true;
  answer_made = true;
  local_set = true;
  gathered = some (some local);
}

new_session-IsBalanced_example : IsBalanced (new_session calm [])
new_session-IsBalanced_example = new_session-IsBalanced calm []

opus_offered : Any OffersOpus (opus_section ∷ [])
unfolding split fields has_line
opus_offered = inl (refl, refl, inl (refl, (codes "111", codes "OPUS/48000/2", refl, refl, refl)))

-- NewSession answers here.
calm_answered : (new_session calm []).0 ≡ answered (normalize_answer calm.valid_candidate [] local)
calm_answered = new_session_succeeds calm [] local (opus_section ∷ []) refl refl refl opus_offered

new_session_answers_example :
    ((sections : List MediaDescription) × (parse_any [] ≡ some sections) × Any OffersOpus sections)
    × ((sdp : Text) × (calm.gathered ≡ some (some sdp))
        × (normalize_answer calm.valid_candidate [] local
            ≡ normalize_answer calm.valid_candidate [] sdp))
    × (normalize_rtcp_mux_candidates calm.valid_candidate
          (normalize_answer calm.valid_candidate [] local)
        ≡ normalize_answer calm.valid_candidate [] local)
new_session_answers_example =
    new_session_answers calm [] (normalize_answer calm.valid_candidate [] local) calm_answered

abbrev same : Text → Text
same s = s

abbrev make_request : Text → Request
make_request authorization = record {
  method = codes "POST";
  segments = [] ∷ codes "v1" ∷ codes "rtc" ∷ codes "sessions" ∷ [];
  authorization = authorization;
  media_type = some (codes "application/json");
  first_value = read (codes "s-1") (codes "v=0");
  rest = end_of_body;
}

abbrev sessions : Sessions
sessions = record { answer = λ id offer. done local; close = λ s. refused other }

abbrev with_token : Request
with_token = make_request (codes "Bearer t")

abbrev without_token : Request
without_token = make_request (codes "Bearer u")

second_is_refused :
    let w = serve_all sessions same (codes "t") (with_token ∷ []) start in
    (serve_http (manager_service sessions) same (codes "t") with_token w).1
    ≡ error_response 409 (codes "session_exists")
unfolding serve_all manager_service serve_http is_session_id route decode_json rtc_error join
    is_authorized is_blank lookup step
second_is_refused = refl

unauthorized_changes_nothing_example :
    ((serve_http (manager_service sessions) same (codes "t") without_token start).0 ≡ start)
    × (has_prefix (join without_token.segments (codes "/")) (codes "/v1/") ≡ true
        → (serve_http (manager_service sessions) same (codes "t") without_token start).1
          ≡ error_response 401 (codes "unauthorized"))
unfolding is_authorized
unauthorized_changes_nothing_example =
    unauthorized_changes_nothing (manager_service sessions) same (codes "t") without_token start
      refl

requests_lose_no_session_example :
    let w = serve_all sessions same (codes "t") (with_token ∷ without_token ∷ []) start in
    (w.shut 0 ≡ true) ⊎ (session_under (w.id_of (w.owner 0)) w.manager ≡ some 0)
unfolding serve_all manager_service serve_http is_session_id is_authorized route decode_json join
    is_blank lookup step
requests_lose_no_session_example =
    requests_lose_no_session sessions same (codes "t") (with_token ∷ without_token ∷ []) 0
      (omega arith)

serve_http_keeps_example :
    IsResting (serve_http (manager_service sessions) same (codes "t") with_token start).0
serve_http_keeps_example =
    serve_http_keeps (manager_service sessions) IsResting (manager_service-IsKept sessions) same
      (codes "t") with_token start start-IsResting
