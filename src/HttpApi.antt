-- ===== src/HttpApi.antt =====
-- internal/httpapi/handler.go: authorisation, routing, and the handlers over an interface of
-- sessions. A request comes as net/http reads it: its path in segments (the text between the
-- slashes of a clean path, each unescaped), and what the decoders of the media type and of the
-- body answer. The digest of a token, SHA-256 in the source, is an argument.
pub mod Access
pub mod Gateway
use homebrain.Prelude.{
  ℕ, ◌+◌, Bool, true, false, not, ◌&&◌, ◌||◌, Option, none, some, List, [], ◌∷◌, leb, ◌==◌,
  if◌then◌else◌, length, is_empty,
}
use homebrain.Text.{Text, codes, text_eq, has_prefix, trim_prefix, join, is_blank}
use homebrain.Recording.{is_alphanumeric}

-- What `errors.Is` tells apart of an error of the service.
pub data ServiceError : Type 0 where
  invalid_sdp opus_required session_exists session_not_found answer_timeout other : ServiceError

pub data Answer (A : Type 0) : Type 0 where
  done : A → Answer A
  refused : ServiceError → Answer A

-- SessionService, over the state that an implementation keeps.
pub record SessionService (S : Type 0) : Type 0 where
  pub create : Text → Text → S → S × Answer Text
  pub mark_connected : Text → S → S × Answer Unit
  pub close : Text → S → S × Answer Unit

-- The two calls of decoder.Decode: the request, and what follows it.
pub data FirstValue : Type 0 where
  read : Text → Text → FirstValue  -- sessionId and offerSdp
  first_too_large not_read : FirstValue

pub data Rest : Type 0 where
  end_of_body rest_too_large trailing : Rest

pub record Request : Type 0 where
  pub method : Text
  pub segments : List Text
  pub authorization : Text
  pub media_type : Option Text  -- `none` where mime.ParseMediaType fails
  pub first_value : FirstValue
  pub rest : Rest

-- A JSON response: an error by its status and code, or what the handler writes with status 200.
pub data Response : Type 0 where
  error_response : ℕ → Text → Response
  answered : Text → Text → Response
  status_is : Text → Response
  mux_response : Response  -- the ServeMux answers: not found, or a redirection

pub data Route : Type 0 where
  health_route sessions_route unknown_route elsewhere : Route
  connected_route session_route : Text → Route

-- sessionIDPattern
abbrev pub is_id_byte : ℕ → Bool
is_id_byte c = is_alphanumeric c || c == b'_' || c == b'.' || c == b'-'

abbrev pub all_id_bytes : Text → Bool
all_id_bytes [] = true
all_id_bytes (c ∷ s) = is_id_byte c && all_id_bytes s

unfoldable pub is_session_id : Text → Bool
is_session_id [] = false
is_session_id (c ∷ s) = is_alphanumeric c && all_id_bytes s && leb (length s) 127

-- The patterns of New, behind "/v1/".
route_v1 : List Text → Route
route_v1 (r ∷ s ∷ []) =
    if text_eq r (codes "rtc") && text_eq s (codes "sessions")
    then sessions_route
    else unknown_route
route_v1 (r ∷ s ∷ id ∷ []) =
    if text_eq r (codes "rtc") && text_eq s (codes "sessions") && not (is_empty id)
    then session_route id
    else unknown_route
route_v1 (r ∷ s ∷ id ∷ c ∷ []) =
    if text_eq r (codes "rtc")
      && text_eq s (codes "sessions")
      && not (is_empty id)
      && text_eq c (codes "connected")
    then connected_route id
    else unknown_route
route_v1 _ = unknown_route

unfoldable pub route : List Text → Route
unfolding route_v1
route (a ∷ b ∷ []) = if is_empty a && text_eq b (codes "healthz") then health_route else elsewhere
route (a ∷ b ∷ c ∷ more) =
    if is_empty a && text_eq b (codes "v1") then route_v1 (c ∷ more) else elsewhere
route _ = elsewhere

abbrev method_not_allowed : Response
method_not_allowed = error_response 405 (codes "method_not_allowed")

abbrev invalid_session_id : Response
invalid_session_id = error_response 400 (codes "invalid_session_id")

-- writeRTCError
unfoldable pub rtc_error : ServiceError → Response
rtc_error invalid_sdp = error_response 400 (codes "invalid_sdp")
rtc_error opus_required = error_response 400 (codes "opus_required")
rtc_error session_exists = error_response 409 (codes "session_exists")
rtc_error session_not_found = error_response 404 (codes "session_not_found")
rtc_error answer_timeout = error_response 504 (codes "answer_timeout")
rtc_error other = error_response 500 (codes "internal_error")

-- decodeJSON, with the response that createSession writes on its error.
pub data Decoded : Type 0 where
  request_is : Text → Text → Decoded
  refused_with : Response → Decoded

unfoldable pub decode_json : FirstValue → Rest → Decoded
decode_json first_too_large rest = refused_with (error_response 413 (codes "request_too_large"))
decode_json not_read rest = refused_with (error_response 400 (codes "invalid_request"))
decode_json (read id offer) end_of_body = request_is id offer
decode_json (read id offer) rest_too_large =
    refused_with (error_response 413 (codes "request_too_large"))
decode_json (read id offer) trailing = refused_with (error_response 400 (codes "invalid_request"))

abbrev is_json : Option Text → Bool
is_json none = false
is_json (some kind) = text_eq kind (codes "application/json")

-- handler.health
unfoldable pub health : Request → Response
health r =
    if not (text_eq r.method (codes "GET")) then method_not_allowed else status_is (codes "ok")

-- handler.authorized
unfoldable pub is_authorized : (Text → Text) → Text → Text → Bool
is_authorized digest token header =
    if not (has_prefix header (codes "Bearer "))
    then false
    else text_eq (digest (trim_prefix header (codes "Bearer "))) (digest token)

module _ {S : Type 0} (service : SessionService S) where
  unfoldable pub respond : {A : Type 0} → (A → Response) → S × Answer A → S × Response
  respond f (s, done a) = (s, f a)
  respond f (s, refused e) = (s, rtc_error e)

  -- handler.createSession, behind decodeJSON
  create_decoded : Decoded → S → S × Response
  unfolding respond
  create_decoded (refused_with response) s = (s, response)
  create_decoded (request_is id offer) s =
      if not (is_session_id id)
      then (s, invalid_session_id)
      else if is_blank offer
      then (s, error_response 400 (codes "invalid_sdp"))
      else respond (answered id) (service.create id offer s)

  -- handler.createSession
  create_session : Request → S → S × Response
  unfolding create_decoded
  create_session r s =
      if not (text_eq r.method (codes "POST"))
      then (s, method_not_allowed)
      else if not (is_json r.media_type)
      then (s, error_response 415 (codes "unsupported_media_type"))
      else create_decoded (decode_json r.first_value r.rest) s

  -- handler.connected
  connected : Text → Request → S → S × Response
  unfolding respond
  connected id r s =
      if not (text_eq r.method (codes "POST"))
      then (s, method_not_allowed)
      else if not (is_session_id id)
      then (s, invalid_session_id)
      else respond (λ _. status_is (codes "ok")) (service.mark_connected id s)

  -- handler.session
  session : Text → Request → S → S × Response
  unfolding respond
  session id r s =
      if not (text_eq r.method (codes "DELETE"))
      then (s, method_not_allowed)
      else if not (is_session_id id)
      then (s, invalid_session_id)
      else respond (λ _. status_is (codes "closed")) (service.close id s)

  -- The handler that the ServeMux calls.
  dispatch : Route → Request → S → S × Response
  unfolding create_session connected session
  dispatch health_route r s = (s, health r)
  dispatch sessions_route r s = create_session r s
  dispatch (connected_route id) r s = connected id r s
  dispatch (session_route id) r s = session id r s
  dispatch unknown_route r s = (s, error_response 404 (codes "not_found"))
  dispatch elsewhere r s = (s, mux_response)

  -- handler.ServeHTTP
  unfoldable pub serve_http : (Text → Text) → Text → Request → S → S × Response
  unfolding dispatch
  serve_http digest token r s =
      if has_prefix (join r.segments (codes "/")) (codes "/v1/")
        && not (is_authorized digest token r.authorization)
      then (s, error_response 401 (codes "unauthorized"))
      else dispatch (route r.segments) r s
