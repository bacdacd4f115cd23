-- ===== src/Probe/Client.antt =====
-- The session client of cmd/rtc-probe/main.go. What goes over the network is a parameter: `send`
-- stands for http.NewRequest and http.Client.Do, and answers with none where one of them fails. A
-- request's body stands for the two members of its JSON object; a response has the member answerSdp
-- of its body, as far as the first megabyte of it decodes.
use homebrain.Prelude.{
  ℕ, ◌+◌, ◌/◌, ◌%◌, Bool, true, false, not, ◌&&◌, ◌||◌, Option, none, some, [], ◌∷◌, ◌++◌, ◌≡◌, ◌≢◌,
  arith, ltb, leb, ◌==◌, if◌then◌else◌, is_empty,
}
use homebrain.Text.{Text, codes, text_eq}
use homebrain.Recording.{is_alphanumeric}
use homebrain.Probe.{
  SessionApi, ClientError, Created, answered, not_answered, create_request, invalid_answer,
}

pub record HttpRequest : Type 0 where
  pub method : Text
  pub url : Text
  pub authorization : Text
  pub content_type : Option Text
  pub body : Option (Text × Text)  -- sessionId and offerSdp

pub record HttpResponse : Type 0 where
  pub status : ℕ
  pub answer_sdp : Option Text  -- `none` where the body is no JSON object

-- sessionClient, without its HTTP client
pub record Client : Type 0 where
  pub base_url : Text
  pub token : Text

-- url.URL by what newSessionClient looks at
pub record Url : Type 0 where
  pub scheme : Text
  pub host : Text
  pub has_user : Bool
  pub raw_query : Text
  pub fragment : Text

-- strings.TrimRight(s, "/")
pub trim_slashes : Text → Text
trim_slashes [] = []
trim_slashes (c ∷ s) =
    let rest = trim_slashes s in if is_empty rest && c == b'/' then [] else c ∷ rest

-- newSessionClient; `none` is errInvalidBaseURL.
unfoldable pub new_session_client : (Text → Option Url) → Text → Text → Option Client
unfolding trim_slashes
new_session_client parse_url base_url token = elim (parse_url base_url) [
  | none ↦ none
  | some u ↦
      if not (text_eq u.scheme (codes "http") || text_eq u.scheme (codes "https"))
        || is_empty u.host
        || u.has_user
        || not (is_empty u.raw_query)
        || not (is_empty u.fragment)
      then none
      else some (record { base_url = trim_slashes base_url; token = token })
]

-- url.PathEscape of a text of bytes
abbrev pub is_plain : ℕ → Bool
is_plain c =
    is_alphanumeric c
    || c == b'-'
    || c == b'_'
    || c == b'.'
    || c == b'~'
    || c == b'$'
    || c == b'&'
    || c == b'+'
    || c == b'='
    || c == b':'
    || c == b'@'

abbrev pub hex_digit : ℕ → ℕ
hex_digit n = if ltb n 10 then b'0' + n else 55 + n

unfoldable pub path_escape : Text → Text
path_escape [] = []
path_escape (c ∷ s) =
    let rest = path_escape s in
    if is_plain c then c ∷ rest else b'%' ∷ hex_digit (c / 16) ∷ hex_digit (c % 16) ∷ rest

abbrev pub sessions_path : Text
sessions_path = codes "/v1/rtc/sessions"

abbrev pub bearer : Text → Text
bearer token = codes "Bearer " ++ token

-- The requests of Create and Delete.
unfoldable pub create_http : Client → Text → Text → HttpRequest
create_http c id offer = record {
  method = codes "POST";
  url = c.base_url ++ sessions_path;
  authorization = bearer c.token;
  content_type = some (codes "application/json");
  body = some (id, offer);
}

unfoldable pub delete_http : Client → Text → HttpRequest
unfolding path_escape
delete_http c id = record {
  method = codes "DELETE";
  url = c.base_url ++ (sessions_path ++ (codes "/" ++ path_escape id));
  authorization = bearer c.token;
  content_type = none;
  body = none;
}

abbrev pub is_success : ℕ → Bool
is_success status = not (ltb status 200 || leb 300 status)

-- What Create makes of the payload.
created_of : Option Text → Created
created_of none = not_answered true invalid_answer
created_of (some answer) =
    if is_empty answer then not_answered true invalid_answer else answered answer

pub created_response : Option HttpResponse → Created
unfolding created_of
created_response none = not_answered false create_request
created_response (some r) =
    if not (is_success r.status) then not_answered false create_request else created_of r.answer_sdp

pub deleted_response : Option HttpResponse → Bool
deleted_response none = true
deleted_response (some r) = not (is_success r.status)

created_of-created : (a : Option Text) (e : ClientError) → created_of a ≢ not_answered false e
unfolding created_of
created_of-created none e = ground arith
created_of-created (some a) e = ground arith

-- A response says that there is no session only if its status is none of success.
pub created_response-not_created :
    (r : HttpResponse) (e : ClientError)
    → created_response (some r) ≡ not_answered false e
    → is_success r.status ≡ false
unfolding created_response
created_response-not_created r e h = ground (arith, created_of-created r.answer_sdp e)

pub deleted_response-deleted :
    (r : HttpResponse) → deleted_response (some r) ≡ false → is_success r.status ≡ true
unfolding deleted_response
deleted_response-deleted r h = ground arith

module _ {S : Type 0} (send : HttpRequest → S → S × Option HttpResponse) (client : Client) where
  -- sessionClient.Create and sessionClient.Delete
  unfoldable pub session_client : SessionApi S
  unfolding create_http delete_http created_response deleted_response
  session_client = record {
    create = λ id offer s.
        let (s', response) = send (create_http client id offer) s in
        (s', created_response response);
    delete = λ id s.
        let (s', response) = send (delete_http client id) s in (s', deleted_response response);
  }
