-- ===== src/Probe/Wire.antt =====
-- How a request of the probe's client reaches internal/httpapi/handler.go. net/http carries it over
-- unchanged: the path behind the base URL is cut at its slashes and each segment unescaped.
use homebrain.Prelude.{
  ℕ, ◌+◌, ◌-◌, ◌*◌, Bool, true, false, not, ◌&&◌, none, some, List, [], ◌∷◌, ◌++◌, ◌≡◌, refl, arith,
  ◌<◌, ◌/◌, ◌%◌, ap, ◌∙◌, All, Bool-cases, inl, inr, leb, ◌==◌, if◌then◌else◌, drop, length,
}
use mathlib.Core.Path.{ap₂}
use homebrain.Text.{Text, codes, split}
use homebrain.HttpApi.{
  Request, Response, error_response, answered, status_is, mux_response, read, not_read, end_of_body,
  is_session_id, all_id_bytes,
}
use homebrain.Probe.Client.{
  Client, hex_digit, is_plain, HttpRequest, HttpResponse, path_escape, sessions_path,
}

-- The inverse of PathEscape, as net/http unescapes a segment.
abbrev hex_value : ℕ → ℕ
hex_value c = if leb c b'9' then c - b'0' else if leb c b'F' then c - 55 else c - 87

pub path_unescape : Text → Text
path_unescape [] = []
path_unescape (c ∷ []) = c ∷ []
path_unescape (c ∷ d ∷ []) = c ∷ d ∷ []
path_unescape (c ∷ d ∷ e ∷ s) = elim (c == b'%') [
  | true ↦ (hex_value d * 16 + hex_value e) ∷ path_unescape s
  | false ↦ c ∷ path_unescape (d ∷ e ∷ s)
]

abbrev unescape_all : List Text → List Text
unescape_all [] = []
unescape_all (s ∷ ss) = path_unescape s ∷ unescape_all ss

unfoldable pub segments_of : Text → List Text
unfolding path_unescape
segments_of path = unescape_all (split path (codes "/"))

unfoldable pub request_of : Text → HttpRequest → Request
request_of base r = record {
  method = r.method;
  segments = segments_of (drop (length base) r.url);
  authorization = r.authorization;
  media_type = r.content_type;
  first_value = elim r.body [ none ↦ not_read | some (id, offer) ↦ read id offer ];
  rest = end_of_body;
}

unfoldable pub response_of : Response → HttpResponse
response_of (error_response status code) = record { status = status; answer_sdp = some [] }
response_of (answered id answer) = record { status = 200; answer_sdp = some answer }
response_of (status_is status) = record { status = 200; answer_sdp = some [] }
response_of mux_response = record { status = 404; answer_sdp = none }

-- A byte, as every character of a text is.
abbrev pub IsByte : ℕ → Type 0
IsByte c = c < 256

no_slash : Text → Bool
no_slash [] = true
no_slash (c ∷ s) = not (c == b'/') && no_slash s

split_plain : (s : Text) → no_slash s ≡ true → split s (codes "/") ≡ s ∷ []
unfolding no_slash split
split_plain [] h = refl
split_plain (c ∷ s) h = ground (arith, split_plain s)

-- The two characters of a byte give it back, and are no slash.
hex_digit-hex_value :
    (n : ℕ) → n < 16 → (hex_value (hex_digit n) ≡ n) × ((hex_digit n == b'/') ≡ false)
hex_digit-hex_value n h = ground arith

path_escape-no_slash : (s : Text) → All IsByte s → no_slash (path_escape s) ≡ true
unfolding path_escape no_slash
path_escape-no_slash [] h = refl
path_escape-no_slash (c ∷ s) (b, h) = elim (Bool-cases (is_plain c)) [
  | inl e ↦ rw (e, path_escape) (ground (arith, e, path_escape-no_slash s h))
  | inr e ↦
      rw (e, path_escape)
        (ground (
          arith,
          path_escape-no_slash s h,
          (hex_digit-hex_value (c / 16) (omega arith)).1,
          (hex_digit-hex_value (c % 16) (omega arith)).1,
        ))
]

path_unescape_plain :
    (c : ℕ) (s : Text) → (c == b'%') ≡ false → path_unescape (c ∷ s) ≡ c ∷ path_unescape s
unfolding path_unescape
path_unescape_plain c [] h = refl
path_unescape_plain c (d ∷ []) h = refl
path_unescape_plain c (d ∷ e ∷ s) h = rw (h, path_unescape) refl

plain_byte : (c : ℕ) → is_plain c ≡ true → (c == b'%') ≡ false
plain_byte c h = ground arith

path_unescape_hex :
    (d e : ℕ) (s : Text)
    → path_unescape (b'%' ∷ d ∷ e ∷ s) ≡ (hex_value d * 16 + hex_value e) ∷ path_unescape s
unfolding path_unescape
path_unescape_hex d e s = refl

hex_byte :
    (c : ℕ) → c < 256 → hex_value (hex_digit (c / 16)) * 16 + hex_value (hex_digit (c % 16)) ≡ c
hex_byte c h = omega (
  arith,
  (hex_digit-hex_value (c / 16) (omega arith)).0,
  (hex_digit-hex_value (c % 16) (omega arith)).0,
)

-- Unescaping an escaped text gives it back.
path_unescape-path_escape : (s : Text) → All IsByte s → path_unescape (path_escape s) ≡ s
unfolding path_escape
path_unescape-path_escape [] h = unfold path_unescape in refl
path_unescape-path_escape (c ∷ s) (b, h) = elim (Bool-cases (is_plain c)) [
  | inl e ↦
      rw (e, path_escape)
        (path_unescape_plain c (path_escape s) (plain_byte c e)
          ∙ ap (◌∷◌ c) (path_unescape-path_escape s h))
  | inr e ↦
      rw (e, path_escape)
        (path_unescape_hex (hex_digit (c / 16)) (hex_digit (c % 16)) (path_escape s)
          ∙ ap₂ (λ (d : ℕ) (r : Text). d ∷ r) (hex_byte c b) (path_unescape-path_escape s h))
]

pub create_segments :
    segments_of sessions_path ≡ [] ∷ codes "v1" ∷ codes "rtc" ∷ codes "sessions" ∷ []
unfolding segments_of split
create_segments = refl

-- The path of a session comes back as the segments that name it.
pub session_segments :
    (id : Text)
    → All IsByte id
    → segments_of (sessions_path ++ (codes "/" ++ path_escape id))
      ≡ [] ∷ codes "v1" ∷ codes "rtc" ∷ codes "sessions" ∷ id ∷ []
unfolding segments_of split
session_segments id h =
    rw (split_plain (path_escape id) (path_escape-no_slash id h))
      (rw (path_unescape-path_escape id h) refl)

id_bytes : (s : Text) → all_id_bytes s ≡ true → All IsByte s
id_bytes [] h = tt
id_bytes (c ∷ s) h = (ground arith, id_bytes s (ground arith))

pub session_id_bytes : (id : Text) → is_session_id id ≡ true → All IsByte id
unfolding is_session_id
session_id_bytes [] h = tt
session_id_bytes (c ∷ s) h = id_bytes (c ∷ s) (ground arith)
