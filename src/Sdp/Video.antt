-- ===== src/Sdp/Video.antt =====
-- normalizeAlexaRejectedVideoPayloads of internal/rtc/server.go and its helpers: a rejected video
-- section of the answer gets the payload, the rtpmap and the direction that Alexa wants.
pub mod Offered
pub mod Section
pub mod Mappings
use homebrain.Prelude.{
  ℕ, zero, suc, ◌-◌, Bool, true, false, not, ◌&&◌, ◌||◌, Option, none, some, List, [], ◌∷◌, ◌++◌,
  ◌==◌, if◌then◌else◌, take, drop, slice, length, is_empty, get_elem?,
}
use homebrain.Text.{Text, codes, has_prefix, trim_prefix, text_eq, split, join, fields, replace_all}
use homebrain.Text.Lines.{lf, crlf, line_separator}
use homebrain.Sdp.{is_media_line, section_body, attribute_index, is_blank_line}

-- `line[index] == ' ' || line[index] == '\t'`
abbrev pub is_gap : ℕ → Bool
is_gap c = c == b' ' || c == b'\t'

-- The loops of sdpFieldSpans at `index`; `start` is where the field being read begins.
unfoldable pub spans_from : ℕ → Option ℕ → Text → List (ℕ × ℕ)
spans_from index none [] = []
spans_from index (some start) [] = (start, index) ∷ []
spans_from index none (c ∷ s) = spans_from (suc index) (if is_gap c then none else some index) s
spans_from index (some start) (c ∷ s) = elim (is_gap c) [
  | true ↦ (start, index) ∷ spans_from (suc index) none s
  | false ↦ spans_from (suc index) (some start) s
]

-- sdpFieldSpans
unfoldable pub field_spans : Text → List (ℕ × ℕ)
unfolding spans_from
field_spans line = spans_from 0 none line

-- line[span[0]:span[1]]
abbrev pub at_span : Text → ℕ × ℕ → Text
at_span line (start, end) = slice line start end

-- alexaRTPMapPayload
unfoldable pub rtpmap_payload : Text → Option Text
unfolding field_spans
rtpmap_payload line =
    if not (has_prefix line (codes "a=rtpmap:"))
    then none
    else let value = trim_prefix line (codes "a=rtpmap:") in
      elim (field_spans value) [
        | [] ↦ none
        | first ∷ [] ↦ none
        | first ∷ second ∷ more ↦ some (at_span value first)
      ]

-- `payload, ok := alexaRTPMapPayload(line); ok && payload == wanted`
abbrev pub maps : Text → Text → Bool
maps wanted line = elim (rtpmap_payload line) [
  | none ↦ false
  | some payload ↦ text_eq payload wanted
]

-- alexaSectionHasRTPMap
pub section_has_rtpmap : List Text → Text → Bool
section_has_rtpmap [] payload = false
section_has_rtpmap (line ∷ lines) payload = maps payload line || section_has_rtpmap lines payload

-- alexaOfferedVideoPayload
pub record OfferedPayload : Type 0 where
  pub payload : Text
  pub rtpmap : Text

abbrev pub no_payload : OfferedPayload
no_payload = record { payload = []; rtpmap = [] }

-- The loop over fields[3:] that prefers payload 102.
unfoldable pub select_payload : Text → List Text → Text
select_payload selected [] = selected
select_payload selected (payload ∷ payloads) =
    if text_eq payload (codes "102") then payload else select_payload selected payloads

-- The loop that looks for the line of the selected payload, in the section's lines.
unfoldable pub find_rtpmap : Text → List Text → Text
find_rtpmap selected [] = []
find_rtpmap selected (line ∷ lines) =
    if maps selected line then line else find_rtpmap selected lines

unfoldable pub offered_entry : List Text → List Text → OfferedPayload
offered_entry (kind ∷ port ∷ protocol ∷ format ∷ more) body =
    let selected = select_payload format (format ∷ more) in
    record { payload = selected; rtpmap = find_rtpmap selected body }
offered_entry _ body = no_payload

abbrev pub is_video_line : Text → Bool
is_video_line line = has_prefix line (codes "m=video ")

unfoldable pub offered_from : List Text → List OfferedPayload
unfolding offered_entry
offered_from [] = []
offered_from (line ∷ lines) =
    let rest = offered_from lines in
    if is_video_line line then offered_entry (fields line) (section_body lines) ∷ rest else rest

-- alexaOfferedVideoPayloads
unfoldable pub offered_video_payloads : Text → List OfferedPayload
unfolding offered_from select_payload find_rtpmap section_body
offered_video_payloads offer = offered_from (split (replace_all offer crlf lf) lf)

-- The media line of a rejected video section, by its fields.
unfoldable pub rewritten : Text → Text → List (ℕ × ℕ) → Option Text
rewritten line payload (kind ∷ port ∷ protocol ∷ []) =
    if not (text_eq (at_span line kind) (codes "m=video"))
      || not (text_eq (at_span line port) (codes "0"))
    then none
    else let trailing = drop protocol.1 line in
      some
        (take protocol.1 line ++ ((if is_empty trailing then codes " " else trailing) ++ payload))
rewritten line payload (kind ∷ port ∷ protocol ∷ format ∷ []) =
    if not (text_eq (at_span line kind) (codes "m=video"))
      || not (text_eq (at_span line port) (codes "0"))
    then none
    else if not (text_eq (at_span line format) (codes "0"))
    then none
    else some (take format.0 line ++ (payload ++ drop format.1 line))
rewritten line payload _ = none

-- normalizeAlexaRejectedVideoMLine; `none` is "not eligible".
unfoldable pub normalize_video_line : Text → Text → Option Text
unfolding rewritten
normalize_video_line line payload =
    if is_empty payload then none else rewritten line payload (field_spans line)

-- The insertions into `lines`: `last` says that the section ends where the lines end.
pub section_end : Bool → List Text → ℕ
section_end last body =
    if last && is_blank_line (get_elem? body (length body - 1))
    then length body - 1
    else length body

abbrev pub insert_line : ℕ → Text → List Text → List Text
insert_line index line body = take index body ++ (line ∷ drop index body)

abbrev pub or_else : Option ℕ → ℕ → ℕ
or_else none end = end
or_else (some index) end = index

unfoldable pub add_rtpmap : Bool → OfferedPayload → List Text → List Text
add_rtpmap last offered body =
    if not (is_empty offered.rtpmap) && not (section_has_rtpmap body offered.payload)
    then insert_line (or_else (attribute_index 0 body) (section_end last body)) offered.rtpmap body
    else body

abbrev pub inactive : Text
inactive = codes "a=inactive"

abbrev pub is_active : Text → Bool
is_active line =
    text_eq line (codes "a=sendrecv")
    || text_eq line (codes "a=sendonly")
    || text_eq line (codes "a=recvonly")

-- The switch over the lines of the section, and `hasDirection` after it.
unfoldable pub silence_lines : List Text → List Text
silence_lines [] = []
silence_lines (line ∷ lines) = (if is_active line then inactive else line) ∷ silence_lines lines

pub has_direction : List Text → Bool
has_direction [] = false
has_direction (line ∷ lines) = text_eq line inactive || is_active line || has_direction lines

unfoldable pub add_direction : Bool → List Text → List Text
unfolding silence_lines has_direction section_end
add_direction last body =
    let silenced = silence_lines body in
    if has_direction body
    then silenced
    else insert_line (section_end last silenced) inactive silenced

-- All that one round changes behind the media line.
unfoldable pub edit_video_body : Bool → OfferedPayload → List Text → List Text
unfolding add_rtpmap add_direction section_has_rtpmap attribute_index
edit_video_body last offered body = add_direction last (add_rtpmap last offered body)

abbrev pub offered_at : List OfferedPayload → ℕ → OfferedPayload
offered_at offered index = elim (get_elem? offered index) [ none ↦ no_payload | some o ↦ o ]

module _ (offered : List OfferedPayload) where
  -- The loop over the lines. An edited body is written at once; `skip` counts the lines of it that
  -- the loop still passes over. None of those begins with "m=", so the source's loop does nothing
  -- at them either.
  unfoldable pub video_from : ℕ → ℕ → List Text → List Text
  video_from index skip [] = []
  video_from index (suc skip) (line ∷ lines) = video_from index skip lines
  video_from index zero (line ∷ lines) = elim (is_video_line line) [
    | true ↦ elim (normalize_video_line line (offered_at offered index).payload) [
      | none ↦ line ∷ video_from (suc index) zero lines
      | some line' ↦
          let body = section_body lines in
          (line' ∷ edit_video_body (length body == length lines) (offered_at offered index) body)
          ++ video_from (suc index) (length body) lines
    ]
    | false ↦ line ∷ video_from index zero lines
  ]

-- The function behind its first guard, with the offered payloads.
unfoldable pub rewrite_video : List OfferedPayload → Text → Text
unfolding video_from
rewrite_video [] answer = answer
rewrite_video (o ∷ offered) answer =
    let separator = line_separator answer in
    join (video_from (o ∷ offered) 0 0 (split answer separator)) separator

-- normalizeAlexaRejectedVideoPayloads
unfoldable pub normalize_rejected_video_payloads : Text → Text → Text
unfolding rewrite_video section_body
normalize_rejected_video_payloads offer answer = rewrite_video (offered_video_payloads offer) answer
