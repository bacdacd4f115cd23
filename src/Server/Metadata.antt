-- ===== src/Server/Metadata.antt =====
-- extractICESDPLogMetadata of internal/rtc/server.go.
use homebrain.Prelude.{
  Bool, true, false, not, ◌&&◌, ◌||◌, List, [], ◌∷◌, ◌++◌, ◌≡◌, refl, arith, if◌then◌else◌,
  Bool-cases, inl, inr, ap, ◌∙◌,
}
use homebrain.Text.{
  Text, codes, has_prefix, trim_prefix, text_eq, text_eq_iff, split, fields, replace_all,
}
use homebrain.Text.Lines.{lf, crlf}
use homebrain.Sdp.{is_media_line, section_body, has_line}

-- iceSDPLogMetadata
pub record LogMetadata : Type 0 where
  pub has_ice_lite : Bool
  pub has_trickle : Bool
  pub bundle_mids : List Text

abbrev pub ice_lite : Text
ice_lite = codes "a=ice-lite"

abbrev pub options_prefix : Text
options_prefix = codes "a=ice-options:"

-- The loop over the options of one line.
abbrev pub lists_trickle : Text → Bool
lists_trickle line = has_line (codes "trickle") (fields (trim_prefix line options_prefix))

-- The guard on a group line, and what it adds.
abbrev is_bundle : List Text → Bool
is_bundle [] = false
is_bundle (f ∷ fs) = text_eq f (codes "a=group:BUNDLE")

abbrev rest_of : List Text → List Text
rest_of [] = []
rest_of (f ∷ fs) = fs

-- One round of the loop at a line that is no media line, with `bundleSeen` and the metadata.
read_line : Bool → LogMetadata → Text → Bool × LogMetadata
read_line seen m line =
    if text_eq line ice_lite
    then (seen, record m { has_ice_lite = true })
    else if has_prefix line options_prefix
    then (seen, record m { has_trickle = lists_trickle line || m.has_trickle })
    else if not seen && is_bundle (fields line)
    then (true, record m { bundle_mids = m.bundle_mids ++ rest_of (fields line) })
    else (seen, m)

-- The loop over the lines.
read_lines : Bool → LogMetadata → List Text → LogMetadata
unfolding read_line
read_lines seen m [] = m
read_lines seen m (line ∷ lines) = elim (is_media_line line) [
  | true ↦ m
  | false ↦ read_lines (read_line seen m line).0 (read_line seen m line).1 lines
]

abbrev no_metadata : LogMetadata
no_metadata = record { has_ice_lite = false; has_trickle = false; bundle_mids = [] }

unfoldable pub extract_log_metadata : Text → LogMetadata
unfolding read_lines
extract_log_metadata raw = read_lines false no_metadata (split (replace_all raw crlf lf) lf)

-- Some line of ice-options lists trickle.
abbrev pub any_trickle : List Text → Bool
any_trickle [] = false
any_trickle (line ∷ lines) =
    (has_prefix line options_prefix && lists_trickle line) || any_trickle lines

abbrev trickles : Text → Bool
trickles line = has_prefix line options_prefix && lists_trickle line

ice_lite_plain : trickles ice_lite ≡ false
ice_lite_plain = refl

read_line-ice_lite :
    (seen : Bool) (m : LogMetadata) (line : Text)
    → (read_line seen m line).1.has_ice_lite ≡ (text_eq line ice_lite || m.has_ice_lite)
unfolding read_line
read_line-ice_lite seen m line = ground arith

read_line-trickle :
    (seen : Bool) (m : LogMetadata) (line : Text)
    → (read_line seen m line).1.has_trickle ≡ (trickles line || m.has_trickle)
unfolding read_line
read_line-trickle seen m line = elim (Bool-cases (text_eq line ice_lite)) [
  | inl e ↦ rw e (rw ((text_eq_iff line ice_lite).0 e) refl)
  | inr e ↦ rw e (elim (Bool-cases (has_prefix line options_prefix)) [
    | inl p ↦ rw p refl
    | inr p ↦ rw p (elim (Bool-cases (not seen && is_bundle (fields line))) [
      | inl q ↦ rw q refl
      | inr q ↦ rw q refl
    ])
  ])
]

or_false : (b : Bool) → b ≡ (b || false)
or_false b = ground arith

or_swap : (a b c : Bool) → ((a || b) || c) ≡ (b || (a || c))
or_swap a b c = ground arith

read_lines-ice_lite :
    (seen : Bool) (m : LogMetadata) (lines : List Text)
    → (read_lines seen m lines).has_ice_lite
      ≡ (m.has_ice_lite || has_line ice_lite (section_body lines))
unfolding read_lines has_line section_body
read_lines-ice_lite seen m [] = or_false m.has_ice_lite
read_lines-ice_lite seen m (line ∷ lines) = elim (Bool-cases (is_media_line line)) [
  | inl e ↦ rw e (or_false m.has_ice_lite)
  | inr e ↦ rw e (
      read_lines-ice_lite (read_line seen m line).0 (read_line seen m line).1 lines
      ∙ ap (λ b. b || has_line ice_lite (section_body lines)) (read_line-ice_lite seen m line)
      ∙ or_swap (text_eq line ice_lite) m.has_ice_lite (has_line ice_lite (section_body lines)))
]

read_lines-trickle :
    (seen : Bool) (m : LogMetadata) (lines : List Text)
    → (read_lines seen m lines).has_trickle ≡ (m.has_trickle || any_trickle (section_body lines))
unfolding read_lines section_body
read_lines-trickle seen m [] = or_false m.has_trickle
read_lines-trickle seen m (line ∷ lines) = elim (Bool-cases (is_media_line line)) [
  | inl e ↦ rw e (or_false m.has_trickle)
  | inr e ↦ rw e (
      read_lines-trickle (read_line seen m line).0 (read_line seen m line).1 lines
      ∙ ap (λ b. b || any_trickle (section_body lines)) (read_line-trickle seen m line)
      ∙ or_swap (trickles line) m.has_trickle (any_trickle (section_body lines)))
]

-- The flags say of the session part of the description alone, the lines before the first media
-- line, whether it has a=ice-lite, and whether an ice-options line of it lists trickle.
pub extract_log_metadata-flags :
    (raw : Text)
    → let session_part = section_body (split (replace_all raw crlf lf) lf) in
      ((extract_log_metadata raw).has_ice_lite ≡ has_line ice_lite session_part)
      × ((extract_log_metadata raw).has_trickle ≡ any_trickle session_part)
unfolding extract_log_metadata
extract_log_metadata-flags raw =
    let lines = split (replace_all raw crlf lf) lf in
    (read_lines-ice_lite false no_metadata lines, read_lines-trickle false no_metadata lines)
