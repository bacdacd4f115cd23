-- ===== src/Sdp/MediaIds.antt =====
-- normalizeAlexaRejectedMediaMIDs of internal/rtc/server.go and its helpers: a rejected media
-- section of the answer gets the a=mid line of the offer's section at the same place.
pub mod Sections
pub mod Inserted
pub mod Offered
use homebrain.Prelude.{
  ℕ, zero, suc, ◌-◌, Bool, true, false, not, ◌&&◌, ◌||◌, Option, none, some, List, [], ◌∷◌, ◌++◌,
  ltb, ◌==◌, if◌then◌else◌, take, drop, slice, length, is_empty, get_elem?,
}
use homebrain.Text.{Text, codes, has_prefix, trim_prefix, text_eq, split, join, fields}
use homebrain.Text.Lines.{line_separator}
use homebrain.Text.Number.{parse_uint}
use homebrain.Sdp.{is_media_line, section_body, attribute_index, is_blank_line}

abbrev pub mid_prefix : Text
mid_prefix = codes "a=mid:"

-- alexaOfferMediaSection
pub record MediaSection : Type 0 where
  pub media_type : Text
  pub mid : Text

-- `_, err := strconv.ParseUint(s, 10, bits)` with no error, and with a number other than 0.
abbrev is_number : ℕ → Text → Bool
is_number bits s = elim (parse_uint s bits) [ none ↦ false | some n ↦ true ]

abbrev is_count : ℕ → Text → Bool
is_count bits s = elim (parse_uint s bits) [ none ↦ false | some n ↦ not (n == 0) ]

-- The tests of alexaMediaLineFields on the parts of the port.
is_port : List Text → Bool
is_port [] = false
is_port (port ∷ []) = if is_empty port then false else is_number 16 port
is_port (port ∷ count ∷ []) =
    if is_empty port then false else if is_number 16 port then is_count 32 count else false
is_port (port ∷ count ∷ more ∷ rest) = false

media_fields : List Text → Option (List Text)
unfolding is_port
media_fields (kind ∷ port ∷ protocol ∷ format ∷ more) =
    if not (has_prefix kind (codes "m=")) || is_empty (trim_prefix kind (codes "m="))
    then none
    else if is_port (split port (codes "/"))
    then some (kind ∷ port ∷ protocol ∷ format ∷ more)
    else none
media_fields _ = none

-- alexaMediaLineFields
unfoldable pub media_line_fields : Text → Option (List Text)
unfolding media_fields
media_line_fields line = media_fields (fields line)

-- fields[0] without "m=", and fields[1]. Valid fields are four at least.
pub media_type_of : List Text → Text
media_type_of [] = []
media_type_of (kind ∷ more) = trim_prefix kind (codes "m=")

pub is_port_zero : List Text → Bool
is_port_zero (kind ∷ port ∷ more) = text_eq port (codes "0")
is_port_zero _ = false

-- The loop that looks for the first a=mid line of an offer's section.
unfoldable pub first_mid : List Text → Text
first_mid [] = []
first_mid (line ∷ lines) =
    if has_prefix line mid_prefix then trim_prefix line mid_prefix else first_mid lines

unfoldable pub section_of : Text → List Text → MediaSection
unfolding media_type_of first_mid
section_of line body = record {
  media_type = elim (media_line_fields line) [ none ↦ [] | some fs ↦ media_type_of fs ];
  mid = first_mid body;
}

-- The loop of alexaOfferMediaSections. `skip` counts the lines that `lineIndex = sectionEnd - 1`
-- passes over.
unfoldable pub sections_from : ℕ → List Text → List MediaSection
sections_from skip [] = []
sections_from (suc skip) (line ∷ lines) = sections_from skip lines
sections_from zero (line ∷ lines) = elim (is_media_line line) [
  | true ↦ let body = section_body lines in section_of line body ∷ sections_from (length body) lines
  | false ↦ sections_from zero lines
]

-- alexaOfferMediaSections
unfoldable pub offer_media_sections : Text → List MediaSection
unfolding sections_from
offer_media_sections offer = sections_from 0 (split offer (line_separator offer))

-- The loop that refuses a section which has an a=mid line.
unfoldable pub has_mid : List Text → Bool
has_mid [] = false
has_mid (line ∷ lines) = has_prefix line mid_prefix || has_mid lines

-- The end of the section, in front of an empty last line.
pub end_index : List Text → ℕ
end_index section =
    let end = length section in
    if ltb 1 end && is_blank_line (get_elem? section (end - 1)) then end - 1 else end

-- The guards on the media line of the answer against the offer's section.
unfoldable pub is_rejected_like : Option (List Text) → MediaSection → Bool
unfolding is_port_zero media_type_of
is_rejected_like none offered = false
is_rejected_like (some fs) offered =
    is_port_zero fs
    && not (is_empty (media_type_of fs))
    && text_eq (media_type_of fs) offered.media_type
    && not (is_empty offered.mid)

-- alexaRejectedMediaMIDInsertAt; `none` is -1.
pub insert_position : List Text → Option MediaSection → Option ℕ
insert_position [] offered = none
insert_position (line ∷ body) none = none
insert_position (line ∷ body) (some offered) =
    if not (is_rejected_like (media_line_fields line) offered)
    then none
    else if has_mid body
    then none
    else elim (attribute_index 1 body) [ none ↦ some (end_index (line ∷ body)) | some i ↦ some i ]

-- One round of the loop over the sections.
unfoldable pub edit_section : List Text → Option MediaSection → List Text
edit_section section none = section
edit_section section (some offered) = elim (insert_position section (some offered)) [
  | none ↦ section
  | some i ↦ take i section ++ ((mid_prefix ++ offered.mid) ∷ drop i section)
]

-- The indices of the media lines, from line `index` on.
pub section_starts : ℕ → List Text → List ℕ
section_starts index [] = []
section_starts index (line ∷ lines) =
    let rest = section_starts (suc index) lines in if is_media_line line then index ∷ rest else rest

-- sectionEnd: the next section's start, or the end of the lines.
abbrev pub next_start : List ℕ → ℕ → ℕ
next_start [] end = end
next_start (start ∷ starts) end = start

module _ (offered : List MediaSection) (lines : List Text) where
  -- The loop over `sectionStarts`, from section `index` on.
  pub edit_sections : ℕ → List ℕ → List Text
  edit_sections index [] = []
  edit_sections index (start ∷ starts) =
      edit_section (slice lines start (next_start starts (length lines))) (get_elem? offered index)
      ++ edit_sections (suc index) starts

-- What stands between the split and the join.
pub with_media_ids : List MediaSection → List Text → List Text
unfolding edit_sections section_starts
with_media_ids offered lines = elim (section_starts 0 lines) [
  | [] ↦ lines
  | start ∷ starts ↦ take start lines ++ edit_sections offered lines 0 (start ∷ starts)
]

-- The function behind its first guard, with the offer's sections.
unfoldable pub insert_media_ids : List MediaSection → Text → Text
insert_media_ids [] answer = answer
insert_media_ids (section ∷ sections) answer =
    let separator = line_separator answer in
    join (with_media_ids (section ∷ sections) (split answer separator)) separator

unfoldable pub normalize_rejected_media_mids : Text → Text → Text
unfolding sections_from section_of section_body edit_section insert_position is_rejected_like
    has_mid attribute_index end_index with_media_ids insert_media_ids
normalize_rejected_media_mids offer answer = insert_media_ids (offer_media_sections offer) answer
