-- ===== src/Sdp.antt =====
-- internal/rtc/server.go: the rewriting of SDP answers for Alexa, and what the normalisers share.
pub mod RtcpMux
pub mod MediaIds
pub mod Video
pub mod MediaLines
use homebrain.Prelude.{
  ℕ, suc, Bool, true, false, ◌||◌, Option, none, some, List, [], ◌∷◌, ◌≡◌, refl, arith,
  if◌then◌else◌, is_empty,
}
use homebrain.Text.{Text, codes, has_prefix, text_eq}

-- strings.HasPrefix(line, "m=")
abbrev pub is_media_line : Text → Bool
is_media_line line = has_prefix line (codes "m=")

-- The loops `for sectionEnd < len(lines) && !strings.HasPrefix(lines[sectionEnd], "m=")`: the lines
-- behind a media line, up to the next one.
unfoldable pub section_body : List Text → List Text
section_body [] = []
section_body (line ∷ lines) = if is_media_line line then [] else line ∷ section_body lines

pub section_body_media :
    (line : Text) (lines : List Text) → is_media_line line ≡ true → section_body (line ∷ lines) ≡ []
unfolding section_body
section_body_media line lines h = ground arith

pub section_body_line :
    (line : Text) (lines : List Text)
    → is_media_line line ≡ false
    → section_body (line ∷ lines) ≡ line ∷ section_body lines
unfolding section_body
section_body_line line lines h = ground arith

-- A loop that looks for one line.
unfoldable pub has_line : Text → List Text → Bool
has_line wanted [] = false
has_line wanted (line ∷ lines) = text_eq line wanted || has_line wanted lines

-- The loop that looks for the first attribute, from line `index` of the section on.
pub attribute_index : ℕ → List Text → Option ℕ
attribute_index index [] = none
attribute_index index (line ∷ lines) =
    if has_prefix line (codes "a=") then some index else attribute_index (suc index) lines

abbrev pub is_blank_line : Option Text → Bool
is_blank_line none = false
is_blank_line (some line) = is_empty line
