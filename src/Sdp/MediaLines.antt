-- ===== src/Sdp/MediaLines.antt =====
-- What the normalisers of internal/rtc/server.go do to the media lines of an answer.
pub mod Fields
pub mod Cuts
pub mod Renamed
pub mod Spans
pub mod Breaks
pub mod Sections
pub mod Video
pub mod Written
pub mod Mids
pub mod Texts
use homebrain.Prelude.{
  ℕ, zero, suc, Bool, true, false, List, [], ◌∷◌, ◌++◌, ◌≡◌, refl, sym, ap, ◌∙◌, arith, Option,
  none, some, if◌then◌else◌, get_elem?, Bool-cases, inl, inr,
}
use homebrain.Text.{Text}
use homebrain.Sdp.{is_media_line, section_body}
use homebrain.Sdp.MediaIds.{MediaSection, mid_prefix, edit_section, insert_position, with_media_ids}
use homebrain.Sdp.MediaIds.Sections.{groups, edited, with_media_ids-edited}
use homebrain.Sdp.MediaIds.Offered.{edited_nothing}
use homebrain.Sdp.RtcpMux.{remove_candidates}
use homebrain.Sdp.RtcpMux.Sections.{is_muxed, without_rtcp, remove_candidates-without_rtcp}
use homebrain.Sdp.Video.{insert_line}

-- The media lines, one for each section.
abbrev pub media_lines : List Text → List Text
media_lines [] = []
media_lines (line ∷ lines) =
    let rest = media_lines lines in if is_media_line line then line ∷ rest else rest

pub media_lines-append :
    (xs ys : List Text) → media_lines (xs ++ ys) ≡ media_lines xs ++ media_lines ys
media_lines-append [] ys = refl
media_lines-append (x ∷ xs) ys = ground (arith, media_lines-append xs ys)

pub media_lines-insert :
    (i : ℕ) (line : Text) (xs : List Text)
    → is_media_line line ≡ false
    → media_lines (insert_line i line xs) ≡ media_lines xs
media_lines-insert zero line xs h = ground arith
media_lines-insert (suc i) line [] h = ground arith
media_lines-insert (suc i) line (x ∷ xs) h = ground (arith, media_lines-insert i line xs)

media_lines-without_rtcp :
    (valid : Text → Bool) (muxed : Bool) (lines : List Text)
    → media_lines (without_rtcp valid muxed lines) ≡ media_lines lines
unfolding without_rtcp
media_lines-without_rtcp valid muxed [] = refl
media_lines-without_rtcp valid muxed (line ∷ lines) = ground (
  arith,
  media_lines-without_rtcp valid muxed lines,
  media_lines-without_rtcp valid (is_muxed line (section_body lines)) lines,
)

media_lines-edit_section :
    (section : List Text) (offered : Option MediaSection)
    → media_lines (edit_section section offered) ≡ media_lines section
unfolding edit_section
media_lines-edit_section section none = refl
media_lines-edit_section section (some offered) = go (insert_position section (some offered))
  where
    go :
        (i : Option ℕ)
        → media_lines
            (elim i [ none ↦ section | some k ↦ insert_line k (mid_prefix ++ offered.mid) section ])
          ≡ media_lines section
    go none = refl
    go (some k) = media_lines-insert k (mid_prefix ++ offered.mid) section refl

media_lines-edited :
    (offered : List MediaSection) (index : ℕ) (sections : List (List Text))
    → media_lines (edited offered index sections) ≡ media_lines (edited [] index sections)
unfolding edited edit_section
media_lines-edited offered index [] = refl
media_lines-edited offered index (section ∷ sections) =
    media_lines-append (edit_section section (get_elem? offered index)) _
    ∙ ap (λ (ls : List Text). ls ++ media_lines (edited offered (suc index) sections))
        (media_lines-edit_section section (get_elem? offered index))
    ∙ ap (λ (ls : List Text). media_lines section ++ ls)
        (media_lines-edited offered (suc index) sections)
    ∙ sym (media_lines-append section _)

pub media_lines-with_media_ids :
    (offered : List MediaSection) (lines : List Text)
    → media_lines (with_media_ids offered lines) ≡ media_lines lines
media_lines-with_media_ids offered lines =
    ap media_lines (with_media_ids-edited offered lines)
    ∙ media_lines-append (section_body lines) (edited offered 0 (groups lines))
    ∙ ap (λ (ls : List Text). media_lines (section_body lines) ++ ls)
        (media_lines-edited offered 0 (groups lines))
    ∙ sym (media_lines-append (section_body lines) (edited [] 0 (groups lines)))
    ∙ ap media_lines (edited_nothing lines 0)

pub media_lines-remove_candidates :
    (valid : Text → Bool) (lines : List Text)
    → media_lines (remove_candidates valid lines) ≡ media_lines lines
media_lines-remove_candidates valid lines =
    ap media_lines (remove_candidates-without_rtcp valid lines)
    ∙ media_lines-without_rtcp valid false lines
