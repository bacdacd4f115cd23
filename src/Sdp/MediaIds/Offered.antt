-- ===== src/Sdp/MediaIds/Offered.antt =====
-- alexaOfferMediaSections against the sections of the offer, and the whole normaliser.
use homebrain.Prelude.{
  ℕ, suc, true, false, List, [], ◌∷◌, ◌++◌, ◌≡◌, refl, sym, ap, ◌∙◌, inl, inr, arith, length,
  Bool-cases,
}
use homebrain.Text.{Text, split, join}
use homebrain.Text.Lines.{line_separator, line_separator-ne-nil, join-split}
use homebrain.Sdp.{is_media_line, section_body, section_body_media, section_body_line}
use homebrain.Sdp.MediaIds.{
  MediaSection, section_of, sections_from, offer_media_sections, edit_section, insert_media_ids,
  normalize_rejected_media_mids,
}
use homebrain.Sdp.MediaIds.Sections.{
  groups, groups_media, groups_line, edited, with_media_ids-edited,
}

sections_from_media :
    (line : Text) (lines : List Text)
    → is_media_line line ≡ true
    → sections_from 0 (line ∷ lines)
      ≡ section_of line (section_body lines) ∷ sections_from (length (section_body lines)) lines
unfolding sections_from
sections_from_media line lines h = ground arith

sections_from_line :
    (line : Text) (lines : List Text)
    → is_media_line line ≡ false
    → sections_from 0 (line ∷ lines) ≡ sections_from 0 lines
unfolding sections_from
sections_from_line line lines h = ground arith

sections_from-suc :
    (skip : ℕ) (line : Text) (lines : List Text)
    → sections_from (suc skip) (line ∷ lines) ≡ sections_from skip lines
unfolding sections_from
sections_from-suc skip line lines = refl

-- To pass over a body is to read it in vain.
sections_from_body :
    (lines : List Text) → sections_from (length (section_body lines)) lines ≡ sections_from 0 lines
sections_from_body [] = unfold section_body in refl
sections_from_body (line ∷ lines) = elim (Bool-cases (is_media_line line)) [
  | inl media ↦ rw (section_body_media line lines media)
  | inr plain ↦
      rw (section_body_line line lines plain, sections_from_line line lines plain)
        (sections_from-suc (length (section_body lines)) line lines ∙ sections_from_body lines)
]

-- One entry for each section of the offer.
abbrev section_of_group : List Text → MediaSection
section_of_group [] = record { media_type = []; mid = [] }
section_of_group (line ∷ body) = section_of line body

abbrev pub offered_in : List (List Text) → List MediaSection
offered_in [] = []
offered_in (section ∷ sections) = section_of_group section ∷ offered_in sections

sections_from-offered_in : (lines : List Text) → sections_from 0 lines ≡ offered_in (groups lines)
sections_from-offered_in [] = unfold sections_from groups in refl
sections_from-offered_in (line ∷ lines) = elim (Bool-cases (is_media_line line)) [
  | inl media ↦
      rw (sections_from_media line lines media, groups_media line lines media)
        (ap (◌∷◌ (section_of line (section_body lines)))
          (sections_from_body lines ∙ sections_from-offered_in lines))
  | inr plain ↦
      rw (sections_from_line line lines plain, groups_line line lines plain)
        (sections_from-offered_in lines)
]

-- The lines of a text, at its own separator.
abbrev pub lines_of : Text → List Text
lines_of s = split s (line_separator s)

pub offer_media_sections-groups :
    (offer : Text) → offer_media_sections offer ≡ offered_in (groups (lines_of offer))
unfolding offer_media_sections
offer_media_sections-groups offer = sections_from-offered_in (lines_of offer)

pub edited_nothing :
    (lines : List Text) (index : ℕ) → section_body lines ++ edited [] index (groups lines) ≡ lines
unfolding edited edit_section
edited_nothing [] index = unfold section_body groups in refl
edited_nothing (line ∷ lines) index = elim (Bool-cases (is_media_line line)) [
  | inl media ↦
      rw (section_body_media line lines media, groups_media line lines media)
        (ap (◌∷◌ line) (edited_nothing lines (suc index)))
  | inr plain ↦
      rw (section_body_line line lines plain, groups_line line lines plain)
        (ap (◌∷◌ line) (edited_nothing lines index))
]

insert_media_ids-edited :
    (offered : List MediaSection) (answer : Text)
    → insert_media_ids offered answer ≡ (
        let lines = lines_of answer in
        join (section_body lines ++ edited offered 0 (groups lines)) (line_separator answer))
unfolding insert_media_ids
insert_media_ids-edited [] answer = sym (
    ap (λ ls. join ls (line_separator answer)) (edited_nothing (lines_of answer) 0)
    ∙ join-split answer (line_separator answer) (line_separator-ne-nil answer))
insert_media_ids-edited (section ∷ sections) answer =
    ap (λ ls. join ls (line_separator answer))
      (with_media_ids-edited (section ∷ sections) (lines_of answer))

-- The whole normaliser, for every offer and every answer: what stands before the first media line
-- stays, and section number i is edited by the offer's section number i.
pub normalize_rejected_media_mids_lem :
    (offer answer : Text)
    → normalize_rejected_media_mids offer answer ≡ (
        let lines = lines_of answer in
        join
          (section_body lines ++ edited (offered_in (groups (lines_of offer))) 0 (groups lines))
          (line_separator answer))
normalize_rejected_media_mids_lem offer answer =
    normalize_lem offer answer
    ∙ ap (λ o. insert_media_ids o answer) (offer_media_sections-groups offer)
    ∙ insert_media_ids-edited (offered_in (groups (lines_of offer))) answer
  where
    normalize_lem :
        (offer answer : Text)
        → normalize_rejected_media_mids offer answer
          ≡ insert_media_ids (offer_media_sections offer) answer
    normalize_lem offer answer = unfold normalize_rejected_media_mids in refl
