-- ===== src/Sdp/MediaIds/Sections.antt =====
-- The slices of normalizeAlexaRejectedMediaMIDs are the answer's sections.
use mathlib.Core.Path.{ap₂}
use homebrain.Prelude.{
  ℕ, suc, ◌+◌, ◌-◌, true, false, List, [], ◌∷◌, ◌++◌, append_assoc, append-nil, ◌≡◌, refl, sym, ap,
  ◌∙◌, ◌⊎◌, inl, inr, arith, if◌then◌else◌, take, slice, length, length-append, drop-length-append,
  get_elem?, Bool-cases,
}
use homebrain.Text.{Text}
use homebrain.Sdp.{is_media_line, section_body, section_body_media, section_body_line}
use homebrain.Sdp.MediaIds.{
  MediaSection, edit_section, section_starts, next_start, edit_sections, with_media_ids,
}

-- The sections of a text: each media line with its body.
unfoldable pub groups : List Text → List (List Text)
groups [] = []
groups (line ∷ lines) =
    let rest = groups lines in
    if is_media_line line then (line ∷ section_body lines) ∷ rest else rest

-- Each section is edited by the offer's section at its own place.
unfoldable pub edited : List MediaSection → ℕ → List (List Text) → List Text
edited offered index [] = []
edited offered index (section ∷ sections) =
    edit_section section (get_elem? offered index) ++ edited offered (suc index) sections

take-section_body :
    (lines : List Text) → take (length (section_body lines)) lines ≡ section_body lines
take-section_body [] = unfold section_body in refl
take-section_body (line ∷ lines) = elim (Bool-cases (is_media_line line)) [
  | inl media ↦ rw (section_body_media line lines media)
  | inr plain ↦ rw (section_body_line line lines plain) (ap (◌∷◌ line) (take-section_body lines))
]

next_start-section_starts :
    (lines : List Text) (index end : ℕ)
    → end ≡ index + length lines
    → next_start (section_starts index lines) end ≡ index + length (section_body lines)
unfolding section_starts section_body
next_start-section_starts [] index end h = h
next_start-section_starts (line ∷ lines) index end h =
    ground (arith, next_start-section_starts lines (suc index) end)

slice_at :
    (pre lines : List Text) (line : Text) (end : ℕ)
    → end ≡ length pre + suc (length (section_body lines))
    → slice (pre ++ line ∷ lines) (length pre) end ≡ line ∷ section_body lines
slice_at pre lines line end h =
    let e : end - length pre ≡ suc (length (section_body lines)) = omega arith in
    rw (e, drop-length-append pre (line ∷ lines)) (ap (◌∷◌ line) (take-section_body lines))

length-concat : (pre : List Text) (line : Text) → length (pre ++ line ∷ []) ≡ suc (length pre)
length-concat pre line = omega (arith, length-append pre (line ∷ []))

section_starts_media :
    (index : ℕ) (line : Text) (lines : List Text)
    → is_media_line line ≡ true
    → section_starts index (line ∷ lines) ≡ index ∷ section_starts (suc index) lines
unfolding section_starts
section_starts_media index line lines h = ground arith

section_starts_line :
    (index : ℕ) (line : Text) (lines : List Text)
    → is_media_line line ≡ false
    → section_starts index (line ∷ lines) ≡ section_starts (suc index) lines
unfolding section_starts
section_starts_line index line lines h = ground arith

pub groups_media :
    (line : Text) (lines : List Text)
    → is_media_line line ≡ true
    → groups (line ∷ lines) ≡ (line ∷ section_body lines) ∷ groups lines
unfolding groups
groups_media line lines h = ground arith

pub groups_line :
    (line : Text) (lines : List Text)
    → is_media_line line ≡ false
    → groups (line ∷ lines) ≡ groups lines
unfolding groups
groups_line line lines h = ground arith

this_slice :
    (line : Text) (lines pre all : List Text)
    → all ≡ pre ++ line ∷ lines
    → slice all (length pre) (next_start (section_starts (suc (length pre)) lines) (length all))
      ≡ line ∷ section_body lines
this_slice line lines pre all h = rw h (
    slice_at pre lines line _ (
      next_start-section_starts lines (suc (length pre)) (length (pre ++ line ∷ lines))
        (omega (arith, length-append pre (line ∷ lines)))
      ∙ omega arith))

no_starts :
    (lines : List Text) (index : ℕ)
    → section_starts index lines ≡ []
    → (section_body lines ≡ lines) × (groups lines ≡ [])
unfolding section_starts section_body groups
no_starts [] index e = (refl, refl)
no_starts (line ∷ lines) index e = ground (arith, no_starts lines (suc index))

first_start :
    (lines : List Text) (start : ℕ) (starts : List ℕ)
    → section_starts 0 lines ≡ start ∷ starts
    → start ≡ length (section_body lines)
first_start lines start starts e =
    rw e at (next_start-section_starts lines 0 (length lines) (omega arith)) ∙ omega arith

list_cases : (starts : List ℕ) → (starts ≡ []) ⊎ ((n : ℕ) × (rest : List ℕ) × (starts ≡ n ∷ rest))
list_cases [] = inl refl
list_cases (n ∷ rest) = inr (n, rest, refl)

module _ (offered : List MediaSection) where
  edit_sections_cons :
      (all : List Text) (index start : ℕ) (starts : List ℕ)
      → edit_sections offered all index (start ∷ starts)
        ≡ edit_section (slice all start (next_start starts (length all))) (get_elem? offered index)
          ++ edit_sections offered all (suc index) starts
  unfolding edit_sections
  edit_sections_cons all index start starts = refl

  edited_cons :
      (index : ℕ) (section : List Text) (sections : List (List Text))
      → edited offered index (section ∷ sections)
        ≡ edit_section section (get_elem? offered index) ++ edited offered (suc index) sections
  unfolding edited
  edited_cons index section sections = refl

  edit_sections-edited :
      (lines pre all : List Text) (index : ℕ)
      → all ≡ pre ++ lines
      → edit_sections offered all index (section_starts (length pre) lines)
        ≡ edited offered index (groups lines)
  edit_sections-edited [] pre all index h =
      unfold edit_sections edited section_starts groups in refl
  edit_sections-edited (line ∷ lines) pre all index h =
      let next = edit_sections-edited lines (pre ++ line ∷ []) all in
      let h' = h ∙ sym (append_assoc pre (line ∷ []) lines) in
      elim (Bool-cases (is_media_line line)) [
        | inl media ↦
            rw (section_starts_media (length pre) line lines media, groups_media line lines media)
              (edit_sections_cons all index (length pre) _
                ∙ ap₂ (λ s r. edit_section s (get_elem? offered index) ++ r)
                    (this_slice line lines pre all h)
                    (ap (λ n. edit_sections offered all (suc index) (section_starts n lines))
                        (sym (length-concat pre line))
                      ∙ next (suc index) h')
                ∙ sym (edited_cons index (line ∷ section_body lines) (groups lines)))
        | inr plain ↦
            rw (section_starts_line (length pre) line lines plain, groups_line line lines plain)
              (ap (λ n. edit_sections offered all index (section_starts n lines))
                  (sym (length-concat pre line))
                ∙ next index h')
      ]

  with_media_ids_none :
      (lines : List Text)
      → section_starts 0 lines ≡ []
      → with_media_ids offered lines ≡ section_body lines ++ edited offered 0 (groups lines)
  unfolding with_media_ids edited
  with_media_ids_none lines e =
      let (whole, nothing) = no_starts lines 0 e in
      rw (e, with_media_ids) (rw (nothing, whole) (sym (append-nil lines)))

  with_media_ids_some :
      (lines : List Text) (start : ℕ) (starts : List ℕ)
      → section_starts 0 lines ≡ start ∷ starts
      → with_media_ids offered lines ≡ section_body lines ++ edited offered 0 (groups lines)
  unfolding with_media_ids
  with_media_ids_some lines start starts e =
      rw (e, with_media_ids)
        (ap₂ (λ p r. p ++ r)
          (ap (λ n. take n lines) (first_start lines start starts e) ∙ take-section_body lines)
          (ap (edit_sections offered lines 0) (sym e) ∙ edit_sections-edited lines [] lines 0 refl))

  -- Splitting at the media lines by index and slicing edits each section by itself, in place.
  pub with_media_ids-edited :
      (lines : List Text)
      → with_media_ids offered lines ≡ section_body lines ++ edited offered 0 (groups lines)
  with_media_ids-edited lines = elim (list_cases (section_starts 0 lines)) [
    | inl e ↦ with_media_ids_none lines e
    | inr (start, starts, e) ↦ with_media_ids_some lines start starts e
  ]
