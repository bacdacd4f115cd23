-- ===== src/Sdp/MediaLines/Written.antt =====
-- The lines that normalizeAlexaRejectedVideoPayloads writes: none of them holds a "\r\n", and none
-- is lost.
use homebrain.Prelude.{
  ℕ, zero, suc, ◌+◌, ◌≤◌, Bool, not, ◌&&◌, ◌==◌, List, [], ◌∷◌, ◌≡◌, refl, ap, arith, is_empty,
  length, length-append, All, All-append, Bool-cases, Option-cases, inl, inr,
}
use homebrain.Text.{Text}
use homebrain.Text.Lines.{crlf, Lacks}
use homebrain.Sdp.{
  section_body, section_body_media, section_body_line, is_media_line, attribute_index,
}
use homebrain.Sdp.MediaLines.Breaks.{
  IsUnbroken, normalize_video_line-Lacks, offered_at-IsUnbroken, section_body-All,
}
use homebrain.Sdp.MediaLines.Video.{
  video_from_other, video_from_kept, video_from_edited, video_from-suc,
}
use homebrain.Sdp.Video.{
  OfferedPayload, insert_line, inactive, is_active, silence_lines, add_rtpmap, add_direction,
  has_direction, section_end, or_else, section_has_rtpmap, edit_video_body, offered_at,
  is_video_line, normalize_video_line, video_from,
}

pub insert_line-All {κ} :
    (P : Text → Type κ) (i : ℕ) (line : Text) (xs : List Text)
    → P line
    → All P xs
    → All P (insert_line i line xs)
insert_line-All P zero line xs p h = (p, h)
insert_line-All P (suc i) line [] p h = (p, tt)
insert_line-All P (suc i) line (x ∷ xs) p (q, h) = (q, insert_line-All P i line xs p h)

pub length-insert_line :
    (i : ℕ) (line : Text) (xs : List Text) → length (insert_line i line xs) ≡ suc (length xs)
length-insert_line zero line xs = refl
length-insert_line (suc i) line [] = refl
length-insert_line (suc i) line (x ∷ xs) = ap suc (length-insert_line i line xs)

silence_lines-Lacks : (xs : List Text) → All (Lacks crlf) xs → All (Lacks crlf) (silence_lines xs)
unfolding silence_lines
silence_lines-Lacks [] h = tt
silence_lines-Lacks (x ∷ xs) (p, h) = elim (Bool-cases (is_active x)) [
  | inl e ↦ rw e (refl, silence_lines-Lacks xs h)
  | inr e ↦ rw e (p, silence_lines-Lacks xs h)
]

length-silence_lines : (xs : List Text) → length (silence_lines xs) ≡ length xs
unfolding silence_lines
length-silence_lines [] = refl
length-silence_lines (x ∷ xs) = ap suc (length-silence_lines xs)

add_rtpmap-Lacks :
    (last : Bool) (o : OfferedPayload) (body : List Text)
    → IsUnbroken o
    → All (Lacks crlf) body
    → All (Lacks crlf) (add_rtpmap last o body) × (length body ≤ length (add_rtpmap last o body))
unfolding add_rtpmap
add_rtpmap-Lacks last o body u h =
    let i = or_else (attribute_index 0 body) (section_end last body) in
    elim (Bool-cases (not (is_empty o.rtpmap) && not (section_has_rtpmap body o.payload))) [
      | inl e ↦ rw e (
        insert_line-All (Lacks crlf) i o.rtpmap body u.1 h,
        omega (arith, length-insert_line i o.rtpmap body),
      )
      | inr e ↦ rw e (h, omega arith)
    ]

add_direction-Lacks :
    (last : Bool) (body : List Text)
    → All (Lacks crlf) body
    → All (Lacks crlf) (add_direction last body) × (length body ≤ length (add_direction last body))
unfolding add_direction
add_direction-Lacks last body h =
    let i = section_end last (silence_lines body) in
    elim (Bool-cases (has_direction body)) [
      | inl e ↦ rw e (silence_lines-Lacks body h, omega (arith, length-silence_lines body))
      | inr e ↦ rw e (
        insert_line-All (Lacks crlf) i inactive (silence_lines body) refl
            (silence_lines-Lacks body h),
        omega
            (arith, length-insert_line i inactive (silence_lines body), length-silence_lines body),
      )
    ]

edit_video_body-Lacks :
    (last : Bool) (o : OfferedPayload) (body : List Text)
    → IsUnbroken o
    → All (Lacks crlf) body
    → All (Lacks crlf) (edit_video_body last o body)
      × (length body ≤ length (edit_video_body last o body))
unfolding edit_video_body
edit_video_body-Lacks last o body u h =
    let (a, n) = add_rtpmap-Lacks last o body u h in
    let (b, m) = add_direction-Lacks last (add_rtpmap last o body) a in (b, omega arith)

-- Without line breaks, and as long as the lines that it is made of.
abbrev pub IsWritten : List Text → List Text → Type 0
IsWritten lines written = All (Lacks crlf) written × (length lines ≤ length written)

abbrev Passes : List OfferedPayload → List Text → Type 0
Passes offered lines =
    ((index : ℕ) → IsWritten lines (video_from offered index 0 lines))
    × ((index : ℕ)
        → All (Lacks crlf) (video_from offered index (length (section_body lines)) lines)
          × (length lines
              ≤ length (section_body lines)
                + length (video_from offered index (length (section_body lines)) lines)))

module _ (offered : List OfferedPayload) (unbroken : All IsUnbroken offered) where
  module _ (line : Text) (lines : List Text) (l : Lacks crlf line) (h : All (Lacks crlf) lines)
      (behind : Passes offered lines) where
    at_line : (index : ℕ) → IsWritten (line ∷ lines) (video_from offered index 0 (line ∷ lines))
    at_line index = elim (Bool-cases (is_video_line line)) [
      | inr e ↦
          let (a, n) = behind.0 index in
          rw (video_from_other offered index line lines e) ((l, a), omega arith)
      | inl e ↦ elim (Option-cases (normalize_video_line line (offered_at offered index).payload)) [
        | inl n ↦
            let (a, m) = behind.0 (suc index) in
            rw (video_from_kept offered index line lines e n) ((l, a), omega arith)
        | inr (line', n) ↦
            let o = offered_at offered index in
            let u = offered_at-IsUnbroken offered index unbroken in
            let last = length (section_body lines) == length lines in
            let body = section_body lines in
            let (a, m) = behind.1 (suc index) in
            let (b, k) =
              edit_video_body-Lacks last o body u (section_body-All (Lacks crlf) lines h) in
            rw (video_from_edited offered index line lines line' e n) (
              (
                normalize_video_line-Lacks line line' o u l n,
                All-append (Lacks crlf) (edit_video_body last o body)
                    (video_from offered (suc index) (length body) lines) b a,
              ),
              omega (
                arith,
                length-append (edit_video_body last o body)
                    (video_from offered (suc index) (length body) lines),
              ),
            )
      ]
    ]

    over_section :
        (index : ℕ)
        → All
            (Lacks crlf)
            (video_from offered index (length (section_body (line ∷ lines))) (line ∷ lines))
          × (length (line ∷ lines)
              ≤ length (section_body (line ∷ lines))
                + length (
                    video_from offered index (length (section_body (line ∷ lines))) (line ∷ lines)))
    over_section index = elim (Bool-cases (is_media_line line)) [
      | inl m ↦ let (a, n) = at_line index in rw (section_body_media line lines m) (a, omega arith)
      | inr m ↦
          let (a, n) = behind.1 index in
          rw
            (
              section_body_line line lines m,
              video_from-suc offered index line lines (length (section_body lines)),
            )
            (a, omega arith)
    ]

  passes : (lines : List Text) → All (Lacks crlf) lines → Passes offered lines
  passes [] h =
      unfold video_from section_body in (λ index. (tt, omega arith), λ index. (tt, omega arith))
  passes (line ∷ lines) (l, h) =
      let behind = passes lines h in
      (at_line line lines l h behind, over_section line lines l h behind)

  pub video_from-IsWritten :
      (lines : List Text) → All (Lacks crlf) lines → IsWritten lines (video_from offered 0 0 lines)
  video_from-IsWritten lines h = (passes lines h).0 0
