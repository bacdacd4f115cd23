-- ===== src/Sdp/MediaLines/Sections.antt =====
-- The media line and the body of a rejected video section behind its rewriting.
use homebrain.Prelude.{
  ℕ, zero, suc, ◌≤◌, Bool, true, false, List, [], ◌∷◌, ◌++◌, ◌≡◌, ◌⊎◌, refl, ap, ◌∙◌, arith,
  if◌then◌else◌, Bool-cases, inl, inr, take, length,
}
use homebrain.Text.{Text, codes, text_eq_iff, has_prefix}
use homebrain.Sdp.{
  is_media_line, section_body, section_body_media, section_body_line, attribute_index,
}
use homebrain.Sdp.MediaLines.{media_lines, media_lines-insert}
use homebrain.Sdp.MediaLines.Spans.{IsRetained}
use homebrain.Sdp.MediaLines.Renamed.{IsRenamed}
use homebrain.Sdp.Video.{
  OfferedPayload, maps, rtpmap_payload, is_active, inactive, silence_lines, add_rtpmap,
  add_direction, has_direction, section_end, or_else, edit_video_body, is_video_line,
}
use homebrain.Sdp.Video.Offered.{IsMatched}

-- The same media lines, one by one, but for those of rejected video. Such a one stands as it was up
-- to the end of its protocol at least, and its fields are its kind, its port, its protocol and one
-- payload.
abbrev pub IsLike : List Text → List Text → Type 0
IsLike [] [] = Unit
IsLike [] (y ∷ ys) = ⊥
IsLike (x ∷ xs) [] = ⊥
IsLike (x ∷ xs) (y ∷ ys) =
    ((x ≡ y)
      ⊎ ((is_video_line x ≡ true) × IsRetained x y × (payload : Text) × IsRenamed payload x y))
    × IsLike xs ys

has_prefix-take :
    (n : ℕ) (s p rest : Text)
    → has_prefix s p ≡ true
    → length p ≤ n
    → has_prefix (take n s ++ rest) p ≡ true
has_prefix-take n s [] rest h k = refl
has_prefix-take n [] (c ∷ p) rest h k = absurd (ground arith)
has_prefix-take zero (d ∷ s) (c ∷ p) rest h k = absurd (omega arith)
has_prefix-take (suc n) (d ∷ s) (c ∷ p) rest h k = ground (arith, has_prefix-take n s p rest)

pub is_video_line-is_media_line :
    (line : Text) → is_video_line line ≡ true → is_media_line line ≡ true
is_video_line-is_media_line [] h = absurd (ground arith)
is_video_line-is_media_line (c ∷ []) h = absurd (ground arith)
is_video_line-is_media_line (c ∷ d ∷ line) h = ground arith

pub retained-is_media_line :
    (line line' : Text)
    → is_video_line line ≡ true
    → IsRetained line line'
    → is_media_line line' ≡ true
retained-is_media_line line line' h r = rw r.same (
    is_video_line-is_media_line (take r.at line ++ r.rest)
      (has_prefix-take r.at line (codes "m=video ") r.rest h (omega (arith, r.behind))))

media_lines-section_body : (lines : List Text) → media_lines (section_body lines) ≡ []
media_lines-section_body [] = unfold section_body in refl
media_lines-section_body (line ∷ lines) = elim (Bool-cases (is_media_line line)) [
  | inl media ↦ rw (section_body_media line lines media) refl
  | inr plain ↦ rw (section_body_line line lines plain, plain) (media_lines-section_body lines)
]

active-is_media_line : (line : Text) → is_active line ≡ true → is_media_line line ≡ false
active-is_media_line line h = ground (
  arith,
  text_eq_iff line (codes "a=sendrecv"),
  text_eq_iff line (codes "a=sendonly"),
  text_eq_iff line (codes "a=recvonly"),
)

media_lines-silence_lines :
    (lines : List Text) → media_lines (silence_lines lines) ≡ media_lines lines
unfolding silence_lines
media_lines-silence_lines [] = refl
media_lines-silence_lines (line ∷ lines) = elim (Bool-cases (is_active line)) [
  | inl e ↦ rw (e, active-is_media_line line e) (media_lines-silence_lines lines)
  | inr e ↦ rw e (
      ap (λ (r : List Text). if is_media_line line then line ∷ r else r)
        (media_lines-silence_lines lines))
]

rtpmap-is_media_line : (payload line : Text) → maps payload line ≡ true → is_media_line line ≡ false
unfolding rtpmap_payload
rtpmap-is_media_line payload line h = elim (Bool-cases (has_prefix line (codes "a=rtpmap:"))) [
  | inl e ↦ attribute line e
  | inr e ↦ absurd (no_map e)
]
  where
    attribute :
        (line : Text) → has_prefix line (codes "a=rtpmap:") ≡ true → is_media_line line ≡ false
    attribute [] k = refl
    attribute (c ∷ line) k = ground arith

    no_map : has_prefix line (codes "a=rtpmap:") ≡ false → ⊥
    no_map e = ground (arith, e, h)

media_lines-add_rtpmap :
    (last : Bool) (offered : OfferedPayload) (body : List Text)
    → IsMatched offered
    → media_lines (add_rtpmap last offered body) ≡ media_lines body
unfolding add_rtpmap
media_lines-add_rtpmap last offered body (inl e) = ground (arith, e)
media_lines-add_rtpmap last offered body (inr e) = ground (
  arith,
  media_lines-insert (or_else (attribute_index 0 body) (section_end last body)) offered.rtpmap body
      (rtpmap-is_media_line offered.payload offered.rtpmap e),
)

media_lines-add_direction :
    (last : Bool) (body : List Text) → media_lines (add_direction last body) ≡ media_lines body
unfolding add_direction
media_lines-add_direction last body = elim (Bool-cases (has_direction body)) [
  | inl e ↦ rw e (media_lines-silence_lines body)
  | inr e ↦ rw e (
      media_lines-insert (section_end last (silence_lines body)) inactive (silence_lines body) refl
      ∙ media_lines-silence_lines body)
]

pub media_lines-edit_video_body :
    (last : Bool) (offered : OfferedPayload) (lines : List Text)
    → IsMatched offered
    → media_lines (edit_video_body last offered (section_body lines)) ≡ []
unfolding edit_video_body
media_lines-edit_video_body last offered lines matched =
    media_lines-add_direction last (add_rtpmap last offered (section_body lines))
    ∙ media_lines-add_rtpmap last offered (section_body lines) matched
    ∙ media_lines-section_body lines
