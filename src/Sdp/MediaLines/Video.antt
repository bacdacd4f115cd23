-- ===== src/Sdp/MediaLines/Video.antt =====
-- The media lines behind normalizeAlexaRejectedVideoPayloads.
use homebrain.Prelude.{
  ℕ, zero, suc, Bool, true, false, List, [], ◌∷◌, ◌++◌, ◌≡◌, refl, none, some, Bool-cases,
  Option-cases, inl, inr, length, All, ◌==◌,
}
use homebrain.Text.{Text}
use homebrain.Sdp.{is_media_line, section_body, section_body_media, section_body_line}
use homebrain.Sdp.MediaLines.{
  media_lines-with_media_ids, media_lines-remove_candidates, media_lines, media_lines-append,
}
use homebrain.Sdp.MediaLines.Breaks.{
  IsUnbroken, offered_at-IsUnbroken, offered_video_payloads-IsUnbroken,
}
use homebrain.Sdp.MediaLines.Renamed.{normalize_video_line-IsRenamed}
use homebrain.Sdp.MediaLines.Spans.{normalize_video_line-IsRetained}
use homebrain.Sdp.Video.{
  offered_video_payloads, OfferedPayload, edit_video_body, offered_at, is_video_line,
  normalize_video_line, video_from,
}
use homebrain.Sdp.Video.Offered.{IsMatched, offered_video_payloads-IsMatched}
use homebrain.Sdp.MediaIds.{with_media_ids, offer_media_sections}
use homebrain.Sdp.RtcpMux.{remove_candidates}
use homebrain.Sdp.MediaLines.Sections.{
  IsLike, is_video_line-is_media_line, retained-is_media_line, media_lines-edit_video_body,
}

offered_at-IsMatched :
    (offered : List OfferedPayload) (index : ℕ)
    → All IsMatched offered
    → IsMatched (offered_at offered index)
offered_at-IsMatched [] index h = inl refl
offered_at-IsMatched (o ∷ offered) zero (m, h) = m
offered_at-IsMatched (o ∷ offered) (suc index) (m, h) = offered_at-IsMatched offered index h

module _ (offered : List OfferedPayload) (index : ℕ) (line : Text) (lines : List Text) where
  pub video_from_other :
      is_video_line line ≡ false
      → video_from offered index 0 (line ∷ lines) ≡ line ∷ video_from offered index 0 lines
  unfolding video_from
  video_from_other e = rw (e, video_from) refl

  pub video_from_kept :
      is_video_line line ≡ true
      → normalize_video_line line (offered_at offered index).payload ≡ none
      → video_from offered index 0 (line ∷ lines) ≡ line ∷ video_from offered (suc index) 0 lines
  unfolding video_from
  video_from_kept e n = rw (e, n, video_from) refl

  pub video_from_edited :
      (line' : Text)
      → is_video_line line ≡ true
      → normalize_video_line line (offered_at offered index).payload ≡ some line'
      → video_from offered index 0 (line ∷ lines)
        ≡ line'
          ∷ (edit_video_body
                (length (section_body lines) == length lines)
                (offered_at offered index)
                (section_body lines)
              ++ video_from offered (suc index) (length (section_body lines)) lines)
  unfolding video_from
  video_from_edited line' e n = rw (e, n, video_from) refl

  pub video_from-suc :
      (skip : ℕ)
      → video_from offered index (suc skip) (line ∷ lines) ≡ video_from offered index skip lines
  unfolding video_from
  video_from-suc skip = refl

-- The loop from a line on, and from a line whose section it passes over.
abbrev Passes : List OfferedPayload → List Text → Type 0
Passes offered lines =
    ((index : ℕ) → IsLike (media_lines lines) (media_lines (video_from offered index 0 lines)))
    × ((index : ℕ)
        → IsLike (media_lines lines)
            (media_lines (video_from offered index (length (section_body lines)) lines)))

module _ (offered : List OfferedPayload) (matched : All IsMatched offered)
    (unbroken : All IsUnbroken offered) where
  module _ (line : Text) (lines : List Text) (behind : Passes offered lines) where
    other :
        (index : ℕ)
        → is_video_line line ≡ false
        → IsLike
            (media_lines (line ∷ lines))
            (media_lines (video_from offered index 0 (line ∷ lines)))
    other index e = elim (Bool-cases (is_media_line line)) [
      | inl m ↦ rw (video_from_other offered index line lines e, m) (inl refl, behind.0 index)
      | inr m ↦ rw (video_from_other offered index line lines e, m) (behind.0 index)
    ]

    at_line :
        (index : ℕ)
        → IsLike
            (media_lines (line ∷ lines))
            (media_lines (video_from offered index 0 (line ∷ lines)))
    at_line index = elim (Bool-cases (is_video_line line)) [
      | inr e ↦ other index e
      | inl e ↦ elim (Option-cases (normalize_video_line line (offered_at offered index).payload)) [
        | inl n ↦
            rw (video_from_kept offered index line lines e n, is_video_line-is_media_line line e)
              (inl refl, behind.0 (suc index))
        | inr (line', n) ↦
            let kept =
              normalize_video_line-IsRetained line (offered_at offered index).payload line' n in
            let renamed =
              normalize_video_line-IsRenamed line line' (offered_at offered index)
                (offered_at-IsUnbroken offered index unbroken) n in
            let last = length (section_body lines) == length lines in
            rw
              (
                video_from_edited offered index line lines line' e n,
                is_video_line-is_media_line line e,
                retained-is_media_line line line' e kept,
                media_lines-append
                    (edit_video_body last (offered_at offered index) (section_body lines))
                    (video_from offered (suc index) (length (section_body lines)) lines),
                media_lines-edit_video_body last (offered_at offered index) lines
                    (offered_at-IsMatched offered index matched),
              )
              (inr (e, kept, (offered_at offered index).payload, renamed), behind.1 (suc index))
      ]
    ]

    over_section :
        (index : ℕ)
        → IsLike (media_lines (line ∷ lines)) (
            media_lines
              (video_from offered index (length (section_body (line ∷ lines))) (line ∷ lines)))
    over_section index = elim (Bool-cases (is_media_line line)) [
      | inl m ↦ rw (section_body_media line lines m) (at_line index)
      | inr m ↦
          rw
            (
              section_body_line line lines m,
              video_from-suc offered index line lines (length (section_body lines)),
              m,
            )
            (behind.1 index)
    ]

  passes : (lines : List Text) → Passes offered lines
  passes [] = unfold video_from section_body in (λ index. tt, λ index. tt)
  passes (line ∷ lines) =
      let behind = passes lines in (at_line line lines behind, over_section line lines behind)

  pub video_from-IsLike :
      (lines : List Text) → IsLike (media_lines lines) (media_lines (video_from offered 0 0 lines))
  video_from-IsLike lines = (passes lines).0 0

-- The three passes, one behind the other on the lines of an answer, keep its sections: each media
-- line stays, in its order, and none comes or goes. It stays as it is, or it is a line of rejected
-- video of three fields or with the payload 0, and keeps its kind, its port and its protocol, with
-- one payload behind them.
pub answer_lines-IsLike :
    (valid : Text → Bool) (offer : Text) (lines : List Text)
    → IsLike (media_lines lines) (
        media_lines (
          remove_candidates valid (
            with_media_ids
              (offer_media_sections offer)
              (video_from (offered_video_payloads offer) 0 0 lines))))
answer_lines-IsLike valid offer lines =
    let rewritten = video_from (offered_video_payloads offer) 0 0 lines in
    rw
      (
        media_lines-remove_candidates valid (with_media_ids (offer_media_sections offer) rewritten),
        media_lines-with_media_ids (offer_media_sections offer) rewritten,
      )
      (video_from-IsLike (offered_video_payloads offer) (offered_video_payloads-IsMatched offer)
        (offered_video_payloads-IsUnbroken offer) lines)
