-- ===== src/Sdp/MediaLines/Texts.antt =====
-- The three normalisers of internal/rtc/server.go, as NewSession composes them, on an answer whose
-- lines end in "\r\n", as those of the WebRTC library do: the media lines of the text.
use homebrain.Prelude.{
  ℕ, suc, ◌≤◌, Bool, true, false, List, [], ◌∷◌, ◌≡◌, ◌≢◌, refl, sym, ap, ◌∙◌, arith, length, All,
  Bool-cases, inl, inr,
}
use homebrain.Text.{Text, contains, split, join}
use homebrain.Text.Lines.{
  crlf, Lacks, line_separator, split-Lacks, join-split, split-join, split-ne-nil,
}
use homebrain.Text.Separator.{contains-crlf}
use homebrain.Sdp.MediaIds.{
  MediaSection, with_media_ids, insert_media_ids, offer_media_sections,
  normalize_rejected_media_mids,
}
use homebrain.Sdp.MediaIds.Sections.{with_media_ids-edited}
use homebrain.Sdp.MediaIds.Offered.{edited_nothing}
use homebrain.Sdp.MediaLines.{media_lines}
use homebrain.Sdp.MediaLines.Breaks.{offered_video_payloads-IsUnbroken}
use homebrain.Sdp.MediaLines.Mids.{with_media_ids-IsWritten}
use homebrain.Sdp.MediaLines.Sections.{IsLike}
use homebrain.Sdp.MediaLines.Video.{answer_lines-IsLike}
use homebrain.Sdp.MediaLines.Written.{video_from-IsWritten}
use homebrain.Sdp.RtcpMux.{remove_candidates, normalize_rtcp_mux_candidates}
use homebrain.Sdp.RtcpMux.Idempotence.{All-without_rtcp, unchanged_or_two}
use homebrain.Sdp.RtcpMux.Sections.{remove_candidates-without_rtcp}
use homebrain.Sdp.Video.{
  OfferedPayload, video_from, rewrite_video, is_video_line, offered_video_payloads,
  normalize_video_line, normalize_rejected_video_payloads,
}
use homebrain.Server.Creation.{normalize_answer}

-- A text of these lines, which are two at least, so that the text shows its separator.
record IsText (t : Text) (lines : List Text) : Type 0 where
  joined : t ≡ join lines crlf
  two : 2 ≤ length lines
  lacks : All (Lacks crlf) lines

separator_of : (lines : List Text) → 2 ≤ length lines → line_separator (join lines crlf) ≡ crlf
unfolding join
separator_of [] h = absurd (omega arith)
separator_of (l ∷ []) h = absurd (omega arith)
separator_of (l ∷ m ∷ lines) h = rw (contains-crlf l (join (m ∷ lines) crlf)) refl

ne_nil : (lines : List Text) → 2 ≤ length lines → lines ≢ []
ne_nil [] h = absurd (omega arith)
ne_nil (l ∷ lines) h = cc

module _ {t : Text} {lines : List Text} (h : IsText t lines) where
  text-separator : line_separator t ≡ crlf
  text-separator = ap line_separator h.joined ∙ separator_of lines h.two

  text-split : split t crlf ≡ lines
  text-split =
      ap (λ (s : Text). split s crlf) h.joined
      ∙ split-join crlf lines (inr refl) (ne_nil lines h.two) h.lacks

two_lines :
    (s : Text) (lines : List Text)
    → lines ≢ []
    → contains s crlf ≡ true
    → join lines crlf ≡ s
    → All (Lacks crlf) lines
    → 2 ≤ length lines
unfolding join
two_lines s [] n h j a = absurd (n refl)
two_lines s (l ∷ []) n h j (a, _) = absurd (ground (arith, h, j, a))
two_lines s (l ∷ m ∷ lines) n h j a = omega arith

crlf-IsText : (s : Text) → contains s crlf ≡ true → IsText s (split s crlf)
crlf-IsText s h =
    let joined = join-split s crlf (cc) in
    let lacks = split-Lacks s crlf (cc) in
    record {
      joined = sym joined;
      two = two_lines s (split s crlf) (split-ne-nil s crlf) h joined lacks;
      lacks = lacks;
    }

video_from_nothing : (index : ℕ) (lines : List Text) → video_from [] index 0 lines ≡ lines
unfolding video_from normalize_video_line
video_from_nothing index [] = refl
video_from_nothing index (line ∷ lines) = elim (Bool-cases (is_video_line line)) [
  | inl e ↦ rw (e, video_from) (ap (◌∷◌ line) (video_from_nothing (suc index) lines))
  | inr e ↦ rw (e, video_from) (ap (◌∷◌ line) (video_from_nothing index lines))
]

rewrite_video-join :
    (offered : List OfferedPayload) (t : Text) (lines : List Text)
    → IsText t lines
    → rewrite_video offered t ≡ join (video_from offered 0 0 lines) crlf
unfolding rewrite_video
rewrite_video-join [] t lines h =
    h.joined ∙ ap (λ (ls : List Text). join ls crlf) (sym (video_from_nothing 0 lines))
rewrite_video-join (o ∷ offered) t lines h = rw (text-separator h, text-split h) refl

insert_media_ids-join :
    (offered : List MediaSection) (t : Text) (lines : List Text)
    → IsText t lines
    → insert_media_ids offered t ≡ join (with_media_ids offered lines) crlf
unfolding insert_media_ids
insert_media_ids-join [] t lines h =
    h.joined
    ∙ ap (λ (ls : List Text). join ls crlf)
        (sym (with_media_ids-edited [] lines ∙ edited_nothing lines 0))
insert_media_ids-join (o ∷ offered) t lines h = rw (text-separator h, text-split h) refl

video-IsText :
    (offer t : Text) (lines : List Text)
    → IsText t lines
    → IsText
        (normalize_rejected_video_payloads offer t)
        (video_from (offered_video_payloads offer) 0 0 lines)
unfolding normalize_rejected_video_payloads
video-IsText offer t lines h =
    let (a, n) =
      video_from-IsWritten (offered_video_payloads offer) (offered_video_payloads-IsUnbroken offer)
        lines h.lacks in
    record {
      joined = rewrite_video-join (offered_video_payloads offer) t lines h;
      two = omega (arith, h.two);
      lacks = a;
    }

mids-IsText :
    (offer t : Text) (lines : List Text)
    → IsText t lines
    → IsText
        (normalize_rejected_media_mids offer t)
        (with_media_ids (offer_media_sections offer) lines)
unfolding normalize_rejected_media_mids
mids-IsText offer t lines h =
    let (a, n) = with_media_ids-IsWritten offer lines h.lacks in
    record {
      joined = insert_media_ids-join (offer_media_sections offer) t lines h;
      two = omega (arith, h.two);
      lacks = a;
    }

module _ (valid : Text → Bool) where
  removed-two : (lines : List Text) → 2 ≤ length lines → 2 ≤ length (remove_candidates valid lines)
  removed-two lines h = elim (unchanged_or_two valid lines) [
    | inl e ↦ rw (remove_candidates-without_rtcp valid lines, e) h
    | inr two ↦ rw (remove_candidates-without_rtcp valid lines) two
  ]

  mux-IsText :
      (t : Text) (lines : List Text)
      → IsText t lines
      → IsText (normalize_rtcp_mux_candidates valid t) (remove_candidates valid lines)
  unfolding normalize_rtcp_mux_candidates
  mux-IsText t lines h = record {
    joined = rw (text-separator h, text-split h) refl;
    two = removed-two lines h.two;
    lacks =
        rw (remove_candidates-without_rtcp valid lines)
          (All-without_rtcp valid (Lacks crlf) false lines h.lacks);
  }

  -- For every offer, and every answer whose lines end in "\r\n": the answer that NewSession returns
  -- has the media lines of the local description, one for one and in their order. Each one is as it
  -- was, or it is a line of rejected video: its fields between spaces and tabs are "m=video", "0",
  -- a protocol and at most a "0" behind it. The line that stands for it begins with the same text up
  -- to the end of the protocol at least, and its fields are the same three and one payload.
  pub normalize_answer-IsLike :
      (offer answer : Text)
      → contains answer crlf ≡ true
      → IsLike
          (media_lines (split answer crlf))
          (media_lines (split (normalize_answer valid offer answer) crlf))
  unfolding normalize_answer
  normalize_answer-IsLike offer answer h =
      let lines = split answer crlf in
      let video = video-IsText offer answer lines (crlf-IsText answer h) in
      let mids = mids-IsText offer _ _ video in
      rw (text-split (mux-IsText _ _ mids)) (answer_lines-IsLike valid offer lines)
