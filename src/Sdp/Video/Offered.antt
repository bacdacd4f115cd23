-- ===== src/Sdp/Video/Offered.antt =====
-- What alexaOfferedVideoPayloads finds in an offer.
use homebrain.Prelude.{
  true, List, [], ◌∷◌, ◌≡◌, ◌⊎◌, inl, inr, refl, arith, if◌then◌else◌, is_empty, Bool-cases, All,
}
use homebrain.Text.{Text, codes, text_eq_iff, split, fields, replace_all}
use homebrain.Text.Lines.{lf, crlf}
use homebrain.Sdp.{section_body, has_line}
use homebrain.Sdp.Video.{
  OfferedPayload, maps, select_payload, find_rtpmap, offered_entry, is_video_line, offered_from,
  offered_video_payloads,
}

-- An rtpmap that was found belongs to the payload.
abbrev pub IsMatched : OfferedPayload → Type 0
IsMatched o = (is_empty o.rtpmap ≡ true) ⊎ (maps o.payload o.rtpmap ≡ true)

find_rtpmap-matched :
    (selected : Text) (lines : List Text)
    → (is_empty (find_rtpmap selected lines) ≡ true)
      ⊎ (maps selected (find_rtpmap selected lines) ≡ true)
unfolding find_rtpmap
find_rtpmap-matched selected [] = inl refl
find_rtpmap-matched selected (line ∷ lines) = elim (Bool-cases (maps selected line)) [
  | inl h ↦ rw h (inr h)
  | inr h ↦ rw h (find_rtpmap-matched selected lines)
]

offered_entry-IsMatched : (fs body : List Text) → IsMatched (offered_entry fs body)
unfolding offered_entry
offered_entry-IsMatched (kind ∷ port ∷ protocol ∷ format ∷ more) body =
    find_rtpmap-matched (select_payload format (format ∷ more)) body
offered_entry-IsMatched _ body = inl refl

offered_from-IsMatched : (lines : List Text) → All IsMatched (offered_from lines)
unfolding offered_from
offered_from-IsMatched [] = tt
offered_from-IsMatched (line ∷ lines) = elim (Bool-cases (is_video_line line)) [
  | inl h ↦
      rw h
        (offered_entry-IsMatched (fields line) (section_body lines), offered_from-IsMatched lines)
  | inr h ↦ rw h (offered_from-IsMatched lines)
]

-- Every rtpmap line taken from an offer maps the payload that it is taken for.
pub offered_video_payloads-IsMatched : (offer : Text) → All IsMatched (offered_video_payloads offer)
unfolding offered_video_payloads
offered_video_payloads-IsMatched offer =
    offered_from-IsMatched (split (replace_all offer crlf lf) lf)

-- Payload 102 is chosen where it is offered, and else the first one.
pub select_payload_lem :
    (format : Text) (more : List Text)
    → select_payload format more ≡ (if has_line (codes "102") more then codes "102" else format)
unfolding select_payload has_line
select_payload_lem format [] = refl
select_payload_lem format (payload ∷ more) =
    ground (arith, select_payload_lem format more, text_eq_iff payload (codes "102"))
