-- ===== src/Tests/Sdp.antt =====
-- SDP texts of the kind that internal/rtc/session_test.go uses.
use homebrain.Prelude.{
  ℕ, ◌≤◌, Bool, true, false, List, [], ◌∷◌, ◌++◌, some, ◌≡◌, refl, inr, take, drop, length, All,
}
use homebrain.Text.{Text, codes, split, join, fields}
use homebrain.Text.Number.{parse_uint, atoi}
use homebrain.Text.Lines.{crlf, line_separator}
use homebrain.Sdp.{section_body, has_line}
use homebrain.Sdp.RtcpMux.{remove_candidates, normalize_rtcp_mux_candidates}
use homebrain.Sdp.RtcpMux.Sections.{without_rtcp, remove_candidates-without_rtcp}
use homebrain.Sdp.RtcpMux.Idempotence.{normalize_rtcp_mux_candidates_idem}
use homebrain.Sdp.MediaLines.{media_lines}
use homebrain.Sdp.MediaLines.Sections.{IsLike}
use homebrain.Sdp.MediaLines.Texts.{normalize_answer-IsLike}
use homebrain.Server.Creation.{normalize_answer}
use homebrain.Sdp.MediaIds.{
  MediaSection, media_line_fields, is_rejected_like, has_mid, edit_section, offer_media_sections,
  normalize_rejected_media_mids,
}
use homebrain.Sdp.MediaIds.Sections.{groups, edited}
use homebrain.Sdp.MediaIds.Offered.{lines_of, offered_in, normalize_rejected_media_mids_lem}
use homebrain.Sdp.MediaIds.Inserted.{mid_line, edit_section_inserts}
use homebrain.Sdp.Video.{
  video_from, OfferedPayload, inactive, edit_video_body, offered_video_payloads,
  normalize_video_line, rtpmap_payload, field_spans, normalize_rejected_video_payloads,
}
use homebrain.Sdp.Video.Section.{IsSilent, video_from-inactive}
use homebrain.Sdp.Video.Mappings.{rtpmaps, edit_video_body-rtpmaps}

abbrev every : Text → Bool
every _ = true

abbrev audio_answer : Text
audio_answer =
    codes
      "v=0\r\nm=audio 9 UDP/TLS/RTP/SAVPF 111\r\na=rtcp-mux\r\na=candidate:1 1 udp 1 10.0.0.1 9 typ host\r\na=candidate:1 2 udp 1 10.0.0.1 9 typ host\r\n"

rtcp_candidate_removed :
    normalize_rtcp_mux_candidates every audio_answer
    ≡ codes
        "v=0\r\nm=audio 9 UDP/TLS/RTP/SAVPF 111\r\na=rtcp-mux\r\na=candidate:1 1 udp 1 10.0.0.1 9 typ host\r\n"
unfolding normalize_rtcp_mux_candidates split join fields atoi
rtcp_candidate_removed = refl

normalize_rtcp_mux_candidates_idem_example :
    normalize_rtcp_mux_candidates every (normalize_rtcp_mux_candidates every audio_answer)
    ≡ normalize_rtcp_mux_candidates every audio_answer
normalize_rtcp_mux_candidates_idem_example = normalize_rtcp_mux_candidates_idem every audio_answer

remove_candidates-without_rtcp_example :
    remove_candidates every (lines_of audio_answer)
    ≡ without_rtcp every false (lines_of audio_answer)
remove_candidates-without_rtcp_example =
    remove_candidates-without_rtcp every (lines_of audio_answer)

abbrev video_offer : Text
video_offer =
    codes
      "v=0\r\nm=audio 9 UDP/TLS/RTP/SAVPF 111\r\na=mid:audio0\r\nm=video 9 UDP/TLS/RTP/SAVPF 99 102\r\na=mid:video0\r\na=rtpmap:99 VP8/90000\r\na=rtpmap:102 H264/90000\r\n"

abbrev video_answer : Text
video_answer =
    codes
      "v=0\r\nm=audio 9 UDP/TLS/RTP/SAVPF 111\r\na=mid:audio0\r\nm=video 0 UDP/TLS/RTP/SAVPF 0\r\na=sendrecv\r\n"

mid_inserted :
    normalize_rejected_media_mids video_offer video_answer
    ≡ codes
        "v=0\r\nm=audio 9 UDP/TLS/RTP/SAVPF 111\r\na=mid:audio0\r\nm=video 0 UDP/TLS/RTP/SAVPF 0\r\na=mid:video0\r\na=sendrecv\r\n"
unfolding normalize_rejected_media_mids split join fields media_line_fields parse_uint
    offer_media_sections
mid_inserted = refl

video_rewritten :
    normalize_rejected_video_payloads video_offer video_answer
    ≡ codes
        "v=0\r\nm=audio 9 UDP/TLS/RTP/SAVPF 111\r\na=mid:audio0\r\nm=video 0 UDP/TLS/RTP/SAVPF 102\r\na=rtpmap:102 H264/90000\r\na=inactive\r\n"
unfolding normalize_rejected_video_payloads split join fields offered_video_payloads
    normalize_video_line rtpmap_payload field_spans edit_video_body
video_rewritten = refl

normalize_rejected_media_mids_lem_example :
    normalize_rejected_media_mids video_offer video_answer ≡ (
      let lines = lines_of video_answer in
      join
        (section_body lines ++ edited (offered_in (groups (lines_of video_offer))) 0 (groups lines))
        (line_separator video_answer))
normalize_rejected_media_mids_lem_example =
    normalize_rejected_media_mids_lem video_offer video_answer

abbrev rejected_line : Text
rejected_line = codes "m=video 0 UDP/TLS/RTP/SAVPF 0"

abbrev rejected_body : List Text
rejected_body = codes "c=IN IP4 0.0.0.0" ∷ codes "a=sendrecv" ∷ []

abbrev offered_video : MediaSection
offered_video = record { media_type = codes "video"; mid = codes "video0" }

edit_section_inserts_example :
    (i : ℕ) × (i ≤ length rejected_body)
    × (edit_section (rejected_line ∷ rejected_body) (some offered_video)
        ≡ rejected_line ∷ (take i rejected_body ++ (mid_line offered_video ∷ drop i rejected_body)))
unfolding is_rejected_like media_line_fields fields split parse_uint has_mid
edit_section_inserts_example =
    edit_section_inserts rejected_line rejected_body offered_video refl refl

abbrev offered_h264 : OfferedPayload
offered_h264 = record { payload = codes "102"; rtpmap = codes "a=rtpmap:102 H264/90000" }

abbrev behind_rejected : List Text
behind_rejected = rejected_body ++ (codes "m=audio 9 X 111" ∷ codes "a=mid:1" ∷ [])

video_from-inactive_example :
    (body : List Text) × (video_from (offered_h264 ∷ []) 0 0 (rejected_line ∷ behind_rejected)
      ≡ codes "m=video 0 UDP/TLS/RTP/SAVPF 102"
        ∷ (body
            ++ video_from
                (offered_h264 ∷ [])
                1
                (length (section_body behind_rejected))
                behind_rejected))
    × (has_line inactive body ≡ true)
    × All IsSilent body
unfolding normalize_video_line field_spans
video_from-inactive_example =
    video_from-inactive (offered_h264 ∷ []) 0 rejected_line
      (codes "m=video 0 UDP/TLS/RTP/SAVPF 102") behind_rejected refl refl

-- A section that maps two payloads, of which neither is the offered one.
abbrev mapping_body : List Text
mapping_body =
    codes "a=rtpmap:99 VP8/90000" ∷ codes "a=recvonly" ∷ codes "a=rtpmap:100 VP9/90000" ∷ []

edit_video_body-rtpmaps_example :
    rtpmaps (codes "102") (edit_video_body true offered_h264 mapping_body)
    ≡ codes "a=rtpmap:102 H264/90000" ∷ []
unfolding rtpmap_payload field_spans
edit_video_body-rtpmaps_example =
    edit_video_body-rtpmaps true (codes "102") offered_h264 mapping_body (inr refl)

-- A rejected video section, whose media line gets the payload of the offer.
abbrev mixed_offer : Text
mixed_offer =
    codes "m=audio 9 X 111\na=mid:0\nm=video 9 X 96 102\na=mid:1\na=rtpmap:102 H264/90000\n"

abbrev rejected_answer : Text
rejected_answer = codes "v=0\r\nm=audio 9 X 111\r\na=mid:0\r\nm=video 0 X 0\r\na=recvonly\r\n"

normalize_answer-IsLike_example :
    IsLike
      (media_lines (split rejected_answer crlf))
      (media_lines (split (normalize_answer every mixed_offer rejected_answer) crlf))
normalize_answer-IsLike_example = normalize_answer-IsLike every mixed_offer rejected_answer refl

video_line_rewritten :
    media_lines (split (normalize_answer every mixed_offer rejected_answer) crlf)
    ≡ codes "m=audio 9 X 111" ∷ codes "m=video 0 X 102" ∷ []
unfolding normalize_answer normalize_rejected_video_payloads normalize_rejected_media_mids
    normalize_rtcp_mux_candidates video_from offered_video_payloads normalize_video_line
    edit_video_body section_body split join fields field_spans rtpmap_payload has_line
    offer_media_sections remove_candidates edit_section has_mid media_line_fields parse_uint atoi
    is_rejected_like
video_line_rewritten = refl
