-- ===== src/Sdp/RtcpMux.antt =====
-- normalizeAlexaRTCPMuxCandidates of internal/rtc/server.go: in an audio section that has
-- a=rtcp-mux, the candidates of component 2 are taken out. ice.UnmarshalCandidate is third-party
-- code: `valid` says whether it accepts a text.
pub mod Sections
pub mod Idempotence
use homebrain.Prelude.{
  ℕ, zero, suc, Bool, true, false, not, ◌&&◌, List, [], ◌∷◌, if◌then◌else◌, set, replicate, length,
}
use homebrain.Text.{Text, codes, has_prefix, trim_prefix, text_eq, split, join, fields}
use homebrain.Text.Lines.{line_separator}
use homebrain.Text.Number.{atoi, is_positive}
use homebrain.Sdp.{is_media_line, section_body, has_line}

abbrev pub rtcp_mux : Text
rtcp_mux = codes "a=rtcp-mux"

abbrev pub candidate_prefix : Text
candidate_prefix = codes "a=candidate:"

-- The guards on the media line: m=audio, at a port above 0.
open_audio_fields : List Text → Bool
open_audio_fields [] = false
open_audio_fields (media ∷ []) = false
open_audio_fields (media ∷ port ∷ more) = text_eq media (codes "m=audio") && is_positive (atoi port)

pub is_open_audio : Text → Bool
unfolding open_audio_fields
is_open_audio line = open_audio_fields (fields line)

-- The loop that copies the lines that are not marked.
keep_unmarked : List Text → List Bool → List Text
keep_unmarked [] remove = []
keep_unmarked (line ∷ lines) [] = line ∷ keep_unmarked lines []
keep_unmarked (line ∷ lines) (marked ∷ remove) =
    let rest = keep_unmarked lines remove in if marked then rest else line ∷ rest

module _ (valid : Text → Bool) where
  -- The guards on the fields of a candidate line.
  rtcp_fields : List Text → Bool
  rtcp_fields [] = false
  rtcp_fields (candidate ∷ []) = false
  rtcp_fields (candidate ∷ component ∷ more) =
      if not (text_eq component (codes "2"))
      then false
      else if text_eq candidate candidate_prefix
      then false
      else valid (trim_prefix (join (candidate ∷ component ∷ more) (codes " ")) (codes "a="))

  pub is_rtcp_candidate : Text → Bool
  unfolding rtcp_fields
  is_rtcp_candidate line =
      if not (has_prefix line candidate_prefix) then false else rtcp_fields (fields line)

  -- The loop that sets `remove[lineIndex]`, from line `index` on.
  mark_candidates : ℕ → List Text → List Bool → List Bool
  mark_candidates index [] remove = remove
  mark_candidates index (line ∷ lines) remove =
      mark_candidates (suc index) lines
        (if is_rtcp_candidate line then set remove index true else remove)

  -- One round of the outer loop at a media line, which is line `start`.
  mark_section : ℕ → Text → List Text → List Bool → List Bool
  mark_section start line body remove =
      if not (is_open_audio line)
      then remove
      else if not (has_line rtcp_mux body)
      then remove
      else mark_candidates (suc start) body remove

  -- The outer loop, from line `start` on; the lines given are those from `start` on.
  mark_sections : ℕ → List Text → List Bool → List Bool
  mark_sections start [] remove = remove
  mark_sections start (line ∷ lines) remove =
      mark_sections (suc start) lines
        (if is_media_line line then mark_section start line (section_body lines) remove else remove)

  unfoldable pub remove_candidates : List Text → List Text
  unfolding is_rtcp_candidate is_open_audio mark_candidates mark_section mark_sections keep_unmarked
      has_line section_body
  remove_candidates lines =
      keep_unmarked lines (mark_sections 0 lines (replicate (length lines) false))

  unfoldable pub normalize_rtcp_mux_candidates : Text → Text
  unfolding remove_candidates
  normalize_rtcp_mux_candidates answer =
      let separator = line_separator answer in
      join (remove_candidates (split answer separator)) separator
