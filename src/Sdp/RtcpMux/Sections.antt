-- ===== src/Sdp/RtcpMux/Sections.antt =====
-- The marks of normalizeAlexaRTCPMuxCandidates against a description section by section.
use homebrain.Prelude.{
  ℕ, suc, Bool, true, false, ◌&&◌, List, [], ◌∷◌, ◌++◌, append_assoc, ◌≡◌, refl, sym, ap, ◌∙◌, inl,
  inr, arith, if◌then◌else◌, set, replicate, length, Bool-cases,
}
use mathlib.Core.Path.{ap₂}
use homebrain.Text.{Text}
use homebrain.Sdp.{is_media_line, section_body, section_body_media, section_body_line, has_line}
use homebrain.Sdp.RtcpMux.{
  rtcp_mux, is_open_audio, is_rtcp_candidate, mark_candidates, mark_section, mark_sections,
  keep_unmarked, remove_candidates,
}

-- The section with this media line and this body loses its candidates of component 2.
abbrev pub is_muxed : Text → List Text → Bool
is_muxed line body = is_open_audio line && has_line rtcp_mux body

module _ (valid : Text → Bool) where
  -- The description: `muxed` says what holds of the section that is being read.
  unfoldable pub without_rtcp : Bool → List Text → List Text
  without_rtcp muxed [] = []
  without_rtcp muxed (line ∷ lines) = elim (is_media_line line) [
    | true ↦ line ∷ without_rtcp (is_muxed line (section_body lines)) lines
    | false ↦
        let rest = without_rtcp muxed lines in
        if muxed && is_rtcp_candidate valid line then rest else line ∷ rest
  ]

  marks : Bool → List Text → List Bool
  marks muxed [] = []
  marks muxed (line ∷ lines) = elim (is_media_line line) [
    | true ↦ false ∷ marks (is_muxed line (section_body lines)) lines
    | false ↦ (muxed && is_rtcp_candidate valid line) ∷ marks muxed lines
  ]

  -- The marks when the outer loop has come to these lines: those of the section being read are set.
  pending : Bool → List Text → List Bool
  pending muxed [] = []
  pending muxed (line ∷ lines) = elim (is_media_line line) [
    | true ↦ false ∷ replicate (length lines) false
    | false ↦ (muxed && is_rtcp_candidate valid line) ∷ pending muxed lines
  ]

  pending-false : (lines : List Text) → pending false lines ≡ replicate (length lines) false
  unfolding pending
  pending-false [] = refl
  pending-false (line ∷ lines) = ground (arith, pending-false lines)

  set-length :
      (pre : List Bool) (b v : Bool) (post : List Bool)
      → set (pre ++ b ∷ post) (length pre) v ≡ pre ++ v ∷ post
  set-length [] b v post = refl
  set-length (x ∷ pre) b v post = ap (◌∷◌ x) (set-length pre b v post)

  length-concat : (pre : List Bool) (b : Bool) → length (pre ++ b ∷ []) ≡ suc (length pre)
  length-concat [] b = refl
  length-concat (x ∷ pre) b = ap suc (length-concat pre b)

  set-mark :
      (pre post : List Bool) (b : Bool)
      → (if b then set (pre ++ false ∷ post) (length pre) true else pre ++ false ∷ post)
        ≡ (pre ++ b ∷ []) ++ post
  set-mark pre post true = set-length pre false true post ∙ sym (append_assoc pre (true ∷ []) post)
  set-mark pre post false = sym (append_assoc pre (false ∷ []) post)

  -- The equations of `pending` and `marks`, by the kind of the first line.
  pending_media :
      (muxed : Bool) (line : Text) (lines : List Text)
      → is_media_line line ≡ true
      → pending muxed (line ∷ lines) ≡ false ∷ replicate (length lines) false
  unfolding pending
  pending_media muxed line lines h = ground arith

  pending_line :
      (muxed : Bool) (line : Text) (lines : List Text)
      → is_media_line line ≡ false
      → pending muxed (line ∷ lines) ≡ (muxed && is_rtcp_candidate valid line) ∷ pending muxed lines
  unfolding pending
  pending_line muxed line lines h = ground arith

  mark_candidates_cons :
      (index : ℕ) (line : Text) (lines : List Text) (remove : List Bool)
      → mark_candidates valid index (line ∷ lines) remove
        ≡ mark_candidates valid
            (suc index)
            lines
            (if is_rtcp_candidate valid line then set remove index true else remove)
  unfolding mark_candidates
  mark_candidates_cons index line lines remove = refl

  marks_media :
      (muxed : Bool) (line : Text) (lines : List Text)
      → is_media_line line ≡ true
      → marks muxed (line ∷ lines) ≡ false ∷ marks (is_muxed line (section_body lines)) lines
  unfolding marks
  marks_media muxed line lines h = ground arith

  marks_line :
      (muxed : Bool) (line : Text) (lines : List Text)
      → is_media_line line ≡ false
      → marks muxed (line ∷ lines) ≡ (muxed && is_rtcp_candidate valid line) ∷ marks muxed lines
  unfolding marks
  marks_line muxed line lines h = ground arith

  mark_sections_media :
      (start : ℕ) (line : Text) (lines : List Text) (remove : List Bool)
      → is_media_line line ≡ true
      → mark_sections valid start (line ∷ lines) remove
        ≡ mark_sections valid
            (suc start)
            lines
            (mark_section valid start line (section_body lines) remove)
  unfolding mark_sections
  mark_sections_media start line lines remove h = ground arith

  mark_sections_line :
      (start : ℕ) (line : Text) (lines : List Text) (remove : List Bool)
      → is_media_line line ≡ false
      → mark_sections valid start (line ∷ lines) remove
        ≡ mark_sections valid (suc start) lines remove
  unfolding mark_sections
  mark_sections_line start line lines remove h = ground arith

  mark_candidates-pending :
      (lines : List Text) (pre : List Bool)
      → mark_candidates valid
          (length pre)
          (section_body lines)
          (pre ++ replicate (length lines) false)
        ≡ pre ++ pending true lines
  mark_candidates-pending [] pre = unfold mark_candidates section_body pending in refl
  mark_candidates-pending (line ∷ lines) pre = elim (Bool-cases (is_media_line line)) [
    | inl media ↦
        rw (section_body_media line lines media, pending_media true line lines media)
          (unfold mark_candidates in refl)
    | inr plain ↦
        let b = is_rtcp_candidate valid line in
        rw (section_body_line line lines plain, pending_line true line lines plain)
          (mark_candidates_cons (length pre) line (section_body lines) _
            ∙ ap₂ (λ n r. mark_candidates valid n (section_body lines) r)
                (sym (length-concat pre b)) (set-mark pre (replicate (length lines) false) b)
            ∙ mark_candidates-pending lines (pre ++ b ∷ [])
            ∙ append_assoc pre (b ∷ []) (pending true lines))
  ]

  mark_section-pending :
      (line : Text) (lines : List Text) (pre : List Bool)
      → mark_section valid
          (length pre)
          line
          (section_body lines)
          (pre ++ false ∷ replicate (length lines) false)
        ≡ (pre ++ false ∷ []) ++ pending (is_muxed line (section_body lines)) lines
  unfolding mark_section
  mark_section-pending line lines pre = elim (Bool-cases (is_muxed line (section_body lines))) [
    | inl muxed ↦ rw muxed (ground (arith, candidates))
    | inr other ↦
        rw (other, pending-false lines)
          (ground (arith, append_assoc pre (false ∷ []) (replicate (length lines) false)))
  ]
    where
      candidates :
          mark_candidates valid
            (suc (length pre))
            (section_body lines)
            (pre ++ false ∷ replicate (length lines) false)
          ≡ (pre ++ false ∷ []) ++ pending true lines
      candidates =
          ap₂ (λ n r. mark_candidates valid n (section_body lines) r)
            (sym (length-concat pre false))
            (sym (append_assoc pre (false ∷ []) (replicate (length lines) false)))
          ∙ mark_candidates-pending lines (pre ++ false ∷ [])

  mark_sections-marks :
      (lines : List Text) (pre : List Bool) (muxed : Bool)
      → mark_sections valid (length pre) lines (pre ++ pending muxed lines)
        ≡ pre ++ marks muxed lines
  mark_sections-marks [] pre muxed = unfold mark_sections pending marks in refl
  mark_sections-marks (line ∷ lines) pre muxed = elim (Bool-cases (is_media_line line)) [
    | inl media ↦
        let now = is_muxed line (section_body lines) in
        rw (pending_media muxed line lines media, marks_media muxed line lines media)
          (mark_sections_media (length pre) line lines _ media
            ∙ ap₂ (λ n r. mark_sections valid n lines r) (sym (length-concat pre false))
                (mark_section-pending line lines pre)
            ∙ mark_sections-marks lines (pre ++ false ∷ []) now
            ∙ append_assoc pre (false ∷ []) (marks now lines))
    | inr plain ↦
        let b = muxed && is_rtcp_candidate valid line in
        rw (pending_line muxed line lines plain, marks_line muxed line lines plain)
          (mark_sections_line (length pre) line lines _ plain
            ∙ ap₂ (λ n r. mark_sections valid n lines r) (sym (length-concat pre b))
                (sym (append_assoc pre (b ∷ []) (pending muxed lines)))
            ∙ mark_sections-marks lines (pre ++ b ∷ []) muxed
            ∙ append_assoc pre (b ∷ []) (marks muxed lines))
  ]

  keep_unmarked-marks :
      (lines : List Text) (muxed : Bool)
      → keep_unmarked lines (marks muxed lines) ≡ without_rtcp muxed lines
  unfolding keep_unmarked marks without_rtcp
  keep_unmarked-marks [] muxed = refl
  keep_unmarked-marks (line ∷ lines) muxed = ground (
    arith,
    keep_unmarked-marks lines muxed,
    keep_unmarked-marks lines (is_muxed line (section_body lines)),
  )

  -- The marks by index remove what the description by sections leaves out, for every list of lines.
  pub remove_candidates-without_rtcp :
      (lines : List Text) → remove_candidates valid lines ≡ without_rtcp false lines
  unfolding remove_candidates
  remove_candidates-without_rtcp lines =
      ap (λ r. keep_unmarked lines (mark_sections valid 0 lines r)) (sym (pending-false lines))
      ∙ ap (keep_unmarked lines) (mark_sections-marks lines [] false)
      ∙ keep_unmarked-marks lines false
