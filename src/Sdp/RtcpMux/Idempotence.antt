-- ===== src/Sdp/RtcpMux/Idempotence.antt =====
-- What normalizeAlexaRTCPMuxCandidates keeps of an answer, and that a second run changes nothing.
use homebrain.Prelude.{
  ◌≤◌, Bool, true, false, ◌&&◌, List, [], ◌∷◌, ◌≡◌, ◌≢◌, refl, sym, ap, ◌∙◌, ◌⊎◌, inl, inr, arith,
  length, Bool-cases, All,
}
use homebrain.Text.{Text, text_eq, text_eq_iff, split, join}
use homebrain.Text.Lines.{
  line_separator, line_separator-IsLineSep, line_separator-ne-nil, Lacks, split-Lacks, join-split,
  split-join,
}
use homebrain.Text.Separator.{IsClear, IsClear-tail, IsClear-cons, line_separator-join}
use homebrain.Sdp.{is_media_line, section_body, section_body_media, section_body_line, has_line}
use homebrain.Sdp.RtcpMux.{
  rtcp_mux, is_open_audio, is_rtcp_candidate, normalize_rtcp_mux_candidates,
}
use homebrain.Sdp.RtcpMux.Sections.{is_muxed, without_rtcp, remove_candidates-without_rtcp}

has_line_skip :
    (line : Text) (lines : List Text)
    → text_eq line rtcp_mux ≡ false
    → has_line rtcp_mux (line ∷ lines) ≡ has_line rtcp_mux lines
unfolding has_line
has_line_skip line lines h = rw h

has_line_cong :
    (line : Text) (xs ys : List Text)
    → has_line rtcp_mux xs ≡ has_line rtcp_mux ys
    → has_line rtcp_mux (line ∷ xs) ≡ has_line rtcp_mux (line ∷ ys)
unfolding has_line
has_line_cong line xs ys h = rw h

has_line_nonempty :
    (lines : List Text) → has_line rtcp_mux (section_body lines) ≡ true → 1 ≤ length lines
unfolding has_line section_body
has_line_nonempty [] h = cc
has_line_nonempty (line ∷ lines) h = omega arith

ne_nil : (ls : List Text) → 2 ≤ length ls → ls ≢ []
ne_nil [] h = absurd (omega arith)
ne_nil (l ∷ ls) h = cc

longer :
    (line : Text) (ks ls : List Text)
    → (ks ≡ ls) ⊎ (2 ≤ length ks)
    → (line ∷ ks ≡ line ∷ ls) ⊎ (2 ≤ length (line ∷ ks))
longer line ks ls h = ground arith

module _ (valid : Text → Bool) where
  without_rtcp_media :
      (muxed : Bool) (line : Text) (lines : List Text)
      → is_media_line line ≡ true
      → without_rtcp valid muxed (line ∷ lines)
        ≡ line ∷ without_rtcp valid (is_muxed line (section_body lines)) lines
  unfolding without_rtcp
  without_rtcp_media muxed line lines h = ground arith

  without_rtcp_nil :
      (muxed : Bool) (lines : List Text) → lines ≡ [] → without_rtcp valid muxed lines ≡ []
  without_rtcp_nil muxed lines e = rw e (unfold without_rtcp in refl)

  without_rtcp_gone :
      (muxed : Bool) (line : Text) (lines : List Text)
      → is_media_line line ≡ false
      → (muxed && is_rtcp_candidate valid line) ≡ true
      → without_rtcp valid muxed (line ∷ lines) ≡ without_rtcp valid muxed lines
  unfolding without_rtcp
  without_rtcp_gone muxed line lines h k = ground arith

  without_rtcp_kept :
      (muxed : Bool) (line : Text) (lines : List Text)
      → is_media_line line ≡ false
      → (muxed && is_rtcp_candidate valid line) ≡ false
      → without_rtcp valid muxed (line ∷ lines) ≡ line ∷ without_rtcp valid muxed lines
  unfolding without_rtcp
  without_rtcp_kept muxed line lines h k = ground arith

  -- The line a=rtcp-mux is no candidate.
  rtcp_mux_stays :
      (line : Text) → is_rtcp_candidate valid line ≡ true → text_eq line rtcp_mux ≡ false
  unfolding is_rtcp_candidate
  rtcp_mux_stays line h = ground (arith, text_eq_iff line rtcp_mux)

  -- The body of the section being read still has a=rtcp-mux afterwards, if it had it.
  has_line-without_rtcp :
      (muxed : Bool) (lines : List Text)
      → has_line rtcp_mux (section_body (without_rtcp valid muxed lines))
        ≡ has_line rtcp_mux (section_body lines)
  has_line-without_rtcp muxed [] = unfold without_rtcp in refl
  has_line-without_rtcp muxed (line ∷ lines) = elim (Bool-cases (is_media_line line)) [
    | inl media ↦ rw (without_rtcp_media muxed line lines media) (
        ap (has_line rtcp_mux)
          (section_body_media line _ media ∙ sym (section_body_media line lines media)))
    | inr plain ↦
        let ih = has_line-without_rtcp muxed lines in
        elim (Bool-cases (muxed && is_rtcp_candidate valid line)) [
          | inl gone ↦ rw (without_rtcp_gone muxed line lines plain gone) (
              ih
              ∙ sym (has_line_skip line (section_body lines) (rtcp_mux_stays line (ground arith)))
              ∙ ap (has_line rtcp_mux) (sym (section_body_line line lines plain)))
          | inr kept ↦ rw (without_rtcp_kept muxed line lines plain kept) (
              ap (has_line rtcp_mux) (section_body_line line _ plain)
              ∙ has_line_cong line _ _ ih
              ∙ ap (has_line rtcp_mux) (sym (section_body_line line lines plain)))
        ]
  ]

  -- A second pass removes nothing.
  without_rtcp_idem :
      (muxed : Bool) (lines : List Text)
      → without_rtcp valid muxed (without_rtcp valid muxed lines) ≡ without_rtcp valid muxed lines
  without_rtcp_idem muxed [] = unfold without_rtcp in refl
  without_rtcp_idem muxed (line ∷ lines) = elim (Bool-cases (is_media_line line)) [
    | inl media ↦
        let now = is_muxed line (section_body lines) in
        rw (without_rtcp_media muxed line lines media) (
          without_rtcp_media muxed line (without_rtcp valid now lines) media
          ∙ ap
              (λ b.
                line ∷ without_rtcp valid (is_open_audio line && b) (without_rtcp valid now lines))
              (has_line-without_rtcp now lines)
          ∙ ap (◌∷◌ line) (without_rtcp_idem now lines))
    | inr plain ↦
        let ih = without_rtcp_idem muxed lines in
        elim (Bool-cases (muxed && is_rtcp_candidate valid line)) [
          | inl gone ↦ rw (without_rtcp_gone muxed line lines plain gone) ih
          | inr kept ↦
              rw (without_rtcp_kept muxed line lines plain kept)
                (without_rtcp_kept muxed line _ plain kept ∙ ap (◌∷◌ line) ih)
        ]
  ]

  -- A predicate on lines holds of what is kept.
  pub All-without_rtcp {κ} :
      (P : Text → Type κ) (muxed : Bool) (lines : List Text)
      → All P lines
      → All P (without_rtcp valid muxed lines)
  All-without_rtcp P muxed [] h = unfold without_rtcp in tt
  All-without_rtcp P muxed (line ∷ lines) (p, h) = elim (Bool-cases (is_media_line line)) [
    | inl media ↦
        rw (without_rtcp_media muxed line lines media)
          (p, All-without_rtcp P (is_muxed line (section_body lines)) lines h)
    | inr plain ↦
        let ih = All-without_rtcp P muxed lines h in
        elim (Bool-cases (muxed && is_rtcp_candidate valid line)) [
          | inl gone ↦ rw (without_rtcp_gone muxed line lines plain gone) ih
          | inr kept ↦ rw (without_rtcp_kept muxed line lines plain kept) (p, ih)
        ]
  ]

  body_left :
      (line : Text) (lines : List Text)
      → is_muxed line (section_body lines) ≡ true
      → 1 ≤ length (without_rtcp valid true lines)
  body_left line lines h =
      has_line_nonempty (without_rtcp valid true lines)
        (has_line-without_rtcp true lines ∙ ground arith)

  -- Either nothing is removed, or two lines are left: a media line and a=rtcp-mux.
  pub unchanged_or_two :
      (lines : List Text)
      → (without_rtcp valid false lines ≡ lines) ⊎ (2 ≤ length (without_rtcp valid false lines))
  unchanged_or_two [] = unfold without_rtcp in inl refl
  unchanged_or_two (line ∷ lines) = elim (Bool-cases (is_media_line line)) [
    | inl media ↦
        rw (without_rtcp_media false line lines media)
          (elim (Bool-cases (is_muxed line (section_body lines))) [
            | inl yes' ↦ rw yes' (inr (ground (arith, body_left line lines yes')))
            | inr no' ↦ rw no' (longer line _ lines (unchanged_or_two lines))
          ])
    | inr plain ↦
        rw (without_rtcp_kept false line lines plain refl)
          (longer line _ lines (unchanged_or_two lines))
  ]

  without_rtcp-IsClear :
      (muxed : Bool) (lines : List Text) → IsClear lines → IsClear (without_rtcp valid muxed lines)
  without_rtcp-IsClear muxed [] h = unfold without_rtcp in tt
  without_rtcp-IsClear muxed (line ∷ lines) h = elim (Bool-cases (is_media_line line)) [
    | inl media ↦
        let now = is_muxed line (section_body lines) in
        rw (without_rtcp_media muxed line lines media) (
          IsClear-cons line _ lines h (without_rtcp-IsClear now lines (IsClear-tail line lines h))
            (without_rtcp_nil now lines))
    | inr plain ↦
        let ih = without_rtcp-IsClear muxed lines (IsClear-tail line lines h) in
        elim (Bool-cases (muxed && is_rtcp_candidate valid line)) [
          | inl gone ↦ rw (without_rtcp_gone muxed line lines plain gone) ih
          | inr kept ↦
              rw (without_rtcp_kept muxed line lines plain kept)
                (IsClear-cons line _ lines h ih (without_rtcp_nil muxed lines))
        ]
  ]

  normalize_lem :
      (s separator : Text)
      → line_separator s ≡ separator
      → normalize_rtcp_mux_candidates valid s
        ≡ join (without_rtcp valid false (split s separator)) separator
  unfolding normalize_rtcp_mux_candidates
  normalize_lem s separator e = rw (← e) (
      ap (λ ls. join ls (line_separator s))
        (remove_candidates-without_rtcp valid (split s (line_separator s))))

  -- Normalising a normalised answer changes nothing, for every answer and whatever candidates the
  -- third-party parser accepts.
  pub normalize_rtcp_mux_candidates_idem :
      (answer : Text)
      → normalize_rtcp_mux_candidates valid (normalize_rtcp_mux_candidates valid answer)
        ≡ normalize_rtcp_mux_candidates valid answer
  normalize_rtcp_mux_candidates_idem answer =
      let separator = line_separator answer in
      let lines = split answer separator in
      let kept = without_rtcp valid false lines in
      let joined = λ (ls : List Text). join ls separator in
      rw (normalize_lem answer separator refl) (elim (unchanged_or_two lines) [
        | inl same ↦
            let whole : joined kept ≡ answer =
              ap joined same ∙ join-split answer separator (line_separator-ne-nil answer) in
            ap (normalize_rtcp_mux_candidates valid) whole ∙ normalize_lem answer separator refl
        | inr two ↦
            normalize_lem (joined kept) separator
              (line_separator-join answer kept two (without_rtcp-IsClear false lines))
            ∙ ap (λ ls. joined (without_rtcp valid false ls))
                (split-join separator kept (line_separator-IsLineSep answer) (ne_nil kept two) (
                  All-without_rtcp (Lacks separator) false lines
                    (split-Lacks answer separator (line_separator-ne-nil answer))))
            ∙ ap joined (without_rtcp_idem false lines)
      ])
