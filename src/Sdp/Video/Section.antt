-- ===== src/Sdp/Video/Section.antt =====
-- What normalizeAlexaRejectedVideoPayloads makes of the body of a rejected video section.
use homebrain.Prelude.{
  ℕ, zero, suc, Bool, true, false, List, [], ◌∷◌, ◌++◌, ◌≡◌, inl, inr, refl, ◌∙◌, arith, some,
  if◌then◌else◌, Bool-cases, All, length, ◌==◌,
}
use homebrain.Text.{Text, codes, text_eq_iff, text_eq_refl}
use homebrain.Sdp.{has_line, section_body}
use homebrain.Sdp.Video.{
  OfferedPayload, section_end, insert_line, add_rtpmap, inactive, is_active, silence_lines,
  has_direction, add_direction, edit_video_body, is_video_line, normalize_video_line, offered_at,
  video_from,
}

-- The lines of the section that ask for media to flow.
abbrev pub active_lines : List Text → List Text
active_lines [] = []
active_lines (line ∷ lines) =
    let rest = active_lines lines in if is_active line then line ∷ rest else rest

active_lines-append :
    (xs ys : List Text) → active_lines (xs ++ ys) ≡ active_lines xs ++ active_lines ys
active_lines-append [] ys = refl
active_lines-append (x ∷ xs) ys = ground (arith, active_lines-append xs ys)

active_lines-insert :
    (i : ℕ) (line : Text) (xs : List Text)
    → is_active line ≡ false
    → active_lines (insert_line i line xs) ≡ active_lines xs
active_lines-insert zero line xs h = ground arith
active_lines-insert (suc i) line [] h = ground arith
active_lines-insert (suc i) line (x ∷ xs) h = ground (arith, active_lines-insert i line xs)

has_line-insert :
    (i : ℕ) (line : Text) (xs : List Text) → has_line line (insert_line i line xs) ≡ true
unfolding has_line
has_line-insert zero line xs = ground (arith, text_eq_refl line)
has_line-insert (suc i) line [] = ground (arith, text_eq_refl line)
has_line-insert (suc i) line (x ∷ xs) = ground (arith, has_line-insert i line xs)

active_lines-silence : (xs : List Text) → active_lines (silence_lines xs) ≡ []
unfolding silence_lines
active_lines-silence [] = refl
active_lines-silence (x ∷ xs) = ground (arith, active_lines-silence xs)

has_line-silence :
    (xs : List Text) → has_direction xs ≡ true → has_line inactive (silence_lines xs) ≡ true
unfolding silence_lines has_direction has_line
has_line-silence [] h = h
has_line-silence (x ∷ xs) h = ground (arith, has_line-silence xs, text_eq_iff x inactive)

add_direction-inactive :
    (last : Bool) (body : List Text)
    → (has_line inactive (add_direction last body) ≡ true)
      × (active_lines (add_direction last body) ≡ [])
unfolding add_direction
add_direction-inactive last body = elim (Bool-cases (has_direction body)) [
  | inl has ↦ rw has (has_line-silence body has, active_lines-silence body)
  | inr lacks ↦
      let end = section_end last (silence_lines body) in
      rw lacks (
        has_line-insert end inactive (silence_lines body),
        active_lines-insert end inactive (silence_lines body) refl ∙ active_lines-silence body,
      )
]

-- A line that asks for no media to flow.
pub record IsSilent (line : Text) : Type 0 where
  pub not_both : ¬ (line ≡ codes "a=sendrecv")
  pub not_out : ¬ (line ≡ codes "a=sendonly")
  pub not_in : ¬ (line ≡ codes "a=recvonly")

is_active-IsSilent : (line : Text) → is_active line ≡ false → IsSilent line
is_active-IsSilent line h = record {
  not_both = λ e. absurd (ground (arith, h, (text_eq_iff line (codes "a=sendrecv")).1 e));
  not_out = λ e. absurd (ground (arith, h, (text_eq_iff line (codes "a=sendonly")).1 e));
  not_in = λ e. absurd (ground (arith, h, (text_eq_iff line (codes "a=recvonly")).1 e));
}

active_lines-IsSilent : (xs : List Text) → active_lines xs ≡ [] → All IsSilent xs
active_lines-IsSilent [] h = tt
active_lines-IsSilent (x ∷ xs) h =
    (is_active-IsSilent x (ground arith), active_lines-IsSilent xs (ground arith))

edit_video_body-IsSilent :
    (last : Bool) (offered : OfferedPayload) (body : List Text)
    → (has_line inactive (edit_video_body last offered body) ≡ true)
      × All IsSilent (edit_video_body last offered body)
unfolding edit_video_body
edit_video_body-IsSilent last offered body =
    let (has, none_asks) = add_direction-inactive last (add_rtpmap last offered body) in
    (has, active_lines-IsSilent (edit_video_body last offered body) none_asks)

-- The loop of normalizeAlexaRejectedVideoPayloads at the media line of a video section that it
-- rewrites: the new line is written, then a body that has a=inactive and in which no line is
-- a=sendrecv, a=sendonly or a=recvonly, then what the loop makes of the lines behind the section.
pub video_from-inactive :
    (offered : List OfferedPayload) (index : ℕ) (line line' : Text) (lines : List Text)
    → is_video_line line ≡ true
    → normalize_video_line line (offered_at offered index).payload ≡ some line'
    → (body : List Text) × (video_from offered index 0 (line ∷ lines)
        ≡ line' ∷ (body ++ video_from offered (suc index) (length (section_body lines)) lines))
      × (has_line inactive body ≡ true)
      × All IsSilent body
unfolding video_from
video_from-inactive offered index line line' lines v n =
    let last = length (section_body lines) == length lines in
    let body = edit_video_body last (offered_at offered index) (section_body lines) in
    let (has, silent) =
      edit_video_body-IsSilent last (offered_at offered index) (section_body lines) in
    (body, rw (v, n, video_from) refl, has, silent)
