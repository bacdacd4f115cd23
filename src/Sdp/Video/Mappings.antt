-- ===== src/Sdp/Video/Mappings.antt =====
-- The rtpmaps in the body of a video section that normalizeAlexaRejectedVideoPayloads rewrites.
use homebrain.Prelude.{
  ℕ, zero, suc, Bool, true, false, not, ◌&&◌, List, [], ◌∷◌, ◌≡◌, ◌⊎◌, inl, inr, refl, sym, ap, ◌∙◌,
  arith, if◌then◌else◌, is_empty, Bool-cases, Option-cases,
}
use homebrain.Text.{Text, codes, text_eq, text_eq_iff, text_eq_refl, text_eq_sym}
use homebrain.Sdp.{attribute_index}
use homebrain.Sdp.Video.{
  OfferedPayload, maps, rtpmap_payload, or_else, section_has_rtpmap, section_end, insert_line,
  add_rtpmap, inactive, is_active, silence_lines, has_direction, add_direction, edit_video_body,
}
use homebrain.Sdp.Video.Offered.{IsMatched}

-- The lines of a section that map a payload.
abbrev pub rtpmaps : Text → List Text → List Text
rtpmaps payload [] = []
rtpmaps payload (line ∷ lines) =
    let rest = rtpmaps payload lines in if maps payload line then line ∷ rest else rest

section_has_rtpmap-rtpmaps :
    (payload : Text) (xs : List Text)
    → section_has_rtpmap xs payload ≡ not (is_empty (rtpmaps payload xs))
unfolding section_has_rtpmap
section_has_rtpmap-rtpmaps payload [] = refl
section_has_rtpmap-rtpmaps payload (x ∷ xs) = ground (arith, section_has_rtpmap-rtpmaps payload xs)

rtpmaps-insert_other :
    (i : ℕ) (line payload : Text) (xs : List Text)
    → maps payload line ≡ false
    → rtpmaps payload (insert_line i line xs) ≡ rtpmaps payload xs
rtpmaps-insert_other zero line payload xs h = ground arith
rtpmaps-insert_other (suc i) line payload [] h = ground arith
rtpmaps-insert_other (suc i) line payload (x ∷ xs) h =
    ground (arith, rtpmaps-insert_other i line payload xs h)

rtpmaps-insert_first :
    (i : ℕ) (line payload : Text) (xs : List Text)
    → maps payload line ≡ true
    → rtpmaps payload xs ≡ []
    → rtpmaps payload (insert_line i line xs) ≡ line ∷ []
rtpmaps-insert_first zero line payload xs h e = ground arith
rtpmaps-insert_first (suc i) line payload [] h e = ground arith
rtpmaps-insert_first (suc i) line payload (x ∷ xs) h e =
    ground (arith, rtpmaps-insert_first i line payload xs h (ground arith))

maps-active : (payload line : Text) → is_active line ≡ true → maps payload line ≡ false
unfolding rtpmap_payload
maps-active payload line h = ground (
  arith,
  text_eq_iff line (codes "a=sendrecv"),
  text_eq_iff line (codes "a=sendonly"),
  text_eq_iff line (codes "a=recvonly"),
)

maps-inactive : (payload : Text) → maps payload inactive ≡ false
unfolding rtpmap_payload
maps-inactive payload = refl

rtpmaps-silence :
    (payload : Text) (xs : List Text) → rtpmaps payload (silence_lines xs) ≡ rtpmaps payload xs
unfolding silence_lines
rtpmaps-silence payload [] = refl
rtpmaps-silence payload (x ∷ xs) =
    ground (arith, rtpmaps-silence payload xs, maps-active payload x, maps-inactive payload)

rtpmaps-add_direction :
    (last : Bool) (payload : Text) (xs : List Text)
    → rtpmaps payload (add_direction last xs) ≡ rtpmaps payload xs
unfolding add_direction
rtpmaps-add_direction last payload xs = elim (Bool-cases (has_direction xs)) [
  | inl has ↦ rw has (rtpmaps-silence payload xs)
  | inr lacks ↦ rw lacks (
      rtpmaps-insert_other (section_end last (silence_lines xs)) inactive payload (silence_lines xs)
        (maps-inactive payload)
      ∙ rtpmaps-silence payload xs)
]

-- A line maps one payload.
maps_one : (line p q : Text) → maps p line ≡ true → maps q line ≡ text_eq q p
unfolding rtpmap_payload
maps_one line p q h = elim (Option-cases (rtpmap_payload line)) [
  | inl e ↦ absurd (ground (arith, e, h))
  | inr (x, e) ↦ rw (e, (text_eq_iff x p).0 (ground (arith, e, h))) (text_eq_sym p q)
]

-- What add_rtpmap leaves of the mappings of a payload.
abbrev pub mapped_with : Text → OfferedPayload → List Text → List Text
mapped_with payload o body =
    if text_eq payload o.payload && not (is_empty o.rtpmap) && is_empty (rtpmaps payload body)
    then o.rtpmap ∷ []
    else rtpmaps payload body

rtpmaps-empty :
    (payload : Text) (xs : List Text)
    → is_empty (rtpmaps payload xs) ≡ true
    → rtpmaps payload xs ≡ []
rtpmaps-empty payload xs h = ground arith

rtpmaps-inserted :
    (i : ℕ) (payload : Text) (o : OfferedPayload) (body : List Text)
    → maps o.payload o.rtpmap ≡ true
    → is_empty o.rtpmap ≡ false
    → is_empty (rtpmaps o.payload body) ≡ true
    → rtpmaps payload (insert_line i o.rtpmap body) ≡ mapped_with payload o body
rtpmaps-inserted i payload o body m filled lacks = elim (Bool-cases (text_eq payload o.payload)) [
  | inl e ↦
      rw ((text_eq_iff payload o.payload).0 e, text_eq_refl o.payload, filled, lacks)
        (rtpmaps-insert_first i o.rtpmap o.payload body m (rtpmaps-empty o.payload body lacks))
  | inr e ↦
      rw e
        (rtpmaps-insert_other i o.rtpmap payload body (maps_one o.rtpmap o.payload payload m ∙ e))
]

rtpmaps-kept :
    (payload : Text) (o : OfferedPayload) (body : List Text)
    → (is_empty o.rtpmap ≡ true) ⊎ (is_empty (rtpmaps o.payload body) ≡ false)
    → mapped_with payload o body ≡ rtpmaps payload body
rtpmaps-kept payload o body (inl h) = ground (arith, h)
rtpmaps-kept payload o body (inr h) = elim (Bool-cases (text_eq payload o.payload)) [
  | inl e ↦ rw ((text_eq_iff payload o.payload).0 e, h) (ground arith)
  | inr e ↦ rw e refl
]

add_rtpmap_kept :
    (last : Bool) (o : OfferedPayload) (body : List Text)
    → (is_empty o.rtpmap ≡ true) ⊎ (is_empty (rtpmaps o.payload body) ≡ false)
    → add_rtpmap last o body ≡ body
unfolding add_rtpmap
add_rtpmap_kept last o body (inl h) = rw h refl
add_rtpmap_kept last o body (inr h) = ground (arith, section_has_rtpmap-rtpmaps o.payload body, h)

add_rtpmap_inserted :
    (last : Bool) (o : OfferedPayload) (body : List Text)
    → is_empty o.rtpmap ≡ false
    → is_empty (rtpmaps o.payload body) ≡ true
    → add_rtpmap last o body
      ≡ insert_line (or_else (attribute_index 0 body) (section_end last body)) o.rtpmap body
unfolding add_rtpmap
add_rtpmap_inserted last o body filled lacks =
    rw (filled, section_has_rtpmap-rtpmaps o.payload body, lacks) refl

rtpmaps-add_rtpmap_kept :
    (last : Bool) (payload : Text) (o : OfferedPayload) (body : List Text)
    → (is_empty o.rtpmap ≡ true) ⊎ (is_empty (rtpmaps o.payload body) ≡ false)
    → rtpmaps payload (add_rtpmap last o body) ≡ mapped_with payload o body
rtpmaps-add_rtpmap_kept last payload o body h =
    ap (rtpmaps payload) (add_rtpmap_kept last o body h) ∙ sym (rtpmaps-kept payload o body h)

rtpmaps-add_rtpmap :
    (last : Bool) (payload : Text) (o : OfferedPayload) (body : List Text)
    → IsMatched o
    → rtpmaps payload (add_rtpmap last o body) ≡ mapped_with payload o body
rtpmaps-add_rtpmap last payload o body (inl h) = rtpmaps-add_rtpmap_kept last payload o body (inl h)
rtpmaps-add_rtpmap last payload o body (inr m) = elim (Bool-cases (is_empty o.rtpmap)) [
  | inl h ↦ rtpmaps-add_rtpmap_kept last payload o body (inl h)
  | inr filled ↦ elim (Bool-cases (is_empty (rtpmaps o.payload body))) [
    | inl lacks ↦
        let i = or_else (attribute_index 0 body) (section_end last body) in
        ap (rtpmaps payload) (add_rtpmap_inserted last o body filled lacks)
        ∙ rtpmaps-inserted i payload o body m filled lacks
    | inr has ↦ rtpmaps-add_rtpmap_kept last payload o body (inr has)
  ]
]

-- In the body of a video section whose media line is rewritten, the lines that map a payload stay
-- as they are and in their order, whichever payload it is. There is one exception: if the offer
-- has an rtpmap of the offered payload and the section has none of it, it then has the offer's,
-- once. The rtpmap of an offered payload is taken to map that payload.
pub edit_video_body-rtpmaps :
    (last : Bool) (payload : Text) (offered : OfferedPayload) (body : List Text)
    → IsMatched offered
    → rtpmaps payload (edit_video_body last offered body) ≡ (
        if text_eq payload offered.payload
          && not (is_empty offered.rtpmap)
          && is_empty (rtpmaps payload body)
        then offered.rtpmap ∷ []
        else rtpmaps payload body)
unfolding edit_video_body
edit_video_body-rtpmaps last payload offered body matched =
    rtpmaps-add_direction last payload (add_rtpmap last offered body)
    ∙ rtpmaps-add_rtpmap last payload offered body matched
