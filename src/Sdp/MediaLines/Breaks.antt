-- ===== src/Sdp/MediaLines/Breaks.antt =====
-- No line that normalizeAlexaRejectedVideoPayloads writes holds a "\r\n".
use homebrain.Prelude.{
  ℕ, zero, suc, true, List, [], ◌∷◌, ◌++◌, append_assoc, append-nil, ◌≡◌, ◌⊎◌, refl, sym, ap, ◌∙◌,
  arith, some, take, drop, is_empty, All, if◌then◌else◌, Bool-cases, inl, inr,
}
use mathlib.Core.Path.{subst}
use homebrain.Text.{Text, codes, text_eq, split, fields, replace_all}
use homebrain.Text.Breaks.{
  IsWord, IsName, name-IsWord, append-word, take-Lacks, drop-Lacks, fields-IsName, word-Lacks,
  lf-All,
}
use homebrain.Text.Lines.{lf, crlf, Lacks, split-Lacks}
use homebrain.Sdp.{section_body, is_media_line}
use homebrain.Sdp.Video.{
  OfferedPayload, field_spans, rewritten, normalize_video_line, offered_at, select_payload,
  find_rtpmap, offered_entry, offered_from, offered_video_payloads, is_video_line,
}

take-append-drop : (n : ℕ) (s : Text) → take n s ++ drop n s ≡ s
take-append-drop zero s = refl
take-append-drop (suc n) [] = refl
take-append-drop (suc n) (c ∷ s) = ap (◌∷◌ c) (take-append-drop n s)

trailing-Lacks :
    (n : ℕ) (line payload : Text)
    → IsWord payload
    → Lacks crlf line
    → Lacks crlf
        (take n line ++ ((if is_empty (drop n line) then codes " " else drop n line) ++ payload))
trailing-Lacks n line payload w h = elim (Bool-cases (is_empty (drop n line))) [
  | inl e ↦ rw e (
      append-word (take n line) (codes " ") payload (take-Lacks n line h) (refl, (refl, tt))
        (word-Lacks payload w.1))
  | inr e ↦ rw e (
      subst (Lacks crlf)
        (ap (λ (l : Text). l ++ (payload ++ [])) (sym (take-append-drop n line))
          ∙ append_assoc (take n line) (drop n line) (payload ++ [])
          ∙ ap (λ (p : Text). take n line ++ (drop n line ++ p)) (append-nil payload))
        (append-word line payload [] h w refl))
]

rewritten-Lacks :
    (line payload line' : Text) (spans : List (ℕ × ℕ))
    → IsWord payload
    → Lacks crlf line
    → rewritten line payload spans ≡ some line'
    → Lacks crlf line'
unfolding rewritten
rewritten-Lacks line payload line' [] w h e = absurd (ground arith)
rewritten-Lacks line payload line' (kind ∷ []) w h e = absurd (ground arith)
rewritten-Lacks line payload line' (kind ∷ port ∷ []) w h e = absurd (ground arith)
rewritten-Lacks line payload line' (kind ∷ port ∷ protocol ∷ []) w h e =
    ground (arith, e, trailing-Lacks protocol.1 line payload w h)
rewritten-Lacks line payload line' (kind ∷ port ∷ protocol ∷ format ∷ []) w h e = ground (
  arith,
  e,
  append-word (take format.0 line) payload (drop format.1 line) (take-Lacks format.0 line h) w
      (drop-Lacks format.1 line h),
)
rewritten-Lacks line payload line' (kind ∷ port ∷ protocol ∷ format ∷ more ∷ rest) w h e =
    absurd (ground arith)

-- What an offer gives: a name or nothing for the payload, and no "\r\n" in the rtpmap.
abbrev pub IsUnbroken : OfferedPayload → Type 0
IsUnbroken o = ((is_empty o.payload ≡ true) ⊎ IsName o.payload) × Lacks crlf o.rtpmap

pub normalize_video_line-Lacks :
    (line line' : Text) (o : OfferedPayload)
    → IsUnbroken o
    → Lacks crlf line
    → normalize_video_line line o.payload ≡ some line'
    → Lacks crlf line'
unfolding normalize_video_line
normalize_video_line-Lacks line line' o (inl e, r) h n = absurd (ground (arith, e, n))
normalize_video_line-Lacks line line' o (inr w, r) h n =
    rewritten-Lacks line o.payload line' (field_spans line) (name-IsWord o.payload w) h
      (ground (arith, w.0, n))

select_payload-IsName :
    (selected : Text) (payloads : List Text)
    → IsName selected
    → All IsName payloads
    → IsName (select_payload selected payloads)
unfolding select_payload
select_payload-IsName selected [] h k = h
select_payload-IsName selected (payload ∷ payloads) h (p, k) =
    elim (Bool-cases (text_eq payload (codes "102"))) [
      | inl e ↦ rw (e, select_payload) p
      | inr e ↦ rw (e, select_payload) (select_payload-IsName selected payloads h k)
    ]

find_rtpmap-Lacks :
    (selected : Text) (lines : List Text)
    → All (Lacks crlf) lines
    → Lacks crlf (find_rtpmap selected lines)
unfolding find_rtpmap
find_rtpmap-Lacks selected [] h = refl
find_rtpmap-Lacks selected (line ∷ lines) (l, h) =
    ground (arith, l, find_rtpmap-Lacks selected lines h)

pub section_body-All {κ} :
    (P : Text → Type κ) (lines : List Text) → All P lines → All P (section_body lines)
unfolding section_body
section_body-All P [] h = tt
section_body-All P (line ∷ lines) (p, h) = elim (Bool-cases (is_media_line line)) [
  | inl e ↦ rw (e, section_body) tt
  | inr e ↦ rw (e, section_body) (p, section_body-All P lines h)
]

offered_entry-IsUnbroken :
    (fs body : List Text)
    → All IsName fs
    → All (Lacks crlf) body
    → IsUnbroken (offered_entry fs body)
unfolding offered_entry
offered_entry-IsUnbroken (kind ∷ port ∷ protocol ∷ format ∷ more) body (k, (p, (q, (f, m)))) h = (
  inr (select_payload-IsName format (format ∷ more) f (f, m)),
  find_rtpmap-Lacks (select_payload format (format ∷ more)) body h,
)
offered_entry-IsUnbroken _ body w h = (inl refl, refl)

offered_from-IsUnbroken :
    (lines : List Text) → All (Lacks crlf) lines → All IsUnbroken (offered_from lines)
unfolding offered_from
offered_from-IsUnbroken [] h = tt
offered_from-IsUnbroken (line ∷ lines) (l, h) = elim (Bool-cases (is_video_line line)) [
  | inl e ↦
      rw (e, offered_from)
        (
          offered_entry-IsUnbroken (fields line) (section_body lines) (fields-IsName line)
              (section_body-All (Lacks crlf) lines h),
          offered_from-IsUnbroken lines h,
        )
  | inr e ↦ rw (e, offered_from) (offered_from-IsUnbroken lines h)
]

pub offered_video_payloads-IsUnbroken :
    (offer : Text) → All IsUnbroken (offered_video_payloads offer)
unfolding offered_video_payloads
offered_video_payloads-IsUnbroken offer =
    let text = replace_all offer crlf lf in
    offered_from-IsUnbroken (split text lf) (lf-All (split text lf) (split-Lacks text lf (cc)))

pub offered_at-IsUnbroken :
    (offered : List OfferedPayload) (index : ℕ)
    → All IsUnbroken offered
    → IsUnbroken (offered_at offered index)
offered_at-IsUnbroken [] index h = (inl refl, refl)
offered_at-IsUnbroken (o ∷ offered) zero (m, h) = m
offered_at-IsUnbroken (o ∷ offered) (suc index) (m, h) = offered_at-IsUnbroken offered index h
