-- ===== src/Sdp/MediaLines/Mids.antt =====
-- The lines that normalizeAlexaRejectedMediaMIDs writes: none of them holds a "\r\n", and none is
-- lost.
use homebrain.Prelude.{
  ℕ, zero, suc, true, List, [], ◌∷◌, ◌++◌, ◌≡◌, ◌⊎◌, refl, sym, ap, arith, Option, none, some, drop,
  get_elem?, length, length-append, All, All-append, Bool-cases, Option-cases, inl, inr,
}
use mathlib.Core.Path.{subst}
use homebrain.Text.{Text, split, has_prefix}
use homebrain.Text.Breaks.{lf-All}
use homebrain.Text.Lines.{
  lf, crlf, Lacks, line_separator, line_separator-ne-nil, line_separator-IsLineSep, split-Lacks,
}
use homebrain.Sdp.{section_body, is_media_line}
use homebrain.Sdp.MediaIds.{
  MediaSection, mid_prefix, edit_section, insert_position, first_mid, sections_from, section_of,
  offer_media_sections, with_media_ids,
}
use homebrain.Sdp.MediaIds.Sections.{groups, edited, with_media_ids-edited}
use homebrain.Sdp.MediaIds.Offered.{edited_nothing}
use homebrain.Sdp.MediaLines.Breaks.{section_body-All}
use homebrain.Sdp.MediaLines.Written.{insert_line-All, length-insert_line, IsWritten}

abbrev pub HasLine : MediaSection → Type 0
HasLine s = Lacks crlf (mid_prefix ++ s.mid)

has_prefix-rest : (s p : Text) → has_prefix s p ≡ true → p ++ drop (length p) s ≡ s
has_prefix-rest s [] h = refl
has_prefix-rest [] (c ∷ p) h = absurd (ground arith)
has_prefix-rest (d ∷ s) (c ∷ p) h = ground (arith, h, has_prefix-rest s p)

first_mid-Lacks :
    (lines : List Text) → All (Lacks crlf) lines → Lacks crlf (mid_prefix ++ first_mid lines)
unfolding first_mid
first_mid-Lacks [] h = refl
first_mid-Lacks (line ∷ lines) (l, h) = elim (Bool-cases (has_prefix line mid_prefix)) [
  | inl e ↦ rw (e, first_mid) (subst (Lacks crlf) (sym (has_prefix-rest line mid_prefix e)) l)
  | inr e ↦ rw (e, first_mid) (first_mid-Lacks lines h)
]

sections_from-HasLine :
    (skip : ℕ) (lines : List Text) → All (Lacks crlf) lines → All HasLine (sections_from skip lines)
unfolding sections_from section_of
sections_from-HasLine skip [] h = tt
sections_from-HasLine (suc skip) (line ∷ lines) (l, h) = sections_from-HasLine skip lines h
sections_from-HasLine zero (line ∷ lines) (l, h) = elim (Bool-cases (is_media_line line)) [
  | inl e ↦
      rw (e, sections_from)
        (
          first_mid-Lacks (section_body lines) (section_body-All (Lacks crlf) lines h),
          sections_from-HasLine (length (section_body lines)) lines h,
        )
  | inr e ↦ rw (e, sections_from) (sections_from-HasLine zero lines h)
]

-- The lines of a text, at its own separator, hold no "\r\n".
pub separated-Lacks : (s : Text) → All (Lacks crlf) (split s (line_separator s))
separated-Lacks s =
    go (line_separator s) (line_separator-IsLineSep s)
      (split-Lacks s (line_separator s) (line_separator-ne-nil s))
  where
    go :
        (sep : Text)
        → (sep ≡ lf) ⊎ (sep ≡ crlf)
        → All (Lacks sep) (split s sep)
        → All (Lacks crlf) (split s sep)
    go sep (inl e) h = lf-All (split s sep) (subst (λ (p : Text). All (Lacks p) (split s sep)) e h)
    go sep (inr e) h = subst (λ (p : Text). All (Lacks p) (split s sep)) e h

offer_media_sections-HasLine : (offer : Text) → All HasLine (offer_media_sections offer)
unfolding offer_media_sections
offer_media_sections-HasLine offer =
    sections_from-HasLine 0 (split offer (line_separator offer)) (separated-Lacks offer)

edit_section-IsWritten :
    (section : List Text) (offered : Option MediaSection)
    → ((s : MediaSection) → offered ≡ some s → HasLine s)
    → All (Lacks crlf) section
    → IsWritten section (edit_section section offered)
unfolding edit_section
edit_section-IsWritten section none m h = (h, omega arith)
edit_section-IsWritten section (some s) m h =
    elim (Option-cases (insert_position section (some s))) [
      | inl e ↦ rw (e, edit_section) (h, omega arith)
      | inr (i, e) ↦
          rw (e, edit_section)
            (
              insert_line-All (Lacks crlf) i (mid_prefix ++ s.mid) section (m s refl) h,
              omega (arith, length-insert_line i (mid_prefix ++ s.mid) section),
            )
    ]

get-HasLine :
    (offered : List MediaSection) (i : ℕ) (s : MediaSection)
    → All HasLine offered
    → get_elem? offered i ≡ some s
    → HasLine s
get-HasLine [] i s h e = absurd (ground arith)
get-HasLine (o ∷ offered) zero s (m, h) e = ground (arith, m, e)
get-HasLine (o ∷ offered) (suc i) s (m, h) e = get-HasLine offered i s h e

All-split {κ} : (P : Text → Type κ) (xs ys : List Text) → All P (xs ++ ys) → All P xs × All P ys
All-split P [] ys h = (tt, h)
All-split P (x ∷ xs) ys (p, h) = let (a, b) = All-split P xs ys h in ((p, a), b)

edited-IsWritten :
    (offered : List MediaSection) (index : ℕ) (sections : List (List Text))
    → All HasLine offered
    → All (Lacks crlf) (edited [] index sections)
    → IsWritten (edited [] index sections) (edited offered index sections)
unfolding edited edit_section
edited-IsWritten offered index [] m h = (tt, omega arith)
edited-IsWritten offered index (section ∷ sections) m h =
    let rest = edited [] (suc index) sections in
    let (a, b) = All-split (Lacks crlf) section rest h in
    let (c, n) =
      edit_section-IsWritten section (get_elem? offered index)
        (λ s e. get-HasLine offered index s m e) a in
    let (d, k) = edited-IsWritten offered (suc index) sections m b in
    (
      All-append (Lacks crlf) (edit_section section (get_elem? offered index))
          (edited offered (suc index) sections) c d,
      omega (
        arith,
        n,
        k,
        length-append section rest,
        length-append (edit_section section (get_elem? offered index))
            (edited offered (suc index) sections),
      ),
    )

pub with_media_ids-IsWritten :
    (offer : Text) (lines : List Text)
    → All (Lacks crlf) lines
    → IsWritten lines (with_media_ids (offer_media_sections offer) lines)
with_media_ids-IsWritten offer lines h =
    let offered = offer_media_sections offer in
    let before = edited [] 0 (groups lines) in
    let after = edited offered 0 (groups lines) in
    let (a, b) =
      All-split (Lacks crlf) (section_body lines) before
        (subst (λ (ls : List Text). All (Lacks crlf) ls) (sym (edited_nothing lines 0)) h) in
    let (c, n) = edited-IsWritten offered 0 (groups lines) (offer_media_sections-HasLine offer) b in
    subst (IsWritten lines) (sym (with_media_ids-edited offered lines)) (
      All-append (Lacks crlf) (section_body lines) after a c,
      omega (
        arith,
        n,
        length-append (section_body lines) before,
        length-append (section_body lines) after,
        ap length (edited_nothing lines 0),
      ),
    )
