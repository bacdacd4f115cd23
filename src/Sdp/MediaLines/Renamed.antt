-- ===== src/Sdp/MediaLines/Renamed.antt =====
-- The fields of a media line that normalizeAlexaRejectedVideoMLine rewrites.
use homebrain.Prelude.{
  ℕ, true, false, ◌&&◌, List, [], ◌∷◌, ◌++◌, append-nil, append_assoc, ◌≡◌, ◌⊎◌, refl, sym, ap, ◌∙◌,
  arith, none, some, if◌then◌else◌, Bool-cases, inl, inr, take, drop, slice, is_empty, All,
}
use mathlib.Core.Path.{subst}
use homebrain.Text.{Text, codes, text_eq, text_eq_iff}
use homebrain.Text.Breaks.{IsSolid}
use homebrain.Sdp.MediaLines.Breaks.{IsUnbroken}
use homebrain.Sdp.Video.{OfferedPayload, spans_from, field_spans, rewritten, normalize_video_line}
use homebrain.Sdp.MediaLines.Fields.{
  gap_fields, gap_fields-first, gap_fields-gaps, IsGap, IsInk, IsEnd, spans_from-IsFirst,
  spans_from-gaps, gaps-IsEnd,
}
use homebrain.Sdp.MediaLines.Cuts.{take-At, drop-At, start-At, stop-At, slice-word, Head, line-Head}

-- The line is one of rejected video, of three fields or with the payload 0, and the other line has
-- its kind, its port and its protocol as fields of their own, and the payload as the fourth.
pub record IsRenamed (payload line line' : Text) : Type 0 where
  pub protocol : Text
  pub old :
      (gap_fields line ≡ codes "m=video" ∷ codes "0" ∷ protocol ∷ [])
      ⊎ (gap_fields line ≡ codes "m=video" ∷ codes "0" ∷ protocol ∷ codes "0" ∷ [])
  pub new : gap_fields line' ≡ codes "m=video" ∷ codes "0" ∷ protocol ∷ payload ∷ []

-- A field: some characters, and none of them a gap.
abbrev pub IsField : Text → Type 0
IsField w = (is_empty w ≡ false) × All IsInk w

gaps_payload :
    (g payload : Text) → All IsGap g → IsField payload → gap_fields (g ++ payload) ≡ payload ∷ []
gaps_payload g payload h (f, i) =
    gap_fields-first {g = g} {w = payload} {t = []} (record {
      whole = ap (λ (p : Text). g ++ p) (sym (append-nil payload));
      blank = h;
      ink = i;
      filled = f;
      end = tt;
    })
    ∙ ap (λ (fs : List Text). payload ∷ fs) (gap_fields-gaps [] tt)

-- The payload behind a line of three fields.
trailing-fields :
    (t payload : Text)
    → All IsGap t
    → IsField payload
    → let tail = (if is_empty t then codes " " else t) ++ payload in
      IsEnd tail × (gap_fields tail ≡ payload ∷ [])
trailing-fields [] payload g n = (refl, gaps_payload (codes " ") payload (refl, tt) n)
trailing-fields (c ∷ t) payload g n = (g.0, gaps_payload (c ∷ t) payload g n)

fields_behind :
    {line : Text} {a b c d e f : ℕ} {spans : List (ℕ × ℕ)} (h : Head line a b c d e f spans)
    → (text_eq (slice line a b) (codes "m=video") && text_eq (slice line c d) (codes "0")) ≡ true
    → (tail : Text) → IsEnd tail
    → gap_fields (take f line ++ tail) ≡ codes "m=video" ∷ codes "0" ∷ h.protocol ∷ gap_fields tail
fields_behind {line} {a} {b} {c} {d} {f = f} h k tail e =
    ap (λ (t : Text). gap_fields (t ++ tail)) (take-At h.at)
    ∙ h.holds tail e
    ∙ ap (λ (w : Text). w ∷ h.port ∷ h.protocol ∷ gap_fields tail)
        (sym h.kind_is ∙ (text_eq_iff (slice line a b) (codes "m=video")).0 (ground (arith, k)))
    ∙ ap (λ (w : Text). codes "m=video" ∷ w ∷ h.protocol ∷ gap_fields tail)
        (sym h.port_is ∙ (text_eq_iff (slice line c d) (codes "0")).0 (ground (arith, k)))

-- The line itself.
fields_of_line :
    {line : Text} {a b c d e f : ℕ} {spans : List (ℕ × ℕ)} (h : Head line a b c d e f spans)
    → (text_eq (slice line a b) (codes "m=video") && text_eq (slice line c d) (codes "0")) ≡ true
    → gap_fields line ≡ codes "m=video" ∷ codes "0" ∷ h.protocol ∷ gap_fields h.behind
fields_of_line {line} {f = f} h k =
    ap gap_fields (h.at.whole ∙ ap (λ (t : Text). t ++ h.behind) (sym (take-At h.at)))
    ∙ fields_behind h k h.behind h.end

three-IsRenamed :
    (line payload : Text) (a b c d e f : ℕ)
    → IsField payload
    → spans_from 0 none line ≡ (a, b) ∷ (c, d) ∷ (e, f) ∷ []
    → (text_eq (slice line a b) (codes "m=video") && text_eq (slice line c d) (codes "0")) ≡ true
    → IsRenamed payload line
        (take f line ++ ((if is_empty (drop f line) then codes " " else drop f line) ++ payload))
three-IsRenamed line payload a b c d e f n s k =
    let h = line-Head line a b c d e f [] s in
    let blank = spans_from-gaps f h.behind (sym h.next) in
    let dropped = drop-At h.at in
    let (end, named) =
      trailing-fields (drop f line) payload (subst (All IsGap) (sym dropped) blank) n in
    let tail = (if is_empty (drop f line) then codes " " else drop f line) ++ payload in
    let front : List Text → List Text = λ fs. codes "m=video" ∷ codes "0" ∷ h.protocol ∷ fs in
    record {
      protocol = h.protocol;
      old = inl (fields_of_line h k ∙ ap front (gap_fields-gaps h.behind blank));
      new = fields_behind h k tail end ∙ ap front named;
    }

four-IsRenamed :
    (line payload : Text) (a b c d e f i j : ℕ)
    → IsField payload
    → spans_from 0 none line ≡ (a, b) ∷ (c, d) ∷ (e, f) ∷ (i, j) ∷ []
    → (text_eq (slice line a b) (codes "m=video") && text_eq (slice line c d) (codes "0")) ≡ true
    → text_eq (slice line i j) (codes "0") ≡ true
    → IsRenamed payload line (take i line ++ (payload ++ drop j line))
four-IsRenamed line payload a b c d e f i j (filled, ink) s k z =
    let h = line-Head line a b c d e f ((i, j) ∷ []) s in
    let r = spans_from-IsFirst f h.behind i j [] (sym h.next) in
    let blank = spans_from-gaps j r.behind (sym r.next) in
    let front : List Text → List Text = λ fs. codes "m=video" ∷ codes "0" ∷ h.protocol ∷ fs in
    let tail = r.gaps ++ (payload ++ r.behind) in
    let zero_word = sym (slice-word h.at r) ∙ (text_eq_iff (slice line i j) (codes "0")).0 z in
    let written =
      ap (λ (t : Text). t ++ (payload ++ drop j line)) (take-At (start-At h.at r))
      ∙ ap (λ (t : Text). (h.before ++ r.gaps) ++ (payload ++ t)) (drop-At (stop-At h.at r))
      ∙ append_assoc h.before r.gaps (payload ++ r.behind)
      ∙ ap (λ (t : Text). t ++ tail) (sym (take-At h.at)) in
    record {
      protocol = h.protocol;
      old = inr (
          fields_of_line h k
          ∙ ap front (
              gap_fields-first r.leads
              ∙ ap (λ (fs : List Text). r.word ∷ fs) (gap_fields-gaps r.behind blank)
              ∙ ap (λ (w : Text). w ∷ []) zero_word));
      new =
          ap gap_fields written
          ∙ fields_behind h k tail (gaps-IsEnd (payload ++ r.behind) r.leads h.end)
          ∙ ap front (
              gap_fields-first (record {
                whole = refl;
                blank = r.leads.blank;
                ink = ink;
                filled = filled;
                end = r.leads.end;
              })
              ∙ ap (λ (fs : List Text). payload ∷ fs) (gap_fields-gaps r.behind blank));
    }

rewritten-IsRenamed :
    (line payload line' : Text) (spans : List (ℕ × ℕ))
    → IsField payload
    → spans_from 0 none line ≡ spans
    → rewritten line payload spans ≡ some line'
    → IsRenamed payload line line'
unfolding rewritten
rewritten-IsRenamed line payload line' [] n s h = absurd (ground arith)
rewritten-IsRenamed line payload line' (kind ∷ []) n s h = absurd (ground arith)
rewritten-IsRenamed line payload line' (kind ∷ port ∷ []) n s h = absurd (ground arith)
rewritten-IsRenamed line payload line' ((a, b) ∷ (c, d) ∷ (e, f) ∷ []) n s h =
    elim (Bool-cases
      (text_eq (slice line a b) (codes "m=video") && text_eq (slice line c d) (codes "0"))) [
        | inl k ↦
            subst (IsRenamed payload line) (ground (arith, h, k))
              (three-IsRenamed line payload a b c d e f n s k)
        | inr k ↦ absurd (ground (arith, h, k))
      ]
rewritten-IsRenamed line payload line' ((a, b) ∷ (c, d) ∷ (e, f) ∷ (i, j) ∷ []) n s h =
    elim (Bool-cases (
      text_eq (slice line a b) (codes "m=video")
      && text_eq (slice line c d) (codes "0")
      && text_eq (slice line i j) (codes "0"))) [
        | inl k ↦ subst (IsRenamed payload line) (ground (arith, h, k)) (
            four-IsRenamed line payload a b c d e f i j n s (ground (arith, k)) (ground (arith, k)))
        | inr k ↦ absurd (ground (arith, h, k))
      ]
rewritten-IsRenamed line payload line' (kind ∷ port ∷ protocol ∷ format ∷ more ∷ rest) n s h =
    absurd (ground arith)

solid-IsInk : (w : Text) → All IsSolid w → All IsInk w
solid-IsInk [] h = tt
solid-IsInk (c ∷ w) (s, h) = (ground arith, solid-IsInk w h)

-- What an offer gives for the payload is a name or nothing, and with nothing no line is rewritten.
pub normalize_video_line-IsRenamed :
    (line line' : Text) (o : OfferedPayload)
    → IsUnbroken o
    → normalize_video_line line o.payload ≡ some line'
    → IsRenamed o.payload line line'
unfolding normalize_video_line field_spans
normalize_video_line-IsRenamed line line' o (inl e, r) h = absurd (ground (arith, e, h))
normalize_video_line-IsRenamed line line' o (inr (f, w), r) h =
    rewritten-IsRenamed line o.payload line' (spans_from 0 none line) (f, solid-IsInk o.payload w)
      refl (ground (arith, f, h))
