-- ===== src/Sdp/MediaLines/Cuts.antt =====
-- A media line as the fields that sdpFieldSpans finds, with what stands between them.
use homebrain.Prelude.{
  ℕ, ◌-◌, List, [], ◌∷◌, ◌++◌, append_assoc, ◌≡◌, refl, sym, ap, ◌∙◌, arith, none, take, drop,
  slice, length, length-append, drop-length-append,
}
use homebrain.Text.{Text}
use homebrain.Sdp.Video.{spans_from}
use homebrain.Sdp.MediaLines.Fields.{
  gap_fields, gap_fields-first, IsEnd, Leads, IsFirst, spans_from-IsFirst, gaps-IsEnd,
}

take-length-append : (xs ys : Text) → take (length xs) (xs ++ ys) ≡ xs
take-length-append [] ys = refl
take-length-append (x ∷ xs) ys = ap (◌∷◌ x) (take-length-append xs ys)

-- A line as what stands in front of the index, and the text from there on.
pub record At (index : ℕ) (line before s : Text) : Type 0 where
  pub whole : line ≡ before ++ s
  pub here : index ≡ length before

pub take-At : {index : ℕ} {line before s : Text} → At index line before s → take index line ≡ before
take-At {line} {before} {s} h =
    ap (λ (n : ℕ). take n line) h.here
    ∙ ap (take (length before)) h.whole
    ∙ take-length-append before s

pub drop-At : {index : ℕ} {line before s : Text} → At index line before s → drop index line ≡ s
drop-At {line} {before} {s} h =
    ap (λ (n : ℕ). drop n line) h.here
    ∙ ap (drop (length before)) h.whole
    ∙ drop-length-append before s

module _ {index : ℕ} {line before s : Text} {a b : ℕ} {spans : List (ℕ × ℕ)}
    (at : At index line before s) (r : IsFirst index s a b spans) where
  pub start-At : At a line (before ++ r.gaps) (r.word ++ r.behind)
  start-At = record {
    whole =
        at.whole
        ∙ ap (λ (t : Text). before ++ t) r.leads.whole
        ∙ sym (append_assoc before r.gaps (r.word ++ r.behind));
    here = omega (arith, r.start, at.here, length-append before r.gaps);
  }

  pub stop-At : At b line ((before ++ r.gaps) ++ r.word) r.behind
  stop-At = record {
    whole = start-At.whole ∙ sym (append_assoc (before ++ r.gaps) r.word r.behind);
    here = omega (arith, r.stop, start-At.here, length-append (before ++ r.gaps) r.word);
  }

  pub slice-word : slice line a b ≡ r.word
  slice-word =
      ap (λ (t : Text). take (b - a) t) (drop-At start-At)
      ∙ ap (λ (n : ℕ). take n (r.word ++ r.behind)) (omega (arith, r.stop))
      ∙ take-length-append r.word r.behind

-- The fields of what stands before a place, whatever follows there.
abbrev pub Holds : Text → List Text → Type 0
Holds before ws = (tail : Text) → IsEnd tail → gap_fields (before ++ tail) ≡ ws ++ gap_fields tail

first-Holds : {s g w t : Text} → Leads s g w t → Holds (g ++ w) (w ∷ [])
first-Holds {g} {w} h tail e = gap_fields-first (record {
  whole = append_assoc g w tail;
  blank = h.blank;
  ink = h.ink;
  filled = h.filled;
  end = e;
})

next-Holds :
    {s g w t : Text} (before : Text) (ws : List Text)
    → IsEnd s
    → Leads s g w t
    → Holds before ws
    → Holds ((before ++ g) ++ w) (ws ++ (w ∷ []))
next-Holds {g} {w} before ws i h k tail e =
    ap gap_fields (append_assoc (before ++ g) w tail ∙ append_assoc before g (w ++ tail))
    ∙ k (g ++ (w ++ tail)) (gaps-IsEnd (w ++ tail) h i)
    ∙ ap (λ (fs : List Text). ws ++ fs)
        (gap_fields-first
          (record { whole = refl; blank = h.blank; ink = h.ink; filled = h.filled; end = e }))
    ∙ sym (append_assoc ws (w ∷ []) (gap_fields tail))

-- What the first three spans of a line say of it.
pub record Head (line : Text) (a b c d e f : ℕ) (spans : List (ℕ × ℕ)) : Type 0 where
  pub kind : Text
  pub port : Text
  pub protocol : Text
  pub before : Text
  pub behind : Text
  pub kind_is : slice line a b ≡ kind
  pub port_is : slice line c d ≡ port
  pub at : At f line before behind
  pub end : IsEnd behind
  pub holds : Holds before (kind ∷ port ∷ protocol ∷ [])
  pub next : spans ≡ spans_from f none behind

pub line-Head :
    (line : Text) (a b c d e f : ℕ) (spans : List (ℕ × ℕ))
    → spans_from 0 none line ≡ (a, b) ∷ (c, d) ∷ (e, f) ∷ spans
    → Head line a b c d e f spans
line-Head line a b c d e f spans h =
    let r1 = spans_from-IsFirst 0 line a b ((c, d) ∷ (e, f) ∷ spans) h in
    let r2 = spans_from-IsFirst b r1.behind c d ((e, f) ∷ spans) (sym r1.next) in
    let r3 = spans_from-IsFirst d r2.behind e f spans (sym r2.next) in
    let at0 : At 0 line [] line = record { whole = refl; here = refl } in
    let at1 = stop-At at0 r1 in
    let at2 = stop-At at1 r2 in
    let b1 = r1.gaps ++ r1.word in
    let b2 = (b1 ++ r2.gaps) ++ r2.word in
    record {
      kind = r1.word;
      port = r2.word;
      protocol = r3.word;
      before = (b2 ++ r3.gaps) ++ r3.word;
      behind = r3.behind;
      kind_is = slice-word at0 r1;
      port_is = slice-word at1 r2;
      at = stop-At at2 r3;
      end = r3.leads.end;
      holds =
          next-Holds b2 (r1.word ∷ r2.word ∷ []) r2.leads.end r3.leads
            (next-Holds b1 (r1.word ∷ []) r1.leads.end r2.leads (first-Holds r1.leads));
      next = r3.next;
    }
