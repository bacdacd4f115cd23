-- ===== src/Sdp/MediaLines/Fields.antt =====
-- The fields that sdpFieldSpans cuts a media line into, and those of the line that is written
-- instead.
use homebrain.Prelude.{
  ℕ, suc, ◌+◌, true, false, List, [], ◌∷◌, ◌++◌, append-nil, append_assoc, ◌≡◌, refl, ap, ◌∙◌,
  arith, none, some, if◌then◌else◌, Bool-cases, inl, inr, length, is_empty, All,
}
use mathlib.Core.Path.{subst}
use homebrain.Text.{Text}
use homebrain.Sdp.Video.{is_gap, spans_from}

-- The fields of a text, without any index: what stands between spaces and tabs. `word` is what was
-- read of the present field.
abbrev gap_fields_from : Text → Text → List Text
gap_fields_from word [] = if is_empty word then [] else word ∷ []
gap_fields_from word (c ∷ s) = elim (is_gap c) [
  | true ↦ let rest = gap_fields_from [] s in if is_empty word then rest else word ∷ rest
  | false ↦ gap_fields_from (word ++ c ∷ []) s
]

unfoldable pub gap_fields : Text → List Text
gap_fields s = gap_fields_from [] s

abbrev pub IsGap : ℕ → Type 0
IsGap c = is_gap c ≡ true

abbrev pub IsInk : ℕ → Type 0
IsInk c = is_gap c ≡ false

-- A field ends in front of this text.
abbrev pub IsEnd : Text → Type 0
IsEnd [] = Unit
IsEnd (c ∷ s) = IsGap c

-- A text that begins with these gaps, then with this field, which ends in front of `behind`.
pub record Leads (s : Text) (gaps word behind : Text) : Type 0 where
  pub whole : s ≡ gaps ++ (word ++ behind)
  pub blank : All IsGap gaps
  pub ink : All IsInk word
  pub filled : is_empty word ≡ false
  pub end : IsEnd behind

ink-fields :
    (word w t : Text)
    → All IsInk w
    → IsEnd t
    → is_empty (word ++ w) ≡ false
    → gap_fields_from word (w ++ t) ≡ (word ++ w) ∷ gap_fields_from [] t
ink-fields word [] [] i e f = ground (arith, append-nil word, f)
ink-fields word [] (c ∷ t) i e f = ground (arith, append-nil word, f, e)
ink-fields word (c ∷ w) t (d, i) e f =
    rw (d, gap_fields_from)
      (ink-fields (word ++ c ∷ []) w t i e (ap is_empty (append_assoc word (c ∷ []) w) ∙ f)
        ∙ ap (λ (v : Text). v ∷ gap_fields_from [] t) (append_assoc word (c ∷ []) w))

gaps-fields : (g t : Text) → All IsGap g → gap_fields_from [] (g ++ t) ≡ gap_fields_from [] t
gaps-fields [] t h = refl
gaps-fields (c ∷ g) t (b, h) = rw (b, gap_fields_from) (gaps-fields g t h)

-- The first field, and the ones behind it.
pub gap_fields-first : {s g w t : Text} → Leads s g w t → gap_fields s ≡ w ∷ gap_fields t
unfolding gap_fields
gap_fields-first {g} {w} {t} h =
    ap (gap_fields_from []) h.whole
    ∙ gaps-fields g (w ++ t) h.blank
    ∙ ink-fields [] w t h.ink h.end h.filled

pub gap_fields-gaps : (g : Text) → All IsGap g → gap_fields g ≡ []
unfolding gap_fields
gap_fields-gaps [] h = refl
gap_fields-gaps (c ∷ g) (b, h) = rw (b, gap_fields_from) (gap_fields-gaps g h)

-- What the first span of a text says of it, when the text begins at `index`.
pub record IsFirst (index : ℕ) (s : Text) (a b : ℕ) (spans : List (ℕ × ℕ)) : Type 0 where
  pub gaps : Text
  pub word : Text
  pub behind : Text
  pub leads : Leads s gaps word behind
  pub start : a ≡ index + length gaps
  pub stop : b ≡ a + length word
  pub next : spans ≡ spans_from b none behind

-- The same, when the field has begun at `start`.
record Ends (index start : ℕ) (s : Text) (a b : ℕ) (spans : List (ℕ × ℕ)) : Type 0 where
  word : Text
  behind : Text
  whole : s ≡ word ++ behind
  ink : All IsInk word
  end : IsEnd behind
  start_is : a ≡ start
  stop : b ≡ index + length word
  next : spans ≡ spans_from b none behind

spans_from-Ends :
    (index start : ℕ) (s : Text) (a b : ℕ) (spans : List (ℕ × ℕ))
    → spans_from index (some start) s ≡ (a, b) ∷ spans
    → Ends index start s a b spans
unfolding spans_from
spans_from-Ends index start [] a b spans h = record {
  word = [];
  behind = [];
  whole = refl;
  ink = tt;
  end = tt;
  start_is = ground (arith, h);
  stop = ground (arith, h);
  next = ground (arith, h);
}
spans_from-Ends index start (c ∷ s) a b spans h = elim (Bool-cases (is_gap c)) [
  | inl e ↦ record {
    word = [];
    behind = c ∷ s;
    whole = refl;
    ink = tt;
    end = e;
    start_is = ground (arith, e, h);
    stop = ground (arith, e, h);
    next = ground (arith, e, h);
  }
  | inr e ↦
      let r = spans_from-Ends (suc index) start s a b spans (ground (arith, e, h)) in
      record {
        word = c ∷ r.word;
        behind = r.behind;
        whole = ap (◌∷◌ c) r.whole;
        ink = (e, r.ink);
        end = r.end;
        start_is = r.start_is;
        stop = omega (arith, r.stop);
        next = r.next;
      }
]

pub spans_from-IsFirst :
    (index : ℕ) (s : Text) (a b : ℕ) (spans : List (ℕ × ℕ))
    → spans_from index none s ≡ (a, b) ∷ spans
    → IsFirst index s a b spans
unfolding spans_from
spans_from-IsFirst index [] a b spans h = absurd (ground arith)
spans_from-IsFirst index (c ∷ s) a b spans h = elim (Bool-cases (is_gap c)) [
  | inl e ↦
      let r = spans_from-IsFirst (suc index) s a b spans (ground (arith, e, h)) in
      record {
        gaps = c ∷ r.gaps;
        word = r.word;
        behind = r.behind;
        leads = record {
          whole = ap (◌∷◌ c) r.leads.whole;
          blank = (e, r.leads.blank);
          ink = r.leads.ink;
          filled = r.leads.filled;
          end = r.leads.end;
        };
        start = omega (arith, r.start);
        stop = r.stop;
        next = r.next;
      }
  | inr e ↦
      let r = spans_from-Ends (suc index) index s a b spans (ground (arith, e, h)) in
      record {
        gaps = [];
        word = c ∷ r.word;
        behind = r.behind;
        leads = record {
          whole = ap (◌∷◌ c) r.whole;
          blank = tt;
          ink = (e, r.ink);
          filled = refl;
          end = r.end;
        };
        start = omega (arith, r.start_is);
        stop = omega (arith, r.stop, r.start_is);
        next = r.next;
      }
]

some_spans : (index start : ℕ) (s : Text) → is_empty (spans_from index (some start) s) ≡ false
unfolding spans_from
some_spans index start [] = refl
some_spans index start (c ∷ s) = ground (arith, some_spans (suc index) start s)

-- Where no field is left, there are gaps only.
pub spans_from-gaps : (index : ℕ) (s : Text) → spans_from index none s ≡ [] → All IsGap s
unfolding spans_from
spans_from-gaps index [] h = tt
spans_from-gaps index (c ∷ s) h = elim (Bool-cases (is_gap c)) [
  | inl e ↦ (e, spans_from-gaps (suc index) s (ground (arith, e, h)))
  | inr e ↦ absurd (ground (arith, e, h, some_spans (suc index) index s))
]

-- The gaps in front of a field end the one before it, whatever stands behind them.
pub gaps-IsEnd : {s g w t : Text} (rest : Text) → Leads s g w t → IsEnd s → IsEnd (g ++ rest)
gaps-IsEnd {g = []} {w = []} rest h e = absurd (ground (arith, h.filled))
gaps-IsEnd {g = []} {w = c ∷ w} rest h e = absurd (ground (arith, subst IsEnd h.whole e, h.ink))
gaps-IsEnd {g = c ∷ g} rest h e = h.blank.0
