-- ===== src/Sdp/MediaLines/Spans.antt =====
-- The spans of sdpFieldSpans: in order, apart, and within the line from the index on.
use homebrain.Prelude.{
  ℕ, zero, suc, ◌-◌, ◌≤◌, true, ◌&&◌, List, [], ◌∷◌, ◌++◌, ◌≡◌, ap, arith, none, some,
  if◌then◌else◌, Bool-cases, inl, inr, take, drop, slice, length, is_empty,
}
use homebrain.Text.{Text, codes, text_eq, text_eq_iff}
use homebrain.Sdp.Video.{is_gap, spans_from, field_spans, rewritten, normalize_video_line}

abbrev pub IsOrdered : ℕ → List (ℕ × ℕ) → Type 0
IsOrdered k [] = Unit
IsOrdered k ((a, b) ∷ spans) = (k ≤ a) × (a ≤ b) × IsOrdered (suc b) spans

-- A field that is being read begins at `start`.
spans_from-IsOrdered :
    (index k : ℕ) (s : Text)
    → k ≤ index
    → IsOrdered k (spans_from index none s)
      × ((start : ℕ) → k ≤ start → start ≤ index → IsOrdered k (spans_from index (some start) s))
unfolding spans_from
spans_from-IsOrdered index k [] h = (tt, λ start a b. (a, b, tt))
spans_from-IsOrdered index k (c ∷ s) h =
    let (_, go) = spans_from-IsOrdered (suc index) k s (omega arith) in
    elim (Bool-cases (is_gap c)) [
      | inl e ↦
          rw (e, spans_from)
            (
              (spans_from-IsOrdered (suc index) k s (omega arith)).0,
              λ start a b. (a, b, (spans_from-IsOrdered (suc index) (suc index) s (omega arith)).0),
            )
      | inr e ↦ rw (e, spans_from) (go index h (omega arith), λ start a b. go start a (omega arith))
    ]

length-take-le : (n : ℕ) (s : Text) → length (take n s) ≤ n
length-take-le zero s = omega arith
length-take-le (suc n) [] = omega arith
length-take-le (suc n) (c ∷ s) = omega (arith, length-take-le n s)

kind_and_port :
    (line : Text) (a b c d : ℕ)
    → suc b ≤ c
    → text_eq (slice line a b) (codes "m=video") ≡ true
    → text_eq (slice line c d) (codes "0") ≡ true
    → 9 ≤ d
kind_and_port line a b c d o h k =
    let kind = ap length ((text_eq_iff (slice line a b) (codes "m=video")).0 h) in
    let port = ap length ((text_eq_iff (slice line c d) (codes "0")).0 k) in
    omega (
      arith,
      kind,
      port,
      length-take-le (b - a) (drop a line),
      length-take-le (d - c) (drop c line),
    )

-- Where the third field ends.
abbrev pub protocol_end : List (ℕ × ℕ) → ℕ
protocol_end (kind ∷ port ∷ (start, end) ∷ spans) = end
protocol_end _ = 0

-- The line keeps what stands before `at`, which is its kind, its port and its protocol at least.
pub record IsCut (spans : List (ℕ × ℕ)) (line line' : Text) : Type 0 where
  pub at : ℕ
  pub rest : Text
  pub behind : 9 ≤ at
  pub whole : protocol_end spans ≤ at
  pub same : line' ≡ take at line ++ rest

abbrev pub IsRetained : Text → Text → Type 0
IsRetained line line' = IsCut (field_spans line) line line'

rewritten-IsRetained :
    (line payload line' : Text) (spans : List (ℕ × ℕ))
    → IsOrdered 0 spans
    → rewritten line payload spans ≡ some line'
    → IsCut spans line line'
unfolding rewritten
rewritten-IsRetained line payload line' [] o h = absurd (ground arith)
rewritten-IsRetained line payload line' (kind ∷ []) o h = absurd (ground arith)
rewritten-IsRetained line payload line' (kind ∷ port ∷ []) o h = absurd (ground arith)
rewritten-IsRetained line payload line' ((a, b) ∷ (c, d) ∷ (e, f) ∷ []) o h =
    elim (Bool-cases
      (text_eq (slice line a b) (codes "m=video") && text_eq (slice line c d) (codes "0"))) [
        | inl k ↦ record {
          at = f;
          whole = omega arith;
          rest = (if is_empty (drop f line) then codes " " else drop f line) ++ payload;
          behind = omega (
            arith,
            kind_and_port line a b c d (ground (arith, o)) (ground (arith, k)) (ground (arith, k)),
          );
          same = ground (arith, h, k);
        }
        | inr k ↦ absurd (ground (arith, h, k))
      ]
rewritten-IsRetained line payload line' ((a, b) ∷ (c, d) ∷ (e, f) ∷ (i, j) ∷ []) o h =
    elim (Bool-cases
      (text_eq (slice line a b) (codes "m=video") && text_eq (slice line c d) (codes "0"))) [
        | inl k ↦ record {
          at = i;
          whole = ground (arith, o);
          rest = payload ++ drop j line;
          behind = omega (
            arith,
            kind_and_port line a b c d (ground (arith, o)) (ground (arith, k)) (ground (arith, k)),
          );
          same = ground (arith, h, k);
        }
        | inr k ↦ absurd (ground (arith, h, k))
      ]
rewritten-IsRetained line payload line' (kind ∷ port ∷ protocol ∷ format ∷ more ∷ rest) o h =
    absurd (ground arith)

-- A line that is rewritten keeps its kind, its port and its protocol as they stand.
pub normalize_video_line-IsRetained :
    (line payload line' : Text)
    → normalize_video_line line payload ≡ some line'
    → IsRetained line line'
unfolding normalize_video_line field_spans
normalize_video_line-IsRetained line payload line' h = elim (Bool-cases (is_empty payload)) [
  | inl e ↦ absurd (ground (arith, e, h))
  | inr e ↦
      rewritten-IsRetained line payload line' (field_spans line)
        ((spans_from-IsOrdered 0 0 line (omega arith)).0) (ground (arith, e, h))
]
