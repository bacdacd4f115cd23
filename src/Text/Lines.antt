-- ===== src/Text/Lines.antt =====
-- The lines of an SDP text: how every normaliser of internal/rtc/server.go picks its line
-- separator, and the laws of `split` and `join` at the two separators.
use homebrain.Prelude.{
  ℕ, zero, suc, ◌-◌, true, false, List, [], ◌∷◌, ◌++◌, ◌≡◌, ◌≢◌, ◌⊎◌, inl, inr, refl, ap, ◌∙◌,
  arith, if◌then◌else◌, Bool-cases, length, drop, All,
}
use homebrain.Text.{Text, codes, has_prefix, contains, push, split_from, split, join}

abbrev pub lf : Text
lf = codes "\n"

abbrev pub crlf : Text
crlf = codes "\r\n"

abbrev pub line_separator : Text → Text
line_separator s = if contains s crlf then crlf else lf

abbrev pub IsLineSep : Text → Type 0
IsLineSep sep = (sep ≡ lf) ⊎ (sep ≡ crlf)

pub line_separator-IsLineSep : (s : Text) → IsLineSep (line_separator s)
line_separator-IsLineSep s = elim (Bool-cases (contains s crlf)) [
  | inl h ↦ rw h (inr refl)
  | inr h ↦ rw h (inl refl)
]

pub line_separator-ne-nil : (s : Text) → line_separator s ≢ []
line_separator-ne-nil s = ground arith

-- The text does not hold the separator.
abbrev pub Lacks : Text → Text → Type 0
Lacks sep l = contains l sep ≡ false

push-ne-nil : (c : ℕ) (ls : List Text) → push c ls ≢ []
push-ne-nil c [] = cc
push-ne-nil c (l ∷ ls) = cc

-- The two cases of a round of `split`.
split_from_hit :
    (sep : Text) (c : ℕ) (s : Text)
    → has_prefix (c ∷ s) sep ≡ true
    → split_from sep zero (c ∷ s) ≡ [] ∷ split_from sep (length sep - 1) s
unfolding split_from
split_from_hit sep c s h = ground arith

split_from_miss :
    (sep : Text) (c : ℕ) (s : Text)
    → has_prefix (c ∷ s) sep ≡ false
    → split_from sep zero (c ∷ s) ≡ push c (split_from sep zero s)
unfolding split_from
split_from_miss sep c s h = ground arith

split_from_skip :
    (sep : Text) (k : ℕ) (c : ℕ) (s : Text) → split_from sep (suc k) (c ∷ s) ≡ split_from sep k s
unfolding split_from
split_from_skip sep k c s = refl

split_from-ne-nil : (sep : Text) (k : ℕ) (s : Text) → split_from sep k s ≢ []
split_from-ne-nil sep zero [] = unfold split_from in cc
split_from-ne-nil sep (suc k) [] = unfold split_from in cc
split_from-ne-nil sep (suc k) (c ∷ s) = rw split_from_skip (split_from-ne-nil sep k s)
split_from-ne-nil sep zero (c ∷ s) = elim (Bool-cases (has_prefix (c ∷ s) sep)) [
  | inl h ↦ rw (split_from_hit sep c s h) (cc)
  | inr h ↦ rw (split_from_miss sep c s h) (push-ne-nil c _)
]

pub split-ne-nil : (s sep : Text) → split s sep ≢ []
unfolding split
split-ne-nil s sep = split_from-ne-nil sep 0 s

join-push : (c : ℕ) (ls : List Text) (sep : Text) → join (push c ls) sep ≡ c ∷ join ls sep
unfolding join
join-push c [] sep = refl
join-push c (l ∷ []) sep = refl
join-push c (l ∷ m ∷ ls) sep = refl

join-nil-cons : (ls : List Text) (sep : Text) → ls ≢ [] → join ([] ∷ ls) sep ≡ sep ++ join ls sep
unfolding join
join-nil-cons [] sep h = absurd (h refl)
join-nil-cons (l ∷ ls) sep h = refl

has_prefix-drop : (s p : Text) → has_prefix s p ≡ true → s ≡ p ++ drop (length p) s
has_prefix-drop s [] h = refl
has_prefix-drop [] (p ∷ ps) h = cc
has_prefix-drop (c ∷ s) (p ∷ ps) h = ground (arith, has_prefix-drop s ps)

join-split_from :
    (p : ℕ) (ps : Text) (k : ℕ) (s : Text) → join (split_from (p ∷ ps) k s) (p ∷ ps) ≡ drop k s
join-split_from p ps zero [] = unfold split_from join in refl
join-split_from p ps (suc k) [] = unfold split_from join in refl
join-split_from p ps (suc k) (c ∷ s) = rw split_from_skip (join-split_from p ps k s)
join-split_from p ps zero (c ∷ s) = elim (Bool-cases (has_prefix (c ∷ s) (p ∷ ps))) [
  | inl e ↦
      let k = length (p ∷ ps) - 1 in
      rw (split_from_hit (p ∷ ps) c s e) (
        join-nil-cons _ (p ∷ ps) (split_from-ne-nil (p ∷ ps) _ s)
        ∙ ap (λ r. (p ∷ ps) ++ r) (join-split_from p ps k s)
        ∙ ground (arith, has_prefix-drop (c ∷ s) (p ∷ ps)))
  | inr e ↦
      rw (split_from_miss (p ∷ ps) c s e)
        (join-push c _ (p ∷ ps) ∙ ap (◌∷◌ c) (join-split_from p ps zero s))
]

-- Joining the lines of a text gives the text back.
pub join-split : (s sep : Text) → sep ≢ [] → join (split s sep) sep ≡ s
join-split s [] h = absurd (h refl)
join-split s (p ∷ ps) h = unfold split in join-split_from p ps zero s

-- Each line is a prefix of the text that is left where the line begins.
abbrev head_text : List Text → Text
head_text [] = []
head_text (l ∷ ls) = l

head_text-prefix : (sep s : Text) → has_prefix s (head_text (split_from sep zero s)) ≡ true
head_text-prefix sep [] = unfold split_from in refl
head_text-prefix sep (c ∷ s) = elim (Bool-cases (has_prefix (c ∷ s) sep)) [
  | inl e ↦ rw (split_from_hit sep c s e)
  | inr e ↦ rw (split_from_miss sep c s e) (go (split_from sep zero s) (head_text-prefix sep s))
]
  where
    go :
        (ls : List Text)
        → has_prefix s (head_text ls) ≡ true
        → has_prefix (c ∷ s) (head_text (push c ls)) ≡ true
    go [] h = ground arith
    go (l ∷ ls) h = ground arith

has_prefix_trans :
    (s p q : Text) → has_prefix s p ≡ true → has_prefix p q ≡ true → has_prefix s q ≡ true
has_prefix_trans s p [] h k = refl
has_prefix_trans s [] (x ∷ q) h k = cc
has_prefix_trans [] (y ∷ p) (x ∷ q) h k = cc
has_prefix_trans (z ∷ s) (y ∷ p) (x ∷ q) h k = ground (arith, has_prefix_trans s p q)

push-Lacks :
    (p : ℕ) (ps : Text) (c : ℕ) (s : Text) (ls : List Text)
    → has_prefix s (head_text ls) ≡ true
    → has_prefix (c ∷ s) (p ∷ ps) ≡ false
    → All (Lacks (p ∷ ps)) ls
    → All (Lacks (p ∷ ps)) (push c ls)
push-Lacks p [] c s [] h k a = ground arith
push-Lacks p (q ∷ ps) c s [] h k a = ground arith
push-Lacks p ps c s (l ∷ ls) h k a = ground (arith, has_prefix_trans s l ps)

split_from-Lacks :
    (p : ℕ) (ps : Text) (k : ℕ) (s : Text) → All (Lacks (p ∷ ps)) (split_from (p ∷ ps) k s)
split_from-Lacks p ps zero [] = unfold split_from in (refl, tt)
split_from-Lacks p ps (suc k) [] = unfold split_from in (refl, tt)
split_from-Lacks p ps (suc k) (c ∷ s) = rw split_from_skip (split_from-Lacks p ps k s)
split_from-Lacks p ps zero (c ∷ s) = elim (Bool-cases (has_prefix (c ∷ s) (p ∷ ps))) [
  | inl e ↦ rw (split_from_hit (p ∷ ps) c s e) (refl, split_from-Lacks p ps (length (p ∷ ps) - 1) s)
  | inr e ↦
      rw (split_from_miss (p ∷ ps) c s e)
        (push-Lacks p ps c s _ (head_text-prefix (p ∷ ps) s) e (split_from-Lacks p ps zero s))
]

-- No line of a text holds the separator.
pub split-Lacks : (s sep : Text) → sep ≢ [] → All (Lacks sep) (split s sep)
split-Lacks s [] h = absurd (h refl)
split-Lacks s (p ∷ ps) h = unfold split in split_from-Lacks p ps zero s

-- A line that lacks the separator is read off whole.
split-append :
    (sep l rest : Text)
    → IsLineSep sep
    → Lacks sep l
    → split_from sep zero (l ++ (sep ++ rest)) ≡ l ∷ split_from sep zero rest
split-append sep l rest (inl e) h = rw e (lf_line l (rw e at h))
  where
    lf_line :
        (l : Text)
        → Lacks lf l
        → split_from lf zero (l ++ (lf ++ rest)) ≡ l ∷ split_from lf zero rest
    lf_line [] h = unfold split_from in refl
    lf_line (c ∷ l) h =
        split_from_miss lf c (l ++ (lf ++ rest)) (ground arith)
        ∙ ap (push c) (lf_line l (ground arith))
split-append sep l rest (inr e) h = rw e (crlf_line l (rw e at h))
  where
    crlf_line :
        (l : Text)
        → Lacks crlf l
        → split_from crlf zero (l ++ (crlf ++ rest)) ≡ l ∷ split_from crlf zero rest
    crlf_line [] h = unfold split_from in refl
    crlf_line (c ∷ []) h =
        split_from_miss crlf c (crlf ++ rest) (ground arith) ∙ ap (push c) (crlf_line [] refl)
    crlf_line (c ∷ d ∷ l) h =
        split_from_miss crlf c (d ∷ (l ++ (crlf ++ rest))) (ground arith)
        ∙ ap (push c) (crlf_line (d ∷ l) (ground arith))

split-Lacks_one : (sep l : Text) → IsLineSep sep → Lacks sep l → split_from sep zero l ≡ l ∷ []
split-Lacks_one sep [] k h = unfold split_from in refl
split-Lacks_one sep (c ∷ l) k h =
    split_from_miss sep c l (ground arith) ∙ ap (push c) (split-Lacks_one sep l k (ground arith))

-- Splitting joined lines gives the lines back, if none holds the separator.
pub split-join :
    (sep : Text) (ls : List Text)
    → IsLineSep sep
    → ls ≢ []
    → All (Lacks sep) ls
    → split (join ls sep) sep ≡ ls
unfolding split join
split-join sep [] k h a = absurd (h refl)
split-join sep (l ∷ []) k h (a, _) = split-Lacks_one sep l k a
split-join sep (l ∷ m ∷ ls) k h (a, as') =
    split-append sep l _ k a ∙ ap (◌∷◌ l) (split-join sep (m ∷ ls) k (cc) as')
