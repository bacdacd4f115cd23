-- ===== src/Text/Separator.antt =====
-- When a text that is put together again from edited lines still has the same line separator.
use homebrain.Prelude.{
  ◌≤◌, true, false, ◌||◌, List, [], ◌∷◌, ◌++◌, ◌≡◌, ◌↔◌, refl, arith, length, Bool-cases, inl, inr,
}
use homebrain.Text.{Text, contains, split, join}
use homebrain.Text.Lines.{lf, crlf, line_separator, join-split}

contains-crlf_line :
    (l t : Text) → contains (l ++ (lf ++ t)) crlf ≡ (contains (l ++ lf) crlf || contains t crlf)
contains-crlf_line [] t = refl
contains-crlf_line (c ∷ []) t = ground arith
contains-crlf_line (c ∷ d ∷ l) t = ground (arith, contains-crlf_line (d ∷ l) t)

pub contains-crlf : (l t : Text) → contains (l ++ (crlf ++ t)) crlf ≡ true
contains-crlf [] t = refl
contains-crlf (c ∷ l) t = ground (arith, contains-crlf l t)

contains-lf_weaken : (l : Text) → contains (l ++ lf) crlf ≡ false → contains l crlf ≡ false
contains-lf_weaken [] h = refl
contains-lf_weaken (c ∷ []) h = ground arith
contains-lf_weaken (c ∷ d ∷ l) h = ground (arith, contains-lf_weaken (d ∷ l))

-- Joined by "\n", these lines spell no "\r\n".
abbrev pub IsClear : List Text → Type 0
IsClear [] = Unit
IsClear (l ∷ []) = contains l crlf ≡ false
IsClear (l ∷ m ∷ ls) = (contains (l ++ lf) crlf ≡ false) × IsClear (m ∷ ls)

join-IsClear : (ls : List Text) → (contains (join ls lf) crlf ≡ false) ↔ IsClear ls
unfolding join
join-IsClear [] = ground arith
join-IsClear (l ∷ []) = ((λ h. h), λ h. h)
join-IsClear (l ∷ m ∷ ls) =
    ground (arith, contains-crlf_line l (join (m ∷ ls) lf), join-IsClear (m ∷ ls))

pub IsClear-tail : (l : Text) (ls : List Text) → IsClear (l ∷ ls) → IsClear ls
IsClear-tail l [] h = tt
IsClear-tail l (m ∷ ls) h = h.1

-- A shorter end may stand behind a line.
pub IsClear-cons :
    (l : Text) (ks ls : List Text)
    → IsClear (l ∷ ls)
    → IsClear ks
    → (ls ≡ [] → ks ≡ [])
    → IsClear (l ∷ ks)
IsClear-cons l [] [] h k e = h
IsClear-cons l (m ∷ ks) [] h k e = absurd (ground (arith, e refl))
IsClear-cons l [] (n ∷ ls) h k e = contains-lf_weaken l h.0
IsClear-cons l (m ∷ ks) (n ∷ ls) h k e = (h.0, k)

-- Lines `ks` made of the lines of `s` keep its separator: under "\r\n" two lines are enough, and
-- under "\n" they must stay clear of "\r\n".
pub line_separator-join :
    (s : Text) (ks : List Text)
    → 2 ≤ length ks
    → (IsClear (split s (line_separator s)) → IsClear ks)
    → line_separator (join ks (line_separator s)) ≡ line_separator s
line_separator-join s [] two keep = absurd (omega arith)
line_separator-join s (k ∷ []) two keep = absurd (omega arith)
line_separator-join s (k ∷ m ∷ ks) two keep = elim (Bool-cases (contains s crlf)) [
  | inl h ↦ rw h (unfold join in rw (contains-crlf k (join (m ∷ ks) crlf)))
  | inr h ↦
      let lines = split s lf in
      let clear : IsClear lines = (join-IsClear lines).0 (rw (join-split s lf (cc)) h) in
      rw h (rw ((join-IsClear (k ∷ m ∷ ks)).1 (rw h at keep clear)))
]
