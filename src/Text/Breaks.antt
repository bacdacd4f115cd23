-- ===== src/Text/Breaks.antt =====
-- Texts that hold no "\r\n": what is cut out of one, or put together from two, holds none either.
use homebrain.Prelude.{
  ℕ, zero, suc, false, ◌||◌, ◌==◌, List, [], ◌∷◌, ◌++◌, ◌≡◌, refl, arith, take, drop, is_empty, All,
  Bool-cases, inl, inr,
}
use homebrain.Text.{Text, is_space, fields, fields_from}
use homebrain.Text.Lines.{lf, crlf, Lacks}

-- No character of a line break.
abbrev pub IsPlain : ℕ → Type 0
IsPlain c = (c == b'\r' || c == b'\n') ≡ false

is_space-IsPlain : (c : ℕ) → is_space c ≡ false → IsPlain c
is_space-IsPlain c h = ground arith

-- A word: one plain character at least.
abbrev pub IsWord : Text → Type 0
IsWord w = (is_empty w ≡ false) × All IsPlain w

plain-append : (xs ys : Text) → All IsPlain xs → Lacks crlf ys → Lacks crlf (xs ++ ys)
plain-append [] ys h k = k
plain-append (x ∷ xs) ys (p, h) k = ground (arith, p, plain-append xs ys h k)

pub append-word :
    (xs w ys : Text) → Lacks crlf xs → IsWord w → Lacks crlf ys → Lacks crlf (xs ++ (w ++ ys))
append-word xs [] ys h (e, p) k = absurd (ground arith)
append-word [] (c ∷ w) ys h (e, p) k = plain-append (c ∷ w) ys p k
append-word (x ∷ []) (c ∷ w) ys h (e, p) k = ground (arith, p.0, plain-append (c ∷ w) ys p k)
append-word (x ∷ y ∷ xs) (c ∷ w) ys h p k =
    ground (arith, h, append-word (y ∷ xs) (c ∷ w) ys (ground (arith, h)) p k)

pub take-Lacks : (n : ℕ) (s : Text) → Lacks crlf s → Lacks crlf (take n s)
take-Lacks zero s h = refl
take-Lacks (suc n) [] h = refl
take-Lacks (suc zero) (c ∷ s) h = ground arith
take-Lacks (suc (suc n)) (c ∷ []) h = h
take-Lacks (suc (suc n)) (c ∷ d ∷ s) h = ground (arith, h, take-Lacks (suc n) (d ∷ s))

pub drop-Lacks : (n : ℕ) (s : Text) → Lacks crlf s → Lacks crlf (drop n s)
drop-Lacks zero s h = h
drop-Lacks (suc n) [] h = refl
drop-Lacks (suc n) (c ∷ s) h = drop-Lacks n s (ground (arith, h))

-- A name is a word without any space.
abbrev pub IsSolid : ℕ → Type 0
IsSolid c = is_space c ≡ false

abbrev pub IsName : Text → Type 0
IsName w = (is_empty w ≡ false) × All IsSolid w

solid-IsPlain : (w : Text) → All IsSolid w → All IsPlain w
solid-IsPlain [] h = tt
solid-IsPlain (c ∷ w) (s, h) = (is_space-IsPlain c s, solid-IsPlain w h)

pub name-IsWord : (w : Text) → IsName w → IsWord w
name-IsWord w (f, h) = (f, solid-IsPlain w h)

All-snoc : (w : Text) (c : ℕ) → All IsSolid w → IsSolid c → All IsSolid (w ++ c ∷ [])
All-snoc [] c h p = (p, tt)
All-snoc (x ∷ w) c (q, h) p = (q, All-snoc w c h p)

fields_from-IsName : (word s : Text) → All IsSolid word → All IsName (fields_from word s)
unfolding fields_from
fields_from-IsName [] [] h = tt
fields_from-IsName (x ∷ word) [] h = ((refl, h), tt)
fields_from-IsName word (c ∷ s) h = elim (Bool-cases (is_space c)) [
  | inr e ↦ rw (e, fields_from) (fields_from-IsName (word ++ c ∷ []) s (All-snoc word c h (e)))
  | inl e ↦ elim (Bool-cases (is_empty word)) [
    | inl f ↦ rw (e, f, fields_from) (fields_from-IsName [] s tt)
    | inr f ↦ rw (e, f, fields_from) ((f, h), fields_from-IsName [] s tt)
  ]
]

pub fields-IsName : (s : Text) → All IsName (fields s)
unfolding fields
fields-IsName s = fields_from-IsName [] s tt

pub word-Lacks : (w : Text) → All IsPlain w → Lacks crlf w
word-Lacks [] h = refl
word-Lacks (c ∷ w) (p, h) = ground (arith, p, word-Lacks w h)

pub lf-Lacks : (s : Text) → Lacks lf s → Lacks crlf s
lf-Lacks [] h = refl
lf-Lacks (c ∷ []) h = ground arith
lf-Lacks (c ∷ d ∷ s) h = ground (arith, h, lf-Lacks (d ∷ s))

pub lf-All : (lines : List Text) → All (Lacks lf) lines → All (Lacks crlf) lines
lf-All [] h = tt
lf-All (line ∷ lines) (l, h) = (lf-Lacks line l, lf-All lines h)
