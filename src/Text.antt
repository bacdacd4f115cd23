-- ===== src/Text.antt =====
-- Go's strings as the source uses them. A string is the list of its code points; a byte that is
-- no valid UTF-8 stands as an element of its own, above 0x10FFFF. This is what `range`,
-- `strings.Fields` and the comparisons of the source see.
pub mod Lines
pub mod Separator
pub mod Breaks
pub mod Number
pub mod Booleans
use Prim.Native.Char.{code}
use Prim.Native.String.{String}
use homebrain.Prelude.{
  ℕ, zero, suc, ◌-◌, ◌+◌, Bool, true, false, not, ◌&&◌, ◌||◌, List, [], ◌∷◌, ◌++◌, ◌≡◌, refl, ◌↔◌,
  arith, ltb, leb, ◌==◌, if◌then◌else◌, length, drop, is_empty,
}

abbrev pub Text : Type 0
Text = List ℕ

-- The code points of a literal.
abbrev pub codes : String → Text
codes String.[] = []
codes (String.◌∷◌ c s) = code c ∷ codes s

-- `a == b` on strings.
abbrev pub text_eq : Text → Text → Bool
text_eq [] [] = true
text_eq [] (y ∷ ys) = false
text_eq (x ∷ xs) [] = false
text_eq (x ∷ xs) (y ∷ ys) = x == y && text_eq xs ys

pub text_eq_iff : (a b : Text) → (text_eq a b ≡ true) ↔ (a ≡ b)
text_eq_iff [] [] = ground arith
text_eq_iff [] (y ∷ ys) = ground arith
text_eq_iff (x ∷ xs) [] = ground arith
text_eq_iff (x ∷ xs) (y ∷ ys) = ground (arith, text_eq_iff xs ys)

pub text_eq_refl : (a : Text) → text_eq a a ≡ true
text_eq_refl a = (text_eq_iff a a).1 refl

pub text_eq_sym : (a b : Text) → text_eq a b ≡ text_eq b a
text_eq_sym [] [] = refl
text_eq_sym [] (y ∷ ys) = refl
text_eq_sym (x ∷ xs) [] = refl
text_eq_sym (x ∷ xs) (y ∷ ys) = ground (arith, text_eq_sym xs ys)

-- strings.HasPrefix
abbrev pub has_prefix : Text → Text → Bool
has_prefix s [] = true
has_prefix [] (p ∷ ps) = false
has_prefix (c ∷ s) (p ∷ ps) = c == p && has_prefix s ps

-- strings.TrimPrefix
abbrev pub trim_prefix : Text → Text → Text
trim_prefix s p = if has_prefix s p then drop (length p) s else s

-- strings.Contains
abbrev pub contains : Text → Text → Bool
contains [] sub = has_prefix [] sub
contains (c ∷ s) sub = has_prefix (c ∷ s) sub || contains s sub

abbrev pub push : ℕ → List Text → List Text
push c [] = (c ∷ []) ∷ []
push c (l ∷ ls) = (c ∷ l) ∷ ls

-- strings.Split at a separator that is not empty; `skip` counts what is left of one being passed.
pub split_from : Text → ℕ → Text → List Text
split_from sep skip [] = [] ∷ []
split_from sep (suc skip) (c ∷ s) = split_from sep skip s
split_from sep zero (c ∷ s) = elim (has_prefix (c ∷ s) sep) [
  | true ↦ [] ∷ split_from sep (length sep - 1) s
  | false ↦ push c (split_from sep zero s)
]

unfoldable pub split : Text → Text → List Text
unfolding split_from
split s sep = split_from sep 0 s

-- strings.Join
unfoldable pub join : List Text → Text → Text
join [] sep = []
join (l ∷ []) sep = l
join (l ∷ m ∷ ls) sep = l ++ (sep ++ join (m ∷ ls) sep)

-- strings.ReplaceAll of a text that is not empty
abbrev pub replace_all : Text → Text → Text → Text
replace_all s old new = join (split s old) new

-- unicode.IsSpace
abbrev pub is_space : ℕ → Bool
is_space c =
    (leb 9 c && leb c 13)
    || c == 32
    || c == 0x85
    || c == 0xA0
    || c == 0x1680
    || (leb 0x2000 c && leb c 0x200A)
    || c == 0x2028
    || c == 0x2029
    || c == 0x202F
    || c == 0x205F
    || c == 0x3000

-- strings.Fields: `word` is the field being read.
pub fields_from : Text → Text → List Text
fields_from word [] = if is_empty word then [] else word ∷ []
fields_from word (c ∷ s) = elim (is_space c) [
  | true ↦ let rest = fields_from [] s in if is_empty word then rest else word ∷ rest
  | false ↦ fields_from (word ++ c ∷ []) s
]

unfoldable pub fields : Text → List Text
unfolding fields_from
fields s = fields_from [] s

-- strings.TrimSpace(s) == ""
unfoldable pub is_blank : Text → Bool
is_blank [] = true
is_blank (c ∷ s) = is_space c && is_blank s

-- strings.ToLower. A letter beyond ASCII stays as it is here, but for the two that are lowered to
-- an ASCII letter: texts are lowered to compare them with ASCII texts only.
abbrev pub to_lower : Text → Text
to_lower [] = []
to_lower (c ∷ s) = lower c ∷ to_lower s
  where
    lower : ℕ → ℕ
    lower c =
        if leb b'A' c && leb c b'Z'
        then c + 32
        else if c == 0x130
        then b'i'
        else if c == 0x212A
        then b'k'
        else c

split_test : split (codes "a\r\nb\r\n") (codes "\r\n") ≡ codes "a" ∷ codes "b" ∷ [] ∷ []
unfolding split
split_test = refl

fields_test : fields (codes " m=audio  9\tX ") ≡ codes "m=audio" ∷ codes "9" ∷ codes "X" ∷ []
unfolding fields
fields_test = refl
