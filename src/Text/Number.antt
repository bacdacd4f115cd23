-- ===== src/Text/Number.antt =====
-- strconv.ParseUint and strconv.Atoi at base 10, as internal/rtc/server.go and
-- internal/config/config.go call them.
use homebrain.Prelude.{
  ℕ, ◌+◌, ◌-◌, ◌*◌, ◌^◌, ◌≤◌, Bool, false, ◌||◌, Option, none, some, [], ◌∷◌, ◌≡◌, ◌≢◌, ◌↔◌, refl,
  arith, ltb, leb, ◌==◌, if◌then◌else◌, All,
}
use homebrain.Text.{Text, codes}

-- The loop of ParseUint: the digits read so far spell `n`, and a number above `max` is refused as
-- soon as it is met.
scan : ℕ → ℕ → Text → Option ℕ
scan max n [] = some n
scan max n (c ∷ s) =
    let m = n * 10 + (c - b'0') in
    let rest = scan max m s in
    if ltb c b'0' || ltb b'9' c then none else if ltb max m then none else rest

-- strconv.ParseUint(s, 10, bits); `none` is an error, of syntax or of range.
unfoldable pub parse_uint : Text → ℕ → Option ℕ
unfolding scan
parse_uint [] bits = none
parse_uint (c ∷ s) bits = scan (2 ^ bits - 1) 0 (c ∷ s)

pub data ℤ : Type 0 where
  pos : ℕ → ℤ
  negsuc : ℕ → ℤ  -- -(n + 1)

-- A sign read from a text.
abbrev negate : ℕ → ℤ
negate n = if n == 0 then pos 0 else negsuc (n - 1)

abbrev at_most : ℕ → Option ℕ → Option ℕ
at_most hi none = none
at_most hi (some n) = if leb n hi then some n else none

abbrev signed : (ℕ → ℤ) → Option ℕ → Option ℤ
signed f none = none
signed f (some n) = some (f n)

-- strconv.Atoi, with a 64-bit int: an optional sign, then digits.
unfoldable pub atoi : Text → Option ℤ
unfolding parse_uint
atoi [] = none
atoi (c ∷ s) =
    if c == b'-'
    then signed negate (at_most (2 ^ 63) (parse_uint s 64))
    else if c == b'+'
    then signed pos (at_most (2 ^ 63 - 1) (parse_uint s 64))
    else signed pos (at_most (2 ^ 63 - 1) (parse_uint (c ∷ s) 64))

-- `err == nil && port > 0`
abbrev pub is_positive : Option ℤ → Bool
is_positive (some (pos n)) = ltb 0 n
is_positive _ = false

abbrev pub IsDigit : ℕ → Type 0
IsDigit c = (b'0' ≤ c) × (c ≤ b'9')

-- The number that digits spell behind `n`, with no bound.
abbrev pub value : ℕ → Text → ℕ
value n [] = n
value n (c ∷ s) = value (n * 10 + (c - b'0')) s

value_grows : (s : Text) (n : ℕ) → n ≤ value n s
value_grows [] n = omega arith
value_grows (c ∷ s) n = omega (arith, value_grows s (n * 10 + (c - b'0')))

scan_iff :
    (max : ℕ) (s : Text) (n r : ℕ)
    → n ≤ max
    → (scan max n s ≡ some r) ↔ (All IsDigit s × (r ≡ value n s) × (value n s ≤ max))
unfolding scan
scan_iff max [] n r fits = ground arith
scan_iff max (c ∷ s) n r fits =
    ground (arith, scan_iff max s (n * 10 + (c - b'0')) r, value_grows s (n * 10 + (c - b'0')))

-- ParseUint answers with a number exactly for one or more digits that spell it, if it fits.
pub parse_uint_iff :
    (s : Text) (bits r : ℕ)
    → (parse_uint s bits ≡ some r)
      ↔ ((s ≢ []) × All IsDigit s × (r ≡ value 0 s) × (value 0 s ≤ 2 ^ bits - 1))
unfolding parse_uint
parse_uint_iff [] bits r = ground arith
parse_uint_iff (c ∷ s) bits r =
    let (there, back) = scan_iff (2 ^ bits - 1) (c ∷ s) 0 r (omega arith) in
    (λ h. ((cc), (there h).0, (there h).1, (there h).2), λ h. back (h.1, h.2, h.3))

parse_uint_test :
    (parse_uint (codes "65535") 16 ≡ some 65535) × (parse_uint (codes "65536") 16 ≡ none)
unfolding parse_uint
parse_uint_test = (refl, refl)

atoi_test : (atoi (codes "-07") ≡ some (negsuc 6)) × (atoi (codes "+") ≡ none)
unfolding atoi
atoi_test = (refl, refl)
