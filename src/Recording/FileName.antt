-- ===== src/Recording/FileName.antt =====
-- What a recording can be called, whatever the session id.
use homebrain.Prelude.{
  ℕ, zero, suc, ◌≤◌, Bool, true, false, ◌||◌, [], ◌∷◌, ◌≡◌, ◌⊎◌, inl, inr, refl, ap, arith,
  if◌then◌else◌, ◌==◌, ltb, length, take, is_empty, Bool-cases, All,
}
use homebrain.Text.{Text, codes, text_eq}
use homebrain.Recording.{
  is_alphanumeric, is_allowed, sanitize_from, trim_left, trim_right, max_name, sanitize_session_id,
}

-- A letter, a digit, or one of `-`, `.` and `_`: no separator of paths.
abbrev pub IsNameByte : ℕ → Type 0
IsNameByte c = (is_allowed c || c == b'_') ≡ true

abbrev pub starts_plain : Text → Bool
starts_plain [] = false
starts_plain (c ∷ s) = is_alphanumeric c

sanitize_from-IsNameByte : (previous : Bool) (s : Text) → All IsNameByte (sanitize_from previous s)
unfolding sanitize_from
sanitize_from-IsNameByte previous [] = tt
sanitize_from-IsNameByte previous (c ∷ s) =
    ground (arith, sanitize_from-IsNameByte true s, sanitize_from-IsNameByte false s)

trim_left-IsNameByte : (s : Text) → All IsNameByte s → All IsNameByte (trim_left s)
unfolding trim_left
trim_left-IsNameByte [] h = tt
trim_left-IsNameByte (c ∷ s) (h, hs) = ground (arith, trim_left-IsNameByte s hs)

trim_right-IsNameByte : (s : Text) → All IsNameByte s → All IsNameByte (trim_right s)
unfolding trim_right
trim_right-IsNameByte [] h = tt
trim_right-IsNameByte (c ∷ s) (h, hs) = ground (arith, trim_right-IsNameByte s hs)

take-IsNameByte : (n : ℕ) (s : Text) → All IsNameByte s → All IsNameByte (take n s)
take-IsNameByte zero s h = tt
take-IsNameByte (suc n) [] h = tt
take-IsNameByte (suc n) (c ∷ s) (h, hs) = (h, take-IsNameByte n s hs)

trim_left-starts :
    (s : Text) → All IsNameByte s → (trim_left s ≡ []) ⊎ (starts_plain (trim_left s) ≡ true)
unfolding trim_left
trim_left-starts [] h = inl refl
trim_left-starts (c ∷ s) (h, hs) = ground (arith, trim_left-starts s hs)

trim_right-starts : (s : Text) → starts_plain s ≡ true → starts_plain (trim_right s) ≡ true
unfolding trim_right
trim_right-starts [] h = h
trim_right-starts (c ∷ s) h = ground arith

trim_right-nil : is_empty (trim_right []) ≡ true
unfolding trim_right
trim_right-nil = refl

-- A name that is trimmed and not empty begins with a letter or a digit.
trimmed-starts :
    (s : Text)
    → All IsNameByte s
    → is_empty (trim_right (trim_left s)) ≡ false
    → starts_plain (trim_right (trim_left s)) ≡ true
trimmed-starts s h ne = elim (trim_left-starts s h) [
  | inl e ↦ absurd (none_left e)
  | inr p ↦ trim_right-starts (trim_left s) p
]
  where
    none_left : trim_left s ≡ [] → ⊥
    none_left e = cc (trim_right-nil, ap is_empty (ap trim_right e))

length-take-le : (n : ℕ) (s : Text) → length (take n s) ≤ n
length-take-le zero s = omega arith
length-take-le (suc n) [] = omega arith
length-take-le (suc n) (c ∷ s) = omega (arith, length-take-le n s)

-- A base name that stands for itself in every directory.
pub record IsBaseName (name : Text) : Type 0 where
  pub bytes : All IsNameByte name
  pub start : starts_plain name ≡ true
  pub short : length name ≤ 128

cut-IsBaseName :
    (s : Text)
    → All IsNameByte s
    → starts_plain s ≡ true
    → IsBaseName (if ltb max_name (length s) then take max_name s else s)
cut-IsBaseName s h p = elim (Bool-cases (ltb max_name (length s))) [
  | inl e ↦
      rw e
        (record { bytes = take-IsNameByte 128 s h; start = go s p; short = length-take-le 128 s })
  | inr e ↦ rw e (record { bytes = h; start = p; short = ground arith })
]
  where
    go : (s : Text) → starts_plain s ≡ true → starts_plain (take 128 s) ≡ true
    go [] p = p
    go (c ∷ s) p = p

-- Whatever the session id, its part of the file name is one to 128 letters, digits, `-`, `.` and
-- `_`, and begins with a letter or a digit: it holds no separator, and is no `.` or `..`.
pub sanitize_session_id-IsBaseName : (value : Text) → IsBaseName (sanitize_session_id value)
unfolding sanitize_session_id
sanitize_session_id-IsBaseName value =
    let clean = sanitize_from false value in
    let bytes = sanitize_from-IsNameByte false value in
    let result = trim_right (trim_left clean) in
    elim (Bool-cases (is_empty result || text_eq result (codes ".."))) [
      | inl e ↦ rw e (record { bytes = ground arith; start = refl; short = omega arith })
      | inr e ↦ rw e (
          cut-IsBaseName result
            (trim_right-IsNameByte (trim_left clean) (trim_left-IsNameByte clean bytes))
            (trimmed-starts clean bytes (ground arith)))
    ]
