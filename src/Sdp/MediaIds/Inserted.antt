-- ===== src/Sdp/MediaIds/Inserted.antt =====
-- What normalizeAlexaRejectedMediaMIDs does to one section.
use homebrain.Prelude.{
  ℕ, suc, ◌+◌, ◌-◌, ◌≤◌, true, false, some, List, [], ◌∷◌, ◌++◌, ◌≡◌, ◌⊎◌, inl, inr, refl, ap,
  arith, take, drop, length, Bool-cases, Option-cases,
}
use homebrain.Text.{Text, has_prefix}
use homebrain.Sdp.{attribute_index}
use homebrain.Sdp.MediaIds.{
  MediaSection, mid_prefix, media_line_fields, has_mid, is_rejected_like, attribute_index,
  end_index, insert_position, edit_section,
}

-- The section of the answer is a rejected one of the offer's type, and the offer gives a mid.
abbrev pub NeedsMid : Text → MediaSection → Type 0
NeedsMid line offered = is_rejected_like (media_line_fields line) offered ≡ true

abbrev pub mid_line : MediaSection → Text
mid_line offered = mid_prefix ++ offered.mid

has_prefix-append : (p s : Text) → has_prefix (p ++ s) p ≡ true
has_prefix-append [] s = refl
has_prefix-append (c ∷ p) s = ground (arith, has_prefix-append p s)

attribute_index_bounds :
    (lines : List Text) (index i : ℕ)
    → attribute_index index lines ≡ some i
    → (index ≤ i) × (i ≤ index + length lines)
unfolding attribute_index
attribute_index_bounds [] index i h = cc
attribute_index_bounds (line ∷ lines) index i h =
    ground (arith, attribute_index_bounds lines (suc index) i)

end_index_bounds :
    (line : Text) (body : List Text)
    → (1 ≤ end_index (line ∷ body)) × (end_index (line ∷ body) ≤ suc (length body))
unfolding end_index
end_index_bounds line body = ground arith

-- Where a mid is inserted, it stands behind the media line and inside the section.
insert_position-some :
    (line : Text) (body : List Text) (offered : MediaSection)
    → NeedsMid line offered
    → has_mid body ≡ false
    → (i : ℕ) × (insert_position (line ∷ body) (some offered) ≡ some (suc i)) × (i ≤ length body)
unfolding insert_position
insert_position-some line body offered needs lacks = elim (Option-cases (attribute_index 1 body)) [
  | inl e ↦ (
    end_index (line ∷ body) - 1,
    ground (arith, end_index_bounds line body),
    omega (arith, end_index_bounds line body),
  )
  | inr (i, e) ↦ (
    i - 1,
    ground (arith, attribute_index_bounds body 1 i),
    omega (arith, attribute_index_bounds body 1 i e),
  )
]

-- A rejected section without a mid gets the offer's, in one new line inside its body; every line
-- that it had stays, in order.
pub edit_section_inserts :
    (line : Text) (body : List Text) (offered : MediaSection)
    → NeedsMid line offered
    → has_mid body ≡ false
    → (i : ℕ) × (i ≤ length body)
      × (edit_section (line ∷ body) (some offered)
          ≡ line ∷ (take i body ++ (mid_line offered ∷ drop i body)))
unfolding edit_section
edit_section_inserts line body offered needs lacks =
    let (i, e, bound) = insert_position-some line body offered needs lacks in
    (i, bound, rw (e, edit_section))

-- Any other section stays as it is.
pub edit_section_keeps :
    (line : Text) (body : List Text) (offered : MediaSection)
    → (is_rejected_like (media_line_fields line) offered ≡ false) ⊎ (has_mid body ≡ true)
    → edit_section (line ∷ body) (some offered) ≡ line ∷ body
unfolding edit_section insert_position
edit_section_keeps line body offered h = ground arith

has_mid-inserted :
    (offered : MediaSection) (xs ys : List Text) → has_mid (xs ++ (mid_line offered ∷ ys)) ≡ true
unfolding has_mid
has_mid-inserted offered [] ys = ground (arith, has_prefix-append mid_prefix offered.mid)
has_mid-inserted offered (x ∷ xs) ys = ground (arith, has_mid-inserted offered xs ys)

-- Editing an edited section changes nothing.
pub edit_section_idem :
    (line : Text) (body : List Text) (offered : MediaSection)
    → edit_section (edit_section (line ∷ body) (some offered)) (some offered)
      ≡ edit_section (line ∷ body) (some offered)
edit_section_idem line body offered =
    elim (Bool-cases (is_rejected_like (media_line_fields line) offered)) [
      | inl needs ↦ elim (Bool-cases (has_mid body)) [
        | inl has ↦ twice (edit_section_keeps line body offered (inr has))
        | inr lacks ↦
            let (i, _, e) = edit_section_inserts line body offered needs lacks in
            rw e (
              edit_section_keeps line _ offered
                (inr (has_mid-inserted offered (take i body) (drop i body))))
      ]
      | inr other ↦ twice (edit_section_keeps line body offered (inl other))
    ]
  where
    twice :
        edit_section (line ∷ body) (some offered) ≡ line ∷ body
        → edit_section (edit_section (line ∷ body) (some offered)) (some offered)
          ≡ edit_section (line ∷ body) (some offered)
    twice e = ap (λ s. edit_section s (some offered)) e
