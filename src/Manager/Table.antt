-- ===== src/Manager/Table.antt =====
-- The map `sessions` of a Manager: session ids against entries, an entry by its pointer.
use homebrain.Prelude.{ℕ, Option, none, some, List, [], ◌∷◌, ◌≡◌, refl, arith, if◌then◌else◌}
use homebrain.Text.{Text, text_eq, text_eq_iff}

abbrev pub SessionTable : Type 0
SessionTable = List (Text × ℕ)

unfoldable pub lookup : Text → SessionTable → Option ℕ
lookup id [] = none
lookup id ((key, entry) ∷ table) = if text_eq key id then some entry else lookup id table

-- delete(m.sessions, id)
unfoldable pub delete : Text → SessionTable → SessionTable
delete id [] = []
delete id ((key, entry) ∷ table) =
    let rest = delete id table in if text_eq key id then rest else (key, entry) ∷ rest

pub lookup-nil : (id : Text) → lookup id [] ≡ none
unfolding lookup
lookup-nil id = refl

pub lookup-cons :
    (id key : Text) (entry : ℕ) (table : SessionTable)
    → lookup id ((key, entry) ∷ table) ≡ (if text_eq key id then some entry else lookup id table)
unfolding lookup
lookup-cons id key entry table = refl

pub lookup-delete :
    (id key : Text) (table : SessionTable)
    → lookup id (delete key table) ≡ (if text_eq key id then none else lookup id table)
unfolding lookup delete
lookup-delete id key [] = ground arith
lookup-delete id key ((k, entry) ∷ table) =
    ground
      (arith, lookup-delete id key table, text_eq_iff k key, text_eq_iff key id, text_eq_iff k id)
