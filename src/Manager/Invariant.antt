-- ===== src/Manager/Invariant.antt =====
-- What holds of the table, the Create calls and the sessions between two steps.
use homebrain.Prelude.{ℕ, ◌≤◌, ◌<◌, Bool, true, false, some, [], ◌≡◌, ◌⊎◌, refl, arith}
use homebrain.Text.{Text, text_eq_iff}
use homebrain.Manager.Table.{lookup, lookup-nil, lookup-delete}
use homebrain.Manager.{Stage, none_yet, holding, settled, World, start, close_session}

abbrev is_made : Stage → Bool
is_made (holding s) = true
is_made settled = true
is_made _ = false

-- A session is closed, or its Create call still holds it, or it stands in the table under its id.
-- `pending` are the sessions that the running step is about to close.
abbrev pub IsSafe : (ℕ → Bool) → World → ℕ → Type 0
IsSafe pending w s =
    (w.shut s ≡ true)
    ⊎ ((w.stage (w.owner s) ≡ holding s)
        ⊎ ((lookup (w.id_of (w.owner s)) w.manager.table ≡ some (w.owner s))
              × (w.manager.slot (w.owner s) ≡ some s)
            ⊎ (pending s ≡ true)))

pub record IsSound (pending : ℕ → Bool) (w : World) : Type 0 where
  pub keyed :
      (id : Text) (entry : ℕ)
      → lookup id w.manager.table ≡ some entry
      → (entry < w.manager.next_entry) × (w.id_of entry ≡ id)
  pub owned :
      (entry s : ℕ) → w.manager.slot entry ≡ some s → (s < w.next_session) × (w.owner s ≡ entry)
  pub held : (entry s : ℕ) → w.stage entry ≡ holding s → (s < w.next_session) × (w.owner s ≡ entry)
  pub late : (entry : ℕ) → w.manager.next_entry ≤ entry → w.stage entry ≡ none_yet
  pub past : (s : ℕ) → s < w.next_session → is_made (w.stage (w.owner s)) ≡ true
  pub single : (s t : ℕ) → s < w.next_session → t < w.next_session → w.owner s ≡ w.owner t → s ≡ t
  pub safe : (s : ℕ) → s < w.next_session → IsSafe pending w s

abbrev pub nobody : ℕ → Bool
nobody _ = false

pub start-IsSound : IsSound nobody start
start-IsSound = record {
  keyed = λ id entry h. absurd (go id entry h);
  owned = λ entry s h. absurd (ground arith);
  held = λ entry s h. absurd (ground arith);
  late = λ entry h. refl;
  past = λ s h. absurd (ground arith);
  single = λ s t h k e. absurd (ground arith);
  safe = λ s h. absurd (ground arith);
}
  where
    go : (id : Text) (entry : ℕ) → lookup id [] ≡ some entry → ⊥
    go id entry h = cc (lookup-nil id)

module _ {pending : ℕ → Bool} {w : World} (h : IsSound pending w) (s : ℕ) where
  close_keyed :
      (id : Text) (entry : ℕ)
      → lookup id (close_session s w).manager.table ≡ some entry
      → (entry < (close_session s w).manager.next_entry) × (w.id_of entry ≡ id)
  unfolding close_session
  close_keyed id entry e =
      ground (arith, h.keyed id entry, lookup-delete id (w.id_of (w.owner s)) w.manager.table)

  close_session-IsSafe :
      (pending' : ℕ → Bool)
      → s < w.next_session
      → ((t : ℕ) → pending t ≡ true → (t ≡ s) ⊎ (pending' t ≡ true))
      → (t : ℕ) → t < w.next_session
      → IsSafe pending' (close_session s w) t
  unfolding close_session
  close_session-IsSafe pending' k fewer t m = ground (
    arith,
    h.safe t m,
    fewer t,
    lookup-delete (w.id_of (w.owner t)) (w.id_of (w.owner s)) w.manager.table,
    text_eq_iff (w.id_of (w.owner s)) (w.id_of (w.owner t)),
    h.single s t k m,
  )

  -- Closing a session that was pending, or any other.
  pub close_session-IsSound :
      (pending' : ℕ → Bool)
      → s < w.next_session
      → ((t : ℕ) → pending t ≡ true → (t ≡ s) ⊎ (pending' t ≡ true))
      → IsSound pending' (close_session s w)
  unfolding close_session
  close_session-IsSound pending' k fewer = record {
    keyed = λ id entry e. ground (arith, close_keyed id entry e);
    owned = λ entry t e. ground (arith, h.owned entry t);
    held = h.held;
    late = λ entry e. ground (arith, h.late entry);
    past = h.past;
    single = h.single;
    safe = close_session-IsSafe pending' k fewer;
  }
