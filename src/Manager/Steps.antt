-- ===== src/Manager/Steps.antt =====
-- The other steps of a Manager's world keep the invariant, and so each step does.
use homebrain.Prelude.{
  ℕ, ◌<◌, Bool, true, false, ◌||◌, Option, some, List, [], ◌∷◌, ◌≡◌, inl, inr, arith, ◌==◌,
  Option-cases, Bool-cases, ltb, All,
}
use homebrain.Text.{Text, text_eq_iff}
use homebrain.Manager.Table.{SessionTable, lookup, delete, lookup-nil, lookup-cons, lookup-delete}
use homebrain.Manager.Invariant.{IsSound, nobody, close_session-IsSound}
use homebrain.Manager.{
  World, Event, begin, made, not_made, attaches, ended, expires, closes, closes_all, holds,
  session_under, close_session, close_sessions, attached_sessions, expire_section, close_section,
  step, run,
}
use homebrain.Manager.Creates.{
  holds-some, begin-IsSound, made-IsSound, not_made-IsSound, ended-IsSound, attach-IsSound,
}

module _ {w : World} (h : IsSound nobody w) where
  -- The table without an id, when the session under it is about to be closed.
  removed-IsSound :
      (id : Text)
      → IsSound
          (holds (session_under id w.manager))
          (record w { manager = record w.manager { table = delete id w.manager.table } })
  removed-IsSound id = record {
    keyed = λ k entry m. ground (arith, h.keyed k entry, lookup-delete k id w.manager.table);
    owned = h.owned;
    held = h.held;
    late = h.late;
    past = h.past;
    single = h.single;
    safe = λ t m. ground (
      arith,
      h.safe t m,
      lookup-delete (w.id_of (w.owner t)) id w.manager.table,
      text_eq_iff id (w.id_of (w.owner t)),
    );
  }

  under_bound : (id : Text) (s : ℕ) → session_under id w.manager ≡ some s → s < w.next_session
  under_bound id s e = elim (Option-cases (lookup id w.manager.table)) [
    | inl f ↦ ground (arith)
    | inr (entry, f) ↦ ground (arith, h.owned entry s)
  ]

  expires-IsSound : (id : Text) (s : ℕ) → IsSound nobody (step (expires id s) w)
  unfolding step
  expires-IsSound id s = elim (Bool-cases (holds (session_under id w.manager) s)) [
    | inl f ↦
        let e = holds-some (session_under id w.manager) s f in
        rw (f, step, expire_section)
          (close_session-IsSound (removed-IsSound id) s nobody (under_bound id s e)
            (λ t m. ground arith))
    | inr f ↦ rw (f, step, expire_section) h
  ]

  closes-IsSound : (id : Text) → IsSound nobody (step (closes id) w)
  unfolding step
  closes-IsSound id = elim (Option-cases (session_under id w.manager)) [
    | inl e ↦ rw (e, step, close_section) (rw e at (removed-IsSound id))
    | inr (s, e) ↦
        rw (e, step, close_section)
          (close_session-IsSound (removed-IsSound id) s nobody (under_bound id s e)
            (λ t m. ground arith))
  ]

attached_bound :
    {w : World} (h : IsSound nobody w) (table : SessionTable)
    → All (λ s. s < w.next_session) (attached_sessions w.manager.slot table)
unfolding attached_sessions
attached_bound h [] = tt
attached_bound {w} h ((id, entry) ∷ table) = elim (Option-cases (w.manager.slot entry)) [
  | inl e ↦ rw (e, attached_sessions) (attached_bound h table)
  | inr (s, e) ↦ rw (e, attached_sessions) ((h.owned entry s e).0, attached_bound h table)
]

abbrev mem : List ℕ → ℕ → Bool
mem [] t = false
mem (s ∷ ss) t = t == s || mem ss t

attached_complete :
    (slot : ℕ → Option ℕ) (table : SessionTable) (id : Text) (entry s : ℕ)
    → lookup id table ≡ some entry
    → slot entry ≡ some s
    → mem (attached_sessions slot table) s ≡ true
unfolding attached_sessions
attached_complete slot [] id entry s e f = cc (lookup-nil id)
attached_complete slot ((key, k) ∷ table) id entry s e f =
    ground (arith, lookup-cons id key k table, attached_complete slot table id entry s)

emptied-IsSound :
    {w : World}
    → IsSound nobody w
    → IsSound
        (mem (attached_sessions w.manager.slot w.manager.table))
        (record w { manager = record w.manager { table = [] } })
emptied-IsSound {w} h = record {
  keyed = λ id entry e. absurd (cc (lookup-nil id));
  owned = h.owned;
  held = h.held;
  late = h.late;
  past = h.past;
  single = h.single;
  safe = λ t m. ground (
    arith,
    h.safe t m,
    attached_complete w.manager.slot w.manager.table (w.id_of (w.owner t)) (w.owner t) t,
  );
}

close_sessions-IsSound :
    (ss : List ℕ) (w : World)
    → IsSound (mem ss) w
    → All (λ s. s < w.next_session) ss
    → IsSound nobody (close_sessions ss w)
unfolding close_sessions close_session
close_sessions-IsSound [] w h k = h
close_sessions-IsSound (s ∷ ss) w h (k, ks) =
    close_sessions-IsSound ss (close_session s w)
      (close_session-IsSound h s (mem ss) k (λ t m. ground arith)) ks

pub step-IsSound : (e : Event) (w : World) → IsSound nobody w → IsSound nobody (step e w)
unfolding step
step-IsSound (begin id) w h = begin-IsSound h id
step-IsSound (made entry) w h = made-IsSound h entry
step-IsSound (not_made entry) w h = not_made-IsSound h entry
step-IsSound (attaches entry) w h = attach-IsSound h entry
step-IsSound (ended s) w h = elim (Bool-cases (ltb s w.next_session)) [
  | inl e ↦ rw (e, step) (ended-IsSound h s (ground arith))
  | inr e ↦ rw (e, step) h
]
step-IsSound (expires id s) w h = expires-IsSound h id s
step-IsSound (closes id) w h = closes-IsSound h id
step-IsSound closes_all w h =
    close_sessions-IsSound (attached_sessions w.manager.slot w.manager.table) _ (emptied-IsSound h)
      (attached_bound h w.manager.table)

pub run-IsSound : (es : List Event) (w : World) → IsSound nobody w → IsSound nobody (run es w)
unfolding run
run-IsSound [] w h = h
run-IsSound (e ∷ es) w h = run-IsSound es (step e w) (step-IsSound e w h)
