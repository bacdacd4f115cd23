-- ===== src/Manager.antt =====
-- internal/rtc/session_manager.go: the table of sessions. Each locked section is one function on
-- the Manager. A `World` adds what goes on around the table: the Create calls that are under way,
-- and the sessions that NewSession has made. Entries and sessions go by their pointers.
pub mod Table
pub mod Invariant
pub mod Creates
pub mod Steps
pub mod Leaks
use homebrain.Prelude.{
  ℕ, zero, suc, ◌+◌, Bool, true, false, Option, none, some, List, [], ◌∷◌, ◌==◌, ltb, if◌then◌else◌,
  length,
}
use homebrain.Text.{Text}
use Table.{SessionTable, lookup, delete}

pub record Manager : Type 0 where
  pub table : SessionTable
  pub slot : ℕ → Option ℕ  -- entry.session
  pub next_entry : ℕ

abbrev pub update {ℓ} : {A : Type ℓ} → (ℕ → A) → ℕ → A → ℕ → A
update f k v j = if j == k then v else f j

-- Create, the first locked section: an entry for the id, unless there is one.
unfoldable pub reserve : Text → Manager → Option ℕ × Manager
reserve id m = elim (lookup id m.table) [
  | some entry ↦ (none, m)
  | none ↦ (
    some m.next_entry,
    record m {
      table = (id, m.next_entry) ∷ m.table;
      slot = update m.slot m.next_entry none;
      next_entry = suc m.next_entry;
    },
  )
]

-- `current, exists := m.sessions[id]; exists && current == entry`
abbrev pub holds : Option ℕ → ℕ → Bool
holds none entry = false
holds (some current) entry = current == entry

-- removeEntry
unfoldable pub remove_entry : Text → ℕ → Manager → Manager
remove_entry id entry m =
    if holds (lookup id m.table) entry then record m { table = delete id m.table } else m

-- Create, the second locked section: the session goes into the entry, if that is still in place.
unfoldable pub attach : Text → ℕ → ℕ → Manager → Bool × Manager
attach id entry session m =
    if holds (lookup id m.table) entry
    then (true, record m { slot = update m.slot entry (some session) })
    else (false, m)

-- entry.session of the entry under an id, where there is one.
abbrev pub session_under : Text → Manager → Option ℕ
session_under id m = elim (lookup id m.table) [ none ↦ none | some entry ↦ m.slot entry ]

-- The locked section of expire: does the session still stand under its id?
unfoldable pub expire_section : Text → ℕ → Manager → Bool × Manager
expire_section id session m =
    if holds (session_under id m) session
    then (true, record m { table = delete id m.table })
    else (false, m)

-- MarkConnected: the session to mark; `none` is ErrSessionNotFound.
unfoldable pub mark_connected : Text → Manager → Option ℕ
mark_connected id m = session_under id m

-- The locked section of Close: the session to close; `none` is ErrSessionNotFound.
unfoldable pub close_section : Text → Manager → Option ℕ × Manager
close_section id m = (session_under id m, record m { table = delete id m.table })

-- The locked section of CloseAll.
pub attached_sessions : (ℕ → Option ℕ) → SessionTable → List ℕ
attached_sessions slot [] = []
attached_sessions slot ((id, entry) ∷ table) =
    let rest = attached_sessions slot table in
    elim (slot entry) [ none ↦ rest | some session ↦ session ∷ rest ]

unfoldable pub close_all_section : Manager → List ℕ × Manager
close_all_section m = (attached_sessions m.slot m.table, record m { table = [] })

-- Len
unfoldable pub len : Manager → ℕ
len m = length m.table

-- How far the Create call of an entry has come.
pub data Stage : Type 0 where
  none_yet : Stage
  calling : Stage  -- in NewSession
  holding : ℕ → Stage  -- NewSession has returned this session
  settled : Stage

pub record World : Type 0 where
  pub manager : Manager
  pub id_of : ℕ → Text  -- the id that the Create call of an entry was given
  pub stage : ℕ → Stage
  pub next_session : ℕ
  pub owner : ℕ → ℕ  -- the entry that a session's terminal callback removes
  pub shut : ℕ → Bool  -- Close has been called on the session

abbrev pub empty_manager : Manager
empty_manager = record { table = []; slot = λ _. none; next_entry = 0 }

abbrev pub start : World
start = record {
  manager = empty_manager;
  id_of = λ _. [];
  stage = λ _. none_yet;
  next_session = 0;
  owner = λ _. 0;
  shut = λ _. false;
}

-- Session.Close with the callback `func() { m.removeEntry(id, entry) }`.
unfoldable pub close_session : ℕ → World → World
unfolding remove_entry
close_session s w = record w {
  manager = remove_entry (w.id_of (w.owner s)) (w.owner s) w.manager;
  shut = update w.shut s true;
}

unfoldable pub close_sessions : List ℕ → World → World
close_sessions [] w = w
close_sessions (s ∷ ss) w = close_sessions ss (close_session s w)

abbrev close_optional : Option ℕ → World → World
close_optional none w = w
close_optional (some s) w = close_session s w

pub data Event : Type 0 where
  begin : Text → Event  -- Create is called
  made not_made : ℕ → Event  -- NewSession returns in the Create call of an entry
  attaches : ℕ → Event  -- that call goes on
  ended : ℕ → Event  -- a session closes by itself
  expires : Text → ℕ → Event
  closes : Text → Event
  closes_all : Event

pub begin_step : Text → World → World
begin_step id w =
    let (entered, m) = reserve id w.manager in
    elim entered [
      | none ↦ w
      | some entry ↦ record w {
        manager = m;
        id_of = update w.id_of entry id;
        stage = update w.stage entry calling;
      }
    ]

pub made_step : Stage → ℕ → World → World
made_step calling entry w = record w {
  stage = update w.stage entry (holding w.next_session);
  next_session = suc w.next_session;
  owner = update w.owner w.next_session entry;
  shut = update w.shut w.next_session false;
}
made_step _ entry w = w

pub not_made_step : Stage → ℕ → World → World
not_made_step calling entry w = record w {
  manager = remove_entry (w.id_of entry) entry w.manager;
  stage = update w.stage entry settled;
}
not_made_step _ entry w = w

pub attach_step : Stage → ℕ → World → World
attach_step (holding s) entry w =
    let (found, m) = attach (w.id_of entry) entry s w.manager in
    let w' = record w { manager = m; stage = update w.stage entry settled } in
    if found then w' else close_session s w'
attach_step _ entry w = w

-- One event. Where the source closes sessions behind the unlock of `Close`, `expire` and
-- `CloseAll`, the event does it together with the locked section: the sessions are out of the table
-- by then, so no other event depends on which comes first.
unfoldable pub step : Event → World → World
unfolding begin_step made_step not_made_step attach_step reserve attach close_session expire_section
    close_section close_all_section attached_sessions close_sessions
step (begin id) w = begin_step id w
step (made entry) w = made_step (w.stage entry) entry w
step (not_made entry) w = not_made_step (w.stage entry) entry w
step (attaches entry) w = attach_step (w.stage entry) entry w
step (ended s) w = if ltb s w.next_session then close_session s w else w
step (expires id s) w =
    let (matches, m) = expire_section id s w.manager in
    let w' = record w { manager = m } in if matches then close_session s w' else w'
step (closes id) w =
    let (found, m) = close_section id w.manager in close_optional found (record w { manager = m })
step closes_all w =
    let (found, m) = close_all_section w.manager in close_sessions found (record w { manager = m })

unfoldable pub run : List Event → World → World
unfolding step
run [] w = w
run (e ∷ es) w = run es (step e w)
