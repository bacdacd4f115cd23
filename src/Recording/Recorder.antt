-- ===== src/Recording/Recorder.antt =====
-- What a recorder does over any sequence of calls.
use homebrain.Prelude.{
  ℕ, ◌+◌, true, false, none, some, List, [], ◌∷◌, ◌++◌, append-nil, append_assoc, ◌≡◌, refl, sym,
  arith,
}
use homebrain.Recording.{OggRecorder, Call, writes, closes, new_recorder, run}

-- The packets that are written before the first Close, and with no error.
unfoldable pub taken : List Call → List ℕ
taken [] = []
taken (closes failure ∷ calls) = []
taken (writes none failure ∷ calls) = taken calls
taken (writes (some p) none ∷ calls) = p ∷ taken calls
taken (writes (some p) (some e) ∷ calls) = taken calls

abbrev pub closings : List Call → ℕ
closings [] = 0
closings (closes failure ∷ calls) = 1
closings (writes packet failure ∷ calls) = closings calls

run_closed : (calls : List Call) (r : OggRecorder) → r.closed ≡ true → run calls r ≡ r
unfolding run
run_closed [] r h = refl
run_closed (writes packet failure ∷ calls) r h = ground (arith, run_closed calls r h)
run_closed (closes failure ∷ calls) r h = ground (arith, run_closed calls r h)

run_open :
    (calls : List Call) (r : OggRecorder)
    → r.closed ≡ false
    → ((run calls r).packets ≡ r.packets ++ taken calls)
      × ((run calls r).writer_closed ≡ r.writer_closed + closings calls)
unfolding run taken
run_open [] r h = (sym (append-nil r.packets), omega arith)
run_open (closes failure ∷ calls) r h = ground (
  arith,
  append-nil r.packets,
  run_closed calls (record r { closed = true; writer_closed = r.writer_closed + 1 }) refl,
)
run_open (writes none failure ∷ calls) r h = ground (arith, run_open calls r h)
run_open (writes (some p) none ∷ calls) r h = ground (
  arith,
  run_open calls (record r { packets = r.packets ++ p ∷ [] }) h,
  append_assoc r.packets (p ∷ []) (taken calls),
)
run_open (writes (some p) (some e) ∷ calls) r h = ground (arith, run_open calls r h)

-- Over any calls, in any order, the writer takes the packets up to the first Close in their order,
-- and is closed once, if Close is called at all: later calls reach it no more.
pub run_lem :
    (calls : List Call)
    → ((run calls new_recorder).packets ≡ taken calls)
      × ((run calls new_recorder).writer_closed ≡ closings calls)
run_lem calls = ground (arith, run_open calls new_recorder refl)
