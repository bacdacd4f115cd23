-- ===== src/Session/Track.antt =====
-- The OnTrack callback of internal/rtc/session.go with recordTrack. A track delivers packets, which
-- go by numbers, and then an error; `drainRemoteTrack` reads it and does nothing else. Each turn of
-- the loop says whether the session closed the recorder before it, and what the OGG writer answers.
use homebrain.Prelude.{
  ℕ, Bool, true, false, not, ◌||◌, Option, none, some, List, [], ◌∷◌, ◌++◌, ◌≡◌, ◌⊎◌, refl, arith,
  append_assoc, inl, inr, if◌then◌else◌, Bool-cases, Option-cases, sym, ◌∙◌,
}
use mathlib.Core.Path.{subst}
use homebrain.Text.{Text, codes, text_eq, to_lower}
use homebrain.Recording.{
  OggRecorder, WriteResult, written, already_closed, packet_required, write_failed, write_rtp,
  close,
}
use homebrain.Session.{is_cancelled, Session, Action, start_recorder}

-- strings.EqualFold(track.Codec().MimeType, webrtc.MimeTypeOpus), for a type of ASCII letters
abbrev pub is_opus : Text → Bool
is_opus mime = text_eq (to_lower mime) (codes "audio/opus")

-- OnTrack: what it starts, and the recorder to record with, or `none` for drainRemoteTrack.
unfoldable pub on_track : Bool → Text → Option ℕ → Session → Session × List Action × Option ℕ
on_track is_audio mime created s =
    if not is_audio || not (is_opus mime) then (s, [], none) else start_recorder created s

pub record Turn : Type 0 where
  pub closed_before : Bool
  pub packet : ℕ
  pub failure : Option ℕ

pub record Recorded : Type 0 where
  pub recorder : OggRecorder
  pub log : List Text  -- the categories of session_error
  pub asks_close : Bool  -- whether it starts Session.Close

abbrev closed_if : Bool → OggRecorder → OggRecorder
closed_if before r = if before then (close none r).0 else r

-- recordTrack behind a WriteRTP, with what the rest of the loop leaves.
behind_write : OggRecorder × WriteResult → Recorded → Recorded
behind_write (r, written) rest = rest
behind_write (r, already_closed) rest = record { recorder = r; log = []; asks_close = false }
behind_write (r, packet_required) rest = record {
  recorder = r;
  log = codes "recording_write" ∷ [];
  asks_close = true;
}
behind_write (r, write_failed e) rest = record {
  recorder = r;
  log = codes "recording_write" ∷ [];
  asks_close = true;
}

-- recordTrack, over the packets before the error; `cancelled` is `s.ctx.Err() != nil` then.
unfoldable pub record_track : Bool → List Turn → OggRecorder → Recorded
unfolding behind_write
record_track cancelled [] r = record {
  recorder = r;
  log = if cancelled then [] else codes "rtp_read" ∷ [];
  asks_close = false;
}
record_track cancelled (t ∷ ts) r =
    let x = write_rtp (some t.packet) t.failure (closed_if t.closed_before r) in
    behind_write x (record_track cancelled ts x.0)

abbrev pub delivered : List Turn → List ℕ
delivered [] = []
delivered (t ∷ ts) = t.packet ∷ delivered ts

-- A recorder holds `before` and then a part of the packets, up to `rest`.
pub record IsRecorded (before packets : List ℕ) (x : Recorded) : Type 0 where
  pub rest : List ℕ
  pub ordered : before ++ packets ≡ x.recorder.packets ++ rest
  pub complete : (x.recorder.closed ≡ true) ⊎ ((x.asks_close ≡ true) ⊎ (rest ≡ []))
  pub asked : x.asks_close ≡ true → x.recorder.closed ≡ false

module _ (tail : OggRecorder → Recorded) (packets : List ℕ) where
  -- One turn, with what the rest of the loop does.
  turn-IsRecorded :
      (packet : ℕ) (failure : Option ℕ) (closed : Bool) (before : List ℕ) (n : ℕ)
      → ((r : OggRecorder) → IsRecorded r.packets packets (tail r))
      → let x =
          write_rtp
            (some packet)
            failure
            (record { closed = closed; packets = before; writer_closed = n }) in
        IsRecorded before (packet ∷ packets) (behind_write x (tail x.0))
  unfolding write_rtp behind_write
  turn-IsRecorded packet failure true before n go = record {
    rest = packet ∷ packets;
    ordered = refl;
    complete = inl refl;
    asked = λ h. absurd (ground arith);
  }
  turn-IsRecorded packet none false before n go =
      let after =
        go (record { closed = false; packets = before ++ packet ∷ []; writer_closed = n }) in
      record {
        rest = after.rest;
        ordered = sym (append_assoc before (packet ∷ []) packets) ∙ after.ordered;
        complete = after.complete;
        asked = after.asked;
      }
  turn-IsRecorded packet (some e) false before n go = record {
    rest = packet ∷ packets;
    ordered = refl;
    complete = inr (inl refl);
    asked = λ h. refl;
  }

closed_if-packets : (b : Bool) (r : OggRecorder) → (closed_if b r).packets ≡ r.packets
unfolding close
closed_if-packets b r = ground arith

-- What recordTrack leaves in the recorder is what was there, and behind it the track's packets in
-- their order, with none left out or twice, up to a place: their end, or else the recorder is closed
-- or the session is asked to close. It never is asked where the recorder is closed.
pub record_track-IsRecorded :
    (cancelled : Bool) (ts : List Turn) (r : OggRecorder)
    → IsRecorded r.packets (delivered ts) (record_track cancelled ts r)
unfolding record_track
record_track-IsRecorded cancelled [] r = record {
  rest = [];
  ordered = refl;
  complete = inr (inr refl);
  asked = λ h. absurd (ground arith);
}
record_track-IsRecorded cancelled (t ∷ ts) r =
    let r' = closed_if t.closed_before r in
    subst
      (λ (before : List ℕ).
        IsRecorded before (delivered (t ∷ ts)) (record_track cancelled (t ∷ ts) r))
      (closed_if-packets t.closed_before r)
      (turn-IsRecorded (record_track cancelled ts) (delivered ts) t.packet t.failure r'.closed
        r'.packets r'.writer_closed (record_track-IsRecorded cancelled ts))

-- Only an Opus track is recorded, the first one of its session, and with the recorder that the
-- session will close; every other track leaves the session's recorder as it is.
pub on_track-recorder :
    (is_audio : Bool) (mime : Text) (created : Option ℕ) (s : Session)
    → let x = on_track is_audio mime created s in
      ((x.2 ≡ none) × (x.0.recorder ≡ s.recorder))
      ⊎ ((is_audio ≡ true)
          × (is_opus mime ≡ true)
          × (s.audio_claimed ≡ false)
          × (is_cancelled s ≡ false)
          × ((r : ℕ) × (x.2 ≡ some r) × (x.0.recorder ≡ some r) × (x.0.audio_claimed ≡ true)))
unfolding on_track start_recorder
on_track-recorder false mime created s = inl (refl, refl)
on_track-recorder true mime created s = elim (Bool-cases (is_opus mime)) [
  | inr o ↦ rw o (inl (refl, refl))
  | inl o ↦ rw o (elim (Bool-cases (s.audio_claimed || is_cancelled s)) [
    | inl c ↦ rw c (inl (refl, refl))
    | inr c ↦ rw c (elim (Option-cases created) [
      | inl e ↦ rw e (inl (refl, refl))
      | inr (r, e) ↦
          rw e (inr (refl, refl, ground (arith, c), ground (arith, c), (r, refl, refl, refl)))
    ])
  ])
]
