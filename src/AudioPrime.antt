-- ===== src/AudioPrime.antt =====
-- internal/rtc/audio_prime.go: the loop that writes pre-encoded Opus frames, one for each tick.
-- The ticker, the context and the writer are the environment: a `Round` is what they do in one
-- round of the loop, and a list of rounds that ends leaves the loop waiting.
pub mod Frames
use homebrain.Prelude.{
  ℕ, zero, suc, ◌+◌, ◌%◌, Bool, true, false, not, Option, none, some, List, [], ◌∷◌, ◌++◌, ltb,
  if◌then◌else◌, length, get_elem?,
}
use homebrain.Text.{Text, codes, text_eq}

abbrev pub Frame : Type 0
Frame = List ℕ

abbrev pub opus_silence_frame : Frame
opus_silence_frame = 0xf8 ∷ 0xff ∷ 0xfe ∷ []

abbrev pub mode_tone : Text
mode_tone = codes "tone"

-- audioPrimeFramesForMode; the embedded tone is a parameter.
pub frames_for_mode : List Frame → Text → List Frame
frames_for_mode tone mode = if text_eq mode mode_tone then tone else opus_silence_frame ∷ []

pub record Round : Type 0 where
  pub cancelled_before : Bool  -- ctx.Err() != nil at the head of the loop
  pub done : Bool  -- the select takes ctx.Done()
  pub cancelled_after : Bool  -- ctx.Err() != nil behind a tick
  pub write_error : Option ℕ

pub data Outcome : Type 0 where
  waiting frames_missing duration cancelled : Outcome
  failed : ℕ → Outcome

-- The results of runAudioPrime, and the frames that the writer has taken, in order.
pub record Primed : Type 0 where
  pub outcome : Outcome
  pub frames : ℕ
  pub written : List (Option Frame)

abbrev return : Outcome → ℕ → List (Option Frame) → Primed
return outcome frames written = record { outcome = outcome; frames = frames; written = written }

module _ (target : ℕ) (encoded : List Frame) where
  prime_loop : ℕ → List (Option Frame) → List Round → Primed
  prime_loop frames written [] =
      return (if ltb frames target then waiting else duration) frames written
  prime_loop frames written (round ∷ rounds) =
      let sent = written ++ (get_elem? encoded (frames % length encoded) ∷ []) in
      let rest = prime_loop (frames + 1) sent rounds in
      if not (ltb frames target)
      then return duration frames written
      else if round.cancelled_before
      then return cancelled frames written
      else if round.done
      then return cancelled frames written
      else if round.cancelled_after
      then return cancelled frames written
      else elim round.write_error [ some e ↦ return (failed e) frames written | none ↦ rest ]

-- runAudioPrime. The deferred ticker.Stop() runs on every return.
unfoldable pub run_audio_prime : ℕ → List Frame → List Round → Primed
unfolding prime_loop
run_audio_prime target [] rounds = return frames_missing 0 []
run_audio_prime target (frame ∷ encoded) rounds = prime_loop target (frame ∷ encoded) 0 [] rounds
