-- ===== src/Tests/Media.antt =====
-- Runs of the audio prime loop and of a recorder, and names of recordings.
use homebrain.Prelude.{
  ◌+◌, drop, length, All, true, false, none, some, List, [], ◌∷◌, ◌++◌, ◌≡◌, refl, arith,
}
use homebrain.Text.{Text, has_prefix, codes}
use homebrain.AudioPrime.{Frame, Round, duration, run_audio_prime, opus_silence_frame}
use homebrain.AudioPrime.Frames.{IsPrimed, run_audio_prime-IsPrimed, run_audio_prime_completes}
use homebrain.Recording.Factory.{IsStamp, new_opens}
use homebrain.Recording.{
  Files, new, opened, Call, writes, closes, new_recorder, run, sanitize_session_id, file_name,
}
use homebrain.Recording.FileName.{IsNameByte, IsBaseName, sanitize_session_id-IsBaseName}
use homebrain.Recording.Recorder.{taken, closings, run_lem}

abbrev good : Round
good = record {
  cancelled_before = false;
  done = false;
  cancelled_after = false;
  write_error = none;
}

abbrev stop : Round
stop = record { cancelled_before = false; done = true; cancelled_after = false; write_error = none }

abbrev two_frames : List Frame
two_frames = (1 ∷ []) ∷ opus_silence_frame ∷ []

frames_in_turn :
    (run_audio_prime 5 two_frames (good ∷ good ∷ good ∷ stop ∷ good ∷ [])).written
    ≡ some (1 ∷ []) ∷ some opus_silence_frame ∷ some (1 ∷ []) ∷ []
unfolding run_audio_prime
frames_in_turn = refl

run_audio_prime-IsPrimed_example :
    IsPrimed 5 two_frames (run_audio_prime 5 two_frames (good ∷ good ∷ good ∷ stop ∷ []))
run_audio_prime-IsPrimed_example =
    run_audio_prime-IsPrimed 5 two_frames (good ∷ good ∷ good ∷ stop ∷ [])

run_audio_prime_completes_example :
    ((run_audio_prime 2 two_frames ((good ∷ good ∷ []) ++ good ∷ [])).outcome ≡ duration)
    × ((run_audio_prime 2 two_frames ((good ∷ good ∷ []) ++ good ∷ [])).frames ≡ 2)
run_audio_prime_completes_example =
    run_audio_prime_completes 2 two_frames (good ∷ good ∷ []) (good ∷ []) (omega arith)
      ((refl, refl, refl, refl), ((refl, refl, refl, refl), tt)) refl

abbrev calls : List Call
calls =
    writes (some 1) none
    ∷ writes none none
    ∷ writes (some 2) (some 9)
    ∷ writes (some 3) none
    ∷ closes (some 4)
    ∷ writes (some 5) none
    ∷ closes none
    ∷ []

calls_taken : (run calls new_recorder).packets ≡ 1 ∷ 3 ∷ []
unfolding run
calls_taken = refl

run_lem_example :
    ((run calls new_recorder).packets ≡ taken calls)
    × ((run calls new_recorder).writer_closed ≡ closings calls)
run_lem_example = run_lem calls

name_cleaned : sanitize_session_id (codes "../etc//passwd!") ≡ codes "etc_passwd"
unfolding sanitize_session_id
name_cleaned = refl

name_made : file_name (codes "20260802T") (codes "..") ≡ codes "20260802T_session.ogg"
unfolding file_name
name_made = refl

sanitize_session_id-IsBaseName_example : IsBaseName (sanitize_session_id (codes "../a b"))
sanitize_session_id-IsBaseName_example = sanitize_session_id-IsBaseName (codes "../a b")

abbrev disk : Files
disk = record {
  directory = some (codes "/d");
  join_path = λ dir name. dir ++ (codes "/" ++ name);
  relative = λ dir path. some (drop (length dir + 1) path);
  is_absolute = λ path. has_prefix path (codes "/");
  created = λ path. true;
}

name_is_relative : (name : Text) → All IsNameByte name → has_prefix name (codes "/") ≡ false
name_is_relative [] h = refl
name_is_relative (c ∷ name) (h, _) = ground arith

abbrev stamp : Text
stamp = codes "20260102T030405.000000000Z"

stamp-IsStamp : IsStamp stamp
stamp-IsStamp = record { bytes = ground arith; year = refl }

new_opens_example :
    new disk stamp (codes "../up") ≡ opened (codes "/d/" ++ file_name stamp (codes "../up"))
new_opens_example =
    new_opens disk (codes "/d") stamp (codes "../up") refl stamp-IsStamp (λ name _ _. refl)
      name_is_relative
