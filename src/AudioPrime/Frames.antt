-- ===== src/AudioPrime/Frames.antt =====
-- Which frames runAudioPrime writes, and when it returns.
use homebrain.Prelude.{
  ℕ, zero, suc, ◌+◌, ◌%◌, ◌≤◌, ◌<◌, true, false, Option, none, List, [], ◌∷◌, ◌++◌, ◌≡◌, ◌⊎◌, refl,
  ap, ◌∙◌, arith, length, get_elem?, All,
}
use native.Mathlib.Numerals.{add-one}
use homebrain.AudioPrime.{Frame, Round, duration, cancelled, Primed, prime_loop, run_audio_prime}

-- The first frames of the encoded ones repeated for ever.
unfoldable pub repeated : List Frame → ℕ → List (Option Frame)
repeated encoded zero = []
repeated encoded (suc n) = repeated encoded n ++ (get_elem? encoded (n % length encoded) ∷ [])

pub record IsPrimed (target : ℕ) (encoded : List Frame) (p : Primed) : Type 0 where
  pub in_order : p.written ≡ repeated encoded p.frames
  pub bounded : p.frames ≤ target
  pub complete : p.outcome ≡ duration → p.frames ≡ target

repeated-add_one :
    (encoded : List Frame) (n : ℕ)
    → repeated encoded (n + 1) ≡ repeated encoded n ++ (get_elem? encoded (n % length encoded) ∷ [])
unfolding repeated
repeated-add_one encoded n = rw add-one

prime_loop-IsPrimed :
    (target : ℕ) (encoded : List Frame) (rounds : List Round) (frames : ℕ)
    (written : List (Option Frame))
    → written ≡ repeated encoded frames
    → frames ≤ target
    → IsPrimed target encoded (prime_loop target encoded frames written rounds)
unfolding prime_loop
prime_loop-IsPrimed target encoded [] frames written h b = ground arith
prime_loop-IsPrimed target encoded (round ∷ rounds) frames written h b =
    let sent = written ++ (get_elem? encoded (frames % length encoded) ∷ []) in
    let next = prime_loop-IsPrimed target encoded rounds (frames + 1) sent in
    ground (arith, next, repeated-add_one encoded frames)

-- However the ticks, the cancellations and the writer behave, the frames written are the encoded
-- ones in turn, beginning anew behind the last; their number is the one returned, it never
-- passes the target, and it is the target where the loop ends by its duration.
pub run_audio_prime-IsPrimed :
    (target : ℕ) (encoded : List Frame) (rounds : List Round)
    → IsPrimed target encoded (run_audio_prime target encoded rounds)
unfolding run_audio_prime repeated
run_audio_prime-IsPrimed target [] rounds = ground arith
run_audio_prime-IsPrimed target (frame ∷ encoded) rounds =
    prime_loop-IsPrimed target (frame ∷ encoded) rounds 0 [] refl (omega arith)

-- A round in which nothing is cancelled and the frame is written.
abbrev pub IsGood : Round → Type 0
IsGood r =
    (r.cancelled_before ≡ false)
    × (r.done ≡ false)
    × (r.cancelled_after ≡ false)
    × (r.write_error ≡ none)

prime_loop_good :
    (target : ℕ) (encoded : List Frame) (r : Round) (rounds : List Round) (frames : ℕ)
    (written : List (Option Frame))
    → IsGood r
    → frames < target
    → prime_loop target encoded frames written (r ∷ rounds)
      ≡ prime_loop target encoded
          (frames + 1)
          (written ++ (get_elem? encoded (frames % length encoded) ∷ []))
          rounds
unfolding prime_loop
prime_loop_good target encoded r rounds frames written g b = ground arith

full_loop :
    (target : ℕ) (encoded : List Frame) (written : List (Option Frame)) (rounds : List Round)
    (frames : ℕ)
    → frames ≡ target
    → ((prime_loop target encoded frames written rounds).outcome ≡ duration)
      × ((prime_loop target encoded frames written rounds).frames ≡ target)
unfolding prime_loop
full_loop target encoded written [] frames e = ground arith
full_loop target encoded written (r ∷ rounds) frames e = ground arith

cancelled_loop :
    (target : ℕ) (encoded : List Frame) (written : List (Option Frame)) (rounds : List Round)
    (r : Round) (frames n : ℕ)
    → frames ≡ n
    → n < target
    → (r.cancelled_before ≡ true) ⊎ ((r.done ≡ true) ⊎ (r.cancelled_after ≡ true))
    → ((prime_loop target encoded frames written (r ∷ rounds)).outcome ≡ cancelled)
      × ((prime_loop target encoded frames written (r ∷ rounds)).frames ≡ n)
unfolding prime_loop
cancelled_loop target encoded written rounds r frames n q b c = ground arith

prime_loop-good :
    (target : ℕ) (encoded : List Frame) (rounds rest : List Round) (frames : ℕ)
    (written : List (Option Frame))
    → All IsGood rounds
    → frames + length rounds ≤ target
    → (sent : List (Option Frame)) × (prime_loop target encoded frames written (rounds ++ rest)
        ≡ prime_loop target encoded (frames + length rounds) sent rest)
prime_loop-good target encoded [] rest frames written g b =
    (written, ap (λ n. prime_loop target encoded n written rest) (omega arith))
prime_loop-good target encoded (r ∷ rounds) rest frames written (g, gs) b =
    let sent = written ++ (get_elem? encoded (frames % length encoded) ∷ []) in
    let (sent', e) =
      prime_loop-good target encoded rounds rest (frames + 1) sent gs (omega arith) in
    (
      sent',
      prime_loop_good target encoded r (rounds ++ rest) frames written g (omega arith)
          ∙ e
          ∙ ap (λ n. prime_loop target encoded n sent' rest) (omega arith),
    )

-- Nothing but good rounds, as many as the target: the loop ends by its duration.
pub run_audio_prime_completes :
    (target : ℕ) (encoded : List Frame) (rounds rest : List Round)
    → 0 < length encoded
    → All IsGood rounds
    → length rounds ≡ target
    → ((run_audio_prime target encoded (rounds ++ rest)).outcome ≡ duration)
      × ((run_audio_prime target encoded (rounds ++ rest)).frames ≡ target)
unfolding run_audio_prime
run_audio_prime_completes target [] rounds rest n g e = absurd (omega arith)
run_audio_prime_completes target (f ∷ encoded) rounds rest n g e =
    let (sent, p) = prime_loop-good target (f ∷ encoded) rounds rest 0 [] g (omega arith) in
    rw p (full_loop target (f ∷ encoded) sent rest (0 + length rounds) (omega arith))

-- A cancellation behind fewer good rounds than the target ends the loop at that count.
pub run_audio_prime_cancelled :
    (target : ℕ) (encoded : List Frame) (rounds rest : List Round) (r : Round)
    → 0 < length encoded
    → All IsGood rounds
    → length rounds < target
    → (r.cancelled_before ≡ true) ⊎ ((r.done ≡ true) ⊎ (r.cancelled_after ≡ true))
    → ((run_audio_prime target encoded (rounds ++ r ∷ rest)).outcome ≡ cancelled)
      × ((run_audio_prime target encoded (rounds ++ r ∷ rest)).frames ≡ length rounds)
unfolding run_audio_prime
run_audio_prime_cancelled target [] rounds rest r n g e c = absurd (omega arith)
run_audio_prime_cancelled target (f ∷ encoded) rounds rest r n g e c =
    let (sent, p) = prime_loop-good target (f ∷ encoded) rounds (r ∷ rest) 0 [] g (omega arith) in
    rw p (
      cancelled_loop target (f ∷ encoded) sent rest r (0 + length rounds) (length rounds)
        (omega arith) e c)
