-- ===== src/Probe/NewId.antt =====
-- The session ids that the probe makes.
use homebrain.Prelude.{
  ℕ, ◌*◌, ◌/◌, ◌%◌, ◌<◌, true, List, [], ◌∷◌, ◌++◌, ◌≡◌, refl, arith, All, length,
}
use homebrain.Text.{codes}
use homebrain.HttpApi.{is_session_id, all_id_bytes, is_id_byte}
use homebrain.Probe.Main.{hex_digit, hex}

abbrev pub IsByte : ℕ → Type 0
IsByte b = b < 256

hex_digit-is_id_byte : (n : ℕ) → n < 16 → is_id_byte (hex_digit n) ≡ true
hex_digit-is_id_byte n h = ground arith

hex-all_id_bytes : (bytes : List ℕ) → All IsByte bytes → all_id_bytes (hex bytes) ≡ true
unfolding hex
hex-all_id_bytes [] h = refl
hex-all_id_bytes (b ∷ bytes) (byte, h) =
    rw (hex_digit-is_id_byte (b / 16) (omega arith))
      (rw (hex_digit-is_id_byte (b % 16) (omega arith)) (hex-all_id_bytes bytes h))

length-hex : (bytes : List ℕ) → length (hex bytes) ≡ 2 * length bytes
unfolding hex
length-hex [] = refl
length-hex (b ∷ bytes) = omega (arith, length-hex bytes)

pub probe_id-is_session_id :
    (random : List ℕ)
    → All IsByte random
    → length random ≡ 8
    → is_session_id (codes "rtc-probe-" ++ hex random) ≡ true
unfolding is_session_id
probe_id-is_session_id random bytes eight =
    rw (hex-all_id_bytes random bytes) (ground (arith, length-hex random))
