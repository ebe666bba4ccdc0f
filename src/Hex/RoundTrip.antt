-- ===== src/Hex/RoundTrip.antt =====
-- Decoding what was encoded, and what a decoded text looks like.
use vaultine.Prelude.{
  ℕ, ◌*◌, ◌/◌, ◌%◌, ◌<◌, ◌≤◌, Bytes, ◌≡◌, refl, ap, ◌≢◌, some, [], ◌∷◌, All, length, arith,
}
use vaultine.Hex.{hex_val, decode_loop, hex_decode, hex_digit, hex_encode}

hex_val-hex_digit : (n : ℕ) → n < 16 → hex_val (hex_digit n) ≡ some n
unfolding hex_val
hex_val-hex_digit n h = ground arith

length-hex_encode : (bs : Bytes) → length (hex_encode bs) ≡ 2 * length bs
unfolding hex_encode
length-hex_encode [] = refl
length-hex_encode (b ∷ bs) = omega (arith, length-hex_encode bs)

decode_loop-hex_encode :
    (bs : Bytes) → All (λ b. b < 256) bs → decode_loop (hex_encode bs) ≡ some bs
unfolding decode_loop hex_encode
decode_loop-hex_encode [] h = refl
decode_loop-hex_encode (b ∷ bs) h =
    rw
      (
        hex_val-hex_digit (b / 16 % 16) (omega arith),
        hex_val-hex_digit (b % 16) (omega arith),
        decode_loop-hex_encode bs h.1,
      )
      (ap (λ c. some (c ∷ bs)) (omega (arith, h.0)))

-- Bytes below 256, at least one and no more than the buffer holds, are read back from their
-- hexadecimal text.
pub hex_decode-hex_encode :
    (bs : Bytes) (max_out : ℕ)
    → bs ≢ []
    → All (λ b. b < 256) bs
    → length bs ≤ max_out
    → hex_decode (hex_encode bs) max_out ≡ some bs
unfolding hex_decode
hex_decode-hex_encode [] max_out ne h fits = absurd (ne refl)
hex_decode-hex_encode (b ∷ bs) max_out ne h fits =
    ground (arith, length-hex_encode (b ∷ bs), decode_loop-hex_encode (b ∷ bs) h, fits)
