-- ===== src/Hex/Written.antt =====
-- What the two decoders of cli/hex_utils.h write, and where they differ.
use mathlib.Core.Path.{subst}
use mathlib.Core.Option.{some-injective, none-ne-some}
use vaultine.Prelude.{
  ℕ, ◌*◌, ◌/◌, ◌%◌, ◌<◌, ◌≤◌, Bytes, ◌≡◌, refl, ◌↔◌, Bool, true, false, not, ◌||◌, ◌==◌, ==_iff,
  ltb, lt→ltb, ltb→lt, Option, none, some, [], ◌∷◌, All, length, if◌then◌else◌, arith,
}
use vaultine.Hex.{hex_val, hex_byte, cons_byte, decode_loop, hex_decode, hex_decode_vector}

hex_val_lem : (c : ℕ) {n : ℕ} → hex_val c ≡ some n → n < 16
unfolding hex_val
hex_val_lem c p = ground arith

-- Two characters for each byte.
abbrev pub Pairs : Bytes → Bytes → Type 0
Pairs hex out = (length hex ≡ 2 * length out) × All (λ b. b < 256) out

decode_loop-Pairs : (hex : Bytes) {out : Bytes} → decode_loop hex ≡ some out → Pairs hex out
unfolding decode_loop
decode_loop-Pairs [] p = subst (Pairs []) (some-injective _ _ p) (refl, tt)
decode_loop-Pairs (a ∷ []) p = absurd (none-ne-some _ p)
decode_loop-Pairs (a ∷ b ∷ rest) {out} p =
    two (hex_val a) (hex_val b) (decode_loop rest) (λ n. hex_val_lem a) (λ n. hex_val_lem b)
      (λ bs. decode_loop-Pairs rest) p
  where
    two :
        (x y : Option ℕ) (o : Option Bytes)
        → ((n : ℕ) → x ≡ some n → n < 16)
        → ((n : ℕ) → y ≡ some n → n < 16)
        → ((bs : Bytes) → o ≡ some bs → Pairs rest bs)
        → cons_byte (hex_byte x y) o ≡ some out
        → Pairs (a ∷ b ∷ rest) out
    two none y o f g h q = absurd (none-ne-some _ q)
    two (some hi) none o f g h q = absurd (none-ne-some _ q)
    two (some hi) (some lo) none f g h q = absurd (none-ne-some _ q)
    two (some hi) (some lo) (some bs) f g h q =
        subst (Pairs (a ∷ b ∷ rest)) (some-injective _ _ q)
          (omega (arith, (h bs refl).0), (omega (arith, f hi refl, g lo refl), (h bs refl).1))

-- Whatever the text is: the decoder into a buffer writes what the decoder into a vector does, if
-- the buffer is large enough for it, and otherwise it fails.
pub hex_decode-hex_decode_vector :
    (hex : Bytes) (max_out : ℕ) (out : Bytes)
    → (hex_decode hex max_out ≡ some out)
      ↔ ((hex_decode_vector hex ≡ some out) × (length out ≤ max_out))
unfolding hex_decode hex_decode_vector
hex_decode-hex_decode_vector hex max_out out =
    sides (not (length hex % 2 == 0) || length hex == 0) (ltb max_out (length hex / 2)) refl
  where
    too_long : max_out < length hex / 2 → length out ≤ max_out → decode_loop hex ≡ some out → ⊥
    too_long h k p = omega (arith, h, k, (decode_loop-Pairs hex p).0)

    fits : ltb max_out (length hex / 2) ≡ false → decode_loop hex ≡ some out → length out ≤ max_out
    fits h p = ground (arith, h, lt→ltb max_out (length hex / 2), (decode_loop-Pairs hex p).0)

    sides :
        (t u : Bool)
        → ltb max_out (length hex / 2) ≡ u
        → ((if t then none else if u then none else decode_loop hex) ≡ some out)
          ↔ (((if t then none else decode_loop hex) ≡ some out) × (length out ≤ max_out))
    sides true u h = (λ p. absurd (none-ne-some _ p), λ q. absurd (none-ne-some _ q.0))
    sides false true h = (
      λ p. absurd (none-ne-some _ p),
      λ q. absurd (too_long (ltb→lt max_out (length hex / 2) h) q.1 q.0),
    )
    sides false false h = (λ p. (p, fits h p), λ q. q.0)

-- Whatever the text is: the decoder into a buffer writes at least one byte and no more than the
-- buffer holds, each of them below 256, for two characters each.
pub hex_decode-Pairs :
    (hex : Bytes) (max_out : ℕ) {out : Bytes}
    → hex_decode hex max_out ≡ some out
    → (0 < length out) × (length out ≤ max_out) × Pairs hex out
unfolding hex_decode_vector
hex_decode-Pairs hex max_out {out} p =
    let q = (hex_decode-hex_decode_vector hex max_out out).0 p in
    both (not (length hex % 2 == 0)) (length hex == 0) refl q.0 q.1
  where
    both :
        (t u : Bool)
        → (length hex == 0) ≡ u
        → (if t || u then none else decode_loop hex) ≡ some out
        → length out ≤ max_out
        → (0 < length out) × (length out ≤ max_out) × Pairs hex out
    both true u h q l = absurd (none-ne-some _ q)
    both false true h q l = absurd (none-ne-some _ q)
    both false false h q l =
        let r = decode_loop-Pairs hex q in (ground (arith, (==_iff (length hex) 0).1, h, r.0), l, r)
