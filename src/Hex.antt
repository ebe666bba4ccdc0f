-- ===== src/Hex.antt =====
-- cli/hex_utils.h: hexadecimal text for keys given on the command line and over HTTP.
pub mod RoundTrip
pub mod Written
use vaultine.Prelude.{
  ℕ, ◌+◌, ◌*◌, ◌-◌, ◌/◌, ◌%◌, Bytes, Bool, not, ◌&&◌, ◌||◌, ◌==◌, ltb, leb, Option, none, some,
  List, [], ◌∷◌, length, if◌then◌else◌,
}
use vaultine.Crypto.{is_empty}

-- -1 is `none`.
unfoldable pub hex_val : ℕ → Option ℕ
hex_val c =
    if leb 48 c && leb c 57
    then some (c - 48)
    else if leb 97 c && leb c 102
    then some (c - 97 + 10)
    else if leb 65 c && leb c 70
    then some (c - 65 + 10)
    else none

-- (hi << 4) | lo of two digits, if both are.
abbrev pub hex_byte : Option ℕ → Option ℕ → Option ℕ
hex_byte (some hi) (some lo) = some (hi * 16 + lo)
hex_byte (some hi) none = none
hex_byte none lo = none

abbrev pub cons_byte : Option ℕ → Option Bytes → Option Bytes
cons_byte (some b) (some bs) = some (b ∷ bs)
cons_byte (some b) none = none
cons_byte none bs = none

-- The loop of both hex_decode functions, on a text of even length.
unfoldable pub decode_loop : Bytes → Option Bytes
decode_loop [] = some []
decode_loop (a ∷ []) = none
decode_loop (a ∷ b ∷ rest) = cons_byte (hex_byte (hex_val a) (hex_val b)) (decode_loop rest)

-- hex_decode into a buffer of `max_out` bytes; what it writes, if it returns true.
unfoldable pub hex_decode : Bytes → ℕ → Option Bytes
hex_decode hex max_out =
    if not (length hex % 2 == 0) || length hex == 0
    then none
    else if ltb max_out (length hex / 2)
    then none
    else decode_loop hex

-- hex_decode into a vector.
unfoldable pub hex_decode_vector : Bytes → Option Bytes
hex_decode_vector hex =
    if not (length hex % 2 == 0) || length hex == 0 then none else decode_loop hex

-- hex[n] of "0123456789abcdef".
abbrev pub hex_digit : ℕ → ℕ
hex_digit n = if ltb n 10 then 48 + n else 87 + n

unfoldable pub hex_encode : Bytes → Bytes
hex_encode [] = []
hex_encode (b ∷ bs) = hex_digit (b / 16 % 16) ∷ hex_digit (b % 16) ∷ hex_encode bs
