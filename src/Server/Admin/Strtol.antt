-- ===== src/Server/Admin/Strtol.antt =====
-- strtol(s, &end, 10) of the C library, for src/cli/ssm_server.cc.
use vaultine.Prelude.{
  ℕ, zero, suc, ◌+◌, ◌*◌, ◌-◌, Bytes, Bool, ◌&&◌, ◌||◌, ◌==◌, leb, ltb, Option, none, some, [], ◌∷◌,
  if◌then◌else◌,
}
use vaultine.Ssm.Audit.{ℤ, pos, negsuc}

-- isspace of the C locale
abbrev pub is_space : ℕ → Bool
is_space c = c == 32 || (leb 9 c && leb c 13)

unfoldable pub skip_spaces : Bytes → Bytes
skip_spaces [] = []
skip_spaces (c ∷ cs) = let rest = skip_spaces cs in if is_space c then rest else c ∷ cs

-- The digits in front, as a number that goes on from `n`; `some` once there was one.
unfoldable pub read_digits : Option ℕ → Bytes → Option ℕ
read_digits n [] = n
read_digits n (c ∷ cs) =
    let more = read_digits (some (10 * (elim n [ none ↦ 0 | some m ↦ m ]) + (c - 48))) cs in
    if leb 48 c && leb c 57 then more else n

abbrev pub long_max : ℕ
long_max = 9223372036854775807

-- ERANGE gives LONG_MAX.
abbrev pub positive : Option ℕ → Option ℤ
positive none = none
positive (some n) = some (pos (if ltb long_max n then long_max else n))

-- ERANGE gives LONG_MIN.
abbrev pub minus : ℕ → ℤ
minus zero = pos 0
minus (suc n) = negsuc (if ltb long_max n then long_max else n)

abbrev pub negative : Option ℕ → Option ℤ
negative none = none
negative (some n) = some (minus n)

abbrev pub signed : Bytes → Option ℤ
signed [] = none
signed (c ∷ cs) =
    if c == 45
    then negative (read_digits none cs)
    else if c == 43
    then positive (read_digits none cs)
    else positive (read_digits none (c ∷ cs))

-- none where no digit was read, so that `end == s`.
unfoldable pub strtol : Bytes → Option ℤ
strtol s = signed (skip_spaces s)
