-- ===== src/Export/Escape.antt =====
-- json_escape and csv_escape of src/export/export.cc.
pub mod Readers
use vaultine.Prelude.{
  Bytes, Bool, true, ◌||◌, ◌==◌, Option, List, [], ◌∷◌, ◌++◌, exists, if◌then◌else◌, ℕ,
}
use vaultine.Crypto.{is_empty}

-- The text that stands for one character in a JSON string: `"` 34, `\` 92, newline 10, return 13 and
-- tab 9 are written with a backslash.
abbrev pub json_char : ℕ → Bytes
json_char c =
    if c == 34
    then 92 ∷ 34 ∷ []
    else if c == 92
    then 92 ∷ 92 ∷ []
    else if c == 10
    then 92 ∷ 110 ∷ []
    else if c == 13
    then 92 ∷ 114 ∷ []
    else if c == 9
    then 92 ∷ 116 ∷ []
    else c ∷ []

-- What is appended to the buffer.
unfoldable pub json_escape : Bytes → Bytes
json_escape [] = []
json_escape (c ∷ cs) = json_char c ++ json_escape cs

-- `,` is 44.
abbrev pub needs_quoting : Bytes → Bool
needs_quoting s = is_empty s || exists (λ c. c == 44 || (c == 34 || (c == 10 || c == 13))) s

unfoldable pub double_quotes : Bytes → Bytes
double_quotes [] = []
double_quotes (c ∷ cs) = let rest = double_quotes cs in if c == 34 then 34 ∷ 34 ∷ rest else c ∷ rest

unfoldable pub csv_escape : Bytes → Bytes
csv_escape s = if needs_quoting s then 34 ∷ (double_quotes s ++ (34 ∷ [])) else s
