-- ===== src/Export/Escape/Readers.antt =====
-- Readers of a JSON string and of a CSV field, written from their grammars, and what they read of an
-- escaped text.
use mathlib.Core.List.{append_assoc}
use vaultine.Prelude.{
  ℕ, ◌≤◌, ltb, All, ◌⊎◌, Bytes, ◌≡◌, refl, ◌∙◌, ap, inl, inr, Bool, true, false, ◌||◌, ◌==◌,
  Bool-cases, Option, none, some, [], ◌∷◌, ◌++◌, exists, arith, if◌then◌else◌,
}
use vaultine.Export.Escape.{json_char, json_escape, csv_escape, double_quotes, needs_quoting}

abbrev push_json : ℕ → Option (Bytes × Bytes) → Option (Bytes × Bytes)
push_json c none = none
push_json c (some (s, rest)) = some (c ∷ s, rest)

-- The character that a backslash and this letter stand for: `"`, `\`, `/`, b, f, n, r or t. The escape
-- with u and four digits is not read.
abbrev unescaped : ℕ → Option ℕ
unescaped c =
    if c == 34 || (c == 92 || c == 47)
    then some c
    else if c == 98
    then some 8
    else if c == 102
    then some 12
    else if c == 110
    then some 10
    else if c == 114
    then some 13
    else if c == 116
    then some 9
    else none

abbrev push_escaped : Option ℕ → Option (Bytes × Bytes) → Option (Bytes × Bytes)
push_escaped none o = none
push_escaped (some c) o = push_json c o

-- The string up to its closing quote, and the text after it; the flag says that a backslash was read.
-- A control character, which is below 32, is not allowed inside a string.
unfoldable pub read_json : Bool → Bytes → Option (Bytes × Bytes)
read_json escaped [] = none
read_json true (c ∷ cs) = push_escaped (unescaped c) (read_json false cs)
read_json false (c ∷ cs) = elim (c == 34) [
  | true ↦ some ([], cs)
  | false ↦ elim (c == 92) [
    | true ↦ read_json true cs
    | false ↦ elim (ltb c 32) [ true ↦ none | false ↦ push_json c (read_json false cs) ]
  ]
]

-- A control character only if it is a tab, a newline or a return.
abbrev pub IsWritable : ℕ → Type 0
IsWritable c = (32 ≤ c) ⊎ ((c ≡ 9) ⊎ ((c ≡ 10) ⊎ (c ≡ 13)))

-- Of a text whose control characters are tabs, newlines and returns, a reader that follows the
-- grammar of JSON strings reads the escaped text up to the closing quote as that text, and the rest
-- is what follows the quote.
pub read_json-json_escape :
    (s rest : Bytes)
    → All IsWritable s
    → read_json false (json_escape s ++ (34 ∷ rest)) ≡ some (s, rest)
unfolding read_json json_escape
read_json-json_escape [] rest h = refl
read_json-json_escape (c ∷ cs) rest h =
    ap (read_json false) (append_assoc (json_char c) (json_escape cs) (34 ∷ rest)) ∙ elim h.0 [
      | inl p ↦ ground (arith, p, read_json-json_escape cs rest h.1)
      | inr (inl p) ↦ rw p (ground (arith, read_json-json_escape cs rest h.1))
      | inr (inr (inl p)) ↦ rw p (ground (arith, read_json-json_escape cs rest h.1))
      | inr (inr (inr p)) ↦ rw p (ground (arith, read_json-json_escape cs rest h.1))
    ]

abbrev push_csv : ℕ → Bytes × Bytes → Bytes × Bytes
push_csv c (s, rest) = (c ∷ s, rest)

-- A field without quotes ends before a comma or a newline.
unfoldable pub read_plain : Bytes → Bytes × Bytes
read_plain [] = ([], [])
read_plain (c ∷ cs) = elim (c == 44 || c == 10) [
  | true ↦ ([], c ∷ cs)
  | false ↦ push_csv c (read_plain cs)
]

-- A quoted field; the flag says that a quote was read, which a second one makes part of the text.
unfoldable pub read_quoted : Bool → Bytes → Bytes × Bytes
read_quoted quote [] = ([], [])
read_quoted true (c ∷ cs) = elim (c == 34) [
  | true ↦ push_csv 34 (read_quoted false cs)
  | false ↦ ([], c ∷ cs)
]
read_quoted false (c ∷ cs) = elim (c == 34) [
  | true ↦ read_quoted true cs
  | false ↦ push_csv c (read_quoted false cs)
]

unfoldable pub read_csv : Bytes → Bytes × Bytes
unfolding read_plain read_quoted
read_csv [] = ([], [])
read_csv (c ∷ cs) = elim (c == 34) [ true ↦ read_quoted false cs | false ↦ read_plain (c ∷ cs) ]

abbrev special : Bytes → Bool
special s = exists (λ c. c == 44 || (c == 34 || (c == 10 || c == 13))) s

read_plain-append :
    (s : Bytes) (d : ℕ) (rest : Bytes)
    → (d == 44 || d == 10) ≡ true
    → special s ≡ false
    → read_plain (s ++ (d ∷ rest)) ≡ (s, d ∷ rest)
unfolding read_plain
read_plain-append [] d rest e h = ground arith
read_plain-append (c ∷ cs) d rest e h = ground (arith, read_plain-append cs d rest e)

read_quoted-double_quotes :
    (s : Bytes) (d : ℕ) (rest : Bytes)
    → (d == 34) ≡ false
    → read_quoted false (double_quotes s ++ (34 ∷ d ∷ rest)) ≡ (s, d ∷ rest)
unfolding read_quoted double_quotes
read_quoted-double_quotes [] d rest e = ground arith
read_quoted-double_quotes (c ∷ cs) d rest e = ground (arith, read_quoted-double_quotes cs d rest e)

pub read_csv-csv_escape :
    (s : Bytes) (d : ℕ) (rest : Bytes)
    → (d == 44 || d == 10) ≡ true
    → read_csv (csv_escape s ++ (d ∷ rest)) ≡ (s, d ∷ rest)
unfolding read_csv csv_escape
read_csv-csv_escape s d rest e = elim (Bool-cases (needs_quoting s)) [
  | inl q ↦ rw q (
      ap (read_quoted false) (append_assoc (double_quotes s) (34 ∷ []) (d ∷ rest))
      ∙ read_quoted-double_quotes s d rest (ground arith))
  | inr q ↦ rw q (plain s q)
]
  where
    plain : (s : Bytes) → needs_quoting s ≡ false → read_csv (s ++ (d ∷ rest)) ≡ (s, d ∷ rest)
    plain [] q = cc
    plain (c ∷ cs) q = ground (arith, read_plain-append (c ∷ cs) d rest e)
