-- ===== src/Ssm/Handle/Paths.antt =====
-- src/ssm.cc: the paths of the database and of the file that a backup is restored into.
use vaultine.Prelude.{
  Bytes, codes, eqb, Bool, not, ◌&&◌, ◌==◌, [], ◌∷◌, ◌++◌, exists, length, leb, ◌+◌, if◌then◌else◌,
}
use vaultine.Crypto.{is_empty}

-- A path that is not empty and not ":memory:".
unfoldable pub is_file : Bytes → Bool
is_file db_path = not (is_empty db_path) && not (eqb db_path (codes ":memory:"))

-- strrchr(path, '/') + 1 splits a path into its directory with the slash, and its base name.
unfoldable pub split_path : Bytes → Bytes × Bytes
split_path [] = ([], [])
split_path (c ∷ cs) =
    let parts = split_path cs in
    if exists (λ d. d == 47) (c ∷ cs) then (c ∷ parts.0, parts.1) else ([], c ∷ cs)

-- What the template for mkstemp has before its six X.
abbrev pub template_stem : Bytes → Bytes
template_stem db_path =
    let parts = split_path db_path in parts.0 ++ (codes "." ++ (parts.1 ++ codes "."))

-- The template in a buffer of 512 bytes. One that was cut off is an error of mkstemp. That the
-- directory fits into the buffer, which the source does not test, is taken for granted.
unfoldable pub template_fits : Bytes → Bool
template_fits db_path = leb (length (template_stem db_path) + 6) 511

-- mkstemp puts characters of its own for the six X. This is the path where the template fits into its
-- buffer, which ssm_backup_restore tests by `template_fits` before.
unfoldable pub temporary_path : Bytes → Bytes → Bytes
temporary_path db_path suffix = template_stem db_path ++ suffix
