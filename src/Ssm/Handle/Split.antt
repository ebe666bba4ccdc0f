-- ===== src/Ssm/Handle/Split.antt =====
-- The path of the file that ssm_backup_restore of src/ssm.cc restores a backup into.
use mathlib.Core.List.{append_assoc}
use vaultine.Prelude.{
  ◌<◌, ◌≤◌, ◌+◌, length, length-append, leb→le, ℕ, ◌≡◌, refl, sym, ap, ◌∙◌, ◌⊎◌, inl, inr, Bytes,
  codes, Bool, true, false, Bool-cases, ◌==◌, [], ◌∷◌, ◌++◌, exists, arith,
}
use vaultine.Ssm.Handle.Paths.{split_path, template_stem, template_fits, temporary_path}

abbrev pub has_slash : Bytes → Bool
has_slash path = exists (λ d. d == 47) path

abbrev pub IsDirectory : Bytes → Type 0
IsDirectory d = (d ≡ []) ⊎ ((up : Bytes) × (d ≡ up ++ (47 ∷ [])))

split-join : (path : Bytes) → (split_path path).0 ++ (split_path path).1 ≡ path
unfolding split_path
split-join [] = refl
split-join (c ∷ cs) = elim (Bool-cases (has_slash (c ∷ cs))) [
  | inl p ↦ rw p (ap (λ t. c ∷ t) (split-join cs))
  | inr p ↦ rw p refl
]

base-has_slash : (path : Bytes) → has_slash (split_path path).1 ≡ false
unfolding split_path
base-has_slash [] = refl
base-has_slash (c ∷ cs) = elim (Bool-cases (has_slash (c ∷ cs))) [
  | inl p ↦ rw p (base-has_slash cs)
  | inr p ↦ rw p p
]

not_cons : (c : ℕ) (cs : Bytes) → c ∷ cs ≡ [] → ⊥
not_cons c cs p = cc

first_part :
    (c : ℕ) (cs : Bytes)
    → has_slash (c ∷ cs) ≡ true
    → (split_path (c ∷ cs)).0 ≡ c ∷ (split_path cs).0
unfolding split_path
first_part c cs q = rw q refl

last_slash : (c : ℕ) (cs : Bytes) → has_slash (c ∷ cs) ≡ true → has_slash cs ≡ false → c ≡ 47
last_slash c cs p q = ground (arith, p, q)

no_directory : (path : Bytes) → (split_path path).0 ≡ [] → has_slash path ≡ false
unfolding split_path
no_directory [] p = refl
no_directory (c ∷ cs) p = elim (Bool-cases (has_slash (c ∷ cs))) [
  | inl q ↦ absurd (not_cons c _ (sym (first_part c cs q) ∙ p))
  | inr q ↦ q
]

split-IsDirectory : (path : Bytes) → IsDirectory (split_path path).0
unfolding split_path
split-IsDirectory [] = inl refl
split-IsDirectory (c ∷ cs) = elim (Bool-cases (has_slash (c ∷ cs))) [
  | inl p ↦ rw p (elim (split-IsDirectory cs) [
    | inl none_after ↦
        rw none_after (inr ([], ap (λ d. d ∷ []) (last_slash c cs p (no_directory cs none_after))))
    | inr (up, q) ↦ inr (c ∷ up, ap (λ t. c ∷ t) q)
  ])
  | inr p ↦ rw p (inl refl)
]

-- If the template for mkstemp fits into its buffer, with six characters for the six X: the path of the
-- database is a directory, which is empty or ends with a slash, and a name without a slash; the path
-- of the temporary file is that directory, and the name between dots, and the six characters; and both
-- it and the directory fit into a buffer of 512 bytes with their terminators.
pub temporary_path-split :
    (db_path suffix : Bytes)
    → template_fits db_path ≡ true
    → length suffix ≡ 6
    → (directory : Bytes) × (base : Bytes) × (db_path ≡ directory ++ base)
      × (temporary_path db_path suffix
          ≡ directory ++ (codes "." ++ (base ++ (codes "." ++ suffix))))
      × (has_slash base ≡ false)
      × IsDirectory directory
      × (length (temporary_path db_path suffix) < 512)
      × (length directory < 512)
unfolding temporary_path template_fits
temporary_path-split db_path suffix fits six =
    let parts = split_path db_path in
    (
      parts.0,
      parts.1,
      sym (split-join db_path),
      append_assoc parts.0 (codes "." ++ (parts.1 ++ codes ".")) suffix
          ∙ ap (λ t. parts.0 ++ (codes "." ++ t)) (append_assoc parts.1 (codes ".") suffix),
      base-has_slash db_path,
      split-IsDirectory db_path,
      omega (arith, room, length-append (template_stem db_path) suffix, six),
      omega (arith, room, length-append parts.0 (codes "." ++ (parts.1 ++ codes "."))),
    )
  where
    room : length (template_stem db_path) + 6 ≤ 511
    room = leb→le _ 511 fits
