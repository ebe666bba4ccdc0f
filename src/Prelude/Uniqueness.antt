-- ===== src/Prelude/Uniqueness.antt =====
-- Distinct lists after an element is added, dropped or changed.
use mathlib.Core.Path.{◌≡◌, refl, ◌∙◌}
use mathlib.Core.Logic.{inl, inr}
use mathlib.Core.List.{List, [], ◌∷◌, ◌++◌}
use mathlib.Core.Bool.{Bool, true, false}
use native.Mathlib.Omega.{arith}
use vaultine.Prelude.Tests.{Bool-cases}
use vaultine.Prelude.Lists.{keep, exists, amend, All, All-append, All-keep}
use vaultine.Prelude.Search.{Distinct}

module _ {A : Type 0} where
  pub Distinct-append :
      (same : A → A → Bool) (xs : List A) (a : A)
      → Distinct same xs
      → All (λ x. same x a ≡ false) xs
      → Distinct same (xs ++ (a ∷ []))
  Distinct-append same [] a d h = (tt, tt)
  Distinct-append same (x ∷ xs) a d h = (
    All-append (λ y. same x y ≡ false) xs (a ∷ []) d.0 (h.0, tt),
    Distinct-append same xs a d.1 h.1,
  )

  pub Distinct-keep :
      (same : A → A → Bool) (p : A → Bool) (xs : List A)
      → Distinct same xs
      → Distinct same (keep p xs)
  Distinct-keep same p [] d = tt
  Distinct-keep same p (x ∷ xs) d = elim (Bool-cases (p x)) [
    | inl q ↦ rw q (All-keep (λ y. same x y ≡ false) p xs d.0, Distinct-keep same p xs d.1)
    | inr q ↦ rw q (Distinct-keep same p xs d.1)
  ]

  pub All-amend :
      (P : A → Type 0) (q : A → Bool) (f : A → A) (xs : List A)
      → ((x : A) → P x → P (f x))
      → All P xs
      → All P (amend q f xs)
  All-amend P q f [] k h = tt
  All-amend P q f (x ∷ xs) k h = elim (Bool-cases (q x)) [
    | inl r ↦ rw r (k x h.0, All-amend P q f xs k h.1)
    | inr r ↦ rw r (h.0, All-amend P q f xs k h.1)
  ]

  pub Distinct-amend :
      (same : A → A → Bool) (q : A → Bool) (f : A → A) (xs : List A)
      → ((x y : A) → same (f x) y ≡ same x y)
      → ((x y : A) → same x (f y) ≡ same x y)
      → Distinct same xs
      → Distinct same (amend q f xs)
  Distinct-amend same q f [] k l d = tt
  Distinct-amend same q f (x ∷ xs) k l d = elim (Bool-cases (q x)) [
    | inl r ↦ rw r (
      All-amend (λ y. same (f x) y ≡ false) q f xs (λ y h. l (f x) y ∙ h) (moved xs d.0),
      Distinct-amend same q f xs k l d.1,
    )
    | inr r ↦ rw r (
      All-amend (λ y. same x y ≡ false) q f xs (λ y h. l x y ∙ h) d.0,
      Distinct-amend same q f xs k l d.1,
    )
  ]
    where
      moved : (ys : List A) → All (λ y. same x y ≡ false) ys → All (λ y. same (f x) y ≡ false) ys
      moved [] h = tt
      moved (y ∷ ys) h = (k x y ∙ h.0, moved ys h.1)

  pub exists-All : (p : A → Bool) (xs : List A) → exists p xs ≡ false → All (λ x. p x ≡ false) xs
  exists-All p [] h = tt
  exists-All p (x ∷ xs) h = (ground arith, exists-All p xs (ground arith))

  pub exists-keep :
      (p q : A → Bool) (xs : List A)
      → ((x : A) → p x ≡ true → q x ≡ true)
      → exists p xs ≡ true
      → exists p (keep q xs) ≡ true
  exists-keep p q [] k h = h
  exists-keep p q (x ∷ xs) k h = ground (arith, k x, exists-keep p q xs k)

  pub exists-amend :
      (p q : A → Bool) (f : A → A) (xs : List A)
      → ((x : A) → p (f x) ≡ p x)
      → exists p (amend q f xs) ≡ exists p xs
  exists-amend p q f [] k = refl
  exists-amend p q f (x ∷ xs) k = ground (arith, k x, exists-amend p q f xs k)

  pub exists-append :
      (p : A → Bool) (xs ys : List A) → exists p xs ≡ true → exists p (xs ++ ys) ≡ true
  exists-append p [] ys h = cc
  exists-append p (x ∷ xs) ys h = ground (arith, exists-append p xs ys)
