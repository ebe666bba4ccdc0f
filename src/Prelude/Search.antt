-- ===== src/Prelude/Search.antt =====
-- Looking up, changing and dropping the elements of a list that pass a Boolean test.
use mathlib.Core.Path.{◌≡◌, refl, sym, ap, subst, ◌∙◌}
use mathlib.Core.Logic.{◌⊎◌, inl, inr}
use mathlib.Core.List.{List, [], ◌∷◌, ◌++◌}
use mathlib.Core.Bool.{Bool, true, false, not, false≢true}
use mathlib.Core.Option.{none, some}
use native.Mathlib.Omega.{arith}
use vaultine.Prelude.Tests.{if◌then◌else◌, Bool-cases}
use vaultine.Prelude.Lists.{keep, first, exists, amend, All}

module _ {A : Type 0} where
  -- The element is somewhere in the list.
  abbrev pub Occurs : A → List A → Type 0
  Occurs a [] = ⊥
  Occurs a (x ∷ xs) = (a ≡ x) ⊎ Occurs a xs

  -- No two elements at different places are the same by the test.
  abbrev pub Distinct : (A → A → Bool) → List A → Type 0
  Distinct same [] = Unit
  Distinct same (x ∷ xs) = All (λ y. same x y ≡ false) xs × Distinct same xs

  pub All-Occurs : (P : A → Type 0) (xs : List A) (a : A) → All P xs → Occurs a xs → P a
  All-Occurs P [] a h o = absurd o
  All-Occurs P (x ∷ xs) a h (inl p) = subst P (sym p) h.0
  All-Occurs P (x ∷ xs) a h (inr o) = All-Occurs P xs a h.1 o

  pub All-intro : (P : A → Type 0) (xs : List A) → ((a : A) → Occurs a xs → P a) → All P xs
  All-intro P [] f = tt
  All-intro P (x ∷ xs) f = (f x (inl refl), All-intro P xs (λ a o. f a (inr o)))

  pub Occurs-append_left : (xs ys : List A) (a : A) → Occurs a xs → Occurs a (xs ++ ys)
  Occurs-append_left [] ys a o = absurd o
  Occurs-append_left (x ∷ xs) ys a (inl p) = inl p
  Occurs-append_left (x ∷ xs) ys a (inr o) = inr (Occurs-append_left xs ys a o)

  -- The found element passes the test and stands in the list.
  pub first-passes : (p : A → Bool) (xs : List A) {a : A} → first p xs ≡ some a → p a ≡ true
  first-passes p [] h = cc
  first-passes p (x ∷ xs) {a} h = ground (arith, first-passes p xs {a = a})

  pub first-Occurs : (p : A → Bool) (xs : List A) {a : A} → first p xs ≡ some a → Occurs a xs
  first-Occurs p [] h = cc
  first-Occurs p (x ∷ xs) {a} h = elim (Bool-cases (p x)) [
    | inl q ↦ inl (ground arith)
    | inr q ↦ inr (first-Occurs p xs (ground arith))
  ]

  pub first-append :
      (p : A → Bool) (xs : List A) (a : A)
      → first p (xs ++ (a ∷ []))
        ≡ (elim (first p xs) [ some b ↦ some b | none ↦ if p a then some a else none ])
  first-append p [] a = refl
  first-append p (x ∷ xs) a = ground (arith, first-append p xs a)

  pub first-append-other :
      (p : A → Bool) (xs : List A) (a : A) → p a ≡ false → first p (xs ++ (a ∷ [])) ≡ first p xs
  first-append-other p [] a h = ground arith
  first-append-other p (x ∷ xs) a h = ground (arith, first-append-other p xs a h)

  pub exists-first : (p : A → Bool) (xs : List A) → exists p xs ≡ false → first p xs ≡ none
  exists-first p [] h = refl
  exists-first p (x ∷ xs) h = ground (arith, exists-first p xs)

  -- A change that the lookup does not see changes what it finds, and nothing else.
  pub first-amend-some :
      (p q : A → Bool) (f : A → A) (xs : List A) {a : A}
      → ((x : A) → p (f x) ≡ p x)
      → first p xs ≡ some a
      → first p (amend q f xs) ≡ some (if q a then f a else a)
  first-amend-some p q f [] k h = cc
  first-amend-some p q f (x ∷ xs) {a} k h = ground (arith, k x, first-amend-some p q f xs {a = a} k)

  pub amend-Occurs :
      (q : A → Bool) (f : A → A) (xs : List A) (a : A)
      → Occurs a (amend q f xs)
      → (b : A) × Occurs b xs × (a ≡ (if q b then f b else b))
  amend-Occurs q f [] a o = absurd o
  amend-Occurs q f (x ∷ xs) a (inl p) = (x, inl refl, p)
  amend-Occurs q f (x ∷ xs) a (inr o) = let (b, k, p) = amend-Occurs q f xs a o in (b, inr k, p)

  pub first-amend-none :
      (p q : A → Bool) (f : A → A) (xs : List A)
      → ((x : A) → p (f x) ≡ p x)
      → first p xs ≡ none
      → first p (amend q f xs) ≡ none
  first-amend-none p q f [] k h = refl
  first-amend-none p q f (x ∷ xs) k h = ground (arith, k x, first-amend-none p q f xs k)

  pub first-keep :
      (p q : A → Bool) (xs : List A)
      → ((x : A) → p x ≡ true → q x ≡ true)
      → first p (keep q xs) ≡ first p xs
  first-keep p q [] k = refl
  first-keep p q (x ∷ xs) k = ground (arith, k x, first-keep p q xs k)

  pub first-keep-some :
      (p q : A → Bool) (xs : List A) {a : A}
      → first p xs ≡ some a
      → q a ≡ true
      → first p (keep q xs) ≡ some a
  first-keep-some p q [] h k = cc
  first-keep-some p q (x ∷ xs) {a} h k = elim (Bool-cases (p x)) [
    | inl r ↦ ground (arith, h, r, k)
    | inr r ↦ ground (arith, first-keep-some p q xs {a = a} (ground arith) k)
  ]

  pub first-keep-none :
      (p q : A → Bool) (xs : List A) → first p xs ≡ none → first p (keep q xs) ≡ none
  first-keep-none p q [] h = refl
  first-keep-none p q (x ∷ xs) h = ground (arith, first-keep-none p q xs)

  pub first-dropped : (p : A → Bool) (xs : List A) → first p (keep (λ x. not (p x)) xs) ≡ none
  first-dropped p [] = refl
  first-dropped p (x ∷ xs) = ground (arith, first-dropped p xs)

  pub Occurs-keep :
      (p : A → Bool) (xs : List A) (a : A) → p a ≡ true → Occurs a xs → Occurs a (keep p xs)
  Occurs-keep p [] a h o = absurd o
  Occurs-keep p (x ∷ xs) a h (inl q) = rw (sym (ap p q) ∙ h) (inl q)
  Occurs-keep p (x ∷ xs) a h (inr o) = elim (Bool-cases (p x)) [
    | inl q ↦ rw q (inr (Occurs-keep p xs a h o))
    | inr q ↦ rw q (Occurs-keep p xs a h o)
  ]

  pub keep-Occurs :
      (p : A → Bool) (xs : List A) (a : A) → Occurs a (keep p xs) → (p a ≡ true) × Occurs a xs
  keep-Occurs p [] a o = absurd o
  keep-Occurs p (x ∷ xs) a o = elim (Bool-cases (p x)) [
    | inl q ↦ elim (rw q at o) [
      | inl r ↦ (ap p r ∙ q, inl r)
      | inr r ↦ let (h, k) = keep-Occurs p xs a r in (h, inr k)
    ]
    | inr q ↦ let (h, k) = keep-Occurs p xs a (rw q at o) in (h, inr k)
  ]

  -- Equal by the test means equal, where the elements are distinct by it.
  pub Distinct-eq :
      (same : A → A → Bool) (xs : List A) (a b : A)
      → ((x y : A) → same x y ≡ same y x)
      → Distinct same xs
      → Occurs a xs
      → Occurs b xs
      → same a b ≡ true
      → a ≡ b
  Distinct-eq same [] a b s d o q h = absurd o
  Distinct-eq same (x ∷ xs) a b s d (inl p) (inl q) h = p ∙ sym q
  Distinct-eq same (x ∷ xs) a b s d (inl p) (inr q) h = absurd (
      false≢true
        (sym (All-Occurs (λ y. same x y ≡ false) xs b d.0 q) ∙ ap (λ t. same t b) (sym p) ∙ h))
  Distinct-eq same (x ∷ xs) a b s d (inr p) (inl q) h = absurd (
      false≢true
        (sym (All-Occurs (λ y. same x y ≡ false) xs a d.0 p) ∙ s x a ∙ ap (same a) (sym q) ∙ h))
  Distinct-eq same (x ∷ xs) a b s d (inr p) (inr q) h = Distinct-eq same xs a b s d.1 p q h
