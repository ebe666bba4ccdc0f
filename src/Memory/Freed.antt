-- ===== src/Memory/Freed.antt =====
-- What the owners of src/utils/secure_memory.h promise of the memory that they ask for.
use vaultine.Prelude.{
  ℕ, ◌*◌, ◌<◌, ◌≡◌, ◌⊎◌, inl, inr, refl, Option, none, some, All, length, arith, Bool-cases, ◌==◌,
  ==_iff,
}
use mathlib.Core.Path.{subst}
use mathlib.Core.Option.{some-injective, none-ne-some}
use vaultine.Memory.{Memory, nobody, Reaches, empty_memory}
use vaultine.Memory.Tidy.{Holds, Right, who, IsTidy}
use vaultine.Memory.Steps.{Reaches-IsTidy}

module _ {T : Type 0} (blank : T) (size_of : ℕ) (sized : 0 < size_of) where
  empty_memory-IsTidy : IsTidy blank size_of nobody (empty_memory blank size_of)
  empty_memory-IsTidy = record {
    filled = λ i. filled i;
    alone = λ i j p a b. absurd (unowned i p a);
    owned = λ p l f. absurd (omega (arith, l));
    wiped = λ p f. absurd (omega (arith, f));
    once = λ p. omega arith;
  }
    where
      filled :
          (i : Option ℕ)
          → Right blank size_of
              (empty_memory blank size_of)
              (who blank size_of nobody (empty_memory blank size_of) i).pointer
              (who blank size_of nobody (empty_memory blank size_of) i).size
      filled none = refl
      filled (some x) = refl

      unowned :
          (i : Option ℕ) (p : ℕ)
          → (who blank size_of nobody (empty_memory blank size_of) i).pointer ≡ some p
          → ⊥
      unowned none p a = none-ne-some p a
      unowned (some x) p a = none-ne-some p a

  module _ {m : Memory T} (r : Reaches blank size_of (empty_memory blank size_of) m) where
    pub tidy : IsTidy blank size_of nobody m
    tidy = Reaches-IsTidy blank size_of sized r empty_memory-IsTidy

    kept_by :
        (p : ℕ) (i : Option ℕ)
        → (who blank size_of nobody m i).pointer ≡ some p
        → (x : ℕ) × ((m.owners x).pointer ≡ some p)
          × ((y : ℕ) → (m.owners y).pointer ≡ some p → y ≡ x)
    kept_by p none a = absurd (none-ne-some p a)
    kept_by p (some x) a = (x, a, λ y b. some-injective y x (tidy.alone (some y) (some x) p b a))

    -- For objects of at least one byte: whatever a program does with the owners, from the start and
    -- without a write through a null pointer, memory that was handed out was either freed once, and
    -- it was erased, or it was not freed and exactly one owner has it.
    pub Reaches-freed :
        (p : ℕ)
        → p < m.next
        → (((m.blocks p).frees ≡ 1) × All (λ a. a ≡ blank) (m.blocks p).cells)
          ⊎ (((m.blocks p).frees ≡ 0)
              × ((x : ℕ) × ((m.owners x).pointer ≡ some p)
                  × ((y : ℕ) → (m.owners y).pointer ≡ some p → y ≡ x)))
    Reaches-freed p l = elim (Bool-cases ((m.blocks p).frees == 0)) [
      | inl none_yet ↦
          let unfreed = (==_iff (m.blocks p).frees 0).0 none_yet in
          let o = tidy.owned p l unfreed in inr (unfreed, kept_by p o.0 o.1)
      | inr some_time ↦
          let positive : 0 < (m.blocks p).frees =
            ground (arith, (==_iff (m.blocks p).frees 0).1, some_time) in
          inl (omega (arith, tidy.once p, positive), tidy.wiped p positive)
    ]

    -- For objects of at least one byte: whatever a program does with the owners, from the start and
    -- without a write through a null pointer, the memory that an owner points to was not freed, and
    -- it has as many objects, and as many bytes for them, as the owner's size says.
    pub Reaches-room :
        (x p : ℕ)
        → (m.owners x).pointer ≡ some p
        → ((m.blocks p).frees ≡ 0)
          × (length (m.blocks p).cells ≡ (m.owners x).size)
          × ((m.blocks p).bytes ≡ (m.owners x).size * size_of)
    Reaches-room x p a = (held.unfreed, held.count, held.room)
      where
        held : Holds blank size_of m p (m.owners x).size
        held = subst (λ o. Right blank size_of m o (m.owners x).size) a (tidy.filled (some x))
