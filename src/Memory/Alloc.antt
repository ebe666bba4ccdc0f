-- ===== src/Memory/Alloc.antt =====
-- An allocation of src/utils/secure_memory.h keeps the invariant of the owners, and its length in
-- bytes does not wrap around.
use mathlib.Core.Path.{subst, subst⁻¹}
use mathlib.Core.Option.{some-injective, none-ne-some}
use native.Mathlib.Omega.{div_any}
use native.Mathlib.Nat.{mul_comm}
use Prim.Native.Nat.mul
use mathlib.Core.Bool.{false≢true}
use vaultine.Prelude.{
  ℕ, zero, suc, ◌*◌, ◌/◌, ◌%◌, ◌^◌, ◌≤◌, ◌<◌, ◌≡◌, refl, sym, ap, ◌∙◌, inl, inr, Bool, true, false,
  ◌||◌, ltb, Bool-cases, ◌==◌, ==_iff, Option, none, some, All, length, length-replicate, replicate,
  if◌then◌else◌, arith, lt→ltb,
}
use vaultine.Memory.{Block, Owner, Memory, nobody, put, alloc_cells, owner_after, size_max}
use vaultine.Memory.Tidy.{equal_or, Holds, Right, who, IsTidy}
use vaultine.Memory.Blocks.{put-same, put-other}

pub mul_mono : (a b s : ℕ) → a ≤ b → a * s ≤ b * s
mul_mono zero b s h = omega arith
mul_mono (suc a) zero s h = absurd (omega (arith, h))
mul_mono (suc a) (suc b) s h =
    omega (arith, mul_mono a b s (omega (arith, h)), mul.suc a s, mul.suc b s)

pub not_less : (a b : ℕ) → ltb a b ≡ false → b ≤ a
not_less a b h = ground (arith, lt→ltb a b)

pub fits_lem : (count s : ℕ) → ltb (size_max / s) count ≡ false → count * s ≤ size_max
fits_lem count s h = omega (
  arith,
  mul_mono count (size_max / s) s (not_less (size_max / s) count h),
  div_any size_max s,
  mul_comm (size_max / s) s,
)

pub unwrapped : (n : ℕ) → n ≤ size_max → n % 2 ^ 64 ≡ n
unwrapped n h = omega (arith, h)

module _ {T : Type 0} (blank : T) (size_of : ℕ) {m : Memory T}
    (h : IsTidy blank size_of nobody m) where
  abbrev pub Tidied : ℕ → Option ℕ × Memory T → Type 0
  Tidied count r = IsTidy blank size_of (owner_after blank size_of count r.0) r.1

  module _ (count : ℕ) (used : 0 < count) where
    abbrev fresh : Block T
    fresh = record { bytes = count * size_of; cells = replicate count blank; frees = 0 }

    abbrev after : Memory T
    after = record m { blocks = put m.next fresh m.blocks; next = suc m.next }

    abbrev temp : Owner
    temp = record { pointer = some m.next; size = count }

    older : (q : ℕ) → q < m.next → put m.next fresh m.blocks q ≡ m.blocks q
    older q l = put-other m.next q fresh m.blocks (ground (arith, (==_iff m.next q).0))

    newest : put m.next fresh m.blocks m.next ≡ fresh
    newest = put-same m.next fresh m.blocks

    below : (y p : ℕ) → (m.owners y).pointer ≡ some p → p < m.next
    below y p a =
        (subst (λ o. Right blank size_of m o (m.owners y).size) a (h.filled (some y))).below

    Right-after : (o : Option ℕ) (n : ℕ) → Right blank size_of m o n → Right blank size_of after o n
    Right-after none n r = r
    Right-after (some q) n r = record {
      below = omega (arith, r.below);
      unfreed = ap (λ (c : Block T). c.frees) (older q r.below) ∙ r.unfreed;
      count = ap (λ (c : Block T). length c.cells) (older q r.below) ∙ r.count;
      room = ap (λ (c : Block T). c.bytes) (older q r.below) ∙ r.room;
      positive = r.positive;
    }

    Holds-newest : Holds blank size_of after m.next count
    Holds-newest = record {
      below = omega arith;
      unfreed = ap (λ (c : Block T). c.frees) newest;
      count = ap (λ (c : Block T). length c.cells) newest ∙ length-replicate count blank;
      room = ap (λ (c : Block T). c.bytes) newest;
      positive = used;
    }

    filled :
        (i : Option ℕ)
        → Right blank size_of after
            (who blank size_of temp after i).pointer
            (who blank size_of temp after i).size
    filled none = Holds-newest
    filled (some y) = Right-after (m.owners y).pointer (m.owners y).size (h.filled (some y))

    apart : (y p : ℕ) → some m.next ≡ some p → (m.owners y).pointer ≡ some p → ⊥
    apart y p a b = omega (arith, some-injective m.next p a, below y p b)

    alone :
        (i j : Option ℕ) (p : ℕ)
        → (who blank size_of temp after i).pointer ≡ some p
        → (who blank size_of temp after j).pointer ≡ some p
        → i ≡ j
    alone none none p a b = refl
    alone none (some y) p a b = absurd (apart y p a b)
    alone (some y) none p a b = absurd (apart y p b a)
    alone (some y) (some z) p a b = h.alone (some y) (some z) p a b

    had_owner :
        (i : Option ℕ) (p : ℕ)
        → (who blank size_of nobody m i).pointer ≡ some p
        → (who blank size_of temp after i).pointer ≡ some p
    had_owner none p a = absurd (none-ne-some p a)
    had_owner (some y) p a = a

    unchanged : (q : ℕ) → (m.next == q) ≡ false → put m.next fresh m.blocks q ≡ m.blocks q
    unchanged q o = put-other m.next q fresh m.blocks o

    made : (q : ℕ) → m.next ≡ q → put m.next fresh m.blocks q ≡ fresh
    made q same = ap (put m.next fresh m.blocks) (sym same) ∙ newest

    new_block-IsTidy : IsTidy blank size_of temp after
    new_block-IsTidy = record {
      filled = filled;
      alone = alone;
      owned = λ q l f. elim (equal_or m.next q) [
        | inl same ↦ (none, ap some same)
        | inr other ↦
            let o =
              h.owned q (ground (arith, l, (==_iff m.next q).1))
                (ap (λ (c : Block T). c.frees) (sym (unchanged q other)) ∙ f) in
            (o.0, had_owner o.0 q o.1)
      ];
      wiped = λ q f. elim (equal_or m.next q) [
        | inl same ↦ absurd (omega (arith, f, ap (λ (c : Block T). c.frees) (made q same)))
        | inr other ↦
            subst⁻¹ (λ (c : Block T). All (λ a. a ≡ blank) c.cells) (unchanged q other)
              (h.wiped q (subst (λ (c : Block T). 0 < c.frees) (unchanged q other) f))
      ];
      once = λ q. elim (equal_or m.next q) [
        | inl same ↦ omega (arith, ap (λ (c : Block T). c.frees) (made q same))
        | inr other ↦ subst⁻¹ (λ (c : Block T). c.frees ≤ 1) (unchanged q other) (h.once q)
      ];
    }

  zero_mul : (count : ℕ) → (count * size_of == 0) ≡ false → 0 < count
  zero_mul zero p = ground (arith, p, mul.zero size_of)
  zero_mul (suc n) p = omega arith

  pub alloc_cells-owners :
      (refused : Bool) (count : ℕ) → (alloc_cells blank size_of refused count m).1.owners ≡ m.owners
  unfolding alloc_cells
  alloc_cells-owners refused count =
      elim (Bool-cases (refused || (count * size_of) % 2 ^ 64 == 0)) [
        | inl p ↦ rw p refl
        | inr p ↦ rw p refl
      ]

  -- The pointer that is returned owns a new block, or it is null.
  pub alloc_cells-IsTidy :
      (refused : Bool) (count : ℕ)
      → count * size_of ≤ size_max
      → Tidied count (alloc_cells blank size_of refused count m)
  unfolding alloc_cells
  alloc_cells-IsTidy refused count fits =
      rw (unwrapped (count * size_of) fits)
        (allocated (refused || (count * size_of == 0)) (λ p. zero_mul count (no_test refused _ p)))
    where
      no_test : (a b : Bool) → (a || b) ≡ false → b ≡ false
      no_test true b p = absurd (false≢true (sym p))
      no_test false b p = p

      allocated :
          (test : Bool)
          → (test ≡ false → 0 < count)
          → Tidied count (
              if test then (none, m) else (
                some m.next,
                record m {
                  blocks =
                      put m.next
                        (record {
                          bytes = count * size_of;
                          cells = replicate count blank;
                          frees = 0;
                        })
                        m.blocks;
                  next = suc m.next;
                },
              ))
      allocated true f = h
      allocated false f = new_block-IsTidy count (f refl)
