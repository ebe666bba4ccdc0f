-- ===== src/Memory/Owners.antt =====
-- Owners of src/utils/secure_memory.h under other names, and other objects in their blocks.
use mathlib.Core.Path.{subst, subst⁻¹}
use vaultine.Prelude.{
  length-take_le, ℕ, zero, suc, ◌-◌, ◌≤◌, ◌<◌, ◌≡◌, refl, sym, ap, ◌∙◌, ◌⊎◌, inl, inr, false, ◌==◌,
  ==_iff, ==_refl, Option, none, some, List, [], ◌∷◌, All, take, length, length-append,
  length-replicate, replicate, if◌then◌else◌, arith,
}
use vaultine.Memory.{
  Block, Owner, Memory, nobody, put, set_owner, set_block, smaller, copied, move_construct,
  replace_at,
}
use vaultine.Memory.Tidy.{equal_or, Right, who, IsTidy, renamed-IsTidy}
use vaultine.Memory.Blocks.{put-same, put-other}

module _ {T : Type 0} (blank : T) (size_of : ℕ) where
  abbrev Tidy : Owner → Memory T → Type 0
  Tidy = IsTidy blank size_of

  -- The pointer of a variable goes to an object that owned nothing.
  pub adopt-IsTidy :
      {temp : Owner} {m : Memory T} (x : ℕ)
      → m.owners x ≡ nobody
      → Tidy temp m
      → Tidy nobody (set_owner blank size_of x temp m)
  adopt-IsTidy {temp} {m} x vacant h =
      renamed-IsTidy blank size_of (put x temp m.owners) names twice same h
    where
      names : Option ℕ → Option ℕ
      names none = some x
      names (some y) = if x == y then none else some y

      twice : (i : Option ℕ) → names (names i) ≡ i
      twice none = rw (==_refl x) refl
      twice (some y) = elim (equal_or x y) [
        | inl p ↦ rw (p, ==_refl y) refl
        | inr p ↦ rw (p, p) refl
      ]

      same :
          (i : Option ℕ)
          → who blank size_of nobody (record m { owners = put x temp m.owners }) i
            ≡ who blank size_of temp m (names i)
      same none = sym vacant
      same (some y) = elim (equal_or x y) [ inl p ↦ rw (p, ==_refl y) refl | inr p ↦ rw p refl ]

  pub move_construct-IsTidy :
      {temp : Owner} {m : Memory T} (x other : ℕ)
      → m.owners x ≡ nobody
      → (x == other) ≡ false
      → Tidy temp m
      → Tidy temp (move_construct blank size_of x other m)
  unfolding move_construct
  move_construct-IsTidy {temp} {m} x other vacant apart h =
      renamed-IsTidy blank size_of (put other nobody (put x (m.owners other) m.owners)) names twice
        same h
    where
      names : Option ℕ → Option ℕ
      names none = none
      names (some y) = if other == y then some x else if x == y then some other else some y

      apart' : (other == x) ≡ false
      apart' = ground (arith, (==_iff x other).1, (==_iff other x).0)

      twice : (i : Option ℕ) → names (names i) ≡ i
      twice none = refl
      twice (some y) = elim (equal_or other y) [
        | inl p ↦ rw (sym p, ==_refl other, apart', ==_refl x) refl
        | inr p ↦ elim (equal_or x y) [
          | inl q ↦ rw (sym q, apart', ==_refl x, ==_refl other) refl
          | inr q ↦ rw (p, q, p, q) refl
        ]
      ]

      same :
          (i : Option ℕ)
          → who blank size_of temp
              (record m { owners = put other nobody (put x (m.owners other) m.owners) })
              i
            ≡ who blank size_of temp m (names i)
      same none = refl
      same (some y) = elim (equal_or other y) [
        | inl p ↦ rw (p, ==_refl y) (sym vacant)
        | inr p ↦ elim (equal_or x y) [ inl q ↦ rw (p, q, ==_refl y) refl | inr q ↦ rw (p, q) refl ]
      ]

  pub length-replace_at :
      (i : ℕ) (a : T) (cells : List T) → length (replace_at blank size_of i a cells) ≡ length cells
  length-replace_at i a [] = refl
  length-replace_at zero a (c ∷ cells) = refl
  length-replace_at (suc i) a (c ∷ cells) = ap suc (length-replace_at i a cells)

  smaller_le : (a b : ℕ) → ((smaller a b ≤ a) × (smaller a b ≤ b))
  smaller_le a b = ground arith

  pub length-copied :
      (size n : ℕ) (cells : List T)
      → length cells ≡ size
      → length (copied blank size_of size n cells) ≡ n
  length-copied size n cells p = omega (
    arith,
    smaller_le size n,
    p,
    length-append (take (smaller size n) cells) (replicate (n - smaller size n) blank),
    length-take_le (smaller size n) cells (omega (arith, smaller_le size n, p)),
    length-replicate (n - smaller size n) blank,
  )

  -- Other objects in a block that is allocated, as many as before.
  pub set_block-IsTidy :
      {temp : Owner} {m : Memory T} (q : ℕ) (cells : List T)
      → (m.blocks q).frees ≡ 0
      → length cells ≡ length (m.blocks q).cells
      → Tidy temp m
      → Tidy temp (set_block blank size_of q (record (m.blocks q) { cells = cells }) m)
  set_block-IsTidy {temp} {m} q cells free long h = record {
    filled = λ i. right _ _ (h.filled i);
    alone = h.alone;
    owned = λ p l f. h.owned p l (sym (frees p) ∙ f);
    wiped = λ p f. elim (equal_or q p) [
      | inl same ↦ absurd (omega (arith, f, frees p, free, ap (λ z. (m.blocks z).frees) same))
      | inr other ↦
          subst⁻¹ (λ (c : Block T). All (λ a. a ≡ blank) c.cells) (put-other q p _ m.blocks other)
            (h.wiped p (subst (λ n. 0 < n) (frees p) f))
    ];
    once = λ p. subst⁻¹ (λ n. n ≤ 1) (frees p) (h.once p);
  }
    where
      new_block : Block T
      new_block = record (m.blocks q) { cells = cells }

      block_at :
          (p : ℕ)
          → ((put q new_block m.blocks p ≡ m.blocks p)
              ⊎ ((q ≡ p) × (put q new_block m.blocks p ≡ new_block)))
      block_at p = elim (equal_or q p) [
        | inl same ↦
            inr (same, ap (put q new_block m.blocks) (sym same) ∙ put-same q new_block m.blocks)
        | inr other ↦ inl (put-other q p new_block m.blocks other)
      ]

      frees : (p : ℕ) → (put q new_block m.blocks p).frees ≡ (m.blocks p).frees
      frees p = elim (block_at p) [
        | inl b ↦ ap (λ (c : Block T). c.frees) b
        | inr (same, b) ↦ ap (λ (c : Block T). c.frees) b ∙ ap (λ z. (m.blocks z).frees) same
      ]

      bytes : (p : ℕ) → (put q new_block m.blocks p).bytes ≡ (m.blocks p).bytes
      bytes p = elim (block_at p) [
        | inl b ↦ ap (λ (c : Block T). c.bytes) b
        | inr (same, b) ↦ ap (λ (c : Block T). c.bytes) b ∙ ap (λ z. (m.blocks z).bytes) same
      ]

      lengths : (p : ℕ) → length (put q new_block m.blocks p).cells ≡ length (m.blocks p).cells
      lengths p = elim (block_at p) [
        | inl b ↦ ap (λ (c : Block T). length c.cells) b
        | inr (same, b) ↦
            ap (λ (c : Block T). length c.cells) b ∙ long ∙ ap (λ z. length (m.blocks z).cells) same
      ]

      right :
          (o : Option ℕ) (n : ℕ)
          → Right blank size_of m o n
          → Right blank size_of (set_block blank size_of q new_block m) o n
      right none n r = r
      right (some p) n r = record {
        below = r.below;
        unfreed = frees p ∙ r.unfreed;
        count = lengths p ∙ r.count;
        room = bytes p ∙ r.room;
        positive = r.positive;
      }
