-- ===== src/Memory/Resize.antt =====
-- What secure_vector::resize of src/utils/secure_memory.h leaves in the array.
use mathlib.Core.Path.{ap₂, subst}
use mathlib.Core.List.{append-nil}
use mathlib.Core.Bool.{false≢true}
use vaultine.Prelude.{
  ℕ, zero, suc, ◌-◌, ◌*◌, ◌/◌, ◌≤◌, ◌<◌, ◌≡◌, ◌≢◌, refl, sym, ap, ◌∙◌, inl, inr, Bool, true, false,
  ltb, ◌||◌, Bool-cases, ◌==◌, ==_iff, Option, none, some, List, [], ◌∷◌, ◌++◌, take, length,
  replicate, if◌then◌else◌, arith, ltb→lt,
}
use vaultine.Memory.{
  Block, Owner, Memory, nobody, put, set_owner, set_block, alloc_cells, size_max, copied, clear,
  released, elements, resized, resize,
}
use vaultine.Memory.Tidy.{equal_or, Right, IsTidy}
use vaultine.Memory.Blocks.{put-same, put-other, positive_mul}
use vaultine.Memory.Alloc.{not_less, fits_lem, unwrapped}
use vaultine.Memory.Steps.{length-elements}

module _ {T : Type 0} (blank : T) (size_of : ℕ) where
  take_all : (n : ℕ) (cells : List T) → length cells ≤ n → take n cells ≡ cells
  take_all zero [] h = refl
  take_all zero (c ∷ cells) h = absurd (omega (arith, h))
  take_all (suc n) [] h = refl
  take_all (suc n) (c ∷ cells) h = ap (λ t. c ∷ t) (take_all n cells (omega (arith, h)))

  -- The array of `n` objects that begins with those of `cells`.
  abbrev pub fitted : ℕ → List T → List T
  fitted n cells = take n cells ++ replicate (n - length cells) blank

  no_more : {k n size : ℕ} → n < size → k ≡ size → n - n ≡ n - k
  no_more h p = omega (arith, h, p)

  none_left : (k : ℕ) → 0 ≡ 0 - k
  none_left k = omega arith

  copied_lem :
      (size n : ℕ) (cells : List T)
      → length cells ≡ size
      → copied blank size_of size n cells ≡ fitted n cells
  copied_lem size n cells p = elim (Bool-cases (ltb n size)) [
    | inl q ↦ rw q (ap (λ k. take n cells ++ replicate k blank) (no_more (ltb→lt n size q) p))
    | inr q ↦ rw q (
        ap₂ (λ a k. a ++ replicate k blank)
          (take_all size cells (omega (arith, p))
            ∙ sym (take_all n cells (omega (arith, p, not_less n size q))))
          (ap (λ k. n - k) (sym p)))
  ]

  elements-set_owner :
      (x : ℕ) (o : Owner) (m : Memory T)
      → elements blank size_of x (set_owner blank size_of x o m)
        ≡ elim o.pointer [ none ↦ [] | some p ↦ (m.blocks p).cells ]
  unfolding elements
  elements-set_owner x o m =
      ap (λ (u : Owner). elim u.pointer [ none ↦ [] | some p ↦ (m.blocks p).cells ])
        (put-same x o m.owners)

  clear-blocks :
      (x q : ℕ) (m : Memory T)
      → (m.owners x).pointer ≢ some q
      → (clear blank size_of x m).blocks q ≡ m.blocks q
  unfolding clear
  clear-blocks x q m apart = at (m.owners x).pointer apart
    where
      at :
          (o : Option ℕ)
          → o ≢ some q
          → (released blank size_of x o (m.owners x).size m).blocks q ≡ m.blocks q
      at none d = refl
      at (some p) d = elim (equal_or p q) [
        | inl same ↦ absurd (d (ap some same))
        | inr other ↦ put-other p q _ m.blocks other
      ]

  module _ (sized : 0 < size_of) {m : Memory T} (x n : ℕ) (h : IsTidy blank size_of nobody m) where
    abbrev Fitted : Option (Memory T) → Type 0
    Fitted o =
        (m' : Memory T) × (o ≡ some m')
        × (elements blank size_of x m' ≡ fitted n (elements blank size_of x m))

    -- The allocation of `n` objects was refused because there are none.
    emptied : n ≡ 0 → Fitted (some (set_owner blank size_of x nobody (clear blank size_of x m)))
    emptied p = (
      _,
      refl,
      elements-set_owner x nobody (clear blank size_of x m)
          ∙ rw p (ap (λ k. replicate k blank) (none_left (length (elements blank size_of x m)))),
    )

    -- The block that is allocated for the new array.
    module _ (b : Block T) where
      abbrev grown : Memory T
      grown = record m { blocks = put m.next b m.blocks; next = suc m.next }

      not_newest : (m.owners x).pointer ≢ some m.next
      not_newest p = omega (
        arith,
        (subst (λ o. Right blank size_of m o (m.owners x).size) p (h.filled (some x))).below,
      )

      elements-grown : elements blank size_of x grown ≡ elements blank size_of x m
      unfolding elements
      elements-grown = at (m.owners x).pointer (h.filled (some x))
        where
          at :
              (o : Option ℕ)
              → Right blank size_of m o (m.owners x).size
              → elim o [ none ↦ [] | some p ↦ (put m.next b m.blocks p).cells ]
                ≡ elim o [ none ↦ [] | some p ↦ (m.blocks p).cells ]
          at none r = refl
          at (some p) r =
              ap (λ (c : Block T). c.cells)
                (put-other m.next p b m.blocks (ground (arith, r.below, (==_iff m.next p).0)))

      moved : Fitted (resized blank size_of x n (some m.next) grown)
      unfolding resized
      moved = (
        _,
        refl,
        elements-set_owner x _ (clear blank size_of x filled)
            ∙ ap (λ (c : Block T). c.cells) (clear-blocks x m.next filled not_newest)
            ∙ ap (λ (c : Block T). c.cells) (put-same m.next _ grown.blocks)
            ∙ copied_lem (m.owners x).size n _
                (ap length elements-grown ∙ length-elements blank size_of sized x h)
            ∙ ap (fitted n) elements-grown,
      )
        where
          filled : Memory T
          filled =
              set_block blank size_of m.next
                (record (put m.next b m.blocks m.next) {
                  cells = copied blank size_of (m.owners x).size n (elements blank size_of x grown);
                })
                grown

    unchanged : n ≡ (m.owners x).size → Fitted (some m)
    unchanged p = (
      m,
      refl,
      sym (append-nil (elements blank size_of x m))
          ∙ ap₂ (λ a k. a ++ replicate k blank)
              (sym (take_all n (elements blank size_of x m) (omega (arith, p, long))))
              (the_same long p),
    )
      where
        long : length (elements blank size_of x m) ≡ (m.owners x).size
        long = length-elements blank size_of sized x h

        the_same : {k n size : ℕ} → k ≡ size → n ≡ size → 0 ≡ n - k
        the_same p q = omega (arith, p, q)

    no_objects : (n * size_of == 0) ≡ true → n ≡ 0
    no_objects p = elim (Bool-cases (n == 0)) [
      | inl q ↦ (==_iff n 0).0 q
      | inr q ↦
          absurd (
            false≢true (sym (positive_mul n size_of (ground (arith, q, (==_iff n 0).1)) sized) ∙ p))
    ]

    allocated :
        n * size_of ≤ size_max
        → Fitted (let r = alloc_cells blank size_of false n m in resized blank size_of x n r.0 r.1)
    unfolding alloc_cells resized
    allocated le = rw (unwrapped (n * size_of) le) (at (n * size_of == 0) no_objects)
      where
        at :
            (t : Bool)
            → (t ≡ true → n ≡ 0)
            → Fitted (
                let r : Option ℕ × Memory T = if t then (none, m) else (
                  some m.next,
                  record m {
                    blocks =
                        put m.next
                          (record { bytes = n * size_of; cells = replicate n blank; frees = 0 })
                          m.blocks;
                    next = suc m.next;
                  },
                ) in
                resized blank size_of x n r.0 r.1)
        at true f = rw ((==_iff n 0).1 (f refl)) (emptied (f refl))
        at false f = moved _

    -- For objects of at least one byte, whose owners are tidy and of which the machine can count the
    -- bytes: a change of size whose allocation is not refused never writes through a null pointer,
    -- and the array then begins with the objects that it had, as many as there is room for, and the
    -- rest of it is T{}.
    pub resize-elements : n ≤ size_max / size_of → Fitted (resize blank size_of false x n m)
    unfolding resize
    resize-elements fits =
        tested (n == (m.owners x).size) (ltb (size_max / size_of) n) (==_iff n (m.owners x).size).0
          within
      where
        within : ltb (size_max / size_of) n ≡ false
        within = ground (arith, fits, ltb→lt (size_max / size_of) n)

        tested :
            (a b : Bool)
            → (a ≡ true → n ≡ (m.owners x).size)
            → b ≡ false
            → Fitted (
                if a || b
                then some m
                else (let r = alloc_cells blank size_of false n m in
                    resized blank size_of x n r.0 r.1))
        tested true b f p = unchanged (f refl)
        tested false true f p = absurd (false≢true (sym p))
        tested false false f p = allocated (fits_lem n size_of within)
