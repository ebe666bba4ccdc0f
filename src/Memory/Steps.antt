-- ===== src/Memory/Steps.antt =====
-- Whatever a program does with the owners of src/utils/secure_memory.h, they stay tidy.
use mathlib.Core.Path.{ap₂, subst}
use mathlib.Core.Option.{some-injective, none-ne-some}
use mathlib.Core.Bool.{false≢true}
use vaultine.Prelude.{
  ℕ, zero, suc, ◌*◌, ◌/◌, ◌≤◌, ◌<◌, ◌≡◌, refl, sym, ap, ◌∙◌, inl, inr, Bool, true, false, not, ◌||◌,
  ◌&&◌, ltb, ◌==◌, Option, none, some, [], length, if◌then◌else◌, arith,
}
use vaultine.Memory.{
  Owner, Memory, nobody, set_owner, set_block, alloc_cells, owner_after, size_max, copied, clear,
  released, construct, constructed, construct_buffer, move_construct, move_assign, elements,
  resized, resize, replace_at, write, Step, makes, makes_buffer, moves, assigns, resizes, clears,
  writes, Reaches, done, then_step,
}
use vaultine.Memory.Tidy.{equal_or, Holds, Right, IsTidy}
use vaultine.Memory.Owners.{
  adopt-IsTidy, move_construct-IsTidy, set_block-IsTidy, length-replace_at, length-copied,
}
use vaultine.Memory.Blocks.{put-same, release-IsTidy}
use Prim.Native.Nat.mul
use vaultine.Memory.Alloc.{alloc_cells-owners, fits_lem, alloc_cells-IsTidy}

module _ {T : Type 0} (blank : T) (size_of : ℕ) where
  abbrev Tidy : Owner → Memory T → Type 0
  Tidy = IsTidy blank size_of

  module _ (sized : 0 < size_of) where
    released-IsTidy :
        {temp : Owner} {m : Memory T} (x : ℕ) (o : Option ℕ)
        → (m.owners x).pointer ≡ o
        → Tidy temp m
        → Tidy temp (released blank size_of x o (m.owners x).size m)
    released-IsTidy x none p h = h
    released-IsTidy x (some q) p h = release-IsTidy blank size_of sized x q p h

    pub clear-IsTidy :
        {temp : Owner} {m : Memory T} (x : ℕ) → Tidy temp m → Tidy temp (clear blank size_of x m)
    unfolding clear
    clear-IsTidy x h = released-IsTidy x _ refl h

    -- What was cleared owns nothing.
    cleared :
        {temp : Owner} {m : Memory T} (x : ℕ)
        → Tidy temp m
        → (clear blank size_of x m).owners x ≡ nobody
    unfolding clear
    cleared {temp} {m} x h = at (m.owners x).pointer (m.owners x).size refl refl (h.filled (some x))
      where
        at :
            (o : Option ℕ) (n : ℕ)
            → (m.owners x).pointer ≡ o
            → (m.owners x).size ≡ n
            → Right blank size_of m o n
            → (released blank size_of x o n m).owners x ≡ nobody
        at none n p q r = ap₂ (λ o k. record { pointer = o; size = k }) p (q ∙ r)
        at (some t) n p q r = put-same x nobody m.owners

    write-IsTidy :
        {temp : Owner} {m : Memory T} (x i : ℕ) (a : T)
        → Tidy temp m
        → Tidy temp (write blank size_of x i a m)
    unfolding write
    write-IsTidy {temp} {m} x i a h = at (m.owners x).pointer (h.filled (some x))
      where
        at :
            (o : Option ℕ)
            → Right blank size_of m o (m.owners x).size
            → Tidy temp (elim o [
              | none ↦ m
              | some p ↦
                  set_block blank size_of p
                    (record (m.blocks p) {
                      cells = replace_at blank size_of i a (m.blocks p).cells;
                    })
                    m
            ])
        at none r = h
        at (some p) r =
            set_block-IsTidy blank size_of p _ r.unfreed (length-replace_at blank size_of i a _) h

    pub length-elements :
        {temp : Owner} {m : Memory T} (x : ℕ)
        → Tidy temp m
        → length (elements blank size_of x m) ≡ (m.owners x).size
    unfolding elements
    length-elements {temp} {m} x h = at (m.owners x).pointer (h.filled (some x))
      where
        at :
            (o : Option ℕ)
            → Right blank size_of m o (m.owners x).size
            → length (elim o [ none ↦ [] | some p ↦ (m.blocks p).cells ]) ≡ (m.owners x).size
        at none r = sym r
        at (some p) r = r.count

    resized-IsTidy :
        {m m' : Memory T} (x n : ℕ) (o : Option ℕ)
        → resized blank size_of x n o m ≡ some m'
        → Tidy (owner_after blank size_of n o) m
        → Tidy nobody m'
    unfolding resized
    resized-IsTidy {m} {m'} x n none p h = emptied (n == 0) p
      where
        emptied :
            (b : Bool)
            → (if b
                then some (set_owner blank size_of x nobody (clear blank size_of x m))
                else none)
              ≡ some m'
            → Tidy nobody m'
        emptied true q =
            subst (Tidy nobody) (some-injective _ _ q)
              (adopt-IsTidy blank size_of x (cleared x h) (clear-IsTidy x h))
        emptied false q = absurd (none-ne-some m' q)
    resized-IsTidy {m} {m'} x n (some q) p h =
        subst (Tidy nobody) (some-injective _ _ p)
          (adopt-IsTidy blank size_of x (cleared x filled) (clear-IsTidy x filled))
      where
        newest : Holds blank size_of m q n
        newest = h.filled none

        filled :
            Tidy
              (record { pointer = some q; size = n })
              (set_block blank size_of q
                (record (m.blocks q) {
                  cells = copied blank size_of (m.owners x).size n (elements blank size_of x m);
                })
                m)
        filled =
            set_block-IsTidy blank size_of q _ newest.unfreed
              (length-copied blank size_of (m.owners x).size n _ (length-elements x h)
                ∙ sym newest.count)
              h

    resize-IsTidy :
        {m m' : Memory T} (refused : Bool) (x n : ℕ)
        → resize blank size_of refused x n m ≡ some m'
        → Tidy nobody m
        → Tidy nobody m'
    unfolding resize
    resize-IsTidy {m} {m'} refused x n p h =
        tested (n == (m.owners x).size) (ltb (size_max / size_of) n) refl p
      where
        tested :
            (a b : Bool)
            → ltb (size_max / size_of) n ≡ b
            → (if a || b
                then some m
                else (let r = alloc_cells blank size_of refused n m in
                    resized blank size_of x n r.0 r.1))
              ≡ some m'
            → Tidy nobody m'
        tested true b q p' = subst (Tidy nobody) (some-injective _ _ p') h
        tested false true q p' = subst (Tidy nobody) (some-injective _ _ p') h
        tested false false q p' =
            resized-IsTidy x n _ p'
              (alloc_cells-IsTidy blank size_of h refused n (fits_lem n size_of q))

    constructed-IsTidy :
        {m : Memory T} (refused : Bool) (x count : ℕ)
        → m.owners x ≡ nobody
        → count * size_of ≤ size_max
        → Tidy nobody m
        → Tidy nobody (constructed blank size_of refused x count m)
    constructed-IsTidy {m} refused x count vacant fits h =
        adopt-IsTidy blank size_of x
          (ap (λ o. o x) (alloc_cells-owners blank size_of h refused count) ∙ vacant)
          (alloc_cells-IsTidy blank size_of h refused count fits)

    construct-IsTidy :
        {m : Memory T} (test : Bool) (refused : Bool) (x count : ℕ)
        → m.owners x ≡ nobody
        → (test ≡ false → count * size_of ≤ size_max)
        → Tidy nobody m
        → Tidy nobody (
            if test
            then set_owner blank size_of x nobody m
            else constructed blank size_of refused x count m)
    construct-IsTidy true refused x count vacant fits h = adopt-IsTidy blank size_of x vacant h
    construct-IsTidy false refused x count vacant fits h =
        constructed-IsTidy refused x count vacant (fits refl) h

    second : (a b : Bool) → (not a && b) ≡ false → a ≡ false → b ≡ false
    second true b p q = absurd (false≢true (sym q))
    second false b p q = p

    buffer_fits :
        (count : ℕ)
        → (not (count == 0) && ltb (size_max / size_of) count) ≡ false
        → count * size_of ≤ size_max
    buffer_fits zero p = omega (arith, mul.zero size_of)
    buffer_fits (suc n) p = fits_lem (suc n) size_of (second (suc n == 0) _ p (ground arith))

    move_assign-IsTidy :
        {m : Memory T} (x other : ℕ)
        → Tidy nobody m
        → Tidy nobody (move_assign blank size_of x other m)
    unfolding move_assign
    move_assign-IsTidy {m} x other h = at (x == other) refl
      where
        at :
            (b : Bool)
            → (x == other) ≡ b
            → Tidy nobody
                (if b then m else move_construct blank size_of x other (clear blank size_of x m))
        at true p = h
        at false p = move_construct-IsTidy blank size_of x other (cleared x h) p (clear-IsTidy x h)

    Step-IsTidy : {m m' : Memory T} → Step blank size_of m m' → Tidy nobody m → Tidy nobody m'
    unfolding construct construct_buffer
    Step-IsTidy (makes refused x count m vacant) h =
        construct-IsTidy _ refused x count vacant (fits_lem count size_of) h
    Step-IsTidy (makes_buffer refused x count m vacant) h =
        construct-IsTidy _ refused x count vacant (buffer_fits count) h
    Step-IsTidy (moves x other m vacant apart) h =
        move_construct-IsTidy blank size_of x other vacant
          (elim (equal_or x other) [ inl p ↦ absurd (apart p) | inr p ↦ p ]) h
    Step-IsTidy (assigns x other m) h = move_assign-IsTidy x other h
    Step-IsTidy (resizes refused x n m m' p) h = resize-IsTidy refused x n p h
    Step-IsTidy (clears x m) h = clear-IsTidy x h
    Step-IsTidy (writes x i a m l) h = write-IsTidy x i a h

    pub Reaches-IsTidy :
        {m m' : Memory T} → Reaches blank size_of m m' → Tidy nobody m → Tidy nobody m'
    Reaches-IsTidy (done m) h = h
    Reaches-IsTidy (then_step m m' m'' r s) h = Step-IsTidy s (Reaches-IsTidy r h)
