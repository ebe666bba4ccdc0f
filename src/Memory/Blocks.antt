-- ===== src/Memory/Blocks.antt =====
-- The release of a block and the allocation of one keep the invariant of the owners.
use mathlib.Core.Path.{subst, subst⁻¹}
use mathlib.Core.Option.{some-injective, none-ne-some}
use mathlib.Core.Bool.{false≢true}
use Prim.Native.Nat.mul
use vaultine.Prelude.{
  ℕ, zero, suc, ◌*◌, ◌≤◌, ◌<◌, ◌≡◌, ◌≢◌, refl, sym, ap, ◌∙◌, inl, inr, false, ◌==◌, ==_iff, ==_refl,
  Option, none, some, List, [], ◌∷◌, All, All-append, All-replicate, drop, length, replicate, arith,
}
use vaultine.Memory.{Block, Owner, Memory, nobody, put, set_owner, set_block, erase_and_free}
use vaultine.Memory.Tidy.{equal_or, Holds, Right, who, IsTidy}

pub put-same : {A : Type 0} (i : ℕ) (a : A) (f : ℕ → A) → put i a f i ≡ a
put-same i a f = rw (==_refl i) refl

pub put-other : {A : Type 0} (i j : ℕ) (a : A) (f : ℕ → A) → (i == j) ≡ false → put i a f j ≡ f j
put-other i j a f p = rw p refl

no_frees : (n : ℕ) → n ≡ 1 → n ≡ 0 → ⊥
no_frees n p q = omega (arith, p, q)

pub positive_mul : (n s : ℕ) → 0 < n → 0 < s → (n * s == 0) ≡ false
positive_mul zero s p q = absurd (omega (arith, p))
positive_mul (suc n) zero p q = absurd (omega (arith, q))
positive_mul (suc n) (suc s) p q = ground (arith, mul.suc n (suc s))

drop_all : {A : Type 0} (n : ℕ) (xs : List A) → length xs ≡ n → drop n xs ≡ []
drop_all zero [] p = refl
drop_all zero (x ∷ xs) p = absurd (omega (arith, p))
drop_all (suc n) [] p = refl
drop_all (suc n) (x ∷ xs) p = drop_all n xs (omega (arith, p))

pub differs : {i j : ℕ} → (i == j) ≡ false → i ≢ j
differs {i} {j} p q = false≢true (sym p ∙ (==_iff i j).1 q)

module _ {T : Type 0} (blank : T) (size_of : ℕ) (sized : 0 < size_of) where
  -- A block that is erased and freed.
  erased :
      {m : Memory T} {p n : ℕ}
      → Holds blank size_of m p n
      → (((erase_and_free blank size_of n (m.blocks p)).frees ≡ 1)
          × All (λ a. a ≡ blank) (erase_and_free blank size_of n (m.blocks p)).cells)
  unfolding erase_and_free
  erased {m} {p} {n} h = rw (positive_mul n size_of h.positive sized) (
    ap suc h.unfreed,
    All-append (λ a. a ≡ blank) (replicate n blank) (drop n (m.blocks p).cells)
        (All-replicate (λ a. a ≡ blank) n blank refl)
        (rw (drop_all n (m.blocks p).cells h.count) tt),
  )

  -- Another block is as before.
  Right-other :
      (m : Memory T) (p : ℕ) (b : Block T) (x : ℕ) (o : Owner) (q : Option ℕ) (n : ℕ)
      → q ≢ some p
      → Right blank size_of m q n
      → Right blank size_of (set_owner blank size_of x o (set_block blank size_of p b m)) q n
  Right-other m p b x o none n d r = r
  Right-other m p b x o (some q) n d r = elim (equal_or p q) [
    | inl same ↦ absurd (d (ap some (sym same)))
    | inr other ↦ record {
      below = r.below;
      unfreed = ap (λ (c : Block T). c.frees) (put-other p q b m.blocks other) ∙ r.unfreed;
      count = ap (λ (c : Block T). length c.cells) (put-other p q b m.blocks other) ∙ r.count;
      room = ap (λ (c : Block T). c.bytes) (put-other p q b m.blocks other) ∙ r.room;
      positive = r.positive;
    }
  ]

  module _ {temp : Owner} {m : Memory T} (x p : ℕ) (at_p : (m.owners x).pointer ≡ some p)
      (h : IsTidy blank size_of temp m) where
    abbrev freed : Block T
    freed = erase_and_free blank size_of (m.owners x).size (m.blocks p)

    abbrev after : Memory T
    after = set_owner blank size_of x nobody (set_block blank size_of p freed m)

    abbrev before_at : Option ℕ → Owner
    before_at = who blank size_of temp m

    abbrev after_at : Option ℕ → Owner
    after_at = who blank size_of temp after

    gone : (y : ℕ) → x ≡ y → put x nobody m.owners y ≡ nobody
    gone y same = ap (put x nobody m.owners) (sym same) ∙ put-same x nobody m.owners

    freed_at : (q : ℕ) → p ≡ q → put p freed m.blocks q ≡ freed
    freed_at q same = ap (put p freed m.blocks) (sym same) ∙ put-same p freed m.blocks

    held : Holds blank size_of m p (m.owners x).size
    held = subst (λ o. Right blank size_of m o (m.owners x).size) at_p (h.filled (some x))

    fresh : (freed.frees ≡ 1) × All (λ a. a ≡ blank) freed.cells
    fresh = erased held

    still_held :
        (i : Option ℕ) (q : ℕ) → (after_at i).pointer ≡ some q → (before_at i).pointer ≡ some q
    still_held none q a = a
    still_held (some y) q a = elim (equal_or x y) [
      | inl same ↦ absurd (none-ne-some q (ap (λ (o : Owner). o.pointer) (sym (gone y same)) ∙ a))
      | inr other ↦ ap (λ (o : Owner). o.pointer) (sym (put-other x y nobody m.owners other)) ∙ a
    ]

    kept :
        (i : Option ℕ) (q : ℕ)
        → (p == q) ≡ false
        → (before_at i).pointer ≡ some q
        → (after_at i).pointer ≡ some q
    kept none q o a = a
    kept (some y) q o a = elim (equal_or x y) [
      | inl same ↦
          absurd
            (differs o (some-injective p q (sym at_p ∙ ap (λ z. (m.owners z).pointer) same ∙ a)))
      | inr other ↦ ap (λ (o : Owner). o.pointer) (put-other x y nobody m.owners other) ∙ a
    ]

    filled : (i : Option ℕ) → Right blank size_of after (after_at i).pointer (after_at i).size
    filled none =
        Right-other m p freed x nobody temp.pointer temp.size
          (λ s. none-ne-some x (h.alone none (some x) p s at_p)) (h.filled none)
    filled (some y) = elim (equal_or x y) [
      | inl same ↦
          subst⁻¹ (λ (o : Owner). Right blank size_of after o.pointer o.size) (gone y same) refl
      | inr other ↦
          subst⁻¹ (λ (o : Owner). Right blank size_of after o.pointer o.size)
            (put-other x y nobody m.owners other)
            (Right-other m p freed x nobody (m.owners y).pointer (m.owners y).size
              (λ s. differs other (sym (some-injective y x (h.alone (some y) (some x) p s at_p))))
              (h.filled (some y)))
    ]

    -- Nothing but the owner `x` and its block are touched.
    pub release-IsTidy : IsTidy blank size_of temp after
    release-IsTidy = record {
      filled = filled;
      alone = λ i j q a b. h.alone i j q (still_held i q a) (still_held j q b);
      owned = λ q l f. elim (equal_or p q) [
        | inl same ↦ absurd (
            no_frees freed.frees fresh.0
              (ap (λ (c : Block T). c.frees) (sym (freed_at q same)) ∙ f))
        | inr other ↦
            let o =
              h.owned q l
                (ap (λ (c : Block T). c.frees) (sym (put-other p q freed m.blocks other)) ∙ f) in
            (o.0, kept o.0 q other o.1)
      ];
      wiped = λ q f. elim (equal_or p q) [
        | inl same ↦
            subst⁻¹ (λ (c : Block T). All (λ a. a ≡ blank) c.cells) (freed_at q same) fresh.1
        | inr other ↦
            let back = put-other p q freed m.blocks other in
            subst⁻¹ (λ (c : Block T). All (λ a. a ≡ blank) c.cells) back
              (h.wiped q (subst (λ (c : Block T). 0 < c.frees) back f))
      ];
      once = λ q. elim (equal_or p q) [
        | inl same ↦ omega (arith, ap (λ (c : Block T). c.frees) (freed_at q same), fresh.0)
        | inr other ↦
            subst⁻¹ (λ (c : Block T). c.frees ≤ 1) (put-other p q freed m.blocks other) (h.once q)
      ];
    }
