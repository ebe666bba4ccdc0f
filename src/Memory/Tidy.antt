-- ===== src/Memory/Tidy.antt =====
-- The invariant of the owners of src/utils/secure_memory.h, and what keeps it: a renaming of the
-- owners, a new block, and the release of one.
use mathlib.Core.Path.{subst⁻¹}
use vaultine.Prelude.{
  ℕ, ◌*◌, ◌≤◌, ◌<◌, ◌≡◌, sym, ap, ◌∙◌, ◌⊎◌, inl, inr, false, Bool-cases, ◌==◌, ==_iff, Option, none,
  some, All, length,
}
use vaultine.Memory.{Owner, Memory}

pub equal_or : (i j : ℕ) → (i ≡ j) ⊎ ((i == j) ≡ false)
equal_or i j = elim (Bool-cases (i == j)) [ inl p ↦ inl ((==_iff i j).0 p) | inr p ↦ inr p ]

module _ {T : Type 0} (blank : T) (size_of : ℕ) where
  -- A pointer to a block that is allocated, with as many objects as the owner's size says.
  pub record Holds (m : Memory T) (p n : ℕ) : Type 0 where
    pub below : p < m.next
    pub unfreed : (m.blocks p).frees ≡ 0
    pub count : length (m.blocks p).cells ≡ n
    pub room : (m.blocks p).bytes ≡ n * size_of
    pub positive : 0 < n

  abbrev pub Right : Memory T → Option ℕ → ℕ → Type 0
  Right m none n = n ≡ 0
  Right m (some p) n = Holds m p n

  -- The owner of that number, and for `none` the pointer that a function keeps in a variable.
  abbrev pub who : Owner → Memory T → Option ℕ → Owner
  who temp m none = temp
  who temp m (some x) = m.owners x

  -- Each owner holds a block of its own, every block that was not freed has an owner, and those
  -- that were freed were erased, and freed once.
  pub record IsTidy (temp : Owner) (m : Memory T) : Type 0 where
    pub filled : (i : Option ℕ) → Right m (who temp m i).pointer (who temp m i).size
    pub alone :
        (i j : Option ℕ) (p : ℕ)
        → (who temp m i).pointer ≡ some p
        → (who temp m j).pointer ≡ some p
        → i ≡ j
    pub owned :
        (p : ℕ)
        → p < m.next
        → (m.blocks p).frees ≡ 0
        → (i : Option ℕ) × ((who temp m i).pointer ≡ some p)
    pub wiped : (p : ℕ) → 0 < (m.blocks p).frees → All (λ a. a ≡ blank) (m.blocks p).cells
    pub once : (p : ℕ) → (m.blocks p).frees ≤ 1

  -- The same blocks with other names for their owners.
  pub renamed-IsTidy :
      {temp temp' : Owner} {m : Memory T} (owners : ℕ → Owner) (σ : Option ℕ → Option ℕ)
      → ((i : Option ℕ) → σ (σ i) ≡ i)
      → ((i : Option ℕ) → who temp' (record m { owners = owners }) i ≡ who temp m (σ i))
      → IsTidy temp m
      → IsTidy temp' (record m { owners = owners })
  renamed-IsTidy {temp} {temp'} {m} owners σ twice same h = record {
    filled = λ i.
        right _ _ (subst⁻¹ (λ (o : Owner). Right m o.pointer o.size) (same i) (h.filled (σ i)));
    alone = λ i j p a b.
        sym (twice i)
        ∙ ap σ (
            h.alone (σ i) (σ j) p (ap (λ (o : Owner). o.pointer) (sym (same i)) ∙ a)
              (ap (λ (o : Owner). o.pointer) (sym (same j)) ∙ b))
        ∙ twice j;
    owned = λ p l f.
        let o = h.owned p l f in
        (σ o.0, ap (λ (u : Owner). u.pointer) (same (σ o.0) ∙ ap (who temp m) (twice o.0)) ∙ o.1);
    wiped = h.wiped;
    once = h.once;
  }
    where
      right : (o : Option ℕ) (n : ℕ) → Right m o n → Right (record m { owners = owners }) o n
      right none n r = r
      right (some p) n r = record {
        below = r.below;
        unfreed = r.unfreed;
        count = r.count;
        room = r.room;
        positive = r.positive;
      }
