-- ===== src/Cache/Inserted.antt =====
-- cache_insert of src/ssm.cc and the lookups that come after it.
use mathlib.Core.Path.{subst⁻¹}
use vaultine.Prelude.{
  ℕ, zero, suc, ◌+◌, ◌≤◌, ◌<◌, Bytes, ◌≡◌, ◌≢◌, refl, sym, ◌∙◌, ap, ◌⊎◌, inl, inr, true, Bool-cases,
  Option, none, some, List, [], ◌∷◌, All, Occurs, length, arith,
}
use vaultine.World.{Env, Vault, CacheEntry}
use vaultine.Exec.{◌>>◌}
use vaultine.Exec.Runs.{Runs, Runs-bind, Runs-pure, Runs-modify, Runs-after_modify}
use vaultine.Exec.Sure.{Sure-bind, Sure-gets, Sure-time}
use vaultine.Cache.{
  holds, cached_key, pick_slot, write_slot, after_scan, cache_lookup, cache_insert,
}
use vaultine.Cache.Slots.{cached_key-write_slot, pick_slot-found}

-- A key of a valid entry of that user.
abbrev pub KeyOf : ℕ → List CacheEntry → Option Bytes → Type 0
KeyOf user cs o =
    (c : CacheEntry) × Occurs c cs × (c.valid ≡ true) × (c.user_id ≡ user) × (o ≡ some c.key)

cached_key-KeyOf :
    (user : ℕ) (cs : List CacheEntry)
    → (cached_key user cs ≡ none) ⊎ KeyOf user cs (cached_key user cs)
unfolding cached_key
cached_key-KeyOf user [] = inl refl
cached_key-KeyOf user (c ∷ cs) = elim (Bool-cases (holds user c)) [
  | inl hit ↦ inr (c, inl refl, ground (arith, hit), ground (arith, hit), rw hit refl)
  | inr miss ↦ rw miss (elim (cached_key-KeyOf user cs) [
    | inl p ↦ inl p
    | inr (d, o, v, u, k) ↦ inr (d, inr o, v, u, k)
  ])
]

write_slot-KeyOf :
    (i user : ℕ) (d : CacheEntry) (cs : List CacheEntry)
    → d.user_id ≢ user
    → (cached_key user (write_slot i d cs) ≡ none)
      ⊎ KeyOf user cs (cached_key user (write_slot i d cs))
unfolding cached_key write_slot
write_slot-KeyOf i user d [] ne = inl refl
write_slot-KeyOf zero user d (c ∷ cs) ne = elim (cached_key-KeyOf user cs) [
  | inl p ↦ inl (ground (arith, p))
  | inr (x, o, v, u, k) ↦ inr (x, inr o, v, u, ground (arith, k))
]
write_slot-KeyOf (suc i) user d (c ∷ cs) ne = elim (Bool-cases (holds user c)) [
  | inl hit ↦ inr (c, inl refl, ground (arith, hit), ground (arith, hit), rw hit refl)
  | inr miss ↦ rw miss (elim (write_slot-KeyOf i user d cs ne) [
    | inl p ↦ inl p
    | inr (x, o, v, u, k) ↦ inr (x, inr o, v, u, k)
  ])
]

abbrev new_entry : ℕ → Bytes → ℕ → CacheEntry
new_entry user key now = record { user_id = user; key = key; last_used = now; valid = true }

module _ {e : Env} {E : Type 0} where
  cache_lookup-Finds :
      (v : Vault) (user : ℕ) {P : Option Bytes → Type 0}
      → P (cached_key user v.cache)
      → Runs {E = E} e v (cache_lookup user) (λ o _. P o) (λ _ _. ⊥)
  unfolding cache_lookup
  cache_lookup-Finds v user {P} h = Sure-bind (Sure-gets _) λ o q. scanned o (subst⁻¹ P q h)
    where
      scanned :
          (o : Option Bytes) → P o → Runs {E = E} e v (after_scan user o) (λ o _. P o) (λ _ _. ⊥)
      scanned none h = Runs-after_modify _ (Runs-pure none h)
      scanned (some key) h =
          Sure-bind Sure-time λ now _. Runs-after_modify _ (Runs-pure (some key) h)

  cache_insert-Runs :
      (v : Vault) (user : ℕ) (key : Bytes)
      → 0 < length v.cache
      → ((n : ℕ) → All (λ (c : CacheEntry). c.last_used ≤ e.clock n) v.cache)
      → Runs {E = E} e v
          (cache_insert user key)
          (λ _ v'.
            (i : ℕ) × (now : ℕ) × (i < length v.cache)
            × (v'.cache ≡ write_slot i (new_entry user key now) v.cache))
          (λ _ _. ⊥)
  unfolding cache_insert
  cache_insert-Runs v user key size used = Sure-bind Sure-time λ now (n, t).
      let (i, picked, lt) = slot-found v.cache now size (subst⁻¹ All_used t (used n)) in
      Sure-bind (Sure-gets _)
        λ o q. rw (q, picked) (Sure-bind Sure-time λ now' _. Runs-modify _ (i, now', lt, refl))
    where
      All_used : ℕ → Type 0
      All_used now = All (λ (c : CacheEntry). c.last_used ≤ now) v.cache

      slot-found :
          (cs : List CacheEntry) (now : ℕ)
          → 0 < length cs
          → All (λ (c : CacheEntry). c.last_used ≤ now) cs
          → (i : ℕ) × (pick_slot 0 none (now + 1) cs ≡ some i) × (i < length cs)
      slot-found [] now h used = absurd (omega (arith, h))
      slot-found (c ∷ cs) now h used = pick_slot-found now c cs used

  -- A user who had no key is given one, in a cache that is not empty and whose entries were all used
  -- by now: a lookup for him then finds that key; and a lookup for another user finds nothing, or the
  -- key of a valid entry of that user's which was in the cache before.
  pub cache_lookup-cache_insert :
      (v : Vault) (user : ℕ) (key : Bytes)
      → 0 < length v.cache
      → ((n : ℕ) → All (λ (c : CacheEntry). c.last_used ≤ e.clock n) v.cache)
      → cached_key user v.cache ≡ none
      → Runs {E = E} e v
          (cache_insert user key >> cache_lookup user)
          (λ o _. o ≡ some key)
          (λ _ _. ⊥)
        × ((other : ℕ)
            → other ≢ user
            → Runs {E = E} e v
                (cache_insert user key >> cache_lookup other)
                (λ o _. (o ≡ none) ⊎ KeyOf other v.cache o)
                (λ _ _. ⊥))
  cache_lookup-cache_insert v user key size used vacant = (
    Runs-bind (cache_insert-Runs v user key size used) λ _ v' (i, now, lt, p).
        cache_lookup-Finds v' user {P = λ o. o ≡ some key} (
          ap (cached_key user) p
          ∙ cached_key-write_slot i (new_entry user key now) v.cache refl lt vacant),
    λ other ne. Runs-bind (cache_insert-Runs v user key size used) λ _ v' (i, now, lt, p).
        cache_lookup-Finds v' other {P = λ o. (o ≡ none) ⊎ KeyOf other v.cache o} (
          subst⁻¹ (λ cs. (cached_key other cs ≡ none) ⊎ KeyOf other v.cache (cached_key other cs)) p
            (write_slot-KeyOf i other (new_entry user key now) v.cache (λ q. ne (sym q)))),
  )
