-- ===== src/Cache/Slots.antt =====
-- The array of the wrapping-key cache: what a lookup finds after an insertion, which entry an
-- insertion gives up, and that no user has two valid entries.
use vaultine.Prelude.{
  ℕ, zero, suc, ◌+◌, ◌≤◌, ◌<◌, ◌≡◌, refl, sym, ◌∙◌, ap, inl, inr, true, false, ◌==◌, ltb, ltb→lt,
  Bool-cases, Option, none, some, List, [], ◌∷◌, All, amend, length, arith, if◌then◌else◌,
}
use mathlib.Core.Path.{subst}
use native.Mathlib.Nat.{le_refl}
use vaultine.World.{CacheEntry}
use vaultine.Cache.{holds, cached_key, touch, pick_slot, write_slot, erased}

-- At most one valid entry of each user.
abbrev pub OnePerUser : List CacheEntry → Type 0
OnePerUser [] = Unit
OnePerUser (c ∷ cs) = (c.valid ≡ true → cached_key c.user_id cs ≡ none) × OnePerUser cs

-- The entry at an index.
abbrev pub entry_at : ℕ → List CacheEntry → Option CacheEntry
entry_at i [] = none
entry_at zero (c ∷ cs) = some c
entry_at (suc i) (c ∷ cs) = entry_at i cs

pub length-write_slot :
    (i : ℕ) (d : CacheEntry) (cs : List CacheEntry) → length (write_slot i d cs) ≡ length cs
unfolding write_slot
length-write_slot i d [] = refl
length-write_slot zero d (c ∷ cs) = refl
length-write_slot (suc i) d (c ∷ cs) = ap suc (length-write_slot i d cs)

pub length-touch : (user now : ℕ) (cs : List CacheEntry) → length (touch user now cs) ≡ length cs
unfolding touch
length-touch user now [] = refl
length-touch user now (c ∷ cs) = ground (arith, length-touch user now cs)

pub cached_key-write_slot :
    (i : ℕ) (d : CacheEntry) (cs : List CacheEntry)
    → d.valid ≡ true
    → i < length cs
    → cached_key d.user_id cs ≡ none
    → cached_key d.user_id (write_slot i d cs) ≡ some d.key
unfolding cached_key write_slot
cached_key-write_slot i d [] v h k = absurd (omega arith)
cached_key-write_slot zero d (c ∷ cs) v h k = ground arith
cached_key-write_slot (suc i) d (c ∷ cs) v h k = ground (arith, cached_key-write_slot i d cs v)

pub cached_key-touch :
    (u user now : ℕ) (cs : List CacheEntry) → cached_key u (touch user now cs) ≡ cached_key u cs
unfolding cached_key touch
cached_key-touch u user now [] = refl
cached_key-touch u user now (c ∷ cs) = ground (arith, cached_key-touch u user now cs)

-- After an invalidation the user has no key, and the others have theirs.
pub cached_key-invalidate :
    (u user : ℕ) (cs : List CacheEntry)
    → cached_key u (amend (holds user) erased cs) ≡ (if u == user then none else cached_key u cs)
unfolding cached_key
cached_key-invalidate u user [] = ground arith
cached_key-invalidate u user (c ∷ cs) = ground (arith, cached_key-invalidate u user cs)

-- How the scan for a slot ends: at a free entry; at the entry used least recently, if all are taken
-- and it was used before `oldest`; or, with all taken and none older, where it began.
pub data Picks (i : ℕ) (slot : Option ℕ) (oldest : ℕ) (cs : List CacheEntry) (r : Option ℕ)
    : Type 0 where
  free :
      (k : ℕ) (c : CacheEntry)
      → entry_at k cs ≡ some c
      → c.valid ≡ false
      → r ≡ some (i + k)
      → Picks i slot oldest cs r
  least :
      (k : ℕ) (c : CacheEntry)
      → entry_at k cs ≡ some c
      → c.last_used < oldest
      → All (λ (d : CacheEntry). (d.valid ≡ true) × (c.last_used ≤ d.last_used)) cs
      → r ≡ some (i + k)
      → Picks i slot oldest cs r
  unmoved :
      All (λ (d : CacheEntry). (d.valid ≡ true) × (oldest ≤ d.last_used)) cs
      → r ≡ slot
      → Picks i slot oldest cs r

next_pick :
    (i : ℕ) (slot : Option ℕ) (oldest : ℕ) (c : CacheEntry) (cs : List CacheEntry) (r : Option ℕ)
    → c.valid ≡ true
    → Picks
        (suc i)
        (if ltb c.last_used oldest then some i else slot)
        (if ltb c.last_used oldest then c.last_used else oldest)
        cs
        r
    → Picks i slot oldest (c ∷ cs) r
next_pick i slot oldest c cs r v (free k d at f e) = free (suc k) d at f (ground arith)
next_pick i slot oldest c cs r v (least k d at lt all e) =
    least (suc k) d at (ground arith) ((v, ground arith), all) (ground arith)
next_pick i slot oldest c cs r v (unmoved all e) = elim (Bool-cases (ltb c.last_used oldest)) [
  | inl older ↦ least 0 c refl (ltb→lt _ _ older) ((v, le_refl _), rw older at all) (ground arith)
  | inr newer ↦ unmoved ((v, ground arith), rw newer at all) (ground arith)
]

-- The scan of cache_insert ends at an entry that is not valid, or at one that was used least
-- recently of all if every entry is valid and it was used before the time it began with, or at the
-- slot it began with.
pub pick_slot-Picks :
    (i : ℕ) (slot : Option ℕ) (oldest : ℕ) (cs : List CacheEntry)
    → Picks i slot oldest cs (pick_slot i slot oldest cs)
unfolding pick_slot
pick_slot-Picks i slot oldest [] = unmoved tt refl
pick_slot-Picks i slot oldest (c ∷ cs) = elim (Bool-cases c.valid) [
  | inl taken ↦ subst (Picks i slot oldest (c ∷ cs)) (sym (goes_on taken)) (
      next_pick i slot oldest c cs _ taken (
        pick_slot-Picks (suc i) (if ltb c.last_used oldest then some i else slot)
          (if ltb c.last_used oldest then c.last_used else oldest) cs))
  | inr vacant ↦ free 0 c refl vacant (ground arith)
]
  where
    goes_on :
        c.valid ≡ true
        → pick_slot i slot oldest (c ∷ cs)
          ≡ pick_slot
              (suc i)
              (if ltb c.last_used oldest then some i else slot)
              (if ltb c.last_used oldest then c.last_used else oldest)
              cs
    goes_on taken = ground arith

entry_at-lt :
    (i : ℕ) (cs : List CacheEntry) {c : CacheEntry} → entry_at i cs ≡ some c → i < length cs
entry_at-lt i [] h = cc
entry_at-lt zero (c ∷ cs) h = omega arith
entry_at-lt (suc i) (c ∷ cs) h = omega (arith, entry_at-lt i cs h)

-- In a cache that is not empty and whose entries were all used by now the scan of cache_insert
-- finds a slot, and it is inside the array.
pub pick_slot-found :
    (now : ℕ) (c : CacheEntry) (cs : List CacheEntry)
    → All (λ (d : CacheEntry). d.last_used ≤ now) (c ∷ cs)
    → (i : ℕ) × (pick_slot 0 none (now + 1) (c ∷ cs) ≡ some i) × (i < length (c ∷ cs))
pick_slot-found now c cs h = found (pick_slot-Picks 0 none (now + 1) (c ∷ cs))
  where
    found :
        Picks 0 none (now + 1) (c ∷ cs) (pick_slot 0 none (now + 1) (c ∷ cs))
        → (i : ℕ) × (pick_slot 0 none (now + 1) (c ∷ cs) ≡ some i) × (i < length (c ∷ cs))
    found (free k d at _ e) = (k, e ∙ ap some (omega arith), entry_at-lt k (c ∷ cs) at)
    found (least k d at _ _ e) = (k, e ∙ ap some (omega arith), entry_at-lt k (c ∷ cs) at)
    found (unmoved all _) = absurd (omega (arith, all.0.1, h.0))
