-- ===== src/Cache.antt =====
-- The wrapping-key cache of src/ssm.cc: an array of 256 entries in the handle.
pub mod Slots
pub mod Coherent
pub mod Inserted
use vaultine.Prelude.{
  ℕ, zero, suc, ◌+◌, Bytes, Bool, true, false, ◌&&◌, ◌==◌, ltb, Option, none, some, List, [], ◌∷◌,
  replicate, amend, if◌then◌else◌,
}
use vaultine.World.{CacheEntry}
use vaultine.Exec.{Exec, pure, gets, modify, time, ◌>>=◌, ◌>>◌}

abbrev pub ssm_cache_max : ℕ
ssm_cache_max = 256

abbrev pub holds : ℕ → CacheEntry → Bool
holds user c = c.valid && c.user_id == user

-- The key of the first valid entry of the user.
unfoldable pub cached_key : ℕ → List CacheEntry → Option Bytes
cached_key user [] = none
cached_key user (c ∷ cs) = if holds user c then some c.key else cached_key user cs

-- That entry is marked as used now.
unfoldable pub touch : ℕ → ℕ → List CacheEntry → List CacheEntry
touch user now [] = []
touch user now (c ∷ cs) =
    if holds user c then record c { last_used = now } ∷ cs else c ∷ touch user now cs

abbrev pub after_scan : {E : Type 0} → ℕ → Option Bytes → Exec E (Option Bytes)
after_scan user none = do modify (λ v. record v { cache_misses = suc v.cache_misses }); pure none
after_scan user (some key) = do
  now ← time
  modify (λ v. record v { cache = touch user now v.cache; cache_hits = suc v.cache_hits })
  pure (some key)

unfoldable pub cache_lookup : {E : Type 0} → ℕ → Exec E (Option Bytes)
cache_lookup user = do found ← gets (λ v. cached_key user v.cache); after_scan user found

-- The loop of cache_insert from entry `i` on: the first entry that is not valid, or else the entry
-- that was used least recently, if it was used before `oldest`.
unfoldable pub pick_slot : ℕ → Option ℕ → ℕ → List CacheEntry → Option ℕ
pick_slot i slot oldest [] = slot
pick_slot i slot oldest (c ∷ cs) =
    let older = ltb c.last_used oldest in
    let rest =
      pick_slot (suc i) (if older then some i else slot) (if older then c.last_used else oldest)
        cs in
    if c.valid then rest else some i

unfoldable pub write_slot : ℕ → CacheEntry → List CacheEntry → List CacheEntry
write_slot i entry [] = []
write_slot zero entry (c ∷ cs) = entry ∷ cs
write_slot (suc i) entry (c ∷ cs) = c ∷ write_slot i entry cs

abbrev pub fill_slot : {E : Type 0} → ℕ → Bytes → Option ℕ → Exec E Unit
fill_slot user key none = pure tt
fill_slot user key (some slot) = do
  now ← time
  modify (λ v. record v {
    cache =
        write_slot slot (record { user_id = user; key = key; last_used = now; valid = true })
          v.cache;
  })

unfoldable pub cache_insert : {E : Type 0} → ℕ → Bytes → Exec E Unit
cache_insert user key = do
  now ← time
  slot ← gets (λ v. pick_slot 0 none (now + 1) v.cache)
  fill_slot user key slot

-- secure_erase(entry.key, KEK_KEY_LEN); entry.valid = false
abbrev pub erased : CacheEntry → CacheEntry
erased c = record c { key = replicate 32 0; valid = false }

unfoldable pub cache_invalidate : {E : Type 0} → ℕ → Exec E Unit
cache_invalidate user = modify (λ v. record v { cache = amend (holds user) erased v.cache })

pub record CacheStats : Type 0 where
  pub total_entries : ℕ
  pub valid_entries : ℕ
  pub hit_count : ℕ
  pub miss_count : ℕ

unfoldable pub count_valid : List CacheEntry → ℕ
count_valid [] = 0
count_valid (c ∷ cs) = if c.valid then suc (count_valid cs) else count_valid cs

unfoldable pub ssm_cache_get_stats : {E : Type 0} → Exec E CacheStats
ssm_cache_get_stats = gets (λ v. record {
  total_entries = ssm_cache_max;
  valid_entries = count_valid v.cache;
  hit_count = v.cache_hits;
  miss_count = v.cache_misses;
})
