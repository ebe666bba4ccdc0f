-- ===== src/Cache/Coherent.antt =====
-- The cache against the database: the key of every valid entry is the one that would be derived now.
use mathlib.Core.Path.{subst, ap₂}
use mathlib.Core.Option.{some-injective}
use mathlib.Core.Bool.{false≢true}
use vaultine.Prelude.{
  All-map, ◌≤◌, first, ℕ, zero, suc, ◌<◌, Bytes, ◌≡◌, refl, sym, ◌∙◌, ap, ◌⊎◌, inl, inr, true,
  false, ◌==◌, ==_iff, Bool-cases, Option, none, some, List, [], ◌∷◌, All, All-Occurs, Distinct-eq,
  Occurs, amend, arith, if◌then◌else◌,
}
use vaultine.World.{Env, Vault, CacheEntry, Tables, User, KekRow}
use vaultine.Exec.Runs.{
  Runs, Reads-bind, Reads-gets, Reads-time, Runs-pure, Runs-modify, Runs-after_modify,
}
use vaultine.Db.Sql.{find_kek}
use vaultine.Cache.{
  holds, cached_key, touch, write_slot, erased, cache_lookup, cache_insert, after_scan, fill_slot,
}
use vaultine.Reveal.{wrapping_key}
use vaultine.Sound.{IsSound, same_user_id}

-- An entry that is valid is of a user id that was given out, and holds that user's wrapping key.
pub record IsRight (e : Env) (t : Tables) (c : CacheEntry) : Type 0 where
  pub known : c.valid ≡ true → c.user_id < t.next_user
  pub current :
      c.valid ≡ true
      → (u : User) → Occurs u t.users
      → u.id ≡ c.user_id
      → (k : KekRow) → find_kek u.id t ≡ some k
      → c.key ≡ wrapping_key e u.password_hash k

abbrev pub IsCoherent : Env → Tables → List CacheEntry → Type 0
IsCoherent e t cs = All (IsRight e t) cs

module _ (e : Env) (t : Tables) where
  pub cached_key-current :
      (cs : List CacheEntry) (u : User) (k : KekRow) {key : Bytes}
      → IsCoherent e t cs
      → Occurs u t.users
      → find_kek u.id t ≡ some k
      → cached_key u.id cs ≡ some key
      → key ≡ wrapping_key e u.password_hash k
  unfolding cached_key
  cached_key-current [] u k h o f q = cc
  cached_key-current (c ∷ cs) u k h o f q = elim (Bool-cases (holds u.id c)) [
    | inl hit ↦ ground (arith, h.0.current (ground arith) u o (ground arith) k f)
    | inr miss ↦ cached_key-current cs u k h.1 o f (ground arith)
  ]

  pub touch-IsCoherent :
      (user now : ℕ) (cs : List CacheEntry) → IsCoherent e t cs → IsCoherent e t (touch user now cs)
  unfolding touch
  touch-IsCoherent user now [] h = tt
  touch-IsCoherent user now (c ∷ cs) h = elim (Bool-cases (holds user c)) [
    | inl hit ↦ rw (hit, touch) (record { known = h.0.known; current = h.0.current }, h.1)
    | inr miss ↦ rw (miss, touch) (h.0, touch-IsCoherent user now cs h.1)
  ]

  pub write_slot-IsCoherent :
      (i : ℕ) (d : CacheEntry) (cs : List CacheEntry)
      → IsRight e t d
      → IsCoherent e t cs
      → IsCoherent e t (write_slot i d cs)
  unfolding write_slot
  write_slot-IsCoherent i d [] r h = tt
  write_slot-IsCoherent zero d (c ∷ cs) r h = (r, h.1)
  write_slot-IsCoherent (suc i) d (c ∷ cs) r h = (h.0, write_slot-IsCoherent i d cs r h.1)

-- Tables with the same users and keys, whose next user id is no smaller.
pub IsCoherent-same :
    (e : Env) (t t' : Tables) (cs : List CacheEntry)
    → t'.users ≡ t.users
    → t'.keks ≡ t.keks
    → t.next_user ≤ t'.next_user
    → IsCoherent e t cs
    → IsCoherent e t' cs
unfolding find_kek
IsCoherent-same e t t' cs users keks le h =
    All-map (IsRight e t) (IsRight e t') cs
      (λ c r. record {
        known = λ p. omega (arith, r.known p);
        current = λ p u o i k f.
            r.current p u (subst (Occurs u) users o) i k
              (ap (first (λ (k : KekRow). k.user_id == u.id)) (sym keks) ∙ f);
      })
      h

pub invalid-IsRight : (e : Env) (t : Tables) (c : CacheEntry) → c.valid ≡ false → IsRight e t c
invalid-IsRight e t c p = record {
  known = λ q. absurd (false≢true (sym p ∙ q));
  current = λ q. absurd (false≢true (sym p ∙ q));
}

-- After an invalidation the entries are right in any tables that changed for that user alone.
pub invalidate-IsCoherent :
    {e : Env} {t t' : Tables} (user : ℕ) (cs : List CacheEntry)
    → ((c : CacheEntry) → (c.user_id == user) ≡ false → IsRight e t c → IsRight e t' c)
    → IsCoherent e t cs
    → IsCoherent e t' (amend (holds user) erased cs)
invalidate-IsCoherent user [] f h = tt
invalidate-IsCoherent {e} {t} {t'} user (c ∷ cs) f h = (
  right (Bool-cases c.valid) (Bool-cases (c.user_id == user)),
  invalidate-IsCoherent user cs f h.1,
)
  where
    missed : (c.valid ≡ false) ⊎ ((c.user_id == user) ≡ false) → holds user c ≡ false
    missed h = ground arith

    hit : c.valid ≡ true → (c.user_id == user) ≡ true → holds user c ≡ true
    hit h k = ground arith

    right :
        (c.valid ≡ true) ⊎ (c.valid ≡ false)
        → ((c.user_id == user) ≡ true) ⊎ ((c.user_id == user) ≡ false)
        → IsRight e t' (if holds user c then erased c else c)
    right (inr vacant) _ =
        subst (λ b. IsRight e t' (if b then erased c else c)) (sym (missed (inl vacant)))
          (invalid-IsRight e t' c vacant)
    right (inl taken) (inr other) =
        subst (λ b. IsRight e t' (if b then erased c else c)) (sym (missed (inr other)))
          (f c other h.0)
    right (inl taken) (inl same) =
        subst (λ b. IsRight e t' (if b then erased c else c)) (sym (hit taken same))
          (invalid-IsRight e t' (erased c) refl)

-- What the cache's operations leave: nothing but the cache and its counters differs, and the cache
-- is coherent.
pub record CacheMoved (e : Env) (v v' : Vault) : Type 0 where
  pub same :
      v' ≡ record v { cache = v'.cache; cache_hits = v'.cache_hits; cache_misses = v'.cache_misses }
  pub coherent : IsCoherent e v.tables v'.cache

-- In sound tables a user is known by his id.
pub user_by_id :
    {t : Tables} (a b : User)
    → IsSound t
    → Occurs a t.users
    → Occurs b t.users
    → a.id ≡ b.id
    → a ≡ b
user_by_id {t} a b V o o' h =
    Distinct-eq same_user_id t.users a b (λ x y. ground arith) V.user_ids o o'
      ((==_iff a.id b.id).1 h)

module _ {e : Env} (v : Vault) (V : IsSound v.tables) (h : IsCoherent e v.tables v.cache) (u : User)
    (k : KekRow) (here : Occurs u v.tables.users) (found : find_kek u.id v.tables ≡ some k) where
  fresh_entry :
      (now : ℕ)
      → IsRight e v.tables (record {
        user_id = u.id;
        key = wrapping_key e u.password_hash k;
        last_used = now;
        valid = true;
      })
  fresh_entry now = record {
    known = λ _. All-Occurs (λ x. x.id < v.tables.next_user) v.tables.users u V.users_below here;
    current = λ _ x o i k' f.
        let same = user_by_id x u V o here i in
        ap₂ (wrapping_key e) (ap (λ (y : User). y.password_hash) (sym same))
          (some-injective k k' (sym found ∙ ap (λ n. find_kek n v.tables) (sym i) ∙ f));
  }

  unmoved : CacheMoved e v v
  unmoved = record { same = refl; coherent = h }

  -- In sound tables and with a coherent cache: a lookup for a user that exists finds nothing or
  -- the wrapping key that would be derived for him now, and leaves a coherent cache.
  pub cache_lookup-Runs :
      {E : Type 0}
      → Runs {E = E} e v
          (cache_lookup u.id)
          (λ o v'. ((o ≡ none) ⊎ (o ≡ some (wrapping_key e u.password_hash k))) × CacheMoved e v v')
          (λ _ v'. CacheMoved e v v')
  unfolding cache_lookup
  cache_lookup-Runs {E} = Reads-bind (Reads-gets _) (λ _. unmoved) scanned
    where
      scanned :
          (o : Option Bytes)
          → o ≡ cached_key u.id v.cache
          → Runs {E = E} e v
              (after_scan u.id o)
              (λ o v'.
                ((o ≡ none) ⊎ (o ≡ some (wrapping_key e u.password_hash k))) × CacheMoved e v v')
              (λ _ v'. CacheMoved e v v')
      scanned none p =
          Runs-after_modify _ (Runs-pure none (inl refl, record { same = refl; coherent = h }))
      scanned (some key) p =
          Reads-bind Reads-time (λ _. unmoved)
            λ now _. Runs-after_modify _ (
              Runs-pure (some key) (
                inr (ap some (cached_key-current e v.tables v.cache u k h here found (sym p))),
                record { same = refl; coherent = touch-IsCoherent e v.tables u.id now v.cache h },
              ))

  pub cache_insert-Runs :
      {E : Type 0}
      → Runs {E = E} e v
          (cache_insert u.id (wrapping_key e u.password_hash k))
          (λ _ v'. CacheMoved e v v')
          (λ _ v'. CacheMoved e v v')
  unfolding cache_insert
  cache_insert-Runs {E} =
      Reads-bind Reads-time (λ _. unmoved)
        λ _ _. Reads-bind (Reads-gets _) (λ _. unmoved) λ slot _. filled slot
    where
      filled :
          (slot : Option ℕ)
          → Runs {E = E} e v
              (fill_slot u.id (wrapping_key e u.password_hash k) slot)
              (λ _ v'. CacheMoved e v v')
              (λ _ v'. CacheMoved e v v')
      filled none = Runs-pure tt unmoved
      filled (some slot) =
          Reads-bind Reads-time (λ _. unmoved)
            λ now _. Runs-modify _ (record {
              same = refl;
              coherent = write_slot-IsCoherent e v.tables slot _ v.cache (fresh_entry now) h;
            })
