-- ===== src/Ssm/Done.antt =====
-- What an operation of src/ssm.cc leaves in the vault: its tables, a longer audit log, and a cache that
-- agrees with them. The key that open_kek returns.
use vaultine.Prelude.{
  ℕ, Bytes, Occurs, ◌≡◌, refl, sym, ◌∙◌, ap, ◌⊎◌, inl, inr, Option, none, some, List, ◌++◌, arith,
}
use vaultine.World.{Env, err_internal, User, KekRow, AuditEntry, CacheEntry, Vault, Tables}
use vaultine.Exec.{Exec}
use mathlib.Core.Path.{subst, subst⁻¹}
use mathlib.Core.Option.{some-injective}
use mathlib.Core.List.{append_assoc}
use vaultine.Exec.Runs.{Runs, Reads-bind, Runs-bind, Runs-weaken, Runs-pure, Runs-or_return}
use vaultine.Crypto.Reads.{secure_alloc-Reads, aes_kw_unwrap-Reads}
use vaultine.Kek.Reads.{kek_derive_wrapping_key-Reads}
use vaultine.Db.Sql.{find_user, find_kek, find_secret}
use vaultine.Reveal.{wrapping_key, unlock, reveal, secret_of, kek_of}
use vaultine.Sound.{IsSound}
use vaultine.Cache.Coherent.{
  IsCoherent, IsCoherent-same, CacheMoved, cache_lookup-Runs, cache_insert-Runs,
}
use vaultine.Ssm.{otherwise, derive_and_cache, open_kek}
use native.Mathlib.Nat.{le_refl}
use vaultine.Ssm.Runs.{Logged, unlogged}

-- An operation left the tables `t`, but for entries added to the audit log, and a coherent cache.
pub record Done (e : Env) (t : Tables) (v v' : Vault) : Type 0 where
  pub added : List AuditEntry
  pub grown : v'.tables.audit ≡ t.audit ++ added
  pub same : v' ≡ record v {
    tables = record t { audit = v'.tables.audit; next_audit = v'.tables.next_audit };
    cache = v'.cache;
    cache_hits = v'.cache_hits;
    cache_misses = v'.cache_misses;
  }
  pub coherent : IsCoherent e t v'.cache

-- An operation that changed no user, key or secret.
abbrev pub Served : Env → Vault → Vault → Type 0
Served e v v' = Done e v.tables v v'

-- A statement left the tables `t`, the cache was changed, and audit entries were written.
pub left_then-Logged :
    {e : Env} {t : Tables} {v v₁ v₂ : Vault} {c : List CacheEntry} {hits misses : ℕ}
    → v₁ ≡ record v { tables = t; cache = c; cache_hits = hits; cache_misses = misses }
    → IsCoherent e t c
    → Logged v₁ v₂
    → Done e t v v₂
left_then-Logged {e} {t} {v} {v₁} {v₂} {c} {hits} {misses} p h l = record {
  added = l.added;
  grown = l.grown ∙ ap (λ (u : Vault). u.tables.audit ++ l.added) p;
  same =
      end
      ∙ ap
          (λ (u : Vault). record v {
            tables = record t { audit = v₂.tables.audit; next_audit = v₂.tables.next_audit };
            cache = u.cache;
            cache_hits = u.cache_hits;
            cache_misses = u.cache_misses;
          })
          (sym end);
  coherent = subst (IsCoherent e t) (ap (λ (u : Vault). u.cache) (sym end)) h;
}
  where
    end : v₂ ≡ record v {
      tables = record t { audit = v₂.tables.audit; next_audit = v₂.tables.next_audit };
      cache = c;
      cache_hits = hits;
      cache_misses = misses;
    }
    end =
        l.same
        ∙ ap
            (λ (u : Vault). record u {
              tables = record u.tables {
                audit = v₂.tables.audit;
                next_audit = v₂.tables.next_audit;
              };
            })
            p

-- The cache moved, a statement left the tables `t`, and audit entries were written.
pub changed_then-Logged :
    {e : Env} {t : Tables} {v v₁ v₂ v₃ : Vault}
    → CacheMoved e v v₁
    → v₂ ≡ record v₁ { tables = t }
    → (IsCoherent e v.tables v₁.cache → IsCoherent e t v₁.cache)
    → Logged v₂ v₃
    → Done e t v v₃
changed_then-Logged {t = t} m p f l =
    left_then-Logged (p ∙ ap (λ (u : Vault). record u { tables = t }) m.same) (f m.coherent) l

pub moved_then-Logged :
    {e : Env} {v v₁ v₂ : Vault} → CacheMoved e v v₁ → Logged v₁ v₂ → Served e v v₂
moved_then-Logged {v₁ = v₁} m l =
    changed_then-Logged m (ap (λ t. record v₁ { tables = t }) (ap (λ (u : Vault). u.tables) m.same))
      (λ h. h) l

pub Logged-Served :
    {e : Env} {v v' : Vault} → IsCoherent e v.tables v.cache → Logged v v' → Served e v v'
Logged-Served h l = moved_then-Logged (record { same = refl; coherent = h }) l

-- What runs before an operation: the tables are sound, the cache is coherent, no transaction is open.
pub record IsGood (e : Env) (v : Vault) : Type 0 where
  pub sound : IsSound v.tables
  pub coherent : IsCoherent e v.tables v.cache
  pub idle : v.saved ≡ none

-- The rest of a block runs after the cache has moved as it runs in the same vault with that cache.
pub after_move :
    {e : Env} {E A : Type 0} {v v' : Vault} {m : Exec E A} {Q : A → Vault → Type 0}
    {R : E → Vault → Type 0}
    → CacheMoved e v v'
    → ((c : List CacheEntry) (hits misses : ℕ)
        → IsCoherent e v.tables c
        → Runs e (record v { cache = c; cache_hits = hits; cache_misses = misses }) m Q R)
    → Runs e v' m Q R
after_move {e} {m = m} {Q = Q} {R = R} h k =
    subst⁻¹ (λ u. Runs e u m Q R) h.same (k _ _ _ h.coherent)

module _ {e : Env} {v : Vault} (G : IsGood e v) (u : User) (k : KekRow)
    (here : Occurs u v.tables.users) (found : find_kek u.id v.tables ≡ some k) where
  abbrev pub Keyed : Bytes → Vault → Type 0
  Keyed key v' = (key ≡ wrapping_key e u.password_hash k) × CacheMoved e v v'

  pub keyed :
      (o : Option Bytes) (c : List CacheEntry) (hits misses : ℕ)
      → (o ≡ none) ⊎ (o ≡ some (wrapping_key e u.password_hash k))
      → IsCoherent e v.tables c
      → Runs e
          (record v { cache = c; cache_hits = hits; cache_misses = misses })
          (otherwise o (derive_and_cache u k))
          Keyed
          (λ _ v'. CacheMoved e v v')
  keyed (some key) c hits misses p h =
      Runs-pure key
        (elim p [ inl q ↦ cc | inr q ↦ some-injective _ _ q ], record { same = refl; coherent = h })
  keyed none c hits misses p h =
      Reads-bind
        (Runs-or_return err_internal (kek_derive_wrapping_key-Reads u.password_hash k.salt _))
        (λ _. record { same = refl; coherent = h })
        λ key q. rw q (
          Runs-bind
            (Runs-weaken (cache_insert-Runs _ G.sound h u k here found)
              (λ _ v' m. record { same = m.same; coherent = m.coherent })
              (λ _ v' m. record { same = m.same; coherent = m.coherent }))
            (λ _ v' m. Runs-pure _ (refl, m)))

  -- In a vault with sound tables, a coherent cache and no open transaction: the KEK that is opened
  -- for a user is the one that his hash and his KEK row unlock, whether its wrapping key came from
  -- the cache or was derived, and the cache stays coherent on every return.
  pub open_kek-Runs :
      Runs e v
        (open_kek u k)
        (λ kek v'. (unlock e u.password_hash k ≡ some kek) × CacheMoved e v v')
        (λ _ v'. CacheMoved e v v')
  unfolding open_kek
  open_kek-Runs =
      Reads-bind (Runs-or_return err_internal (secure_alloc-Reads _)) (λ _. still)
        λ _ _.
          Reads-bind (Runs-or_return err_internal (secure_alloc-Reads _)) (λ _. still)
            λ _ _. Runs-bind (cache_lookup-Runs v G.sound G.coherent u k here found) λ o v₁ h.
              Runs-bind (after_move h.1 (λ c hits misses. keyed o c hits misses h.0)) λ key v₂ q.
                Runs-weaken {R = λ _ v'. v' ≡ v₂}
                  (Runs-or_return err_internal (aes_kw_unwrap-Reads k.wrapped_kek key))
                  (λ kek v₃ r. (ap (λ x. e.key_unwrap x k.wrapped_kek) (sym q.0) ∙ r.1, rw r.0 q.1))
                  (λ _ v₃ r. rw r q.1)
    where
      still : CacheMoved e v v
      still = record { same = refl; coherent = G.coherent }

pub Served-moved : {e : Env} {v v' : Vault} → CacheMoved e v v' → Served e v v'
Served-moved m = moved_then-Logged m (unlogged refl)

logged_IsSound :
    {t : Tables} {a : List AuditEntry} {n : ℕ}
    → IsSound t
    → IsSound (record t { audit = a; next_audit = n })
logged_IsSound V = record {
  user_ids = V.user_ids;
  usernames = V.usernames;
  users_below = V.users_below;
  users_positive = V.users_positive;
  owners = V.owners;
  versions = V.versions;
  keks_owned = V.keks_owned;
  secret_ids = V.secret_ids;
  secret_names = V.secret_names;
  secrets_below = V.secrets_below;
  secrets_owned = V.secrets_owned;
}

module _ {e : Env} {t : Tables} {v v' : Vault} (h : Done e t v v') where
  -- The secrets are those of `t`.
  pub Done-reveal :
      (username name : Bytes) → reveal e v'.tables username name ≡ reveal e t username name
  unfolding reveal secret_of kek_of find_user find_kek find_secret
  Done-reveal username name = ap (λ (u : Vault). reveal e u.tables username name) h.same

  pub Done-find_user : (name : Bytes) → find_user name v'.tables ≡ find_user name t
  unfolding find_user
  Done-find_user name = ap (λ (u : Vault). find_user name u.tables) h.same

  pub Done-IsGood : v.saved ≡ none → IsSound t → IsGood e v'
  Done-IsGood idle V = record {
    sound = subst⁻¹ IsSound tables (logged_IsSound V);
    coherent =
        subst⁻¹ (λ x. IsCoherent e x v'.cache) tables
          (IsCoherent-same e t _ _ refl refl (le_refl _) h.coherent);
    idle = ap (λ (u : Vault). u.saved) h.same ∙ idle;
  }
    where
      tables : v'.tables ≡ record t { audit = v'.tables.audit; next_audit = v'.tables.next_audit }
      tables = ap (λ (u : Vault). u.tables) h.same

-- What two operations that changed no user, key or secret leave.
pub Served-trans : {e : Env} {v v' v'' : Vault} → Served e v v' → Served e v' v'' → Served e v v''
Served-trans {e} {v} {v'} {v''} h k = record {
  added = h.added ++ k.added;
  grown = k.grown ∙ ap (λ a. a ++ k.added) h.grown ∙ append_assoc v.tables.audit h.added k.added;
  same =
      k.same
      ∙ ap
          (λ (u : Vault). record u {
            tables = record u.tables {
              audit = v''.tables.audit;
              next_audit = v''.tables.next_audit;
            };
            cache = v''.cache;
            cache_hits = v''.cache_hits;
            cache_misses = v''.cache_misses;
          })
          h.same;
  coherent =
      IsCoherent-same e _ _ _ (ap (λ (u : Vault). u.tables.users) (sym h.same))
        (ap (λ (u : Vault). u.tables.keks) (sym h.same))
        (omega (arith, ap (λ (u : Vault). u.tables.next_user) h.same)) k.coherent;
}
