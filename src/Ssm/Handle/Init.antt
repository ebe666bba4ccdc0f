-- ===== src/Ssm/Handle/Init.antt =====
-- ssm_init of src/ssm.cc: what a handle begins with.
use mathlib.Core.Path.{subst⁻¹}
use vaultine.Prelude.{
  ℕ, ◌≤◌, ◌≡◌, refl, sym, ◌∙◌, ap, Bytes, Bool, false, Option, none, some, All-replicate, replicate,
  arith,
}
use vaultine.World.{Env, Vault, Tables, err_internal}
use vaultine.Exec.{Exec, ◌or_return◌}
use vaultine.Exec.Runs.{
  Runs, Runs-bind, Runs-attempt, Runs-weaken, Runs-or_return, Runs-modify, Runs-after_modify,
  Reads-call_by, Reads-time, Reads-ask,
}
use vaultine.Exec.Stays.{
  Stays, Stays-bind, Stays-or_return, Stays-attempt, Stays-if, Stays-pure, Stays-leave, Stays-call,
  Stays-deref, Stays-require, Stays-Reads, Stays-gets,
}
use vaultine.Crypto.Reads.{secure_alloc-Reads}
use vaultine.Crypto.{is_empty}
use vaultine.Cache.{ssm_cache_max}
use vaultine.Cache.Coherent.{IsRight, invalid-IsRight}
use vaultine.Db.{with_tables}
use vaultine.Db.AuditLog.{prune_audit, audit_log_prune}
use vaultine.Db.Transaction.{IsSteady}
use vaultine.Db.Migrations.{
  db_create_schema, db_migrate, db_get_version, db_set_version, version_read,
}
use vaultine.Db.Migrations.Runs.{IsVersioned, Migrated, db_set_version-Runs, db_migrate-Runs}
use vaultine.Sound.{IsSound}
use vaultine.Ssm.Done.{IsGood}
use vaultine.Ssm.Handle.{
  null_handle, bad_handle, db_open, unlock_db, sqlcipher_is_present, vacant, ssm_init,
}

-- The rows of `t`, the audit log aside, under a version of the schema that says which indexes exist,
-- and no open transaction.
pub record Begun (t : Tables) (v : Vault) : Type 0 where
  pub same : v.tables ≡ record t {
    audit = v.tables.audit;
    user_version = v.tables.user_version;
    user_index = v.tables.user_index;
    name_index = v.tables.name_index;
  }
  pub kept : IsVersioned v.tables
  pub idle : v.saved ≡ none

module _ {t : Tables} where
  Migrated-Begun : {v v' : Vault} → Begun t v → Migrated v v' → Begun t v'
  Migrated-Begun {v} {v'} h m = record {
    same =
        ap (λ (u : Vault). u.tables) m.same
        ∙ ap
            (λ (s : Tables). record s {
              user_version = v'.tables.user_version;
              user_index = v'.tables.user_index;
              name_index = v'.tables.name_index;
            })
            h.same
        ∙ ap
            (λ (u : Vault). record t {
              audit = u.tables.audit;
              user_version = v'.tables.user_version;
              user_index = v'.tables.user_index;
              name_index = v'.tables.name_index;
            })
            (sym m.same);
    kept = m.kept;
    idle = ap (λ (u : Vault). u.saved) m.same ∙ h.idle;
  }

  first_version-Begun :
      {v : Vault} → Begun t v → Begun t (with_tables (λ s. record s { user_version = 1 }) v)
  first_version-Begun {v} h = record {
    same = ap (λ (s : Tables). record s { user_version = 1 }) h.same;
    kept = record {
      user_index = λ q. absurd (omega arith);
      name_index = λ q. absurd (omega arith);
    };
    idle = h.idle;
  }

  prune_audit-Begun :
      {v : Vault} (limit : Bytes) → Begun t v → Begun t (with_tables (prune_audit limit) v)
  unfolding prune_audit
  prune_audit-Begun {v} limit h = record {
    same = ap (λ (s : Tables). record s { audit = (prune_audit limit v.tables).audit }) h.same;
    kept = record { user_index = h.kept.user_index; name_index = h.kept.name_index };
    idle = h.idle;
  }

module _ {e : Env} {t : Tables} where
  set_version-Stays : Stays e (Begun t) (db_set_version 1)
  set_version-Stays v h =
      Runs-weaken (db_set_version-Runs v 1) (λ _ _ q. subst⁻¹ (Begun t) q (first_version-Begun h))
        (λ _ _ q. subst⁻¹ (Begun t) q h)

  get_version-Stays : Stays e (Begun t) db_get_version
  unfolding db_get_version
  get_version-Stays =
      Stays-bind Stays-call
        λ _. Stays-bind (Stays-attempt (Stays-Reads (λ v. Reads-call_by _))) version_of
    where
      version_of : (row : Option (Unit {0})) → Stays {E = Unit {0}} e (Begun t) (version_read row)
      version_of none = Stays-pure 0
      version_of (some _) = Stays-gets _

  db_create_schema-Stays : Stays e (Begun t) db_create_schema
  unfolding db_create_schema
  db_create_schema-Stays = Stays-bind Stays-call λ _.
      Stays-bind (Stays-attempt get_version-Stays) λ version.
        Stays-if _ (Stays-bind (Stays-attempt set_version-Stays) λ _. Stays-pure tt) (Stays-pure tt)

module _ {e : Env} {P : Vault → Type 0} where
  unlock_db-Stays : (key : Option Bytes) → Stays e P (unlock_db key)
  unlock_db-Stays none = Stays-leave null_handle
  unlock_db-Stays (some key) =
      Stays-if (is_empty key) (Stays-leave null_handle) (Stays-or_return null_handle Stays-call)

  db_open-Stays :
      (sqlcipher : Bool) (path key : Option Bytes) → Stays e P (db_open sqlcipher path key)
  unfolding db_open sqlcipher_is_present
  db_open-Stays sqlcipher path key = Stays-bind (Stays-deref path null_handle) λ _.
      Stays-bind (Stays-or_return bad_handle Stays-call) λ _.
        Stays-bind (Stays-attempt (Stays-bind Stays-call λ _. Stays-require sqlcipher tt))
          λ there. Stays-if _ (unlock_db-Stays key) (Stays-pure tt)

-- As Begun, under version 3 of the schema or a later one.
abbrev pub Current : Tables → Vault → Type 0
Current t v = Begun t v × (3 ≤ v.tables.user_version)

module _ {e : Env} {t : Tables} where
  audit_log_prune-Stays : (days : ℕ) → Stays e (Current t) (audit_log_prune days)
  unfolding audit_log_prune prune_audit
  audit_log_prune-Stays days = Stays-bind (Stays-require _ tt) λ _. Stays-bind Stays-call λ _.
      Stays-bind Stays-call λ _. Stays-bind (Stays-Reads (λ v. Reads-time)) λ now.
        Stays-bind (Stays-Reads (λ v. Reads-ask _))
          λ limit v h. Runs-modify _ (prune_audit-Begun limit h.0, h.1)

  vacant-IsGood :
      {v : Vault} (hits misses : ℕ)
      → IsSound t
      → Begun t v
      → IsGood e (record v {
        cache = replicate ssm_cache_max vacant;
        cache_hits = hits;
        cache_misses = misses;
      })
  vacant-IsGood {v} hits misses V h = record {
    sound = subst⁻¹ IsSound h.same (record {
      user_ids = V.user_ids;
      usernames = V.usernames;
      users_below = V.users_below;
      users_positive = V.users_positive;
      owners = V.owners;
      versions = V.versions;
      keks_owned = V.keks_owned;
      secret_ids = V.secret_ids;
      secret_names = V.secret_names;
      secrets_below = V.secrets_below;
      secrets_owned = V.secrets_owned;
    });
    coherent =
        All-replicate (IsRight e v.tables) ssm_cache_max vacant
          (invalid-IsRight e v.tables vacant refl);
    idle = h.idle;
  }

module _ {e : Env} {E A : Type 0} {t : Tables} {v : Vault} {m : Exec E A} where
  -- `if (!m) return SSM_ERR_INTERNAL;`
  failing :
      {Q : A → Vault → Type 0}
      → Runs e v m Q (λ _ v'. Begun t v')
      → Runs e v (m or_return err_internal) Q (λ s v'. (s ≡ err_internal) × Begun t v')
  failing h = Runs-or_return err_internal (Runs-weaken h (λ _ _ q. q) (λ _ _ q. (refl, q)))

  finishing :
      {P : Vault → Type 0}
      → ((v' : Vault) → P v' → Begun t v')
      → Stays e P m
      → P v
      → Runs e v (m or_return err_internal) (λ _ v'. P v') (λ s v'. (s ≡ err_internal) × Begun t v')
  finishing f h p = failing (Runs-weaken (h v p) (λ _ _ q. q) (λ _ v' q. f v' q))

module _ {e : Env} (S : IsSteady e) where
  migrating :
      ((n : ℕ) → e.row_fails n ≡ false)
      → {t : Tables} {v : Vault} → Begun t v
      → Runs e v db_migrate (λ _ v'. Current t v') (λ _ v'. Begun t v')
  migrating complete h =
      Runs-weaken (db_migrate-Runs S complete _ h.idle h.kept)
        (λ _ _ q. (Migrated-Begun h q.0, q.1)) (λ _ _ q. Migrated-Begun h q)

  -- Where BEGIN and COMMIT are not refused and every row can be read, for a database with sound
  -- tables whose version says which indexes exist: a handle that ssm_init opens has the same users,
  -- keys and secrets, a cache that agrees with them and no open transaction, under version 3 of the
  -- schema or a later one; where ssm_init fails it returns SSM_ERR_INTERNAL, and no user, key or
  -- secret has changed.
  pub ssm_init-IsGood :
      ((n : ℕ) → e.row_fails n ≡ false)
      → (sqlcipher : Bool) (path key : Option Bytes) (v : Vault) → IsSound v.tables
      → IsVersioned v.tables
      → v.saved ≡ none
      → Runs e v
          (ssm_init sqlcipher path key)
          (λ _ v'. IsGood e v' × Current v.tables v')
          (λ s v'. (s ≡ err_internal) × Begun v.tables v')
  unfolding ssm_init
  ssm_init-IsGood complete sqlcipher path key v V h idle =
      Runs-bind (failing (Stays-call v begin)) λ _ v₁ h₁.
        Runs-bind (failing (db_open-Stays sqlcipher path key v₁ h₁)) λ _ v₂ h₂.
          Runs-bind (failing (db_create_schema-Stays v₂ h₂)) λ _ v₃ h₃.
            Runs-bind (failing (migrating complete h₃)) λ _ v₄ h₄.
              Runs-bind {Q = λ _ v'. Current v.tables v'}
                (Runs-attempt (audit_log_prune-Stays 90 v₄ h₄))
                λ _ v₅ h₅.
                  Runs-bind
                    (finishing {P = Current v.tables} (λ _ o. o.0)
                      (Stays-Reads (λ _. secure_alloc-Reads _)) h₅)
                    λ _ v₆ h₆. Runs-after_modify _ (
                      finishing {P = λ u. IsGood e u × Current v.tables u} (λ _ o. o.1.0) Stays-call
                        (vacant-IsGood 0 0 V h₆.0, (recached h₆.0, h₆.1)))
    where
      recached :
          {u : Vault} {hits misses : ℕ}
          → Begun v.tables u
          → Begun v.tables (record u {
            cache = replicate ssm_cache_max vacant;
            cache_hits = hits;
            cache_misses = misses;
          })
      recached o = record { same = o.same; kept = o.kept; idle = o.idle }

      begin : Begun v.tables v
      begin = record { same = refl; kept = h; idle = idle }
