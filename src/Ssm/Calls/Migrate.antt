-- ===== src/Ssm/Calls/Migrate.antt =====
-- ssm_db_migrate of src/ssm.cc keeps the invariant of the vault and every secret.
use mathlib.Core.Path.{subst⁻¹}
use native.Mathlib.Nat.{le_refl}
use vaultine.Prelude.{
  ℕ, Bytes, ◌≡◌, refl, Bool, true, Option, none, some, All, List, [], ◌∷◌, ◌==◌, leb,
}
use vaultine.World.{Env, Vault, err_internal}
use vaultine.Exec.Runs.{Runs, Runs-weaken, Reads-call_by}
use vaultine.Exec.Stays.{
  Stays, Stays-bind, Stays-or_return, Stays-attempt, Stays-if, Stays-pure, Stays-call, Stays-gets,
  Stays-Reads, Stays-require,
}
use vaultine.Cache.Coherent.{IsCoherent-same}
use vaultine.Db.{with_tables}
use vaultine.Db.Sql.{find_user, find_kek, find_secret}
use vaultine.Db.Transaction.{IsSteady}
use vaultine.Db.Migrations.{
  Migration, migrations, version_read, db_get_version, db_set_version, migrate_from, db_migrate,
}
use vaultine.Db.Migrations.Runs.{versioned, versioned_step-Runs, db_set_version-Runs}
use vaultine.Reveal.{reveal, secret_of, kek_of}
use vaultine.Ssm.Done.{IsGood}
use vaultine.Ssm.Handle.{ssm_db_migrate}

-- What a migration may change.
module _ {e : Env} where
  schema_IsGood :
      {v : Vault} (n : ℕ) (a b : Bool)
      → IsGood e v
      → IsGood e (record v {
        tables = record v.tables { user_version = n; user_index = a; name_index = b };
      })
  schema_IsGood {v} n a b G = record {
    sound = record {
      user_ids = G.sound.user_ids;
      usernames = G.sound.usernames;
      users_below = G.sound.users_below;
      users_positive = G.sound.users_positive;
      owners = G.sound.owners;
      versions = G.sound.versions;
      keks_owned = G.sound.keks_owned;
      secret_ids = G.sound.secret_ids;
      secret_names = G.sound.secret_names;
      secrets_below = G.sound.secrets_below;
      secrets_owned = G.sound.secrets_owned;
    };
    coherent = IsCoherent-same e v.tables _ _ refl refl (le_refl _) G.coherent;
    idle = G.idle;
  }

-- A property that says that no transaction is open, and that does not read the schema.
module _ {e : Env} (S : IsSteady e) (P : Vault → Type 0) (idle : (v : Vault) → P v → v.saved ≡ none)
    (schema : (v : Vault) (n : ℕ) (a b : Bool)
      → P v
      → P (record v {
        tables = record v.tables { user_version = n; user_index = a; name_index = b };
      })) where
  abbrev KeepsP : Migration → Type 0
  KeepsP m = (v : Vault) → P v → P (with_tables (versioned m.sql m.to_version) v)

  migrate_from-Stays :
      (current : ℕ) (ms : List Migration) → All KeepsP ms → Stays e P (migrate_from current ms)
  unfolding migrate_from
  migrate_from-Stays current [] h = Stays-pure current
  migrate_from-Stays current (m ∷ ms) h =
      Stays-if (m.from_version == current)
        (Stays-bind
          (λ v G.
            Runs-weaken (versioned_step-Runs S v m.sql m.to_version (idle v G))
              (λ _ _ q. subst⁻¹ P q (h.0 v G)) (λ _ _ q. subst⁻¹ P q G))
          λ _. migrate_from-Stays m.to_version ms h.1)
        (migrate_from-Stays current ms h.1)

  set_version-Stays : (n : ℕ) → Stays e P (db_set_version n)
  set_version-Stays n v G =
      Runs-weaken (db_set_version-Runs v n)
        (λ _ _ q. subst⁻¹ P q (schema v n v.tables.user_index v.tables.name_index G))
        (λ _ _ q. subst⁻¹ P q G)

  db_get_version-Stays : Stays e P db_get_version
  unfolding db_get_version
  db_get_version-Stays =
      Stays-bind Stays-call
        λ _. Stays-bind (Stays-attempt (Stays-Reads (λ v. Reads-call_by _))) version_of
    where
      version_of : (row : Option (Unit {0})) → Stays {E = Unit {0}} e P (version_read row)
      version_of none = Stays-pure 0
      version_of (some _) = Stays-gets _

  db_migrate-Stays : Stays e P db_migrate
  unfolding db_migrate
  db_migrate-Stays = Stays-bind db_get_version-Stays λ found.
      Stays-bind
        (Stays-if (found == 0) (Stays-bind (set_version-Stays 1) λ _. Stays-pure 1)
          (Stays-pure found))
        λ current. Stays-if (leb 3 current) (Stays-pure tt) (
          Stays-bind
            (migrate_from-Stays current migrations (
              λ v G. schema v 2 true v.tables.name_index G,
              (λ v G. schema v 3 v.tables.user_index true G, tt),
            ))
            λ reached. Stays-require _ tt)

  migrated-Stays : Stays e P ssm_db_migrate
  unfolding ssm_db_migrate
  migrated-Stays = Stays-or_return err_internal db_migrate-Stays

module _ {e : Env} (S : IsSteady e) where
  pub ssm_db_migrate-Stays : Stays e (IsGood e) ssm_db_migrate
  ssm_db_migrate-Stays =
      migrated-Stays S (IsGood e) (λ v G. G.idle) (λ v n a b G. schema_IsGood n a b G)

  -- No secret changes.
  abbrev Same : Vault → Vault → Type 0
  Same v v' =
      (username name : Bytes) → reveal e v'.tables username name ≡ reveal e v.tables username name

  pub ssm_db_migrate-reveal :
      {v : Vault} → IsGood e v → Runs e v ssm_db_migrate (λ _ v'. Same v v') (λ _ v'. Same v v')
  unfolding reveal secret_of kek_of find_user find_kek find_secret
  ssm_db_migrate-reveal {v} G =
      Runs-weaken
        (migrated-Stays S (λ v'. (v'.saved ≡ none) × Same v v') (λ v' h. h.0) (λ v' n a b h. h) v
          (G.idle, λ u n. refl))
        (λ _ _ h. h.1) (λ _ _ h. h.1)
