-- ===== src/Db/Migrations.antt =====
-- src/db/migrations.cc, and db_create_schema of src/db/database.cc. The tables of the model are there
-- from the beginning, as CREATE TABLE IF NOT EXISTS makes them.
pub mod Runs
use vaultine.Prelude.{
  ℕ, Bool, true, false, ◌==◌, ltb, leb, Option, none, some, List, [], ◌∷◌, if◌then◌else◌,
}
use vaultine.World.{Tables}
use vaultine.Exec.{Exec, Try, pure, leave, require, attempt, present, call, call_by, ◌>>=◌, ◌>>◌}
use vaultine.Db.{begin_immediate, commit, rollback, on_tables, select}

pub record Migration : Type 0 where
  pub from_version : ℕ
  pub to_version : ℕ
  pub sql : Tables → Tables
  pub rollback_sql : Tables → Tables

abbrev pub migrations : List Migration
migrations =
    record {
      from_version = 1;
      to_version = 2;
      sql = λ t. record t { user_index = true };
      rollback_sql = λ t. record t { user_index = false };
    }
    ∷ record {
      from_version = 2;
      to_version = 3;
      sql = λ t. record t { name_index = true };
      rollback_sql = λ t. record t { name_index = false };
    }
    ∷ []

abbrev pub ssm_schema_version : ℕ
ssm_schema_version = 3

abbrev pub version_read : {E : Type 0} → Option (Unit {0}) → Exec E ℕ
version_read none = pure 0
version_read (some _) = select (λ t. t.user_version)

-- -1 is a failure.
unfoldable pub db_get_version : Try ℕ
db_get_version = do call; row ← attempt (call_by (λ e. e.row_fails)); version_read row

unfoldable pub db_set_version : ℕ → Try Unit
db_set_version version = do call; on_tables (λ t. record t { user_version = version })

abbrev pub end_step : Option (Unit {0}) → Try Unit
end_step none = do rollback; leave tt
end_step (some _) = commit

-- One statement and the new version, in a transaction.
unfoldable pub versioned_step : (Tables → Tables) → ℕ → Try Unit
versioned_step statement version = do
  begin_immediate
  done ← attempt (do call; on_tables statement; db_set_version version)
  end_step done

-- The loop; the result is `current` after it.
unfoldable pub migrate_from : ℕ → List Migration → Try ℕ
migrate_from current [] = pure current
migrate_from current (m ∷ ms) =
    if m.from_version == current
    then (do versioned_step m.sql m.to_version; migrate_from m.to_version ms)
    else migrate_from current ms

-- Version 0 is a schema from before there were migrations.
abbrev pub adopt : ℕ → Try ℕ
adopt current = if current == 0 then (do db_set_version 1; pure 1) else pure current

unfoldable pub db_migrate : Try Unit
db_migrate = do
  found ← db_get_version
  current ← adopt found
  if leb ssm_schema_version current then pure tt else (do
    reached ← migrate_from current migrations
    require (reached == ssm_schema_version) tt)

-- The loop over the migrations from the last to the first.
unfoldable pub rollback_from : ℕ → ℕ → List Migration → Try Unit
rollback_from target current [] = leave tt
rollback_from target current (m ∷ ms) =
    if m.to_version == current
    then (do
      versioned_step m.rollback_sql m.from_version
      if m.from_version == target then pure tt else rollback_from target m.from_version ms)
    else rollback_from target current ms

abbrev pub backwards : List Migration → List Migration → List Migration
backwards done [] = done
backwards done (m ∷ ms) = backwards (m ∷ done) ms

-- For a target that is not below zero.
unfoldable pub db_rollback : ℕ → Try Unit
db_rollback target = do
  current ← db_get_version
  require (ltb target current) tt
  rollback_from target current (backwards [] migrations)

unfoldable pub db_create_schema : Try Unit
db_create_schema = do
  call
  version ← attempt db_get_version
  if elim version [ none ↦ false | some n ↦ n == 0 ]
      then (do attempt (db_set_version 1); pure tt)
      else pure tt
