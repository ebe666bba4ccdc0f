-- ===== src/Db.antt =====
-- src/db: the connection and its transactions. The children are its files.
pub mod Sql
pub mod Runs
pub mod Find
pub mod Transaction
pub mod Users
pub mod KekMetadata
pub mod Secrets
pub mod AuditLog
pub mod Migrations
use vaultine.Prelude.{ℕ, Bytes, Bool, true, false, Option, none, some, List, [], ◌∷◌, if◌then◌else◌}
use vaultine.World.{Env, World, Vault, Tables}
use vaultine.Exec.{
  Exec, Try, value, pure, leave, gets, modify, tick, continue, require, ask, attempt, present,
  call_by, ignore_call, time, ◌>>=◌, ◌>>◌,
}

abbrev pub is_open : Vault → Bool
is_open v = elim v.saved [ none ↦ false | some _ ↦ true ]

-- BEGIN IMMEDIATE is an error inside a transaction.
unfoldable pub begin_immediate : Try Unit
begin_immediate = do
  call_by (λ e. e.begin_fails)
  inside ← gets is_open
  if inside then leave tt else modify (λ v. record v { saved = some v.tables })

-- COMMIT may fail, and then the transaction stays open. It is an error outside of one.
unfoldable pub commit : Try Unit
commit = do
  call_by (λ e. e.commit_fails)
  inside ← gets is_open
  if inside then modify (λ v. record v { saved = none }) else leave tt

abbrev pub restored : Vault → Vault
restored v = elim v.saved [ none ↦ v | some t ↦ record v { tables = t; saved = none } ]

-- ROLLBACK puts the tables back that the transaction began with, and is an error outside of one,
-- which no caller looks at.
unfoldable pub rollback : {E : Type 0} → Exec E Unit
rollback = do ignore_call; modify restored

abbrev pub with_tables : (Tables → Tables) → Vault → Vault
with_tables f v = record v { tables = f v.tables }

abbrev pub on_tables : {E : Type 0} → (Tables → Tables) → Exec E Unit
on_tables f = modify (with_tables f)

abbrev pub select : {E A : Type 0} → (Tables → A) → Exec E A
select f = gets (λ v. f v.tables)

abbrev pub format_time : {E : Type 0} → ℕ → Exec E Bytes
format_time t = ask (λ e. e.strftime t)

-- strftime('%Y-%m-%dT%H:%M:%SZ','now') inside a statement.
unfoldable pub sql_now : {E : Type 0} → Exec E Bytes
sql_now = do t ← time; format_time t

-- while (sqlite3_step(stmt) == SQLITE_ROW): a row that cannot be read ends the loop as the end of
-- the result does.
unfoldable pub fetch_rows : {E A : Type 0} → List A → Exec E (List A)
fetch_rows [] = do ignore_call; pure []
fetch_rows (r ∷ rs) = do
  there ← attempt (call_by (λ e. e.row_fails))
  if present there then (do rest ← fetch_rows rs; pure (r ∷ rest)) else pure []
