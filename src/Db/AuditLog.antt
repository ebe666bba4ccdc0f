-- ===== src/Db/AuditLog.antt =====
-- src/db/audit_log.cc.
use vaultine.Prelude.{
  ℕ, suc, ◌-◌, ◌*◌, Bytes, eqb, lex_leb, Bool, true, ◌&&◌, ltb, leb, Option, none, some, List, [],
  ◌∷◌, ◌++◌, keep, take, drop, if◌then◌else◌,
}
use vaultine.World.{AuditEntry, Tables}
use vaultine.Exec.{Try, require, call, time, ◌>>=◌, ◌>>◌}
use vaultine.Db.{on_tables, select, sql_now, format_time, fetch_rows}
use vaultine.Db.Sql.{order_by}

-- What audit_log_write is given.
pub record Event : Type 0 where
  pub user_id : ℕ
  pub username : Bytes
  pub operation : Bytes
  pub result : Bytes
  pub operation_target : Option Bytes
  pub details : Option Bytes

-- INSERT INTO audit_log (...). A user id that is not positive is stored as NULL.
unfoldable pub insert_audit : Event → Bytes → Tables → Tables
insert_audit ev now t = record t { audit = t.audit ++ (row ∷ []); next_audit = suc t.next_audit }
  where
    row : AuditEntry
    row = record {
      id = t.next_audit;
      user_id = if ltb 0 ev.user_id then some ev.user_id else none;
      username = ev.username;
      operation = ev.operation;
      operation_target = ev.operation_target;
      details = ev.details;
      result = ev.result;
      timestamp = now;
    }

unfoldable pub audit_log_write : Event → Try Unit
audit_log_write ev = do call; call; call; call; call; now ← sql_now; on_tables (insert_audit ev now)

-- `if (filter) sql += " AND column = ?"`
abbrev pub admits : Option Bytes → Bytes → Bool
admits none column = true
admits (some x) column = eqb column x

abbrev pub selected : Option Bytes → Option Bytes → Option Bytes → AuditEntry → Bool
selected username operation result a =
    admits username a.username && (admits operation a.operation && admits result a.result)

-- SELECT ... WHERE ... ORDER BY id DESC LIMIT ? OFFSET ?
unfoldable pub query_audit :
    Option Bytes → Option Bytes → Option Bytes → ℕ → ℕ → Tables → List AuditEntry
unfolding order_by
query_audit username operation result limit offset t = take limit (
    drop offset
      (order_by (λ a b. leb b.id a.id) (keep (selected username operation result) t.audit)))

unfoldable pub audit_log_query :
    Option Bytes → Option Bytes → Option Bytes → ℕ → ℕ → Try (List AuditEntry)
audit_log_query username operation result limit offset = do
  call
  rows ← select (query_audit username operation result limit offset)
  fetch_rows rows

-- DELETE FROM audit_log WHERE timestamp < ?, a comparison of texts.
unfoldable pub prune_audit : Bytes → Tables → Tables
prune_audit limit t = record t { audit = keep (λ a. lex_leb limit a.timestamp) t.audit }

unfoldable pub audit_log_prune : ℕ → Try Unit
audit_log_prune days = do
  require (ltb 0 days) tt
  call
  call
  now ← time
  limit ← format_time (now - days * 86400)
  on_tables (prune_audit limit)
