-- ===== src/Ssm/Audit.antt =====
-- src/ssm.cc: reading the audit log.
pub mod Query
use vaultine.Prelude.{ℕ, zero, suc, Bytes, Option, List}
use vaultine.World.{Status, err_internal, AuditEntry}
use vaultine.Exec.{Exec, ◌or_return◌}
use vaultine.Db.AuditLog.{audit_log_query}

-- An int64_t; `negsuc n` is -(n + 1).
pub data ℤ : Type 0 where
  pos : ℕ → ℤ
  negsuc : ℕ → ℤ

-- if (limit <= 0) limit = 100
abbrev pub effective_limit : ℤ → ℕ
effective_limit (pos zero) = 100
effective_limit (pos (suc n)) = suc n
effective_limit (negsuc n) = 100

-- if (offset < 0) offset = 0
abbrev pub effective_offset : ℤ → ℕ
effective_offset (pos n) = n
effective_offset (negsuc n) = 0

-- The calls of the callback, in order.
unfoldable pub ssm_audit_log_query :
    Option Bytes → Option Bytes → Option Bytes → ℤ → ℤ → Exec Status (List AuditEntry)
ssm_audit_log_query username operation result limit offset =
    audit_log_query username operation result (effective_limit limit) (effective_offset offset)
    or_return err_internal
