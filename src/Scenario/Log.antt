-- ===== src/Scenario/Log.antt =====
-- The theorem on queries of the audit log, applied to a log with two entries.
use vaultine.Prelude.{Bytes, codes, ℕ, none, some, [], ◌∷◌, length, All, Occurs}
use vaultine.World.{AuditEntry, Vault}
use vaultine.Exec.Runs.{Reads}
use vaultine.Ssm.Audit.{pos, negsuc, ssm_audit_log_query}
use vaultine.Ssm.Audit.Query.{Asked, Within, NewestFirst, ssm_audit_log_query-Reads}
use vaultine.Scenario.{toy, alice, vault}

abbrev entry : ℕ → Bytes → AuditEntry
entry id operation = record {
  id = id;
  user_id = some 1;
  username = alice;
  operation = operation;
  operation_target = none;
  details = none;
  result = codes "SSM_OK";
  timestamp = codes "2024";
}

abbrev audited : Vault
audited = record vault {
  tables = record vault.tables {
    audit = entry 1 (codes "user_register") ∷ entry 2 (codes "secret_get") ∷ [];
    next_audit = 3;
  };
}

ssm_audit_log_query_example :
    Reads toy audited (ssm_audit_log_query (some alice) none none (negsuc 0) (pos 1)) (λ rows.
      Within (negsuc 0) (length rows)
      × NewestFirst rows
      × All (λ a. Occurs a audited.tables.audit × Asked (some alice) none none a) rows)
ssm_audit_log_query_example = ssm_audit_log_query-Reads (some alice) none none (negsuc 0) (pos 1)
