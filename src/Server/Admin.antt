-- ===== src/Server/Admin.antt =====
-- src/cli/ssm_server.cc: the handlers of health, version, backup, database, cache, audit log, export.
pub mod Strtol
use vaultine.Prelude.{
  ℕ, Bytes, codes, eqb, Bool, true, false, not, ◌==◌, Option, none, some, List, [], ◌∷◌, map,
  length, if◌then◌else◌,
}
use vaultine.World.{AuditEntry}
use vaultine.Exec.{Exec, pure, leave, deref, call, attempt, present, ◌or_else◌, ◌>>=◌, ◌>>◌}
use vaultine.Kek.{or_empty}
use vaultine.Hex.{hex_decode}
use vaultine.Cache.{CacheStats, ssm_cache_get_stats}
use vaultine.Ssm.Audit.{ℤ, pos, negsuc, ssm_audit_log_query}
use vaultine.Ssm.Handle.{
  Disk, ssm_export, ssm_db_version, ssm_db_migrate, ssm_backup_create, ssm_backup_restore,
}
use vaultine.Server.{
  JsonCpp, Request, Reply, Outcome, Members, object, array, raw, text, number, terminated, http_ok,
  http_badrequest, http_internal, member, body_with, refuse_error, refuse_status, reply_ok,
  reply_created, status_ok, c_str, out_of_memory,
}
use vaultine.Server.Admin.Strtol.{strtol}

abbrev pub server_version : Bytes × Bytes
server_version = (codes "version", codes "0.3.0-beta")

abbrev pub health : Members
health =
    member (codes "status") (text (codes "ok"))
    ∷ member server_version.0 (text server_version.1)
    ∷ []

abbrev pub version : Members
version =
    member server_version.0 (text server_version.1) ∷ member (codes "api") (text (codes "v1")) ∷ []

unfoldable pub handle_health : Exec Outcome Reply
handle_health = reply_ok (object health)

unfoldable pub handle_version : Exec Outcome Reply
handle_version = reply_ok (object version)

abbrev pub key_path : Bytes
key_path = codes "path"

abbrev pub key_hex : Bytes
key_hex = codes "key_hex"

abbrev pub backup_missing : Bytes
backup_missing = codes "body must contain 'path' and 'key_hex'"

abbrev pub key_invalid : Bytes
key_invalid = codes "key_hex must be 64 hex chars (32 bytes)"

-- `if (!hex_decode(..., key, &key_len) || key_len != 32)`
abbrev pub backup_key : Option Bytes → Exec Outcome Bytes
backup_key none = refuse_error http_badrequest key_invalid
backup_key (some key) =
    if length key == 32 then pure key else refuse_error http_badrequest key_invalid

abbrev pub backup_create_op : Bytes
backup_create_op = codes "backup_create"

abbrev pub backup_restore_op : Bytes
backup_restore_op = codes "backup_restore"

module _ {Value : Type 0} (json : JsonCpp Value) (disk : Disk) where
  unfoldable pub handle_backup_create_req : Request → Exec Outcome Reply
  handle_backup_create_req req = do
    body ← body_with json (key_path ∷ key_hex ∷ []) backup_missing req
    path ← deref (json.as_string key_path body) terminated
    hex ← deref (json.as_c_string key_hex body) terminated
    key ← backup_key (hex_decode hex 32)
    ssm_backup_create disk (some (c_str path)) (some key)
        or_else refuse_status http_internal backup_create_op
    reply_created status_ok

  unfoldable pub handle_backup_restore_req : Request → Exec Outcome Reply
  handle_backup_restore_req req = do
    body ← body_with json (key_path ∷ key_hex ∷ []) backup_missing req
    path ← deref (json.as_string key_path body) terminated
    hex ← deref (json.as_c_string key_hex body) terminated
    key ← backup_key (hex_decode hex 32)
    ssm_backup_restore disk (some (c_str path)) (some key) or_else λ x.
        refuse_status http_internal backup_restore_op x.0
    reply_ok status_ok

unfoldable pub handle_db_version_req : Exec Outcome Reply
handle_db_version_req = do
  v ← ssm_db_version or_else refuse_status http_internal (codes "db_version")
  reply_ok (object (member (codes "version") (number v) ∷ []))

unfoldable pub handle_db_migrate_req : Exec Outcome Reply
handle_db_migrate_req = do
  ssm_db_migrate or_else refuse_status http_internal (codes "db_migrate")
  reply_ok status_ok

abbrev pub stats_members : CacheStats → Members
stats_members s =
    member (codes "totalEntries") (number s.total_entries)
    ∷ member (codes "validEntries") (number s.valid_entries)
    ∷ member (codes "hitCount") (number s.hit_count)
    ∷ member (codes "missCount") (number s.miss_count)
    ∷ []

unfoldable pub handle_cache_stats_req : Exec Outcome Reply
handle_cache_stats_req = do
  stats ← ssm_cache_get_stats or_else refuse_status http_internal (codes "cache_stats")
  reply_ok (object (stats_members stats))

-- `if (end != limit_str && v >= 0) limit = v;`
abbrev pub if_positive : Option ℤ → ℤ → ℤ
if_positive none default = default
if_positive (some (pos n)) default = pos n
if_positive (some (negsuc n)) default = default

abbrev pub header_number : Option Bytes → ℤ → ℤ
header_number none default = default
header_number (some s) default = if_positive (strtol s) default

-- A user id that is NULL is read as 0.
abbrev pub audit_item : AuditEntry → Members
audit_item a =
    member (codes "id") (number a.id)
    ∷ member (codes "userId") (number (elim a.user_id [ none ↦ 0 | some n ↦ n ]))
    ∷ member (codes "username") (text a.username)
    ∷ member (codes "operation") (text a.operation)
    ∷ member (codes "operationTarget") (text (or_empty a.operation_target))
    ∷ member (codes "details") (text (or_empty a.details))
    ∷ member (codes "result") (text a.result)
    ∷ member (codes "timestamp") (text a.timestamp)
    ∷ []

unfoldable pub handle_audit_log_req : Request → Exec Outcome Reply
handle_audit_log_req req = do
  let username = req.header (codes "X-Audit-Username")
  let operation = req.header (codes "X-Audit-Operation")
  let result_filter = req.header (codes "X-Audit-Result")
  let limit = header_number (req.header (codes "X-Audit-Limit")) (pos 100)
  let offset = header_number (req.header (codes "X-Audit-Offset")) (pos 0)
  rows ←
      ssm_audit_log_query username operation result_filter limit offset
      or_else refuse_status http_internal (codes "audit_log_query")
  reply_ok (array (map audit_item rows))

-- strcmp(header, value) == 0 for a header that is there.
abbrev pub header_is : Bytes → Option Bytes → Bool
header_is value none = false
header_is value (some s) = eqb s value

-- The buffer of the reply is not tested.
unfoldable pub handle_export_req : Request → Exec Outcome Reply
handle_export_req req = do
  let csv = header_is (codes "csv") (req.header (codes "X-Export-Format"))
  let redact_pii = header_is (codes "true") (req.header (codes "X-Export-Redact"))
  exported ← ssm_export (not csv) redact_pii or_else refuse_status http_internal (codes "export")
  pure (record {
    code = http_ok;
    content = raw (if csv then codes "text/csv" else codes "application/json") exported;
  })
