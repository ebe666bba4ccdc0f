-- ===== src/Server/Stays.antt =====
-- What the functions of src/ssm.cc keep of the vault, the replies and the handlers of
-- src/cli/ssm_server.cc keep.
pub mod Writes
pub mod Reads
pub mod Dispatch
use vaultine.Prelude.{
  ℕ, Bytes, codes, ◌≡◌, refl, sym, ◌∙◌, eqb, Bool, true, false, ◌&&◌, Option, none, some, List, [],
  ◌∷◌, length, ◌==◌, ltb, not, if◌then◌else◌,
}
use vaultine.World.{Env, Vault, Status}
use vaultine.Exec.{Exec, Try, attempt, present, pure, leave, ◌or_else◌}
use vaultine.Exec.Runs.{Reads-gets}
use vaultine.Exec.Stays.{
  Stays, Stays-Reads, Stays-bind, Stays-or_else, Stays-attempt, Stays-if, Stays-pure, Stays-leave,
  Stays-call, Stays-deref,
}
use vaultine.Crypto.{is_empty}
use vaultine.Hex.{hex_decode, hex_decode_vector}
use vaultine.Cache.{ssm_cache_get_stats}
use vaultine.Ssm.Users.{
  ssm_user_register, ssm_user_authenticate, ssm_user_delete, ssm_user_change_password,
  ssm_kek_rotate,
}
use vaultine.Ssm.Secrets.{
  Buffers, StoreRequest, ssm_secret_store, ssm_secret_get, ssm_secret_delete, ssm_secret_list,
}
use vaultine.Ssm.Audit.{ℤ, ssm_audit_log_query}
use vaultine.Ssm.Handle.{
  Disk, ssm_export, ssm_db_version, ssm_db_migrate, ssm_backup_create, ssm_backup_restore,
}
use vaultine.Server.{
  JsonCpp, Method, get, post, put, delete, other_method, Request, Reply, Outcome, Content,
  reply_json, reply_ok, reply_created, reply_error, reply_status, refuse_error, refuse_status,
  body_with, check_api_key,
}
use vaultine.Server.Route.{RouteMatch, path_only}
use vaultine.Server.Users.{
  handle_user_register_req, handle_user_auth_req, handle_user_delete_req,
  handle_user_change_password_req, handle_kek_rotate_req,
}
use vaultine.Server.Secrets.{
  again, get_secret, decoded, refuse_get, require_name, is_internal, handle_secret_list_req,
  handle_secret_store_req, handle_secret_get_req, handle_secret_delete_req,
}
use vaultine.Server.Admin.{
  backup_key, handle_health, handle_version, handle_backup_create_req, handle_backup_restore_req,
  handle_db_version_req, handle_db_migrate_req, handle_cache_stats_req, handle_audit_log_req,
  handle_export_req,
}
use vaultine.Server.Dispatch.{
  is_get, is_post, is_put, is_delete, user_root, resource_handler, user_handler, authorized_handler,
  request_handler,
}

-- The functions that a GET calls keep `P`.
pub record Reading (e : Env) (P : Vault → Type 0) : Type 0 where
  pub list : (u : Option Bytes) → Stays e P (ssm_secret_list u)
  pub get_secret :
      (u n : Option Bytes) (room : ℕ) (public_room : Option ℕ)
      → Stays e P (ssm_secret_get u n room public_room)
  pub query :
      (u o r : Option Bytes) (limit offset : ℤ) → Stays e P (ssm_audit_log_query u o r limit offset)
  pub export : (json redact : Bool) → Stays e P (ssm_export json redact)
  pub version : Stays e P ssm_db_version

-- The functions that the other methods call keep `P`, but for the restoring of a backup.
pub record Writing (e : Env) (P : Vault → Type 0) : Type 0 where
  pub register : (u p : Option Bytes) → Stays e P (ssm_user_register u p)
  pub authenticate : (u p : Option Bytes) → Stays e P (ssm_user_authenticate u p)
  pub delete_user : (u p : Option Bytes) → Stays e P (ssm_user_delete u p)
  pub change : (u p q : Option Bytes) → Stays e P (ssm_user_change_password u p q)
  pub rotate : (u : Option Bytes) → Stays e P (ssm_kek_rotate u)
  pub store : (r : StoreRequest) → Stays e P (ssm_secret_store r)
  pub delete_secret : (u n : Option Bytes) → Stays e P (ssm_secret_delete u n)
  pub migrate : Stays e P ssm_db_migrate
  pub backup : (d : Disk) (p k : Option Bytes) → Stays e P (ssm_backup_create d p k)

module _ {e : Env} {P : Vault → Type 0} where
  pub reply_json-Stays : (code : ℕ) (content : Content) → Stays e P (reply_json code content)
  unfolding reply_json
  reply_json-Stays code content = Stays-bind (Stays-attempt Stays-call) (λ buffer. Stays-pure _)

  pub reply_ok-Stays : (content : Content) → Stays e P (reply_ok content)
  unfolding reply_ok
  reply_ok-Stays content = reply_json-Stays _ content

  pub reply_created-Stays : (content : Content) → Stays e P (reply_created content)
  unfolding reply_created
  reply_created-Stays content = reply_json-Stays _ content

  pub reply_error-Stays : (code : ℕ) (msg : Bytes) → Stays e P (reply_error code msg)
  unfolding reply_error
  reply_error-Stays code msg = reply_json-Stays code _

  pub refuse_error-Stays :
      {A : Type 0} (code : ℕ) (msg : Bytes) → Stays e P (refuse_error {A = A} code msg)
  unfolding refuse_error
  refuse_error-Stays code msg = Stays-bind (reply_error-Stays code msg) (λ r. Stays-leave _)

  pub refuse_status-Stays :
      {A : Type 0} (code : ℕ) (op : Bytes) (st : Status)
      → Stays e P (refuse_status {A = A} code op st)
  unfolding refuse_status reply_status
  refuse_status-Stays code op st = Stays-bind (reply_json-Stays code _) (λ r. Stays-leave _)

  -- A function of src/ssm.cc, or the reply with its status.
  pub served :
      {A : Type 0} {m : Exec Status A} (code : ℕ) (op : Bytes)
      → Stays e P m
      → Stays e P (m or_else refuse_status code op)
  served code op h = Stays-or_else h (refuse_status-Stays code op)
