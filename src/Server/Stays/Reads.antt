-- ===== src/Server/Stays/Reads.antt =====
-- The handlers of src/cli/ssm_server.cc that only read keep what the functions that they call keep.
use vaultine.Prelude.{ℕ, Bytes, Bool, Option}
use vaultine.World.{Env, Vault, Status}
use vaultine.Exec.Stays.{
  Stays, Stays-bind, Stays-or_else, Stays-if, Stays-pure, Stays-leave, Stays-gets,
}
use vaultine.Cache.{ssm_cache_get_stats}
use vaultine.Ssm.Secrets.{Buffers, ssm_secret_get, ssm_secret_list}
use vaultine.Ssm.Audit.{ℤ, ssm_audit_log_query}
use vaultine.Ssm.Handle.{ssm_export, ssm_db_version}
use vaultine.Server.{Request}
use vaultine.Server.Route.{RouteMatch}
use vaultine.Server.Secrets.{
  again, get_secret, refuse_get, handle_secret_list_req, handle_secret_get_req,
}
use vaultine.Server.Admin.{
  handle_health, handle_version, handle_db_version_req, handle_cache_stats_req,
  handle_audit_log_req, handle_export_req,
}
use vaultine.Server.Stays.{reply_ok-Stays, refuse_status-Stays, served}
use vaultine.Server.Stays.Writes.{require_name-Stays}

module _ {e : Env} {P : Vault → Type 0} where
  pub handle_secret_list_req-Stays :
      ((u : Option Bytes) → Stays e P (ssm_secret_list u))
      → (m : RouteMatch) → Stays e P (handle_secret_list_req m)
  unfolding handle_secret_list_req
  handle_secret_list_req-Stays h m = Stays-bind (served _ _ (h _)) λ _. reply_ok-Stays _

  module _
      (h : (u n : Option Bytes) (room : ℕ) (public_room : Option ℕ)
        → Stays e P (ssm_secret_get u n room public_room)) where
    again-Stays : (username name : Bytes) (x : Status × Buffers) → Stays e P (again username name x)
    again-Stays username name (st, b) = Stays-if _ (h _ _ _ _) (Stays-leave _)

    get_secret-Stays : (username name : Bytes) → Stays e P (get_secret username name)
    unfolding get_secret
    get_secret-Stays username name = Stays-or_else (h _ _ _ _) (again-Stays username name)

    refuse_get-Stays : {A : Type 0} (x : Status × Buffers) → Stays e P (refuse_get {A = A} x)
    refuse_get-Stays (st, b) = refuse_status-Stays _ _ st

    pub handle_secret_get_req-Stays : (m : RouteMatch) → Stays e P (handle_secret_get_req m)
    unfolding handle_secret_get_req
    handle_secret_get_req-Stays m = Stays-bind (require_name-Stays _) λ _.
        Stays-bind (Stays-or_else (get_secret-Stays _ _) refuse_get-Stays) λ b. reply_ok-Stays _

  pub handle_db_version_req-Stays : Stays e P ssm_db_version → Stays e P handle_db_version_req
  unfolding handle_db_version_req
  handle_db_version_req-Stays h = Stays-bind (served _ _ h) λ _. reply_ok-Stays _

  pub handle_cache_stats_req-Stays : Stays e P handle_cache_stats_req
  unfolding handle_cache_stats_req ssm_cache_get_stats
  handle_cache_stats_req-Stays = Stays-bind (served _ _ (Stays-gets _)) λ _. reply_ok-Stays _

  pub handle_audit_log_req-Stays :
      ((u o r : Option Bytes) (limit offset : ℤ)
        → Stays e P (ssm_audit_log_query u o r limit offset))
      → (req : Request) → Stays e P (handle_audit_log_req req)
  unfolding handle_audit_log_req
  handle_audit_log_req-Stays h req = Stays-bind (served _ _ (h _ _ _ _ _)) λ rows. reply_ok-Stays _

  pub handle_export_req-Stays :
      ((json redact : Bool) → Stays e P (ssm_export json redact))
      → (req : Request) → Stays e P (handle_export_req req)
  unfolding handle_export_req
  handle_export_req-Stays h req = Stays-bind (served _ _ (h _ _)) λ bytes. Stays-pure _

  pub handle_health-Stays : Stays e P handle_health
  unfolding handle_health
  handle_health-Stays = reply_ok-Stays _

  pub handle_version-Stays : Stays e P handle_version
  unfolding handle_version
  handle_version-Stays = reply_ok-Stays _
