-- ===== src/Server/Dispatch.antt =====
-- src/cli/ssm_server.cc: request_handler.
pub mod Secret
use vaultine.Prelude.{Bytes, codes, eqb, Bool, true, false, not, ◌&&◌, List, [], ◌∷◌, if◌then◌else◌}
use vaultine.Exec.{Exec, deref, ◌>>◌}
use vaultine.Crypto.{is_empty}
use vaultine.Backup.{starts_with}
use vaultine.Ssm.Handle.{Disk}
use vaultine.Server.{
  JsonCpp, Method, get, post, put, delete, Request, Reply, Outcome, terminated, parse_body,
  reply_error, check_api_key, http_notfound, http_badmethod, http_unauthorized,
}
use vaultine.Server.Route.{RouteMatch, path_only, match_user_route}
use vaultine.Server.Users.{
  handle_user_register_req, handle_user_auth_req, handle_user_delete_req,
  handle_user_change_password_req, handle_kek_rotate_req,
}
use vaultine.Server.Secrets.{
  handle_secret_list_req, handle_secret_store_req, handle_secret_get_req, handle_secret_delete_req,
}
use vaultine.Server.Admin.{
  handle_health, handle_version, handle_backup_create_req, handle_backup_restore_req,
  handle_db_version_req, handle_db_migrate_req, handle_cache_stats_req, handle_audit_log_req,
  handle_export_req,
}

abbrev pub is_get : Method → Bool
is_get get = true
is_get _ = false

abbrev pub is_post : Method → Bool
is_post post = true
is_post _ = false

abbrev pub is_put : Method → Bool
is_put put = true
is_put _ = false

abbrev pub is_delete : Method → Bool
is_delete delete = true
is_delete _ = false

abbrev pub not_found : Exec Outcome Reply
not_found = reply_error http_notfound (codes "not found")

-- `if (test) { handler; return; }` for each in order, then the rest.
unfoldable pub choose : List (Bool × Exec Outcome Reply) → Exec Outcome Reply → Exec Outcome Reply
choose [] rest = rest
choose ((test, handler) ∷ routes) rest = if test then handler else choose routes rest

-- if (method != ...) { reply_error(...); return; }
unfoldable pub only : Bool → Bytes → Exec Outcome Reply → Exec Outcome Reply
only right msg handler = if right then handler else reply_error http_badmethod msg

abbrev pub at : Request → Bytes → Bool → Bool
at req path right = eqb (path_only req.uri) path && right

abbrev pub use_post : Bytes
use_post = codes "use POST"

module _ {Value : Type 0} (json : JsonCpp Value) (disk : Disk) where
  unfoldable pub ask_for_subresource : Request → Exec Outcome Reply
  ask_for_subresource req = do
    deref (parse_body json req.body) terminated
    reply_error http_notfound (codes "use /v1/users/<username>/register or /auth")

  -- /v1/users/<username>. The body of a POST is parsed and not looked at.
  unfoldable pub user_root : Request → RouteMatch → Exec Outcome Reply
  user_root req m =
      choose
        ((is_post req.method, ask_for_subresource req)
          ∷ (is_delete req.method, handle_user_delete_req json req m)
          ∷ [])
        (reply_error http_badmethod (codes "method not allowed"))

  -- /v1/users/<username>/secrets
  unfoldable pub secrets_handler : Request → RouteMatch → Exec Outcome Reply
  secrets_handler req m =
      choose
        ((is_get req.method, handle_secret_list_req m)
          ∷ (is_post req.method, handle_secret_store_req json req m)
          ∷ [])
        (reply_error http_badmethod (codes "use GET or POST"))

  -- /v1/users/<username>/secrets/<name>
  unfoldable pub secret_handler : Request → RouteMatch → Exec Outcome Reply
  secret_handler req m =
      choose
        ((is_get req.method, handle_secret_get_req m)
          ∷ (is_delete req.method, handle_secret_delete_req m)
          ∷ [])
        (reply_error http_badmethod (codes "use GET or DELETE"))

  -- /v1/users/<username>/<resource>
  unfoldable pub resource_handler : Request → RouteMatch → Exec Outcome Reply
  resource_handler req m =
      choose
        ((
          eqb m.resource (codes "register"),
          only (is_post req.method) use_post (handle_user_register_req json req m),
        )
          ∷ (
            eqb m.resource (codes "auth"),
            only (is_post req.method) use_post (handle_user_auth_req json req m),
          )
          ∷ (
            eqb m.resource (codes "password"),
            only (is_put req.method) (codes "use PUT") (handle_user_change_password_req json req m),
          )
          ∷ (
            starts_with (codes "kek/rotate") m.resource,
            only (is_post req.method) use_post (handle_kek_rotate_req m),
          )
          ∷ (eqb m.resource (codes "secrets"), secrets_handler req m)
          ∷ (starts_with (codes "secrets/") m.resource, secret_handler req m)
          ∷ [])
        not_found

  unfoldable pub user_handler : Request → RouteMatch → Exec Outcome Reply
  user_handler req m =
      choose ((not m.matched, not_found) ∷ (is_empty m.resource, user_root req m) ∷ [])
        (resource_handler req m)

  -- The part of request_handler after the check of the API key.
  unfoldable pub authorized_handler : Request → Exec Outcome Reply
  authorized_handler req =
      choose
        ((at req (codes "/v1/export") (is_get req.method), handle_export_req req)
          ∷ (at req (codes "/v1/db/version") (is_get req.method), handle_db_version_req)
          ∷ (at req (codes "/v1/db/migrate") (is_post req.method), handle_db_migrate_req)
          ∷ (at req (codes "/v1/cache/stats") (is_get req.method), handle_cache_stats_req)
          ∷ (at req (codes "/v1/audit") (is_get req.method), handle_audit_log_req req)
          ∷ (
            at req (codes "/v1/backup/create") (is_post req.method),
            handle_backup_create_req json disk req,
          )
          ∷ (
            at req (codes "/v1/backup/restore") (is_post req.method),
            handle_backup_restore_req json disk req,
          )
          ∷ [])
        (user_handler req (match_user_route (path_only req.uri) false))

  unfoldable pub request_handler : Bytes → Request → Exec Outcome Reply
  request_handler api_key req =
      choose
        ((at req (codes "/v1/health") (is_get req.method), handle_health)
          ∷ (at req (codes "/v1/version") (is_get req.method), handle_version)
          ∷ (
            not (check_api_key api_key req),
            reply_error http_unauthorized (codes "missing or invalid API key"),
          )
          ∷ [])
        (authorized_handler req)
