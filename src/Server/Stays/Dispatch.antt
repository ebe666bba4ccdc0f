-- ===== src/Server/Stays/Dispatch.antt =====
-- Every request keeps what the functions of src/ssm.cc that it may call keep.
use vaultine.Prelude.{Bytes, codes, ◌≡◌, refl, sym, Bool, true, false, ◌&&◌, List, All, [], ◌∷◌}
use vaultine.World.{Env, Vault}
use vaultine.Exec.{Exec}
use vaultine.Exec.Stays.{Stays, Stays-bind, Stays-deref}
use vaultine.Ssm.Handle.{Disk}
use vaultine.Server.{JsonCpp, Method, get, post, put, delete, other_method, Request, Reply, Outcome}
use vaultine.Server.Route.{RouteMatch}
use vaultine.Server.Admin.{handle_backup_restore_req}
use vaultine.Server.Dispatch.{
  is_get, is_post, is_put, is_delete, user_root, resource_handler, user_handler, authorized_handler,
  request_handler,
}
use vaultine.Server.Stays.{Reading, Writing, reply_error-Stays}
use vaultine.Server.Dispatch.{
  only, at, choose, ask_for_subresource, secrets_handler, secret_handler,
}
use vaultine.Server.Stays.Writes.{
  handle_user_register_req-Stays, handle_user_auth_req-Stays, handle_user_delete_req-Stays,
  handle_user_change_password_req-Stays, handle_secret_store_req-Stays,
  handle_backup_create_req-Stays, handle_kek_rotate_req-Stays, handle_secret_delete_req-Stays,
  handle_db_migrate_req-Stays,
}
use vaultine.Server.Stays.Reads.{
  handle_secret_list_req-Stays, handle_secret_get_req-Stays, handle_db_version_req-Stays,
  handle_cache_stats_req-Stays, handle_audit_log_req-Stays, handle_export_req-Stays,
  handle_health-Stays, handle_version-Stays,
}

-- A handler has to keep `P` only where its test passes.
module _ {e : Env} {P : Vault → Type 0} where
  Stays-choose :
      (routes : List (Bool × Exec Outcome Reply)) (rest : Exec Outcome Reply)
      → All (λ r. r.0 ≡ true → Stays e P r.1) routes
      → Stays e P rest
      → Stays e P (choose routes rest)
  unfolding choose
  Stays-choose [] rest h k = k
  Stays-choose ((true, handler) ∷ routes) rest h k = h.0 refl
  Stays-choose ((false, handler) ∷ routes) rest h k = Stays-choose routes rest h.1 k

  only-Stays :
      (right : Bool) (msg : Bytes) {m : Exec Outcome Reply}
      → (right ≡ true → Stays e P m)
      → Stays e P (only right msg m)
  unfolding only
  only-Stays true msg h = h refl
  only-Stays false msg h = reply_error-Stays _ msg

-- A method that is another one is no GET.
post-not_get : (b : Bool) (m : Method) → (b && is_post m) ≡ true → is_get m ≡ false
post-not_get true get h = sym h
post-not_get true post h = refl
post-not_get true put h = refl
post-not_get true delete h = refl
post-not_get true other_method h = refl
post-not_get false m h = cc

put-not_get : (m : Method) → is_put m ≡ true → is_get m ≡ false
put-not_get get h = sym h
put-not_get put h = refl
put-not_get post h = refl
put-not_get delete h = refl
put-not_get other_method h = refl

delete-not_get : (m : Method) → is_delete m ≡ true → is_get m ≡ false
delete-not_get get h = sym h
delete-not_get put h = refl
delete-not_get post h = refl
delete-not_get delete h = refl
delete-not_get other_method h = refl

-- A request to restore a backup.
abbrev pub is_restore : Request → Bool
is_restore req = at req (codes "/v1/backup/restore") (is_post req.method)

module _ {e : Env} {P : Vault → Type 0} {Value : Type 0} (json : JsonCpp Value) (disk : Disk)
    (R : Reading e P) (req : Request) (W : is_get req.method ≡ false → Writing e P) where
  posting : is_post req.method ≡ true → Writing e P
  posting h = W (post-not_get true req.method h)

  deleting : is_delete req.method ≡ true → Writing e P
  deleting h = W (delete-not_get req.method h)

  user_root-Stays : (m : RouteMatch) → Stays e P (user_root json disk req m)
  unfolding user_root ask_for_subresource
  user_root-Stays m =
      Stays-choose _ _
        (
          λ _. Stays-bind (Stays-deref _ _) λ _. reply_error-Stays _ _,
          (λ h. handle_user_delete_req-Stays json (deleting h).delete_user req m, tt),
        )
        (reply_error-Stays _ _)

  secrets_handler-Stays : (m : RouteMatch) → Stays e P (secrets_handler json disk req m)
  unfolding secrets_handler
  secrets_handler-Stays m =
      Stays-choose _ _
        (
          λ _. handle_secret_list_req-Stays R.list m,
          (λ h. handle_secret_store_req-Stays json (posting h).store req m, tt),
        )
        (reply_error-Stays _ _)

  secret_handler-Stays : (m : RouteMatch) → Stays e P (secret_handler json disk req m)
  unfolding secret_handler
  secret_handler-Stays m =
      Stays-choose _ _
        (
          λ _. handle_secret_get_req-Stays R.get_secret m,
          (λ h. handle_secret_delete_req-Stays (deleting h).delete_secret m, tt),
        )
        (reply_error-Stays _ _)

  resource_handler-Stays : (m : RouteMatch) → Stays e P (resource_handler json disk req m)
  unfolding resource_handler
  resource_handler-Stays m =
      Stays-choose _ _
        (
          λ _. only-Stays _ _ λ h. handle_user_register_req-Stays json (posting h).register req m,
          (
            λ _. only-Stays _ _ λ h. handle_user_auth_req-Stays json (posting h).authenticate req m,
            (
              λ _. only-Stays _ _ λ h.
                  handle_user_change_password_req-Stays json (W (put-not_get req.method h)).change
                    req m,
              (
                λ _. only-Stays _ _ λ h. handle_kek_rotate_req-Stays (posting h).rotate m,
                (λ _. secrets_handler-Stays m, (λ _. secret_handler-Stays m, tt)),
              ),
            ),
          ),
        )
        (reply_error-Stays _ _)

  user_handler-Stays : (m : RouteMatch) → Stays e P (user_handler json disk req m)
  unfolding user_handler
  user_handler-Stays m =
      Stays-choose _ _ (λ _. reply_error-Stays _ _, (λ _. user_root-Stays m, tt))
        (resource_handler-Stays m)

  module _
      (restoring : is_restore req ≡ true
        → Stays e P (handle_backup_restore_req json disk req)) where
    authorized_handler-Stays : Stays e P (authorized_handler json disk req)
    unfolding authorized_handler
    authorized_handler-Stays =
        Stays-choose _ _
          (
            λ _. handle_export_req-Stays R.export req,
            (
              λ _. handle_db_version_req-Stays R.version,
              (
                λ h. handle_db_migrate_req-Stays (W (post-not_get _ req.method h)).migrate,
                (
                  λ _. handle_cache_stats_req-Stays,
                  (
                    λ _. handle_audit_log_req-Stays R.query req,
                    (
                      λ h.
                          handle_backup_create_req-Stays json disk
                            ((W (post-not_get _ req.method h)).backup disk) req,
                      (restoring, tt),
                    ),
                  ),
                ),
              ),
            ),
          )
          (user_handler-Stays _)

    -- Every route, with the check of the API key.
    pub request_handler-Stays :
        (api_key : Bytes) → Stays e P (request_handler json disk api_key req)
    unfolding request_handler
    request_handler-Stays api_key =
        Stays-choose _ _
          (λ _. handle_health-Stays, (λ _. handle_version-Stays, (λ _. reply_error-Stays _ _, tt)))
          authorized_handler-Stays
