-- ===== src/Server/Stays/Writes.antt =====
-- The handlers of src/cli/ssm_server.cc that change the vault keep what the functions that they call
-- keep.
use vaultine.Prelude.{Bytes, Option, none, some, List}
use vaultine.World.{Env, Vault}
use vaultine.Exec.Stays.{Stays, Stays-bind, Stays-if, Stays-pure, Stays-deref}
use vaultine.Hex.{hex_decode}
use vaultine.Ssm.Users.{
  ssm_user_register, ssm_user_authenticate, ssm_user_delete, ssm_user_change_password,
  ssm_kek_rotate,
}
use vaultine.Ssm.Secrets.{StoreRequest, ssm_secret_store, ssm_secret_delete}
use vaultine.Ssm.Handle.{Disk, ssm_db_migrate, ssm_backup_create}
use vaultine.Server.{JsonCpp, Request, body_with}
use vaultine.Server.Route.{RouteMatch}
use vaultine.Server.Users.{
  handle_user_register_req, handle_user_auth_req, handle_user_delete_req,
  handle_user_change_password_req, handle_kek_rotate_req,
}
use vaultine.Server.Secrets.{
  decoded, require_name, handle_secret_store_req, handle_secret_delete_req,
}
use vaultine.Server.Admin.{backup_key, handle_backup_create_req, handle_db_migrate_req}
use vaultine.Server.Stays.{reply_ok-Stays, reply_created-Stays, refuse_error-Stays, served}

module _ {e : Env} {P : Vault → Type 0} {Value : Type 0} (json : JsonCpp Value) where
  pub body_with-Stays :
      (keys : List Bytes) (msg : Bytes) (req : Request) → Stays e P (body_with json keys msg req)
  unfolding body_with
  body_with-Stays keys msg req = Stays-bind (Stays-deref _ _) λ parsed.
      Stays-bind (Stays-deref _ _) λ there. Stays-if there (Stays-pure _) (refuse_error-Stays _ msg)

  pub handle_user_register_req-Stays :
      ((u p : Option Bytes) → Stays e P (ssm_user_register u p))
      → (req : Request) (m : RouteMatch) → Stays e P (handle_user_register_req json req m)
  unfolding handle_user_register_req
  handle_user_register_req-Stays h req m = Stays-bind (body_with-Stays _ _ req) λ body.
      Stays-bind (Stays-deref _ _)
        λ password. Stays-bind (served _ _ (h _ _)) λ _. reply_created-Stays _

  pub handle_user_auth_req-Stays :
      ((u p : Option Bytes) → Stays e P (ssm_user_authenticate u p))
      → (req : Request) (m : RouteMatch) → Stays e P (handle_user_auth_req json req m)
  unfolding handle_user_auth_req
  handle_user_auth_req-Stays h req m = Stays-bind (body_with-Stays _ _ req) λ body.
      Stays-bind (Stays-deref _ _) λ password. Stays-bind (served _ _ (h _ _)) λ _. reply_ok-Stays _

  pub handle_user_delete_req-Stays :
      ((u p : Option Bytes) → Stays e P (ssm_user_delete u p))
      → (req : Request) (m : RouteMatch) → Stays e P (handle_user_delete_req json req m)
  unfolding handle_user_delete_req
  handle_user_delete_req-Stays h req m = Stays-bind (body_with-Stays _ _ req) λ body.
      Stays-bind (Stays-deref _ _) λ password. Stays-bind (served _ _ (h _ _)) λ _. reply_ok-Stays _

  pub handle_user_change_password_req-Stays :
      ((u p q : Option Bytes) → Stays e P (ssm_user_change_password u p q))
      → (req : Request) (m : RouteMatch) → Stays e P (handle_user_change_password_req json req m)
  unfolding handle_user_change_password_req
  handle_user_change_password_req-Stays h req m = Stays-bind (body_with-Stays _ _ req) λ body.
      Stays-bind (Stays-deref _ _) λ old.
        Stays-bind (Stays-deref _ _) λ new. Stays-bind (served _ _ (h _ _ _)) λ _. reply_ok-Stays _

  decoded-Stays : (msg : Bytes) (o : Option Bytes) → Stays e P (decoded msg o)
  decoded-Stays msg none = refuse_error-Stays _ msg
  decoded-Stays msg (some bytes) = Stays-pure bytes

  pub handle_secret_store_req-Stays :
      ((r : StoreRequest) → Stays e P (ssm_secret_store r))
      → (req : Request) (m : RouteMatch) → Stays e P (handle_secret_store_req json req m)
  unfolding handle_secret_store_req
  handle_secret_store_req-Stays h req m = Stays-bind (body_with-Stays _ _ req) λ body.
      Stays-bind (Stays-deref _ _) λ name. Stays-bind (Stays-deref _ _) λ priv_hex.
        Stays-bind (Stays-deref _ _) λ pub_hex. Stays-bind (Stays-deref _ _) λ desc.
          Stays-bind (decoded-Stays _ _) λ priv_bytes.
            Stays-bind (Stays-if _ (Stays-pure _) (decoded-Stays _ _))
              λ pub_bytes. Stays-bind (served _ _ (h _)) λ _. reply_created-Stays _

  backup_key-Stays : (o : Option Bytes) → Stays e P (backup_key o)
  backup_key-Stays none = refuse_error-Stays _ _
  backup_key-Stays (some key) = Stays-if _ (Stays-pure key) (refuse_error-Stays _ _)

  pub handle_backup_create_req-Stays :
      (disk : Disk)
      → ((p k : Option Bytes) → Stays e P (ssm_backup_create disk p k))
      → (req : Request) → Stays e P (handle_backup_create_req json disk req)
  unfolding handle_backup_create_req
  handle_backup_create_req-Stays disk h req = Stays-bind (body_with-Stays _ _ req) λ body.
      Stays-bind (Stays-deref _ _) λ path. Stays-bind (Stays-deref _ _) λ hex.
        Stays-bind (backup_key-Stays (hex_decode hex 32))
          λ key. Stays-bind (served _ _ (h _ _)) λ _. reply_created-Stays _

module _ {e : Env} {P : Vault → Type 0} where
  pub handle_kek_rotate_req-Stays :
      ((u : Option Bytes) → Stays e P (ssm_kek_rotate u))
      → (m : RouteMatch) → Stays e P (handle_kek_rotate_req m)
  unfolding handle_kek_rotate_req
  handle_kek_rotate_req-Stays h m = Stays-bind (served _ _ (h _)) λ _. reply_ok-Stays _

  pub require_name-Stays : (name : Bytes) → Stays e P (require_name name)
  require_name-Stays name = Stays-if _ (refuse_error-Stays _ _) (Stays-pure tt)

  pub handle_secret_delete_req-Stays :
      ((u n : Option Bytes) → Stays e P (ssm_secret_delete u n))
      → (m : RouteMatch) → Stays e P (handle_secret_delete_req m)
  unfolding handle_secret_delete_req
  handle_secret_delete_req-Stays h m =
      Stays-bind (require_name-Stays _) λ _. Stays-bind (served _ _ (h _ _)) λ _. reply_ok-Stays _

  pub handle_db_migrate_req-Stays : Stays e P ssm_db_migrate → Stays e P handle_db_migrate_req
  unfolding handle_db_migrate_req
  handle_db_migrate_req-Stays h = Stays-bind (served _ _ h) λ _. reply_ok-Stays _
