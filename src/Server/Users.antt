-- ===== src/Server/Users.antt =====
-- src/cli/ssm_server.cc: the handlers of users, and the rotation of a KEK.
use vaultine.Prelude.{Bytes, codes, some, [], ◌∷◌}
use vaultine.Exec.{Exec, deref, ◌or_else◌, ◌>>=◌, ◌>>◌}
use vaultine.Ssm.Users.{
  ssm_user_register, ssm_user_authenticate, ssm_user_delete, ssm_user_change_password,
  ssm_kek_rotate,
}
use vaultine.Server.{
  JsonCpp, Request, Reply, Outcome, object, text, boolean, terminated, http_badrequest,
  http_internal, member, body_with, refuse_status, reply_ok, reply_created, status_ok,
  status_member,
}
use vaultine.Server.Route.{RouteMatch}

abbrev pub key_password : Bytes
key_password = codes "password"

abbrev pub password_missing : Bytes
password_missing = codes "body must contain 'password'"

abbrev pub register_op : Bytes
register_op = codes "user_register"

abbrev pub authenticate_op : Bytes
authenticate_op = codes "user_authenticate"

abbrev pub delete_op : Bytes
delete_op = codes "user_delete"

abbrev pub key_old : Bytes
key_old = codes "old_password"

abbrev pub key_new : Bytes
key_new = codes "new_password"

abbrev pub passwords_missing : Bytes
passwords_missing = codes "body must contain 'old_password' and 'new_password'"

abbrev pub change_op : Bytes
change_op = codes "user_change_password"

abbrev pub rotate_op : Bytes
rotate_op = codes "kek_rotate"

module _ {Value : Type 0} (json : JsonCpp Value) where
  unfoldable pub handle_user_register_req : Request → RouteMatch → Exec Outcome Reply
  handle_user_register_req req m = do
    body ← body_with json (key_password ∷ []) password_missing req
    password ← deref (json.as_c_string key_password body) terminated
    ssm_user_register (some m.username) (some password)
        or_else refuse_status http_badrequest register_op
    reply_created (object (status_member ∷ member (codes "username") (text m.username) ∷ []))

  unfoldable pub handle_user_auth_req : Request → RouteMatch → Exec Outcome Reply
  handle_user_auth_req req m = do
    body ← body_with json (key_password ∷ []) password_missing req
    password ← deref (json.as_c_string key_password body) terminated
    is_valid ←
        ssm_user_authenticate (some m.username) (some password)
        or_else refuse_status http_internal authenticate_op
    reply_ok (object (member (codes "authenticated") (boolean is_valid) ∷ []))

  unfoldable pub handle_user_delete_req : Request → RouteMatch → Exec Outcome Reply
  handle_user_delete_req req m = do
    body ← body_with json (key_password ∷ []) password_missing req
    password ← deref (json.as_c_string key_password body) terminated
    ssm_user_delete (some m.username) (some password)
        or_else refuse_status http_badrequest delete_op
    reply_ok status_ok

  unfoldable pub handle_user_change_password_req : Request → RouteMatch → Exec Outcome Reply
  handle_user_change_password_req req m = do
    body ← body_with json (key_old ∷ key_new ∷ []) passwords_missing req
    old ← deref (json.as_c_string key_old body) terminated
    new ← deref (json.as_c_string key_new body) terminated
    ssm_user_change_password (some m.username) (some old) (some new)
        or_else refuse_status http_badrequest change_op
    reply_ok status_ok

unfoldable pub handle_kek_rotate_req : RouteMatch → Exec Outcome Reply
handle_kek_rotate_req m = do
  ssm_kek_rotate (some m.username) or_else refuse_status http_badrequest rotate_op
  reply_ok status_ok
