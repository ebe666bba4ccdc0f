-- ===== src/Server/Dispatch/Secret.antt =====
-- What request_handler of src/cli/ssm_server.cc does for the path of one secret.
use vaultine.Prelude.{Bytes, codes, eqb, ◌≡◌, refl, true, false, some, List, ◌∷◌, ◌++◌, All}
use vaultine.Exec.{Exec, pure, ◌or_else◌, ◌>>=◌, ◌>>◌}
use vaultine.Crypto.{is_empty}
use vaultine.Ssm.Handle.{Disk}
use vaultine.Ssm.Secrets.{ssm_secret_delete}
use vaultine.Server.{
  JsonCpp, Method, get, post, put, delete, other_method, Request, Reply, Outcome, object,
  check_api_key, refuse_status, reply_ok, reply_error, http_badmethod, status_ok, http_badrequest,
}
use vaultine.Server.Route.{slash, path_only, secret_name}
use vaultine.Server.Route.RoundTrip.{IsPart, join_parts, user_path, match_user_route-secrets}
use vaultine.Server.Secrets.{
  get_secret, refuse_get, keys_found, delete_op, handle_secret_get_req, handle_secret_delete_req,
}
use vaultine.Server.Dispatch.{
  choose, secret_handler, resource_handler, user_handler, authorized_handler, request_handler,
}

-- The secret is read, or an error is replied.
abbrev pub read_secret : Bytes → Bytes → Exec Outcome Reply
read_secret username name = do
  b ← get_secret username name or_else refuse_get
  reply_ok (object (keys_found b))

abbrev pub remove_secret : Bytes → Bytes → Exec Outcome Reply
remove_secret username name = do
  ssm_secret_delete (some username) (some name) or_else refuse_status http_badrequest delete_op
  reply_ok status_ok

-- What each method does to a secret.
abbrev pub on_secret : Method → Bytes → Bytes → Exec Outcome Reply
on_secret get username name = read_secret username name
on_secret delete username name = remove_secret username name
on_secret _ username name = reply_error http_badmethod (codes "use GET or DELETE")

module _ {Value : Type 0} (json : JsonCpp Value) (disk : Disk) (req : Request) where
  user_handler-secret :
      (username name : Bytes)
      → is_empty name ≡ false
      → (method : Method) → req.method ≡ method
      → user_handler json disk req (record {
        username = username;
        resource = codes "secrets" ++ (slash ∷ name);
        matched = true;
      })
        ≡ on_secret method username name
  unfolding user_handler resource_handler secret_handler choose eqb handle_secret_get_req
      handle_secret_delete_req secret_name ◌>>=◌ pure
  user_handler-secret username name there get p = rw (p, there) refl
  user_handler-secret username name there delete p = rw (p, there) refl
  user_handler-secret username name there post p = rw p refl
  user_handler-secret username name there put p = rw p refl
  user_handler-secret username name there other_method p = rw p refl

  pub request_handler-secret :
      (api_key username name : Bytes) (more : List Bytes)
      → check_api_key api_key req ≡ true
      → IsPart username
      → IsPart name
      → All IsPart more
      → path_only req.uri ≡ user_path username (codes "secrets" ∷ name ∷ more)
      → request_handler json disk api_key req ≡ on_secret req.method username name
  unfolding request_handler authorized_handler choose eqb join_parts
  request_handler-secret api_key username name more key u n h path =
      rw (path, key, match_user_route-secrets username name more u n h)
        (user_handler-secret username name n.1 req.method refl)
