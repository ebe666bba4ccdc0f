-- ===== src/Server/Secrets.antt =====
-- src/cli/ssm_server.cc: the handlers of secrets.
pub mod Reveal
use vaultine.Prelude.{
  ℕ, Bytes, codes, Bool, true, false, ◌&&◌, ltb, Option, none, some, List, [], ◌∷◌, ◌++◌, map,
  if◌then◌else◌,
}
use vaultine.World.{Status, ok, err_auth, err_not_found, err_expired, err_integrity, err_internal}
use vaultine.Exec.{Exec, pure, leave, deref, ◌or_else◌, ◌>>=◌, ◌>>◌}
use vaultine.Crypto.{is_empty}
use vaultine.Kek.{or_empty}
use vaultine.Hex.{hex_encode, hex_decode_vector}
use vaultine.Ssm.Secrets.{
  Buffers, Listed, StoreRequest, ssm_secret_store, ssm_secret_get, ssm_secret_delete,
  ssm_secret_list, non_empty,
}
use vaultine.Server.{
  JsonCpp, Request, Reply, Outcome, Members, object, array, text, number, terminated,
  http_badrequest, http_notfound, member, body_with, refuse_error, refuse_status, reply_ok,
  reply_created, status_ok, status_member, c_str,
}
use vaultine.Server.Route.{RouteMatch, secret_name}

abbrev pub list_op : Bytes
list_op = codes "secret_list"

-- An empty description is left out.
abbrev pub list_item : Listed → Members
list_item s =
    member (codes "name") (text s.name)
    ∷ ((if is_empty s.description
          then []
          else member (codes "description") (text s.description) ∷ [])
        ++ (member (codes "updatedAt") (text s.updated_at)
            ∷ member (codes "pubKeyLen") (number s.public_key_len)
            ∷ []))

unfoldable pub handle_secret_list_req : RouteMatch → Exec Outcome Reply
handle_secret_list_req m = do
  listed ← ssm_secret_list (some m.username) or_else refuse_status http_badrequest list_op
  reply_ok (array (map list_item listed))

abbrev pub key_name : Bytes
key_name = codes "name"

abbrev pub key_private : Bytes
key_private = codes "private_key"

abbrev pub key_public : Bytes
key_public = codes "public_key"

abbrev pub key_description : Bytes
key_description = codes "description"

abbrev pub store_missing : Bytes
store_missing = codes "body must contain 'name' and 'private_key'"

abbrev pub private_invalid : Bytes
private_invalid = codes "private_key: invalid hex"

abbrev pub public_invalid : Bytes
public_invalid = codes "public_key: invalid hex"

abbrev pub store_op : Bytes
store_op = codes "secret_store"

-- if (!hex_decode(...)) { reply_error(...); return; }
abbrev pub decoded : Bytes → Option Bytes → Exec Outcome Bytes
decoded msg none = refuse_error http_badrequest msg
decoded msg (some bytes) = pure bytes

module _ {Value : Type 0} (json : JsonCpp Value) where
  unfoldable pub handle_secret_store_req : Request → RouteMatch → Exec Outcome Reply
  handle_secret_store_req req m = do
    body ← body_with json (key_name ∷ key_private ∷ []) store_missing req
    name ← deref (json.as_string key_name body) terminated
    priv_hex ← deref (json.as_string key_private body) terminated
    pub_hex ← deref (json.get_string key_public body) terminated
    desc ← deref (json.get_string key_description body) terminated
    priv_bytes ← decoded private_invalid (hex_decode_vector priv_hex)
    pub_bytes ←
        if is_empty pub_hex then pure [] else decoded public_invalid (hex_decode_vector pub_hex)
    ssm_secret_store (record {
      username = some m.username;
      private_key = some priv_bytes;
      public_key = non_empty (some pub_bytes);
      name = some (c_str name);
      description = if is_empty desc then none else some (c_str desc);
    })
        or_else refuse_status http_badrequest store_op
    reply_created (object (status_member ∷ member key_name (text name) ∷ []))

abbrev pub get_op : Bytes
get_op = codes "secret_get"

abbrev pub buffer_size : ℕ
buffer_size = 65536

abbrev pub is_internal : Status → Bool
is_internal err_internal = true
is_internal _ = false

-- A second call, with buffers of the lengths that the first one left, if the private key did not fit.
abbrev pub again : Bytes → Bytes → Status × Buffers → Exec (Status × Buffers) Buffers
again username name (st, b) =
    if is_internal st && ltb buffer_size b.private_key_len
    then ssm_secret_get (some username) (some name) b.private_key_len (some b.public_key_len)
    else leave (st, b)

unfoldable pub get_secret : Bytes → Bytes → Exec (Status × Buffers) Buffers
get_secret username name =
    ssm_secret_get (some username) (some name) buffer_size (some buffer_size)
    or_else again username name

abbrev pub code_of_get : Status → ℕ
code_of_get err_not_found = http_notfound
code_of_get err_auth = http_notfound
code_of_get _ = http_badrequest

abbrev pub refuse_get : {A : Type 0} → Status × Buffers → Exec Outcome A
refuse_get (st, b) = refuse_status (code_of_get st) get_op st

-- What the buffers hold, up to their lengths.
abbrev pub public_found : Buffers → Members
public_found b =
    if ltb 0 b.public_key_len
    then member key_public (text (hex_encode (or_empty b.public_key))) ∷ []
    else []

abbrev pub keys_found : Buffers → Members
keys_found b = member key_private (text (hex_encode (or_empty b.private_key))) ∷ public_found b

abbrev pub name_required : Bytes
name_required = codes "secret name required"

abbrev pub require_name : Bytes → Exec Outcome Unit
require_name name = if is_empty name then refuse_error http_notfound name_required else pure tt

unfoldable pub handle_secret_get_req : RouteMatch → Exec Outcome Reply
handle_secret_get_req m = do
  require_name (secret_name m.resource)
  b ← get_secret m.username (secret_name m.resource) or_else refuse_get
  reply_ok (object (keys_found b))

abbrev pub delete_op : Bytes
delete_op = codes "secret_delete"

unfoldable pub handle_secret_delete_req : RouteMatch → Exec Outcome Reply
handle_secret_delete_req m = do
  require_name (secret_name m.resource)
  ssm_secret_delete (some m.username) (some (secret_name m.resource))
      or_else refuse_status http_badrequest delete_op
  reply_ok status_ok
