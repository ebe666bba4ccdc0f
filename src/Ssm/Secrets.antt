-- ===== src/Ssm/Secrets.antt =====
-- src/ssm.cc: storing, reading, deleting and listing secrets.
pub mod Get
pub mod Store
pub mod Delete
pub mod Live
pub mod Expired
use vaultine.Prelude.{
  ℕ, Bytes, codes, to_string, ◌++◌, Bool, not, leb, Option, none, some, List, [], map, length,
  if◌then◌else◌,
}
use vaultine.World.{Status, ok, err_not_found, err_integrity, err_internal, User, SecretRow}
use vaultine.Exec.{
  Exec, Try, pure, leave, require, deref, attempt, present, random_bytes, ◌or_return◌, leaving,
  ◌>>=◌, ◌>>◌,
}
use vaultine.Crypto.{is_empty, secure_alloc, aes_gcm_encrypt, aes_gcm_decrypt}
use vaultine.Kek.{or_empty}
use vaultine.Db.Secrets.{secrets_store, secrets_find, secrets_delete, secrets_list_for_user}
use vaultine.Ssm.{
  audit_write, refuse, find_user_or_refuse, find_live_kek, open_kek, otherwise, status_ok,
}

abbrev pub op_store : Bytes
op_store = codes "secret_store"

-- snprintf("{\"key_size\":%zu,\"has_pub\":%s}")
abbrev pub store_details : ℕ → Bool → Bytes
store_details key_size has_pub =
    codes "{\"key_size\":"
    ++ (to_string key_size
        ++ (codes ",\"has_pub\":" ++ (codes (if has_pub then "true" else "false") ++ codes "}")))

-- A public key of length 0 is no public key.
abbrev pub non_empty : Option Bytes → Option Bytes
non_empty none = none
non_empty (some b) = if is_empty b then none else some b

-- What a client gives to ssm_secret_store; null pointers are `none`.
pub record StoreRequest : Type 0 where
  pub username : Option Bytes
  pub private_key : Option Bytes
  pub public_key : Option Bytes
  pub name : Option Bytes
  pub description : Option Bytes

-- An allocation that fails for the ciphertext makes the encryption fail.
unfoldable pub ssm_secret_store : StoreRequest → Exec Status Unit
ssm_secret_store r = do
  username ← deref r.username err_internal
  private_key ← deref r.private_key err_internal
  require (not (is_empty private_key)) err_internal
  name ← deref r.name err_internal
  user ← find_user_or_refuse op_store username
  kek ← find_live_kek op_store username (some name) user
  kek_raw ← open_kek user kek
  nonce ← random_bytes 12
  secure_alloc (length private_key) or_return err_internal
  (cipher, tag) ← aes_gcm_encrypt private_key kek_raw nonce [] or_return err_internal
  secrets_store (record {
    user_id = user.id;
    name = name;
    private_key = cipher;
    public_key = non_empty r.public_key;
    nonce = nonce;
    tag = tag;
    description = r.description;
  })
      or_return err_internal
  audit_write username user.id op_store ok (some name)
      (some (store_details (length private_key) (present (non_empty r.public_key))))

abbrev pub op_get : Bytes
op_get = codes "secret_get"

-- The buffers of the caller: what was written into each, and the lengths.
pub record Buffers : Type 0 where
  pub private_key : Option Bytes
  pub private_key_len : ℕ
  pub public_key : Option Bytes
  pub public_key_len : ℕ

-- A return with the buffers as they stand.
abbrev pub with_buffers : {A : Type 0} → Buffers → Exec Status A → Exec (Status × Buffers) A
with_buffers b = leaving (λ s. (s, b))

-- The secret's row and the user's KEK, opened.
pub record Opened : Type 0 where
  pub user : User
  pub secret : SecretRow
  pub kek : Bytes

-- The part of ssm_secret_get and its like that ends before the buffers are used.
unfoldable pub open_secret : Bytes → Bytes → Exec Status Opened
open_secret username name = do
  user ← find_user_or_refuse op_get username
  kek ← find_live_kek op_get username (some name) user
  secret ← secrets_find user.id name or_return err_not_found
  kek_raw ← open_kek user kek
  pure (record { user = user; secret = secret; kek = kek_raw })

unfoldable pub decrypt_secret : SecretRow → Bytes → Try Bytes
decrypt_secret secret kek = do
  secure_alloc (length secret.private_key)
  aes_gcm_decrypt secret.private_key kek secret.nonce [] secret.tag

-- The public key is asked for if both its pointers are given, with the room that there is.
unfoldable pub deliver_public : Buffers → Bytes → Option ℕ → Exec (Status × Buffers) Buffers
deliver_public b public_key none = pure b
deliver_public b public_key (some room) =
    if is_empty public_key
    then pure (record b { public_key_len = 0 })
    else if leb (length public_key) room
    then pure (record b { public_key = some public_key; public_key_len = length public_key })
    else leave (err_internal, record b { public_key_len = length public_key })

abbrev pub empty_buffers : ℕ → Option ℕ → Buffers
empty_buffers room public_room = record {
  private_key = none;
  private_key_len = room;
  public_key = none;
  public_key_len = elim public_room [ none ↦ 0 | some n ↦ n ];
}

-- `room` is what the private key's buffer holds; the test that this buffer and its length are not null
-- pointers is not modelled. `public_room` is none if a pointer of the public key is null.
unfoldable pub ssm_secret_get :
    Option Bytes → Option Bytes → ℕ → Option ℕ → Exec (Status × Buffers) Buffers
ssm_secret_get username_ptr name_ptr room public_room = do
  let start = empty_buffers room public_room
  username ← with_buffers start (deref username_ptr err_internal)
  name ← with_buffers start (deref name_ptr err_internal)
  opened ← with_buffers start (open_secret username name)
  let size = length opened.secret.private_key
  let sized = record start { private_key_len = size }
  with_buffers sized (require (leb size room) err_internal)
  decrypted ← attempt (decrypt_secret opened.secret opened.kek)
  plaintext ← with_buffers start (
      otherwise decrypted (
        refuse username opened.user.id op_get err_integrity (some name)
          (some (codes "{\"error\":\"GCM integrity check failed\"}"))))
  done ←
      deliver_public (record sized { private_key = some plaintext })
        (or_empty opened.secret.public_key) public_room
  audit_write username opened.user.id op_get ok (some name) status_ok
  pure done

abbrev pub op_delete : Bytes
op_delete = codes "secret_delete"

unfoldable pub ssm_secret_delete : Option Bytes → Option Bytes → Exec Status Unit
ssm_secret_delete username_ptr name_ptr = do
  username ← deref username_ptr err_internal
  name ← deref name_ptr err_internal
  user ← find_user_or_refuse op_delete username
  find_live_kek op_delete username (some name) user
  secrets_delete user.id name or_return err_not_found
  audit_write username user.id op_delete ok (some name) status_ok

abbrev pub op_list : Bytes
op_list = codes "secret_list"

-- What the callback is given for a secret.
pub record Listed : Type 0 where
  pub name : Bytes
  pub description : Bytes
  pub updated_at : Bytes
  pub public_key_len : ℕ

abbrev pub listed : SecretRow → Listed
listed s = record {
  name = s.name;
  description = or_empty s.description;
  updated_at = s.updated_at;
  public_key_len = length (or_empty s.public_key);
}

-- The calls of the callback, in order.
unfoldable pub ssm_secret_list : Option Bytes → Exec Status (List Listed)
ssm_secret_list username_ptr = do
  username ← deref username_ptr err_internal
  user ← find_user_or_refuse op_list username
  find_live_kek op_list username none user
  rows ← secrets_list_for_user user.id or_return err_internal
  audit_write username user.id op_list ok none status_ok
  pure (map listed rows)
