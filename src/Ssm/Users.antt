-- ===== src/Ssm/Users.antt =====
-- src/ssm.cc: registration, authentication, deletion, change of password, rotation of the KEK.
pub mod Rotate
pub mod Access
pub mod Register
pub mod ChangePassword
use vaultine.Prelude.{Bytes, codes, Bool, false, Option, none, some, if◌then◌else◌}
use vaultine.World.{Status, ok, err_auth, err_internal, User}
use vaultine.Exec.{
  Exec, Try, pure, require, deref, attempt, present, call, ◌or_return◌, ◌>>=◌, ◌>>◌,
}
use vaultine.Crypto.{secure_alloc, argon2id_verify, aes_kw_wrap}
use vaultine.Kek.{
  kek_key_len, kek_salt_len, kek_generate, kek_unwrap, kek_derive_wrapping_key, kek_rotate,
}
use vaultine.Cache.{cache_invalidate}
use vaultine.Db.{begin_immediate, commit, rollback, on_tables}
use vaultine.Db.Sql.{set_password_hash, set_wrapped_kek}
use vaultine.Db.Users.{users_create, users_find_by_username, users_delete}
use vaultine.Db.KekMetadata.{kek_store, kek_find_by_user}
use vaultine.Ssm.{
  is_valid_username, audit_write, refuse, check_password, hash_password, find_user_or_refuse,
  status_ok, password_mismatch,
}

abbrev pub op_register : Bytes
op_register = codes "user_register"

abbrev pub register_new : Bytes → Bytes → Exec Status Unit
register_new username password = do
  hash ← hash_password password
  id ← users_create username hash or_return err_internal
  kek ← kek_generate hash kek_salt_len 24 or_return err_internal
  kek_store id kek.wrapped kek.salt kek.expires_at or_return err_internal
  audit_write username id op_register ok none status_ok

-- A name that is taken is answered SSM_OK, whatever the password.
abbrev pub register_unless : Bytes → Bytes → Option User → Exec Status Unit
register_unless username password (some existing) =
    audit_write username 0 op_register ok none status_ok
register_unless username password none = register_new username password

unfoldable pub ssm_user_register : Option Bytes → Option Bytes → Exec Status Unit
ssm_user_register username_ptr password_ptr = do
  username ← deref username_ptr err_internal
  password ← deref password_ptr err_internal
  require (is_valid_username username) err_internal
  check_password password
  existing ← attempt (users_find_by_username username)
  register_unless username password existing

abbrev pub op_authenticate : Bytes
op_authenticate = codes "user_authenticate"

abbrev pub authenticate_found : Bytes → Bytes → Option User → Exec Status Bool
authenticate_found username password none = do
  audit_write username 0 op_authenticate err_auth none
      (some (codes "{\"error\":\"user not found\"}"))
  pure false
authenticate_found username password (some user) = do
  verified ← attempt (argon2id_verify password user.password_hash)
  audit_write username user.id op_authenticate (if present verified then ok else err_auth) none
      (if present verified then status_ok else password_mismatch)
  pure (present verified)

-- The Boolean is what is written through is_valid.
unfoldable pub ssm_user_authenticate : Option Bytes → Option Bytes → Exec Status Bool
ssm_user_authenticate username_ptr password_ptr = do
  username ← deref username_ptr err_internal
  password ← deref password_ptr err_internal
  require (is_valid_username username) err_internal
  found ← attempt (users_find_by_username username)
  authenticate_found username password found

-- The password, or SSM_ERR_AUTH with an audit entry.
unfoldable pub verify_or_refuse : Bytes → Bytes → Bytes → User → Exec Status Unit
verify_or_refuse operation username password user = do
  verified ← attempt (argon2id_verify password user.password_hash)
  if present verified
      then pure tt
      else refuse username user.id operation err_auth none password_mismatch

abbrev pub op_delete : Bytes
op_delete = codes "user_delete"

-- The cache is not touched.
unfoldable pub ssm_user_delete : Option Bytes → Option Bytes → Exec Status Unit
ssm_user_delete username_ptr password_ptr = do
  username ← deref username_ptr err_internal
  password ← deref password_ptr err_internal
  require (is_valid_username username) err_internal
  user ← find_user_or_refuse op_delete username
  verify_or_refuse op_delete username password user
  users_delete user.id or_return err_internal
  audit_write username user.id op_delete ok none status_ok

abbrev pub op_change_password : Bytes
op_change_password = codes "user_change_password"

-- The block between BEGIN and COMMIT: the new hash, and the same KEK wrapped under the new hash and
-- the old salt.
unfoldable pub replace_password : User → Bytes → Try Unit
replace_password user new_hash = do
  call
  call
  on_tables (set_password_hash user.id new_hash)
  kek ← kek_find_by_user user.id
  secure_alloc kek_key_len
  secure_alloc 64
  secure_alloc kek_key_len
  kek_raw ← kek_unwrap kek.wrapped_kek user.password_hash kek.salt
  wrapping_key ← kek_derive_wrapping_key new_hash kek.salt kek_key_len
  wrapped ← aes_kw_wrap kek_raw wrapping_key
  call
  call
  on_tables (set_wrapped_kek user.id wrapped)

abbrev pub end_change : Bytes → User → Option (Unit {0}) → Exec Status Unit
end_change username user (some _) = do
  attempt commit
  cache_invalidate user.id
  audit_write username user.id op_change_password ok none status_ok
end_change username user none = do
  rollback
  refuse username user.id op_change_password err_internal none none

unfoldable pub ssm_user_change_password :
    Option Bytes → Option Bytes → Option Bytes → Exec Status Unit
ssm_user_change_password username_ptr old_ptr new_ptr = do
  username ← deref username_ptr err_internal
  old_password ← deref old_ptr err_internal
  new_password ← deref new_ptr err_internal
  require (is_valid_username username) err_internal
  check_password new_password
  user ← find_user_or_refuse op_change_password username
  verify_or_refuse op_change_password username old_password user
  new_hash ← hash_password new_password
  attempt begin_immediate
  done ← attempt (replace_password user new_hash)
  end_change username user done

abbrev pub op_rotate : Bytes
op_rotate = codes "kek_rotate"

abbrev pub end_rotate : Bytes → User → Option (Unit {0}) → Exec Status Unit
end_rotate username user (some _) = do
  cache_invalidate user.id
  audit_write username user.id op_rotate ok (some username) status_ok
end_rotate username user none =
    refuse username user.id op_rotate err_internal none
      (some (codes "{\"error\":\"KEK rotation failed\"}"))

unfoldable pub ssm_kek_rotate : Option Bytes → Exec Status Unit
ssm_kek_rotate username_ptr = do
  username ← deref username_ptr err_internal
  user ← find_user_or_refuse op_rotate username
  done ← attempt (kek_rotate user.id user.password_hash)
  end_rotate username user done
