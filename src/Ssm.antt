-- ===== src/Ssm.antt =====
-- src/ssm.cc: the guards and helpers of the public interface. The children are its operations. Each
-- runs under the handle's lock, so one after another. The handle itself is never null here.
pub mod Runs
pub mod Done
pub mod Healthy
pub mod Users
pub mod Secrets
pub mod Audit
pub mod Calls
pub mod Handle
use vaultine.Prelude.{
  ℕ, suc, Bytes, codes, Bool, true, false, not, ◌&&◌, ◌==◌, ltb, leb, Option, none, some, length,
  if◌then◌else◌,
}
use vaultine.World.{
  Env, World, Status, ok, err_auth, err_not_found, err_expired, err_integrity, err_internal, User,
  KekRow,
}
use vaultine.Exec.{
  Result, value, fail, Exec, Try, pure, leave, gets, modify, require, attempt, present, ◌or_return◌,
  ◌>>=◌, ◌>>◌,
}
use vaultine.Crypto.{is_empty, secure_alloc, argon2id_hash, aes_kw_unwrap}
use vaultine.Kek.{kek_key_len, kek_derive_wrapping_key, kek_is_expired}
use vaultine.Cache.{cache_lookup, cache_insert}
use vaultine.Db.AuditLog.{audit_log_write}
use vaultine.Db.Users.{users_find_by_username}
use vaultine.Db.KekMetadata.{kek_find_by_user}

-- The status that a public function returns.
abbrev pub status_of : {A : Type 0} → Result Status A → Status
status_of (value a) = ok
status_of (fail s) = s

unfoldable pub ssm_status_to_string : Status → Bytes
ssm_status_to_string ok = codes "SSM_OK"
ssm_status_to_string err_auth = codes "SSM_ERR_AUTH"
ssm_status_to_string err_not_found = codes "SSM_ERR_NOT_FOUND"
ssm_status_to_string err_expired = codes "SSM_ERR_EXPIRED"
ssm_status_to_string err_integrity = codes "SSM_ERR_INTEGRITY"
ssm_status_to_string err_internal = codes "SSM_ERR_INTERNAL"

unfoldable pub default_password_validator : Bytes → Status
default_password_validator password = if ltb (length password) 4 then err_internal else ok

-- A null validator brings the default one back.
unfoldable pub ssm_set_password_validator : {E : Type 0} → Option (Bytes → Status) → Exec E Unit
ssm_set_password_validator none = modify (λ v. record v { validator = default_password_validator })
ssm_set_password_validator (some f) = modify (λ v. record v { validator = f })

abbrev pub ssm_username_max : ℕ
ssm_username_max = 255

unfoldable pub is_valid_username : Bytes → Bool
is_valid_username username = not (is_empty username) && leb (length username) ssm_username_max

-- The result of the write is dropped.
unfoldable pub audit_write :
    {E : Type 0} → Bytes → ℕ → Bytes → Status → Option Bytes → Option Bytes → Exec E Unit
audit_write username user operation result target details = do
  attempt (
      audit_log_write (record {
        user_id = user;
        username = username;
        operation = operation;
        result = ssm_status_to_string result;
        operation_target = target;
        details = details;
      }))
  pure tt

-- audit_write, then an early return.
unfoldable pub refuse :
    {A : Type 0} → Bytes → ℕ → Bytes → Status → Option Bytes → Option Bytes → Exec Status A
refuse username user operation result target details = do
  audit_write username user operation result target details
  leave result

abbrev pub otherwise : {E A : Type 0} → Option A → Exec E A → Exec E A
otherwise none m = m
otherwise (some a) m = pure a

abbrev pub is_ok : Status → Bool
is_ok ok = true
is_ok _ = false

-- g_validator(password, g_validator_user_data)
unfoldable pub check_password : Bytes → Exec Status Unit
check_password password = do
  validate ← gets (λ v. v.validator)
  require (is_ok (validate password)) (validate password)

-- The user of that name, or SSM_ERR_AUTH with an audit entry.
unfoldable pub find_user_or_refuse : Bytes → Bytes → Exec Status User
find_user_or_refuse operation username = do
  found ← attempt (users_find_by_username username)
  otherwise found
      (refuse username 0 operation err_auth none (some (codes "{\"error\":\"user not found\"}")))

-- The user's KEK row, unless it has expired.
unfoldable pub find_live_kek : Bytes → Bytes → Option Bytes → User → Exec Status KekRow
find_live_kek operation username target user = do
  kek ← kek_find_by_user user.id or_return err_internal
  expired ← kek_is_expired kek.expires_at
  if expired
      then refuse username user.id operation err_expired target
          (some (codes "{\"error\":\"KEK expired\"}"))
      else pure kek

abbrev pub derive_and_cache : User → KekRow → Exec Status Bytes
derive_and_cache user kek = do
  key ← kek_derive_wrapping_key user.password_hash kek.salt kek_key_len or_return err_internal
  cache_insert user.id key
  pure key

-- The wrapping key from the cache, or derived and put there; then the KEK is unwrapped.
unfoldable pub open_kek : User → KekRow → Exec Status Bytes
open_kek user kek = do
  secure_alloc kek_key_len or_return err_internal
  secure_alloc kek_key_len or_return err_internal
  cached ← cache_lookup user.id
  wrapping_key ← otherwise cached (derive_and_cache user kek)
  aes_kw_unwrap kek.wrapped_kek wrapping_key or_return err_internal

-- A hash of crypto_pwhash_STRBYTES bytes. A buffer that could not be allocated has no bytes.
unfoldable pub hash_password : Bytes → Exec Status Bytes
hash_password password = do
  buffer ← attempt (secure_alloc 128)
  argon2id_hash password (if present buffer then 128 else 0) or_return err_internal

abbrev pub status_ok : Option Bytes
status_ok = some (codes "{\"status\":\"ok\"}")

abbrev pub password_mismatch : Option Bytes
password_mismatch = some (codes "{\"error\":\"password mismatch\"}")
