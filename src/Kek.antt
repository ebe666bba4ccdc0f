-- ===== src/Kek.antt =====
-- src/kek/kek.cc: the key encryption key of a user, its wrapping, its expiry and its rotation.
pub mod Reads
pub mod Reencrypt
pub mod Rotation
use vaultine.Prelude.{
  ℕ, ◌+◌, ◌*◌, Bytes, Bool, true, not, ◌&&◌, ◌==◌, ltb, leb, Option, none, some, List, [], ◌∷◌,
  length, take, if◌then◌else◌,
}
use vaultine.World.{SecretRow}
use vaultine.Exec.{
  Exec, Try, pure, leave, require, ask, attempt, present, call, time, random_bytes, ◌>>=◌, ◌>>◌,
}
use vaultine.Crypto.{
  is_empty, secure_alloc, aes_gcm_encrypt, aes_gcm_decrypt, aes_kw_wrap, aes_kw_unwrap,
}
use vaultine.Db.{begin_immediate, commit, rollback, on_tables, sql_now, format_time}
use vaultine.Db.Sql.{update_secret}
use vaultine.Db.KekMetadata.{kek_find_by_user, kek_update}
use vaultine.Db.Secrets.{secrets_list_for_user}

abbrev pub kek_key_len : ℕ
kek_key_len = 32

abbrev pub kek_salt_len : ℕ
kek_salt_len = 16

abbrev pub kek_default_days : ℕ
kek_default_days = 90

-- crypto_pwhash reads the first 16 bytes of the salt.
unfoldable pub kek_derive_wrapping_key : Bytes → Bytes → ℕ → Try Bytes
kek_derive_wrapping_key auth_hash salt wrapping_key_len = do
  require (not (is_empty auth_hash) && leb kek_salt_len (length salt)) tt
  require (wrapping_key_len == kek_key_len) tt
  call
  ask (λ e. e.pwhash auth_hash (take kek_salt_len salt))

-- A date that cannot be read has passed.
abbrev pub has_passed : {E : Type 0} → Option ℕ → Exec E Bool
has_passed none = pure true
has_passed (some expiry) = do now ← time; pure (leb expiry now)

unfoldable pub kek_is_expired : {E : Type 0} → Bytes → Exec E Bool
kek_is_expired expires_at = do expiry ← ask (λ e. e.strptime expires_at); has_passed expiry

unfoldable pub kek_expires_at : ℕ → ℕ → Try Bytes
kek_expires_at days out_size = do
  require (leb 22 out_size) tt
  now ← time
  format_time (now + days * 86400)

-- What kek_generate writes through its pointers.
pub record NewKek : Type 0 where
  pub wrapped : Bytes
  pub salt : Bytes
  pub expires_at : Bytes

unfoldable pub kek_generate : Bytes → ℕ → ℕ → Try NewKek
kek_generate auth_hash salt_len expires_at_size = do
  require (not (is_empty auth_hash)) tt
  require (leb kek_salt_len salt_len) tt
  secure_alloc kek_key_len
  secure_alloc kek_key_len
  kek ← random_bytes kek_key_len
  salt ← random_bytes kek_salt_len
  wrapping_key ← kek_derive_wrapping_key auth_hash salt kek_key_len
  wrapped ← aes_kw_wrap kek wrapping_key
  expires_at ← kek_expires_at kek_default_days expires_at_size
  pure (record { wrapped = wrapped; salt = salt; expires_at = expires_at })

unfoldable pub kek_unwrap : Bytes → Bytes → Bytes → Try Bytes
kek_unwrap wrapped_kek auth_hash salt = do
  require (leb kek_salt_len (length salt)) tt
  secure_alloc kek_key_len
  wrapping_key ← kek_derive_wrapping_key auth_hash (take kek_salt_len salt) kek_key_len
  aes_kw_unwrap wrapped_kek wrapping_key

-- A public key that is empty is stored as NULL.
abbrev pub or_null : Bytes → Option Bytes
or_null b = if is_empty b then none else some b

-- A column that is NULL is read as an empty vector.
abbrev pub or_empty : Option Bytes → Bytes
or_empty none = []
or_empty (some b) = b

-- One round of the loop: decrypt with the old key, encrypt with the new one under a new nonce, and
-- write the row. The buffers, of the largest size among the secrets, are there or not. The lengths of
-- the blobs, which are cast to int, are taken to be below `int_limit` of Crypto.
unfoldable pub reencrypt : Bytes → Bytes → ℕ → Bool → SecretRow → Try Unit
reencrypt old_kek new_kek max_priv_len buffers secret = do
  require (leb (length secret.private_key) max_priv_len && buffers) tt
  plain ← aes_gcm_decrypt secret.private_key old_kek secret.nonce [] secret.tag
  nonce ← random_bytes 12
  (cipher, tag) ← aes_gcm_encrypt plain new_kek nonce []
  call
  now ← sql_now
  on_tables (
      update_secret secret.id
        (record {
          private_key = cipher;
          public_key = or_null (or_empty secret.public_key);
          nonce = nonce;
          tag = tag;
        })
        now)

unfoldable pub reencrypt_all : Bytes → Bytes → ℕ → Bool → List SecretRow → Try Unit
reencrypt_all old_kek new_kek max_priv_len buffers [] = pure tt
reencrypt_all old_kek new_kek max_priv_len buffers (secret ∷ secrets) = do
  reencrypt old_kek new_kek max_priv_len buffers secret
  reencrypt_all old_kek new_kek max_priv_len buffers secrets

abbrev pub max_length : ℕ → List SecretRow → ℕ
max_length m [] = m
max_length m (s ∷ ss) =
    max_length (if ltb m (length s.private_key) then length s.private_key else m) ss

-- The block between BEGIN and COMMIT. The result of BEGIN is not looked at.
unfoldable pub rotate_keys : ℕ → Bytes → Try Unit
rotate_keys user auth_hash = do
  attempt begin_immediate
  old ← kek_find_by_user user
  old_kek ← kek_unwrap old.wrapped_kek auth_hash old.salt
  secrets ← secrets_list_for_user user
  new_kek ← random_bytes kek_key_len
  new_salt ← random_bytes kek_salt_len
  wrapping_key ← kek_derive_wrapping_key auth_hash new_salt kek_key_len
  wrapped ← aes_kw_wrap new_kek wrapping_key
  expires_at ← kek_expires_at kek_default_days 24
  plain_priv ← attempt (secure_alloc (max_length 0 secrets))
  new_priv ← attempt (secure_alloc (max_length 0 secrets))
  call
  reencrypt_all old_kek new_kek (max_length 0 secrets) (present plain_priv && present new_priv)
      secrets
  kek_update user wrapped new_salt expires_at old.kek_version

-- `if (ok) COMMIT else ROLLBACK; return ok`. The result of COMMIT is not looked at.
unfoldable pub end_transaction : Option (Unit {0}) → Try Unit
end_transaction none = do rollback; leave tt
end_transaction (some _) = do attempt commit; pure tt

unfoldable pub kek_rotate : ℕ → Bytes → Try Unit
kek_rotate user auth_hash = do
  require (not (is_empty auth_hash)) tt
  secure_alloc kek_key_len
  secure_alloc kek_key_len
  secure_alloc kek_key_len
  secure_alloc kek_salt_len
  secure_alloc 64
  secure_alloc kek_key_len
  done ← attempt (rotate_keys user auth_hash)
  end_transaction done
