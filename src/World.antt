-- ===== src/World.antt =====
-- What the library's functions read and write: the four tables of db/database.cc, the handle of
-- ssm.cc, the files on disk, and the environment that answers every call of foreign code.
use vaultine.Prelude.{ℕ, ◌+◌, ◌≡◌, Bytes, length, Bool, true, Option, some, List}

-- ssm_status of include/ssm/ssm.h.
pub data Status : Type 0 where
  ok err_auth err_not_found err_expired err_integrity err_internal : Status

-- A row of `users`.
pub record User : Type 0 where
  pub id : ℕ
  pub username : Bytes
  pub password_hash : Bytes
  pub created_at : Bytes

-- A row of `kek_metadata`.
pub record KekRow : Type 0 where
  pub id : ℕ
  pub user_id : ℕ
  pub wrapped_kek : Bytes
  pub salt : Bytes
  pub expires_at : Bytes
  pub kek_version : ℕ

-- A row of `secrets`. `none` is SQL's NULL.
pub record SecretRow : Type 0 where
  pub id : ℕ
  pub user_id : ℕ
  pub name : Bytes
  pub private_key : Bytes
  pub public_key : Option Bytes
  pub nonce : Bytes
  pub tag : Bytes
  pub description : Option Bytes
  pub updated_at : Bytes

-- A row of `audit_log`.
pub record AuditEntry : Type 0 where
  pub id : ℕ
  pub user_id : Option ℕ
  pub username : Bytes
  pub operation : Bytes
  pub operation_target : Option Bytes
  pub details : Option Bytes
  pub result : Bytes
  pub timestamp : Bytes

-- A database: its tables in the order of their row ids, the next value of each AUTOINCREMENT
-- counter, `PRAGMA user_version`, and whether the two indexes of db/migrations.cc exist.
pub record Tables : Type 0 where
  pub users : List User
  pub keks : List KekRow
  pub secrets : List SecretRow
  pub audit : List AuditEntry
  pub next_user : ℕ
  pub next_kek : ℕ
  pub next_secret : ℕ
  pub next_audit : ℕ
  pub user_version : ℕ
  pub user_index : Bool
  pub name_index : Bool

-- cache_entry of ssm.cc.
pub record CacheEntry : Type 0 where
  pub user_id : ℕ
  pub key : Bytes
  pub last_used : ℕ
  pub valid : Bool

-- ssm_handle with its open database, and the global password validator. `saved` holds the tables
-- as they were at BEGIN while a transaction is open.
pub record Vault : Type 0 where
  pub tables : Tables
  pub saved : Option Tables
  pub cache : List CacheEntry
  pub cache_hits : ℕ
  pub cache_misses : ℕ
  pub validator : Bytes → Status

-- `calls` counts the calls of foreign code that were made.
pub record World : Type 0 where
  pub calls : ℕ
  pub vault : Vault
  pub open vault use *

-- Foreign code. The first six fields answer a call by its number: whether it reports an error (BEGIN,
-- COMMIT and the reading of a result row have a field of their own), the time, and random bytes of a
-- given length. The others are the date formats of the C library and the functions of libsodium and
-- OpenSSL: crypto_pwhash_str (with its salt) and its test, crypto_pwhash of a password and a salt,
-- EVP_aes_256_wrap both ways, EVP_aes_256_gcm both ways (key, nonce, additional data, text, and the
-- tag beside the ciphertext), crypto_hash_sha256 and crypto_auth_hmacsha256.
pub record Env : Type 0 where
  pub fails : ℕ → Bool
  pub row_fails : ℕ → Bool
  pub begin_fails : ℕ → Bool
  pub commit_fails : ℕ → Bool
  pub clock : ℕ → ℕ
  pub random : ℕ → ℕ → Bytes
  pub strftime : ℕ → Bytes
  pub strptime : Bytes → Option ℕ
  pub pwhash_str : Bytes → Bytes → Bytes
  pub pwhash_str_verify : Bytes → Bytes → Bool
  pub pwhash : Bytes → Bytes → Bytes
  pub key_wrap : Bytes → Bytes → Bytes
  pub key_unwrap : Bytes → Bytes → Option Bytes
  pub gcm_seal : Bytes → Bytes → Bytes → Bytes → Bytes × Bytes
  pub gcm_open : Bytes → Bytes → Bytes → Bytes → Bytes → Option Bytes
  pub sha256 : Bytes → Bytes
  pub hmac_sha256 : Bytes → Bytes → Bytes

-- What the library relies on of the foreign functions: sizes, and that each inverts its partner.
pub record IsLawful (e : Env) : Type 0 where
  pub random_length : (i n : ℕ) → length (e.random i n) ≡ n
  pub parse_format : (t : ℕ) → e.strptime (e.strftime t) ≡ some t
  pub hash_length : (salt password : Bytes) → length (e.pwhash_str salt password) ≡ 128
  pub verify_hash :
      (salt password : Bytes) → e.pwhash_str_verify (e.pwhash_str salt password) password ≡ true
  pub pwhash_length : (password salt : Bytes) → length (e.pwhash password salt) ≡ 32
  pub wrap_length : (key text : Bytes) → length (e.key_wrap key text) ≡ length text + 8
  pub unwrap_wrap : (key text : Bytes) → e.key_unwrap key (e.key_wrap key text) ≡ some text
  pub seal_length :
      (key nonce aad text : Bytes) → length (e.gcm_seal key nonce aad text).0 ≡ length text
  pub tag_length : (key nonce aad text : Bytes) → length (e.gcm_seal key nonce aad text).1 ≡ 16
  pub open_seal :
      (key nonce aad text : Bytes)
      → e.gcm_open key nonce aad (e.gcm_seal key nonce aad text).0 (e.gcm_seal key nonce aad text).1
        ≡ some text
  pub sha256_length : (text : Bytes) → length (e.sha256 text) ≡ 32
  pub hmac_length : (key text : Bytes) → length (e.hmac_sha256 key text) ≡ 32
