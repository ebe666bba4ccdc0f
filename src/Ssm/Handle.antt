-- ===== src/Ssm/Handle.antt =====
-- src/ssm.cc: opening and closing the handle, the version of the schema, export, backup and restore;
-- with the connection of src/db/database.cc.
pub mod Paths
pub mod Split
pub mod Init
pub mod Restore
use vaultine.Prelude.{
  ℕ, ◌≤◌, Bytes, codes, eqb, Bool, true, false, not, ◌&&◌, ◌||◌, ◌==◌, ltb, leb, Option, none, some,
  List, [], ◌++◌, take, amend, replicate, if◌then◌else◌,
}
use vaultine.World.{Status, err_internal, Tables, CacheEntry}
use vaultine.Exec.{
  Exec, Try, pure, leave, gets, modify, require, deref, attempt, present, call, call_by,
  ignore_call, random_bytes, leaving, ◌or_return◌, ◌or_else◌, ◌>>=◌, ◌>>◌,
}
use vaultine.Crypto.{is_empty, secure_alloc}
use vaultine.Cache.{ssm_cache_max}
use vaultine.Db.{restored, on_tables}
use vaultine.Db.AuditLog.{audit_log_prune}
use vaultine.Db.Migrations.{db_get_version, db_migrate, db_create_schema, ssm_schema_version}
use vaultine.Hex.{hex_encode}
use vaultine.Export.{export_metadata}
use vaultine.Backup.{backup_create, backup_restore}
use vaultine.Ssm.Handle.Paths.{is_file, template_fits, temporary_path}

-- The SQL text that sets the key of SQLCipher.
unfoldable pub key_pragma : Bytes → Bytes
key_pragma key = codes "PRAGMA key = x'" ++ (hex_encode key ++ codes "';")

-- PRAGMA cipher_version has a row where SQLite is SQLCipher.
unfoldable pub sqlcipher_is_present : Bool → Try Unit
sqlcipher_is_present sqlcipher = do call; require sqlcipher tt

-- The pragma's text is given to SQLite, and only its error comes back.
abbrev pub set_key_via_pragma : Bytes → Try Unit
set_key_via_pragma key = call

-- A null key is `none`. After a failure `*out` is null or it is a handle that cannot be used.
pub data Unopened : Type 0 where
  null_handle bad_handle : Unopened

abbrev pub unlock_db : Option Bytes → Exec Unopened Unit
unlock_db none = leave null_handle
unlock_db (some key) =
    if is_empty key then leave null_handle else (set_key_via_pragma key or_return null_handle)

unfoldable pub db_open : Bool → Option Bytes → Option Bytes → Exec Unopened Unit
db_open sqlcipher path_ptr key_ptr = do
  deref path_ptr null_handle
  call or_return bad_handle
  encrypted ← attempt (sqlcipher_is_present sqlcipher)
  if present encrypted then unlock_db key_ptr else pure tt

abbrev pub vacant : CacheEntry
vacant = record { user_id = 0; key = replicate 32 0; last_used = 0; valid = false }

-- The size of ssm_handle, which is not zero, on the usual 64-bit ABI.
abbrev pub handle_size : ℕ
handle_size = 14424

-- The tables are those of the file that is opened. A new handle has an empty cache.
unfoldable pub ssm_init : Bool → Option Bytes → Option Bytes → Exec Status Unit
ssm_init sqlcipher path_ptr key_ptr = do
  call or_return err_internal
  db_open sqlcipher path_ptr key_ptr or_return err_internal
  db_create_schema or_return err_internal
  db_migrate or_return err_internal
  attempt (audit_log_prune 90)
  secure_alloc handle_size or_return err_internal
  modify
      (λ v. record v { cache = replicate ssm_cache_max vacant; cache_hits = 0; cache_misses = 0 })
  call or_return err_internal

-- secure_erase(entry.key, KEK_KEY_LEN); the flag stays
abbrev pub wiped : CacheEntry → CacheEntry
wiped c = record c { key = replicate 32 0 }

-- What the memory of the cache holds when it is freed.
unfoldable pub ssm_destroy : Exec Status Unit
ssm_destroy = modify (λ v. record v { cache = amend (λ c. c.valid) wiped v.cache })

-- What the callback is given.
unfoldable pub ssm_export : Bool → Bool → Exec Status Bytes
ssm_export json redact_pii = export_metadata json redact_pii

unfoldable pub ssm_db_version : Exec Status ℕ
ssm_db_version = db_get_version or_return err_internal

unfoldable pub ssm_db_migrate : Exec Status Unit
ssm_db_migrate = db_migrate or_return err_internal

-- The files that the handle works with. `files` are their contents, the database's without what is
-- in its log; `image` is the database file with that, and `load` what SQLite reads from a file.
pub record Disk : Type 0 where
  pub sqlcipher : Bool
  pub db_path : Bytes
  pub files : Bytes → Option Bytes
  pub image : Tables → Bytes
  pub load : Bytes → Option Tables

-- The files once `bytes` are written at `path`.
abbrev pub written : Bytes → Bytes → (Bytes → Option Bytes) → Bytes → Option Bytes
written path bytes files p = if eqb p path then some bytes else files p

-- sqlite3_wal_checkpoint_v2, whose result is not looked at, moves the log into the database file.
abbrev pub after_checkpoint : Disk → Tables → Option (Unit {0}) → Bytes → Option Bytes
after_checkpoint d t none = d.files
after_checkpoint d t (some _) = written d.db_path (d.image t) d.files

-- The bytes that are written at the path.
unfoldable pub ssm_backup_create : Disk → Option Bytes → Option Bytes → Exec Status Bytes
ssm_backup_create d path_ptr key_ptr = do
  path ← deref path_ptr err_internal
  key ← deref key_ptr err_internal
  moved ← attempt call
  require (is_file d.db_path) err_internal
  t ← gets (λ v. v.tables)
  backup_create (after_checkpoint d t moved) (some d.db_path) (some path) (some key)
      or_return err_internal

-- The version in a database that is opened for reading.
unfoldable pub read_version : Tables → Try ℕ
read_version t = do
  call
  row ← attempt (call_by (λ e. e.row_fails))
  pure (if present row then t.user_version else 0)

-- db_create_schema and db_migrate on a connection that cannot write: what they would write is an
-- error, which the first ignores.
unfoldable pub verify_restored : Disk → Bytes → Try Tables
verify_restored d bytes = do
  call
  t ← deref (d.load bytes) tt
  call
  before ← attempt (read_version t)
  if elim before [ none ↦ false | some n ↦ n == 0 ] then ignore_call else pure tt
  version ← read_version t
  require (leb ssm_schema_version version) tt
  pure t

-- What SQLite finds in a file that it creates.
abbrev pub no_tables : Tables
no_tables = record {
  users = [];
  keks = [];
  secrets = [];
  audit = [];
  next_user = 1;
  next_kek = 1;
  next_secret = 1;
  next_audit = 1;
  user_version = 0;
  user_index = false;
  name_index = false;
}

-- Whether the handle has a database after an error.
pub data Connection : Type 0 where
  open_db no_db : Connection

-- `if (!h->db) db_open(h->db_path, nullptr, 0, &h->db);` and the error.
unfoldable pub reopen : {A : Type 0} → Disk → Exec (Status × Connection) A
reopen d = do
  again ← attempt (db_open d.sqlcipher (some d.db_path) none)
  leave (err_internal, if present again then open_db else no_db)

abbrev pub reopen_null : {A : Type 0} → Disk → Unopened → Exec (Status × Connection) A
reopen_null d null_handle = reopen d
reopen_null d bad_handle = leave (err_internal, no_db)

-- The database is closed, which ends a transaction that was left open, and its file is replaced by
-- the temporary one. A rename that fails has lost both files.
unfoldable pub replace_database : Disk → Tables → Exec (Status × Connection) Unit
replace_database d t = do
  modify restored
  ignore_call
  ignore_call
  renamed ← attempt call
  if present renamed
      then on_tables (λ _. t)
      else (do ignore_call; on_tables (λ _. no_tables); reopen d)
  db_open d.sqlcipher (some d.db_path) none or_else reopen_null d
  leaving (λ _. (err_internal, open_db)) (do db_create_schema; db_migrate)

abbrev pub still_open : {A : Type 0} → Exec Status A → Exec (Status × Connection) A
still_open = leaving (λ s. (s, open_db))

-- The tables that are restored are those of the file; the cache is not touched.
unfoldable pub ssm_backup_restore :
    Disk → Option Bytes → Option Bytes → Exec (Status × Connection) Unit
ssm_backup_restore d path_ptr key_ptr = do
  path ← still_open (deref path_ptr err_internal)
  key ← still_open (deref key_ptr err_internal)
  still_open (require (is_file d.db_path) err_internal)
  suffix ← random_bytes 6
  still_open (require (template_fits d.db_path) err_internal)
  still_open (call or_return err_internal)
  plaintext ← still_open (
      backup_restore d.files (some path) (some (temporary_path d.db_path suffix)) (some key)
      or_return err_internal)
  t ← still_open (verify_restored d plaintext or_return err_internal)
  replace_database d t
