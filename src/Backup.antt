-- ===== src/Backup.antt =====
-- src/backup/backup.cc and backup.h: the file format of a backup, and the functions that write and
-- read it.
pub mod Header
pub mod Files
pub mod Restore
use vaultine.Prelude.{
  ℕ, ◌+◌, ◌-◌, ◌%◌, Bytes, codes, eqb, Bool, true, not, ◌&&◌, ◌||◌, ◌==◌, ltb, leb, Option, none,
  some, List, [], ◌∷◌, ◌++◌, length, take, drop, if◌then◌else◌, false,
}
use vaultine.Exec.{
  Exec, Try, leave, require, deref, ask, call, time, random_bytes, pure, ◌>>=◌, ◌>>◌,
}
use vaultine.Crypto.{is_empty, aes_gcm_encrypt, aes_gcm_open}
use vaultine.Backup.Header.{
  BackupHeader, backup_header_len, backup_tag_len, backup_hmac_len, backup_magic, backup_version,
  header_bytes, read_header,
}

-- strncmp(path, "../", 3) == 0
abbrev pub starts_with : Bytes → Bytes → Bool
starts_with prefix s = eqb (take (length prefix) s) prefix

-- strstr(s, text) != nullptr
unfoldable pub contains : Bytes → Bytes → Bool
contains text [] = is_empty text
contains text (c ∷ cs) =
    let rest = contains text cs in if starts_with text (c ∷ cs) then true else rest

unfoldable pub has_path_traversal : Option Bytes → Bool
has_path_traversal none = true
has_path_traversal (some path) =
    is_empty path
    || ((eqb path (codes "..") || starts_with (codes "../") path) || contains (codes "/../") path)

-- A file that is there and not empty, read whole. `disk` holds the files.
unfoldable pub read_file : (Bytes → Option Bytes) → Bytes → Try Bytes
read_file disk path = do
  data' ← deref (disk path) tt
  call
  require (not (is_empty data')) tt
  call
  pure data'

-- SHA-256 of a label and the key: the key to encrypt with, and the key to authenticate with.
abbrev pub encryption_key : Bytes → Exec Unit Bytes
encryption_key key = ask (λ e. e.sha256 (codes "ssm-backup-enc" ++ key))

abbrev pub authentication_key : Bytes → Exec Unit Bytes
authentication_key key = ask (λ e. e.sha256 (codes "ssm-backup-auth" ++ key))

abbrev pub hmac_of : Bytes → Bytes → Bytes → Bytes → Exec Unit Bytes
hmac_of auth_key header cipher tag = ask (λ e. e.hmac_sha256 auth_key (header ++ (cipher ++ tag)))

abbrev pub new_header : ℕ → Bytes → BackupHeader
new_header now nonce = record {
  magic = backup_magic;
  version = backup_version;
  timestamp = now;
  nonce = nonce;
  reserved = 0 ∷ 0 ∷ [];
}

-- The bytes that are written to `dst_path`.
unfoldable pub backup_create :
    (Bytes → Option Bytes) → Option Bytes → Option Bytes → Option Bytes → Try Bytes
backup_create disk src dst key_ptr = do
  src_path ← deref src tt
  deref dst tt
  key ← deref key_ptr tt
  require (length key == 32) tt
  require (not (has_path_traversal dst)) tt
  enc_key ← encryption_key key
  auth_key ← authentication_key key
  db_data ← read_file disk src_path
  now ← time
  nonce ← random_bytes 12
  let header = header_bytes (new_header now nonce)
  sealed ← aes_gcm_encrypt db_data enc_key nonce header
  hmac ← hmac_of auth_key header sealed.0 sealed.1
  call
  call
  pure (header ++ (sealed.0 ++ (sealed.1 ++ hmac)))

-- The bytes that are written to `dst_path`. A test that fails leaves that file alone.
unfoldable pub backup_restore :
    (Bytes → Option Bytes) → Option Bytes → Option Bytes → Option Bytes → Try Bytes
backup_restore disk src dst key_ptr = do
  src_path ← deref src tt
  deref dst tt
  key ← deref key_ptr tt
  require (length key == 32) tt
  require (not (has_path_traversal src || has_path_traversal dst)) tt
  enc_key ← encryption_key key
  auth_key ← authentication_key key
  backup ← read_file disk src_path
  require (leb (backup_header_len + backup_tag_len + backup_hmac_len) (length backup)) tt
  let header = take backup_header_len backup
  require (eqb (read_header header).magic backup_magic) tt
  require ((read_header header).version == backup_version) tt
  let size = length backup - backup_header_len - backup_tag_len - backup_hmac_len
  let body = drop backup_header_len backup
  let cipher = take size body
  let tag = take backup_tag_len (drop size body)
  let hmac_stored = drop backup_tag_len (drop size body)
  hmac ← hmac_of auth_key header cipher tag
  require (eqb hmac hmac_stored) tt
  plaintext ← aes_gcm_open cipher enc_key (read_header header).nonce header tag
  call
  call
  pure plaintext
