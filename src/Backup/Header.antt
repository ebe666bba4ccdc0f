-- ===== src/Backup/Header.antt =====
-- backup_header of src/backup/backup.h: 32 packed bytes, numbers in little-endian order.
use vaultine.Prelude.{ℕ, zero, suc, ◌+◌, ◌*◌, ◌/◌, ◌%◌, Bytes, codes, [], ◌∷◌, ◌++◌, take, drop}

abbrev pub backup_magic_len : ℕ
backup_magic_len = 8

abbrev pub backup_header_len : ℕ
backup_header_len = 32

abbrev pub backup_nonce_len : ℕ
backup_nonce_len = 12

abbrev pub backup_tag_len : ℕ
backup_tag_len = 16

abbrev pub backup_hmac_len : ℕ
backup_hmac_len = 32

abbrev pub backup_version : ℕ
backup_version = 2

abbrev pub backup_magic : Bytes
backup_magic = codes "VAULTBKP"

pub record BackupHeader : Type 0 where
  pub magic : Bytes
  pub version : ℕ
  pub timestamp : ℕ
  pub nonce : Bytes
  pub reserved : Bytes

-- An unsigned number in n bytes, the lowest first; what does not fit is cut off.
unfoldable pub le_bytes : ℕ → ℕ → Bytes
le_bytes zero x = []
le_bytes (suc n) x = x % 256 ∷ le_bytes n (x / 256)

unfoldable pub le_value : Bytes → ℕ
le_value [] = 0
le_value (b ∷ bs) = b + 256 * le_value bs

-- The struct as bytes, and bytes as the struct.
unfoldable pub header_bytes : BackupHeader → Bytes
header_bytes h =
    h.magic ++ (le_bytes 2 h.version ++ (le_bytes 8 h.timestamp ++ (h.nonce ++ h.reserved)))

unfoldable pub read_header : Bytes → BackupHeader
read_header b = record {
  magic = take 8 b;
  version = le_value (take 2 (drop 8 b));
  timestamp = le_value (take 8 (drop 10 b));
  nonce = take 12 (drop 18 b);
  reserved = take 2 (drop 30 b);
}
