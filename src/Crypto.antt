-- ===== src/Crypto.antt =====
-- src/crypto/*.cc and the allocation of src/utils/secure_memory.cc: the wrappers of OpenSSL and
-- libsodium. Each EVP call may report an error. The lengths that the source passes beside its
-- pointers are the lengths of the byte strings. Those of a text and of a ciphertext are cast to int
-- for EVP_EncryptUpdate and EVP_DecryptUpdate: the definitions are those of texts below `int_limit`.
pub mod Reads
use vaultine.Prelude.{
  ℕ, zero, ◌%◌, Bytes, Bool, true, false, not, ◌&&◌, ◌||◌, ◌==◌, ltb, leb, Option, none, some, [],
  ◌∷◌, length, if◌then◌else◌,
}
use vaultine.World.{Env}
use vaultine.Exec.{
  Exec, Try, value, fail, pure, leave, require, deref, ask, tick, call, random_bytes,
}
use vaultine.Exec.{◌>>=◌, ◌>>◌}

abbrev pub is_empty : Bytes → Bool
is_empty [] = true
is_empty (b ∷ bs) = false

-- 2 ^ 31: what a length that is passed as an int has to be below.
abbrev pub int_limit : ℕ
int_limit = 2147483648

-- calloc and mlock. Of several buffers that are tested together the later ones are not asked for
-- once one is refused.
unfoldable pub secure_alloc : ℕ → Try Unit
secure_alloc size = do require (not (size == 0)) tt; call; call

-- `if (aad && aad_len > 0)`
unfoldable pub feed_aad : Bytes → Try Unit
feed_aad aad = if is_empty aad then pure tt else call

-- The context, the cipher, the nonce length, the key with the nonce, the additional data, the text,
-- the end, the tag.
unfoldable pub aes_gcm_encrypt : Bytes → Bytes → Bytes → Bytes → Try (Bytes × Bytes)
aes_gcm_encrypt plaintext key nonce aad = do
  call
  call
  call
  call
  feed_aad aad
  call
  call
  call
  ask (λ e. e.gcm_seal key nonce aad plaintext)

-- The decryption after the test of the pointers.
unfoldable pub aes_gcm_open : Bytes → Bytes → Bytes → Bytes → Bytes → Try Bytes
aes_gcm_open ciphertext key nonce aad tag = do
  call
  call
  call
  call
  feed_aad aad
  call
  require (leb (length tag) 64) tt
  call
  call
  opened ← ask (λ e. e.gcm_open key nonce aad ciphertext tag)
  deref opened tt

-- The arguments are vectors: an empty one has a null pointer for its data, which is refused. Where
-- the pointers are those of arrays it is `aes_gcm_open`.
unfoldable pub aes_gcm_decrypt : Bytes → Bytes → Bytes → Bytes → Bytes → Try Bytes
aes_gcm_decrypt ciphertext key nonce aad tag = do
  require (not (is_empty ciphertext || is_empty key || is_empty nonce || is_empty tag)) tt
  aes_gcm_open ciphertext key nonce aad tag

abbrev pub aes_kw_block : ℕ
aes_kw_block = 8

abbrev pub aes_256_key_len : ℕ
aes_256_key_len = 32

unfoldable pub aes_kw_wrap : Bytes → Bytes → Try Bytes
aes_kw_wrap plaintext kek = do
  require (length kek == aes_256_key_len) tt
  require (length plaintext % aes_kw_block == 0 && not (is_empty plaintext)) tt
  call
  call
  call
  call
  ask (λ e. e.key_wrap kek plaintext)

unfoldable pub aes_kw_unwrap : Bytes → Bytes → Try Bytes
aes_kw_unwrap ciphertext kek = do
  require (not (is_empty ciphertext)) tt
  require (length kek == aes_256_key_len) tt
  require (length ciphertext % aes_kw_block == 0) tt
  call
  call
  call
  call
  unwrapped ← ask (λ e. e.key_unwrap kek ciphertext)
  deref unwrapped tt

abbrev pub crypto_pwhash_strbytes : ℕ
crypto_pwhash_strbytes = 128

-- crypto_pwhash_str draws its own salt.
unfoldable pub argon2id_hash : Bytes → ℕ → Try Bytes
argon2id_hash password hash_len = do
  require (leb crypto_pwhash_strbytes hash_len) tt
  salt ← random_bytes 16
  call
  ask (λ e. e.pwhash_str salt password)

unfoldable pub argon2id_verify : Bytes → Bytes → Try Unit
argon2id_verify password hash = do
  require (leb crypto_pwhash_strbytes (length hash)) tt
  call
  verified ← ask (λ e. e.pwhash_str_verify hash password)
  require verified tt
