-- ===== src/Crypto/Reads.antt =====
-- What the wrappers of src/crypto return when they return: the foreign function's value, with the
-- vault as it was.
use vaultine.Prelude.{ℕ, Bytes, ◌≡◌, sym, ◌∙◌, [], ◌∷◌, true, some}
use vaultine.World.{Env, Vault}
use vaultine.Exec.Runs.{
  Reads, Reads-chain, ◌⨾◌, Reads-call, Reads-require, Reads-deref, Reads-ask, Reads-pure,
  Reads-random_bytes, Reads-map,
}
use vaultine.Crypto.{
  secure_alloc, feed_aad, aes_gcm_encrypt, aes_gcm_open, aes_gcm_decrypt, aes_kw_wrap,
  aes_kw_unwrap, argon2id_hash, argon2id_verify,
}

module _ {e : Env} {v : Vault} where
  pub secure_alloc-Reads : (n : ℕ) → Reads e v (secure_alloc n) (λ _. Unit)
  unfolding secure_alloc
  secure_alloc-Reads n = Reads-require _ _ ⨾ Reads-call ⨾ Reads-call

  feed_aad-Reads : (aad : Bytes) → Reads e v (feed_aad aad) (λ _. Unit)
  unfolding feed_aad
  feed_aad-Reads [] = Reads-map (Reads-pure tt) (λ a h. tt)
  feed_aad-Reads (b ∷ bs) = Reads-call

  pub aes_gcm_encrypt-Reads :
      (text key nonce aad : Bytes)
      → Reads e v (aes_gcm_encrypt text key nonce aad) (λ c. c ≡ e.gcm_seal key nonce aad text)
  unfolding aes_gcm_encrypt
  aes_gcm_encrypt-Reads text key nonce aad =
      Reads-call
      ⨾ Reads-call
      ⨾ Reads-call
      ⨾ Reads-call
      ⨾ feed_aad-Reads aad
      ⨾ Reads-call
      ⨾ Reads-call
      ⨾ Reads-call
      ⨾ Reads-ask _

  -- A decryption that returns is one that the cipher accepts.
  pub aes_gcm_decrypt-Reads :
      (cipher key nonce aad tag : Bytes)
      → Reads e v
          (aes_gcm_decrypt cipher key nonce aad tag)
          (λ p. e.gcm_open key nonce aad cipher tag ≡ some p)
  unfolding aes_gcm_decrypt aes_gcm_open
  aes_gcm_decrypt-Reads cipher key nonce aad tag =
      Reads-require _ _
      ⨾ Reads-call
      ⨾ Reads-call
      ⨾ Reads-call
      ⨾ Reads-call
      ⨾ feed_aad-Reads aad
      ⨾ Reads-call
      ⨾ Reads-require _ _
      ⨾ Reads-call
      ⨾ Reads-call
      ⨾ Reads-chain (Reads-ask _) (λ o p. Reads-map (Reads-deref o tt) (λ a h. sym p ∙ h))

  pub aes_kw_wrap-Reads :
      (text kek : Bytes) → Reads e v (aes_kw_wrap text kek) (λ c. c ≡ e.key_wrap kek text)
  unfolding aes_kw_wrap
  aes_kw_wrap-Reads text kek =
      Reads-require _ _
      ⨾ Reads-require _ _
      ⨾ Reads-call
      ⨾ Reads-call
      ⨾ Reads-call
      ⨾ Reads-call
      ⨾ Reads-ask _

  pub aes_kw_unwrap-Reads :
      (cipher kek : Bytes)
      → Reads e v (aes_kw_unwrap cipher kek) (λ p. e.key_unwrap kek cipher ≡ some p)
  unfolding aes_kw_unwrap
  aes_kw_unwrap-Reads cipher kek =
      Reads-require _ _
      ⨾ Reads-require _ _
      ⨾ Reads-require _ _
      ⨾ Reads-call
      ⨾ Reads-call
      ⨾ Reads-call
      ⨾ Reads-call
      ⨾ Reads-chain (Reads-ask _) (λ o p. Reads-map (Reads-deref o tt) (λ a h. sym p ∙ h))

  pub argon2id_hash-Reads :
      (password : Bytes) (n : ℕ)
      → Reads e v
          (argon2id_hash password n)
          (λ h. (salt : Bytes) × (h ≡ e.pwhash_str salt password))
  unfolding argon2id_hash
  argon2id_hash-Reads password n =
      Reads-require _ _
      ⨾ Reads-chain (Reads-random_bytes 16)
          (λ salt p. Reads-call ⨾ Reads-map (Reads-ask _) (λ a h. (salt, h)))

  pub argon2id_verify-Reads :
      (password hash : Bytes)
      → Reads e v (argon2id_verify password hash) (λ _. e.pwhash_str_verify hash password ≡ true)
  unfolding argon2id_verify
  argon2id_verify-Reads password hash =
      Reads-require _ _
      ⨾ Reads-call
      ⨾ Reads-chain (Reads-ask _) (λ b p. Reads-map (Reads-require b tt) (λ a h. sym p ∙ h))
