-- ===== src/Backup/Files.antt =====
-- What backup_restore makes of a file that backup_create wrote.
use vaultine.Prelude.{
  ℕ, ◌+◌, ◌-◌, Bytes, codes, ◌≡◌, refl, sym, ◌∙◌, ap, true, false, not, ◌||◌, ◌==◌, leb, Option,
  some, [], ◌∷◌, ◌++◌, length, take, drop, take-append, drop-append, length-append, arith,
}
use vaultine.World.{Env, IsLawful, Vault}
use vaultine.Exec.Runs.{
  Reads, Reads-chain, Reads-map, Reads-pure, Reads-deref, Reads-require, Reads-call, Reads-ask,
  Reads-time, Reads-random_bytes, ◌⨾◌,
}
use vaultine.Exec.Sure.{
  Sure, Sure-bind, Sure-map, Sure-ask, Sure-pure, Sure-deref, Sure-require, Sure-call, ◌⨟◌,
}
use vaultine.Crypto.{is_empty, feed_aad, aes_gcm_open, aes_gcm_decrypt}
use vaultine.Crypto.Reads.{aes_gcm_encrypt-Reads}
use vaultine.Reveal.{◌and_then◌}
use vaultine.Backup.{new_header, read_file, backup_create}
use vaultine.Backup.Header.{
  backup_magic, backup_version, header_bytes, read_header, le_bytes, le_value,
}

abbrev pub enc_of : Env → Bytes → Bytes
enc_of e key = e.sha256 (codes "ssm-backup-enc" ++ key)

abbrev pub auth_of : Env → Bytes → Bytes
auth_of e key = e.sha256 (codes "ssm-backup-auth" ++ key)

-- The parts of a backup: what was written, and from what.
pub record Written (e : Env) (key data' out : Bytes) : Type 0 where
  pub timestamp : ℕ
  pub nonce : Bytes
  pub drawn : length nonce ≡ 12
  pub present : is_empty data' ≡ false
  pub cipher : Bytes
  pub tag : Bytes
  pub sealed :
      (cipher, tag)
      ≡ e.gcm_seal (enc_of e key) nonce (header_bytes (new_header timestamp nonce)) data'
  pub hmac : Bytes
  pub signed :
      hmac
      ≡ e.hmac_sha256 (auth_of e key) (header_bytes (new_header timestamp nonce) ++ (cipher ++ tag))
  pub parts : out ≡ header_bytes (new_header timestamp nonce) ++ (cipher ++ (tag ++ hmac))

module _ {e : Env} {v : Vault} where
  read_file-Reads :
      (disk : Bytes → Option Bytes) (path : Bytes)
      → Reads e v (read_file disk path) (λ d. (disk path ≡ some d) × (is_empty d ≡ false))
  unfolding read_file
  read_file-Reads disk path = Reads-chain (Reads-deref (disk path) tt) λ d p.
      Reads-call
      ⨾ Reads-chain (Reads-require (not (is_empty d)) tt)
          λ _ q. Reads-call ⨾ Reads-map (Reads-pure d) (λ a r. rw r (p, ground arith))

  pub backup_create-Reads :
      IsLawful e
      → (disk : Bytes → Option Bytes) (src dst key_ptr : Option Bytes)
      → Reads e v (backup_create disk src dst key_ptr) (λ out.
        (data' : Bytes) × (key : Bytes) × ((src and_then disk) ≡ some data')
        × (key_ptr ≡ some key)
        × (length key ≡ 32)
        × Written e key data' out)
  unfolding backup_create
  backup_create-Reads L disk src dst key_ptr = Reads-chain (Reads-deref src tt) λ path p.
      Reads-deref dst tt
      ⨾ Reads-chain (Reads-deref key_ptr tt) λ key q.
        Reads-chain (Reads-require (length key == 32) tt) λ _ l.
          Reads-require _ tt
          ⨾ Reads-chain (Reads-ask _) λ enc_key en. Reads-chain (Reads-ask _) λ auth_key au.
            Reads-chain (read_file-Reads disk path) λ d f. Reads-chain Reads-time λ now _.
              Reads-chain (Reads-random_bytes 12) λ nonce r.
                Reads-chain (aes_gcm_encrypt-Reads d enc_key nonce _) λ c s.
                  Reads-chain (Reads-ask _) λ hmac h.
                    Reads-call
                    ⨾ Reads-call
                    ⨾ Reads-map (Reads-pure _) λ out o. (
                      d,
                      key,
                      ap (λ z. z and_then disk) p ∙ f.0,
                      q,
                      ground arith,
                      record {
                        timestamp = now;
                        nonce = nonce;
                        drawn = ap length r.1 ∙ L.random_length r.0 12;
                        present = f.1;
                        cipher = c.0;
                        tag = c.1;
                        sealed =
                            s
                            ∙ ap (λ k. e.gcm_seal k nonce (header_bytes (new_header now nonce)) d)
                                en;
                        hmac = hmac;
                        signed =
                            h
                            ∙ ap
                                (λ k.
                                  e.hmac_sha256 k
                                    (header_bytes (new_header now nonce) ++ (c.0 ++ c.1)))
                                au;
                        parts = o;
                      },
                    )

-- What is read from the header that was packed.
module _ (now : ℕ) (nonce : Bytes) (h : length nonce ≡ 12) where
  pub length-header : length (header_bytes (new_header now nonce)) ≡ 32
  unfolding header_bytes le_bytes
  length-header = omega (arith, length-append nonce (0 ∷ 0 ∷ []))

  pub read_header-nonce : (read_header (header_bytes (new_header now nonce))).nonce ≡ nonce
  unfolding header_bytes read_header le_bytes
  read_header-nonce =
      ap (λ n. take n (nonce ++ (0 ∷ 0 ∷ []))) (sym h) ∙ take-append nonce (0 ∷ 0 ∷ [])

  pub read_header-magic : (read_header (header_bytes (new_header now nonce))).magic ≡ backup_magic
  unfolding header_bytes read_header le_bytes
  read_header-magic = refl

  pub read_header-version :
      (read_header (header_bytes (new_header now nonce))).version ≡ backup_version
  unfolding header_bytes read_header le_bytes le_value
  read_header-version = refl

-- The four parts of a backup, one after the other.
abbrev pub whole : Bytes → Bytes → Bytes → Bytes → Bytes
whole header cipher tag hmac = header ++ (cipher ++ (tag ++ hmac))

-- How the four parts of a backup are cut out of it.
module _ (header cipher tag hmac : Bytes) (h : length header ≡ 32) (t : length tag ≡ 16)
    (m : length hmac ≡ 32) where
  pub length-whole : length (whole header cipher tag hmac) ≡ 80 + length cipher
  length-whole = omega (
    arith,
    length-append header (cipher ++ (tag ++ hmac)),
    length-append cipher (tag ++ hmac),
    length-append tag hmac,
  )

  size : length (whole header cipher tag hmac) - 32 - 16 - 32 ≡ length cipher
  size = omega (arith, length-whole)

  pub cut_header : take 32 (whole header cipher tag hmac) ≡ header
  cut_header = ap (λ n. take n (whole header cipher tag hmac)) (sym h) ∙ take-append header _

  cut_body : drop 32 (whole header cipher tag hmac) ≡ cipher ++ (tag ++ hmac)
  cut_body = ap (λ n. drop n (whole header cipher tag hmac)) (sym h) ∙ drop-append header _

  pub cut_cipher :
      take
        (length (whole header cipher tag hmac) - 32 - 16 - 32)
        (drop 32 (whole header cipher tag hmac))
      ≡ cipher
  cut_cipher = rw (size, cut_body) (take-append cipher (tag ++ hmac))

  cut_rest :
      drop
        (length (whole header cipher tag hmac) - 32 - 16 - 32)
        (drop 32 (whole header cipher tag hmac))
      ≡ tag ++ hmac
  cut_rest = rw (size, cut_body) (drop-append cipher (tag ++ hmac))

  pub cut_tag :
      take 16 (
        drop
          (length (whole header cipher tag hmac) - 32 - 16 - 32)
          (drop 32 (whole header cipher tag hmac)))
      ≡ tag
  cut_tag = rw cut_rest (ap (λ n. take n (tag ++ hmac)) (sym t) ∙ take-append tag hmac)

  pub cut_hmac :
      drop 16 (
        drop
          (length (whole header cipher tag hmac) - 32 - 16 - 32)
          (drop 32 (whole header cipher tag hmac)))
      ≡ hmac
  cut_hmac = rw cut_rest (ap (λ n. drop n (tag ++ hmac)) (sym t) ∙ drop-append tag hmac)

module _ {e : Env} {v : Vault} (quiet : (n : ℕ) → e.fails n ≡ false) where
  pub feed_aad-Sure : (aad : Bytes) → Sure e v (feed_aad aad) (λ _. Unit)
  unfolding feed_aad
  feed_aad-Sure [] = Sure-map (Sure-pure tt) (λ _ _. tt)
  feed_aad-Sure (b ∷ bs) = Sure-call quiet

  pub aes_gcm_open-Sure :
      (cipher key nonce aad tag : Bytes) {text : Bytes}
      → leb (length tag) 64 ≡ true
      → e.gcm_open key nonce aad cipher tag ≡ some text
      → Sure e v (aes_gcm_open cipher key nonce aad tag) (λ p. p ≡ text)
  unfolding aes_gcm_open
  aes_gcm_open-Sure cipher key nonce aad tag short opened =
      Sure-call quiet
      ⨟ Sure-call quiet
      ⨟ Sure-call quiet
      ⨟ Sure-call quiet
      ⨟ feed_aad-Sure aad
      ⨟ Sure-call quiet
      ⨟ Sure-require tt short
      ⨟ Sure-call quiet
      ⨟ Sure-call quiet
      ⨟ Sure-bind (Sure-ask _) (λ o p. Sure-deref o tt (p ∙ opened))

  pub aes_gcm_decrypt-Sure :
      (cipher key nonce aad tag : Bytes) {text : Bytes}
      → (is_empty cipher || is_empty key || is_empty nonce || is_empty tag) ≡ false
      → leb (length tag) 64 ≡ true
      → e.gcm_open key nonce aad cipher tag ≡ some text
      → Sure e v (aes_gcm_decrypt cipher key nonce aad tag) (λ p. p ≡ text)
  unfolding aes_gcm_decrypt
  aes_gcm_decrypt-Sure cipher key nonce aad tag there short opened =
      Sure-require tt (rw there refl) ⨟ aes_gcm_open-Sure cipher key nonce aad tag short opened

  pub read_file-Sure :
      (disk : Bytes → Option Bytes) (path : Bytes) {d : Bytes}
      → disk path ≡ some d
      → is_empty d ≡ false
      → Sure e v (read_file disk path) (λ a. a ≡ d)
  unfolding read_file
  read_file-Sure disk path p q = Sure-bind (Sure-deref (disk path) tt p) λ d r.
      Sure-call quiet
      ⨟ Sure-require tt (rw (r, q) refl)
      ⨟ Sure-call quiet
      ⨟ Sure-map (Sure-pure d) (λ a s. s ∙ r)
