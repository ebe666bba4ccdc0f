-- ===== src/Backup/Restore.antt =====
-- A backup can be restored: the file that backup_create wrote gives the data back.
use vaultine.Prelude.{
  ℕ, suc, ◌+◌, ◌-◌, ◌<◌, Bytes, eqb, eqb_refl, ◌≡◌, refl, sym, ◌∙◌, ap, true, false, ◌==◌, leb,
  Option, some, [], ◌∷◌, ◌++◌, length, take, drop, arith,
}
use mathlib.Core.Path.{ap₂, subst}
use vaultine.World.{Env, IsLawful, Vault}
use vaultine.Exec.Runs.{Reads, Reads-map}
use vaultine.Exec.Sure.{
  Sure, Sure-bind, Sure-map, Sure-ask, Sure-pure, Sure-deref, Sure-require, Sure-call, ◌⨟◌,
}
use vaultine.Crypto.{int_limit, is_empty}
use vaultine.Reveal.{◌and_then◌}
use vaultine.Backup.{has_path_traversal, new_header, backup_create, backup_restore}
use vaultine.Backup.Header.{backup_magic, backup_version, header_bytes, read_header}
use vaultine.Backup.Files.{
  Written, enc_of, auth_of, backup_create-Reads, read_file-Sure, aes_gcm_open-Sure, length-header,
  read_header-nonce, read_header-magic, read_header-version, whole, length-whole, cut_header,
  cut_cipher, cut_tag, cut_hmac,
}

nonempty : (b : Bytes) (n : ℕ) → length b ≡ suc n → is_empty b ≡ false
nonempty [] n h = absurd (omega (arith, h))
nonempty (x ∷ b) n h = refl

module _ {e : Env} {v : Vault} (L : IsLawful e) (quiet : (n : ℕ) → e.fails n ≡ false) where
  restored :
      (disk : Bytes → Option Bytes) (src dst key data' out : Bytes)
      → has_path_traversal (some src) ≡ false
      → has_path_traversal (some dst) ≡ false
      → length key ≡ 32
      → disk src ≡ some out
      → Written e key data' out
      → Sure e v (backup_restore disk (some src) (some dst) (some key)) (λ p. p ≡ data')
  unfolding backup_restore
  restored disk src dst key data' out ps pd l f W = Sure-bind (Sure-deref _ tt refl) λ src' s.
      Sure-deref _ tt refl
      ⨟ Sure-bind (Sure-deref _ tt refl) λ key' k.
        rw (s, k)
          (Sure-require tt (rw l refl)
            ⨟ Sure-require tt (rw (ps, pd) refl)
            ⨟ Sure-bind (Sure-ask _) λ enc_key en. Sure-bind (Sure-ask _) λ auth_key au.
              Sure-bind (read_file-Sure quiet disk src {d = B} (f ∙ ap some W.parts) filled) λ b q.
                rw (q, en, au)
                  (Sure-require tt
                      (ground (arith, length-whole H W.cipher W.tag W.hmac h32 t16 m32))
                    ⨟ Sure-require tt right_magic
                    ⨟ Sure-require tt right_version
                    ⨟ Sure-bind (Sure-ask _) λ hmac h.
                      Sure-require tt (ap₂ eqb (h ∙ signed) cut₃ ∙ eqb_refl W.hmac)
                      ⨟ Sure-bind (aes_gcm_open-Sure quiet C (enc_of e key) N X T short deciphers)
                          λ p r.
                            Sure-call quiet
                            ⨟ Sure-call quiet
                            ⨟ Sure-map (Sure-pure p) (λ a z. z ∙ r)))
    where
      H : Bytes
      H = header_bytes (new_header W.timestamp W.nonce)

      B : Bytes
      B = whole H W.cipher W.tag W.hmac

      h32 : length H ≡ 32
      h32 = length-header W.timestamp W.nonce W.drawn

      t16 : length W.tag ≡ 16
      t16 = ap (λ (c : Bytes × Bytes). length c.1) W.sealed ∙ L.tag_length _ _ _ _

      m32 : length W.hmac ≡ 32
      m32 = ap length W.signed ∙ L.hmac_length _ _

      opened : e.gcm_open (enc_of e key) W.nonce H W.cipher W.tag ≡ some data'
      opened =
          ap (λ (c : Bytes × Bytes). e.gcm_open (enc_of e key) W.nonce H c.0 c.1) W.sealed
          ∙ L.open_seal _ _ _ _

      X : Bytes
      X = take 32 B

      C : Bytes
      C = take (length B - 32 - 16 - 32) (drop 32 B)

      T : Bytes
      T = take 16 (drop (length B - 32 - 16 - 32) (drop 32 B))

      N : Bytes
      N = (read_header X).nonce

      cut₀ : X ≡ H
      cut₀ = cut_header H W.cipher W.tag W.hmac h32 t16 m32

      cut₁ : C ≡ W.cipher
      cut₁ = cut_cipher H W.cipher W.tag W.hmac h32 t16 m32

      cut₂ : T ≡ W.tag
      cut₂ = cut_tag H W.cipher W.tag W.hmac h32 t16 m32

      cut₃ : drop 16 (drop (length B - 32 - 16 - 32) (drop 32 B)) ≡ W.hmac
      cut₃ = cut_hmac H W.cipher W.tag W.hmac h32 t16 m32

      cut_nonce : N ≡ W.nonce
      cut_nonce =
          ap (λ x. (read_header x).nonce) cut₀ ∙ read_header-nonce W.timestamp W.nonce W.drawn

      right_magic : eqb (read_header X).magic backup_magic ≡ true
      right_magic =
          ap (λ x. eqb (read_header x).magic backup_magic) cut₀
          ∙ ap (λ m. eqb m backup_magic) (read_header-magic W.timestamp W.nonce W.drawn)
          ∙ eqb_refl backup_magic

      right_version : ((read_header X).version == backup_version) ≡ true
      right_version =
          ap (λ x. (read_header x).version == backup_version) cut₀
          ∙ ap (λ n. n == backup_version) (read_header-version W.timestamp W.nonce W.drawn)

      signed : e.hmac_sha256 (auth_of e key) (X ++ (C ++ T)) ≡ W.hmac
      signed =
          ap (λ x. e.hmac_sha256 (auth_of e key) (x ++ (C ++ T))) cut₀
          ∙ ap (λ c. e.hmac_sha256 (auth_of e key) (H ++ (c ++ T))) cut₁
          ∙ ap (λ t. e.hmac_sha256 (auth_of e key) (H ++ (W.cipher ++ t))) cut₂
          ∙ sym W.signed

      deciphers : e.gcm_open (enc_of e key) N X C T ≡ some data'
      deciphers =
          ap (λ n. e.gcm_open (enc_of e key) n X C T) cut_nonce
          ∙ ap (λ x. e.gcm_open (enc_of e key) W.nonce x C T) cut₀
          ∙ ap (λ c. e.gcm_open (enc_of e key) W.nonce H c T) cut₁
          ∙ ap (λ t. e.gcm_open (enc_of e key) W.nonce H W.cipher t) cut₂
          ∙ opened

      short : leb (length T) 64 ≡ true
      short = ap (λ t. leb (length t) 64) cut₂ ∙ ap (λ n. leb n 64) t16

      filled : is_empty B ≡ false
      filled =
          nonempty B (79 + length W.cipher)
            (omega (arith, length-whole H W.cipher W.tag W.hmac h32 t16 m32))

-- The same whatever has become of the vault in the meantime.
pub backup_restore-later :
    {e : Env} {v : Vault}
    → IsLawful e
    → ((n : ℕ) → e.fails n ≡ false)
    → (disk : Bytes → Option Bytes) (src dst key_ptr : Option Bytes)
    → Reads e v (backup_create disk src dst key_ptr) (λ out.
      (v' : Vault) (disk' : Bytes → Option Bytes) (src' dst' : Bytes)
      → has_path_traversal (some src') ≡ false
      → has_path_traversal (some dst') ≡ false
      → disk' src' ≡ some out
      → Sure e v'
          (backup_restore disk' (some src') (some dst') key_ptr)
          (λ p. (src and_then disk) ≡ some p))
backup_restore-later {e} {v} L quiet disk src dst key_ptr =
    Reads-map (backup_create-Reads L disk src dst key_ptr) (λ out h v' disk' src' dst' ps pd f.
      subst
        (λ k.
          Sure e v' (backup_restore disk' (some src') (some dst') k)
            (λ p. (src and_then disk) ≡ some p))
        (sym h.3)
        (Sure-map (restored L quiet disk' src' dst' h.1 h.0 out ps pd h.4 f h.5)
          (λ p q. h.2 ∙ ap some (sym q))))

-- Where no foreign call reports an error, the ciphers are lawful and the file that is backed up is
-- below 2 GiB: of a file that backup_create wrote, backup_restore returns true for all paths without
-- a traversal and writes the data of the file that was backed up.
pub backup_restore-backup_create :
    {e : Env} {v : Vault}
    → IsLawful e
    → ((n : ℕ) → e.fails n ≡ false)
    → (disk : Bytes → Option Bytes) (src dst key_ptr : Option Bytes)
    → ((data' : Bytes) → (src and_then disk) ≡ some data' → length data' < int_limit)
    → Reads e v (backup_create disk src dst key_ptr) (λ out.
      (disk' : Bytes → Option Bytes) (src' dst' : Bytes)
      → has_path_traversal (some src') ≡ false
      → has_path_traversal (some dst') ≡ false
      → disk' src' ≡ some out
      → Sure e v
          (backup_restore disk' (some src') (some dst') key_ptr)
          (λ p. (src and_then disk) ≡ some p))
backup_restore-backup_create {v = v} L quiet disk src dst key_ptr short =
    Reads-map (backup_restore-later L quiet disk src dst key_ptr) (λ out h. h v)
