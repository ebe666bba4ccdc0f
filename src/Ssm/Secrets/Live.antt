-- ===== src/Ssm/Secrets/Live.antt =====
-- Where no foreign call reports an error, ssm_secret_store and ssm_secret_get of src/ssm.cc return
-- SSM_OK for a user whose KEK is live.
use vaultine.Prelude.{
  ℕ, ◌≤◌, Bytes, ◌≡◌, refl, ◌∙◌, ap, true, false, ◌&&◌, ◌||◌, ◌==◌, leb, none, some, List, [], ◌∷◌,
  exists, length, arith, Occurs, inl, inr, if◌then◌else◌,
}
use vaultine.World.{Env, IsLawful, User, KekRow, SecretRow, Vault, err_internal, err_not_found}
use vaultine.Exec.Runs.{
  Runs, Runs-bind, Runs-weaken, Runs-pure, Runs-modify, Runs-leaving, Runs-or_return,
}
use vaultine.Exec.Sure.{
  Sure, Sure-bind, Sure-map, Sure-pure, Sure-gets, Sure-ask, Sure-time, Sure-deref, Sure-require,
  Sure-call, Sure-random_bytes, Sure-or_return, Sure-leaving, Sure-attempted, ◌⨟◌,
}
use vaultine.Crypto.{is_empty, aes_gcm_encrypt}
use vaultine.Db.{sql_now}
use vaultine.Db.Sql.{find_user, find_kek, find_secret, has_secret, has_user, NewSecret}
use vaultine.Db.Secrets.{secrets_store}
use vaultine.Db.Find.{find_user-Occurs}
use vaultine.Cache.Coherent.{CacheMoved}
use vaultine.Reveal.{unseal, reveal}
use vaultine.Backup.Files.{feed_aad-Sure, aes_gcm_decrypt-Sure}
use vaultine.Ssm.Runs.{audit_write-Runs}
use vaultine.Ssm.Done.{IsGood, Served, moved_then-Logged}
use vaultine.Ssm.Healthy.{
  IsQuiet, IsLive, Runs-returns, secure_alloc-Sure, secrets_find-Sure, find_user_or_refuse-Sure,
  find_live_kek-Sure, open_kek-Live,
}
use vaultine.Ssm.Secrets.{
  op_get, op_store, Opened, open_secret, decrypt_secret, deliver_public, ssm_secret_get,
  StoreRequest, ssm_secret_store,
}
use vaultine.Ssm.Secrets.Store.{meets, tables_same, ssm_secret_store-reveal}

filled : (b : Bytes) → is_empty b ≡ false → (length b == 0) ≡ false
filled [] h = cc
filled (x ∷ b) h = ground arith

-- A row that holds this text under this key.
pub record Holds (e : Env) (kek : Bytes) (s : SecretRow) (text : Bytes) : Type 0 where
  pub opened : unseal e kek s ≡ some text
  pub filled_parts :
      (is_empty s.private_key || is_empty kek || is_empty s.nonce || is_empty s.tag) ≡ false
  pub short : leb (length s.tag) 64 ≡ true

module _ {e : Env} {v : Vault} (L : IsLawful e) (quiet : IsQuiet e) (G : IsGood e v)
    (username : Bytes) (u : User) (known : find_user username v.tables ≡ some u) (k : KekRow)
    (found : find_kek u.id v.tables ≡ some k) (live : IsLive e u k) where
  open_secret-Live :
      (name : Bytes) (s : SecretRow)
      → find_secret u.id name v.tables ≡ some s
      → Runs e v
          (open_secret username name)
          (λ o v'. (o.secret ≡ s) × (o.kek ≡ live.kek) × CacheMoved e v v')
          (λ _ _. ⊥)
  unfolding open_secret
  open_secret-Live name s there =
      Sure-bind (find_user_or_refuse-Sure quiet op_get username known) λ u' p. rw p (
        Sure-bind (find_live_kek-Sure quiet op_get username (some name) u k found live) λ k' q.
          rw q (
            Sure-bind (Sure-or_return err_not_found (secrets_find-Sure quiet u.id name there))
              λ s' r.
                Runs-bind
                  (open_kek-Live L quiet G u k (find_user-Occurs username v.tables known) found
                    live)
                  λ kek v₁ m. Runs-pure _ (r, m.0, m.1)))

  -- In a vault with sound tables, a coherent cache and no open transaction, where no foreign call
  -- reports an error and the ciphers are lawful, for a user whose KEK row his hash opens and that
  -- has not expired: a secret whose row his KEK opens is read with SSM_OK into a buffer that holds
  -- it, if no public key is asked for, and no user, key or secret is changed.
  pub ssm_secret_get-Live :
      (name text : Bytes) (s : SecretRow) (room : ℕ)
      → find_secret u.id name v.tables ≡ some s
      → Holds e live.kek s text
      → length s.private_key ≤ room
      → Runs e v
          (ssm_secret_get (some username) (some name) room none)
          (λ b v'. (b.private_key ≡ some text) × Served e v v')
          (λ _ _. ⊥)
  unfolding ssm_secret_get decrypt_secret deliver_public
  ssm_secret_get-Live name text s room there h fits =
      Sure-bind (Sure-leaving _ (Sure-deref _ err_internal refl)) λ username' p. rw p (
        Sure-bind (Sure-leaving _ (Sure-deref _ err_internal refl)) λ name' q. rw q (
          Runs-bind (Runs-leaving _ {R = λ _ _. ⊥} (open_secret-Live name s there)) λ o v₁ m.
            Sure-bind (Sure-leaving _ (Sure-require err_internal (enough o m.0))) λ _ _.
              Sure-bind (Sure-attempted (decrypted o m.0 m.1 v₁)) λ d r. rw r.1 (
                Sure-bind (Sure-leaving _ (Sure-pure r.0)) λ plain w. Sure-bind (Sure-pure _) λ b c.
                  Runs-bind (audit_write-Runs _ _ _ _ _ _)
                    λ _ v₂ l. Runs-pure b (rw c (ap some (w ∙ r.2)), moved_then-Logged m.2 l))))
    where
      enough : (o : Opened) → o.secret ≡ s → leb (length o.secret.private_key) room ≡ true
      enough o p = ground (arith, ap (λ (x : SecretRow). length x.private_key) p, fits)

      decrypted :
          (o : Opened)
          → o.secret ≡ s
          → o.kek ≡ live.kek
          → (w : Vault) → Sure e w (decrypt_secret o.secret o.kek) (λ t. t ≡ text)
      decrypted o p q w =
          rw (p, q)
            (secure_alloc-Sure quiet _ (filled s.private_key (ground (arith, h.filled_parts)))
              ⨟ aes_gcm_decrypt-Sure quiet s.private_key live.kek s.nonce [] s.tag h.filled_parts
                  h.short h.opened)

module _ {e : Env} {v : Vault} (quiet : IsQuiet e) where
  aes_gcm_encrypt-Sure :
      (text key nonce aad : Bytes)
      → Sure e v (aes_gcm_encrypt text key nonce aad) (λ c. c ≡ e.gcm_seal key nonce aad text)
  unfolding aes_gcm_encrypt
  aes_gcm_encrypt-Sure text key nonce aad =
      Sure-call quiet
      ⨟ Sure-call quiet
      ⨟ Sure-call quiet
      ⨟ Sure-call quiet
      ⨟ feed_aad-Sure quiet aad
      ⨟ Sure-call quiet
      ⨟ Sure-call quiet
      ⨟ Sure-call quiet
      ⨟ Sure-ask _

  sql_now-Sure : Sure e v (sql_now {E = Unit {0}}) (λ _. Unit {0})
  unfolding sql_now
  sql_now-Sure = Sure-bind Sure-time (λ t _. Sure-map (Sure-ask _) (λ _ _. tt))

  secrets_store-returns :
      (n : NewSecret)
      → has_secret n.user_id n.name v.tables ≡ false
      → has_user n.user_id v.tables ≡ true
      → Runs e v (secrets_store n) (λ _ _. Unit {0}) (λ _ _. ⊥)
  unfolding secrets_store
  secrets_store-returns n free known = Sure-bind (Sure-call quiet) λ _ _.
      Sure-bind (Sure-call quiet) λ _ _. Sure-bind (Sure-call quiet) λ _ _.
        Sure-bind (Sure-call quiet) λ _ _. Sure-bind (Sure-call quiet) λ _ _.
          Sure-bind (Sure-call quiet) λ _ _. Sure-bind (Sure-call quiet) λ _ _.
            Sure-bind (Sure-call quiet) λ _ _. Sure-bind (Sure-gets _) λ taken p.
              Sure-bind (Sure-gets _) λ there q.
                Sure-bind (Sure-require tt (ground (arith, p, q, free, known)))
                  λ _ _. Sure-bind sql_now-Sure λ now _. Runs-modify _ tt

Occurs-has_user :
    (us : List User) (u : User) → Occurs u us → exists (λ (x : User). x.id == u.id) us ≡ true
Occurs-has_user [] u o = absurd o
Occurs-has_user (x ∷ us) u (inl p) = ground (arith, ap (λ (y : User). y.id) p)
Occurs-has_user (x ∷ us) u (inr o) = ground (arith, Occurs-has_user us u o)

module _ {e : Env} {v : Vault} (L : IsLawful e) (quiet : IsQuiet e) (G : IsGood e v)
    (username : Bytes) (u : User) (known : find_user username v.tables ≡ some u) (k : KekRow)
    (found : find_kek u.id v.tables ≡ some k) (live : IsLive e u k) where
  ssm_secret_store-returns :
      (r : StoreRequest) (private_key name : Bytes)
      → r.username ≡ some username
      → r.private_key ≡ some private_key
      → is_empty private_key ≡ false
      → r.name ≡ some name
      → has_secret u.id name v.tables ≡ false
      → Runs e v (ssm_secret_store r) (λ _ _. Unit {0}) (λ _ _. ⊥)
  unfolding ssm_secret_store
  ssm_secret_store-returns r private_key name named given some_key called free =
      Sure-bind (Sure-deref _ err_internal named) λ username' p. rw p (
        Sure-bind (Sure-deref _ err_internal given) λ key' q. rw q (
          Sure-bind (Sure-require err_internal (rw some_key refl)) λ _ _.
            Sure-bind (Sure-deref _ err_internal called) λ name' w. rw w (
              Sure-bind (find_user_or_refuse-Sure quiet op_store username known) λ u' p'. rw p' (
                Sure-bind (find_live_kek-Sure quiet op_store username (some name) u k found live)
                  λ k' q'. rw q' (
                    Runs-bind
                      (open_kek-Live L quiet G u k (find_user-Occurs username v.tables known) found
                        live)
                      λ kek v₁ m. Sure-bind (Sure-random_bytes 12) λ nonce _.
                        Sure-bind
                          (Sure-or_return err_internal
                            (secure_alloc-Sure quiet _ (filled private_key some_key)))
                          λ _ _.
                            Sure-bind
                              (Sure-or_return err_internal
                                (aes_gcm_encrypt-Sure quiet private_key kek nonce []))
                              λ c _.
                                Runs-bind
                                  (Runs-or_return err_internal {R = λ _ _. ⊥} (
                                    secrets_store-returns quiet _
                                      (ap (has_secret u.id name) (tables_same m.1) ∙ free)
                                      (ap (has_user u.id) (tables_same m.1)
                                        ∙ Occurs-has_user v.tables.users u
                                            (find_user-Occurs username v.tables known))))
                                  λ _ v₂ _.
                                    Runs-weaken (audit_write-Runs _ _ _ _ _ _) (λ _ _ _. tt)
                                      (λ _ _ x. x))))))

  -- In a vault with sound tables, a coherent cache and no open transaction, where no foreign call
  -- reports an error and the ciphers are lawful, for a user whose KEK row his hash opens and that
  -- has not expired: a private key that is not empty is stored with SSM_OK under a name that the
  -- user has not used, and then it is that secret, and the only one that changed.
  pub ssm_secret_store-Live :
      (r : StoreRequest) (private_key name : Bytes)
      → r.username ≡ some username
      → r.private_key ≡ some private_key
      → is_empty private_key ≡ false
      → r.name ≡ some name
      → has_secret u.id name v.tables ≡ false
      → Runs e v
          (ssm_secret_store r)
          (λ _ v'.
            (username' name' : Bytes)
            → reveal e v'.tables username' name' ≡ (
                if meets username' r.username && meets name' r.name
                then r.private_key
                else reveal e v.tables username' name'))
          (λ _ _. ⊥)
  ssm_secret_store-Live r private_key name named given some_key called free =
      Runs-returns (ssm_secret_store-reveal G L r)
        (ssm_secret_store-returns r private_key name named given some_key called free)
