-- ===== src/Ssm/Secrets/Get.antt =====
-- ssm_secret_get of src/ssm.cc against the secrets that the tables hold.
use vaultine.Prelude.{ℕ, ◌≤◌, Bytes, ◌≡◌, refl, sym, ◌∙◌, leb, leb→le, Option, none, some, length}
use vaultine.World.{Env, SecretRow, Vault, err_internal, err_not_found}
use vaultine.Exec.Runs.{
  Runs, Reads, Reads-bind, Reads-leaving, Reads-or_return, Reads-deref, Reads-require, Runs-bind,
  Runs-weaken, Runs-leaving, Runs-leave, Runs-pure, Runs-if, ◌⨾◌,
}
use vaultine.Exec.Sure.{Sure-bind, Sure-attempt}
use vaultine.Crypto.{is_empty}
use vaultine.Crypto.Reads.{secure_alloc-Reads, aes_gcm_decrypt-Reads}
use vaultine.Db.Find.{find_user-Occurs}
use vaultine.Db.Runs.{secrets_find-Reads}
use vaultine.Cache.Coherent.{CacheMoved}
use vaultine.Reveal.{◌and_then◌, unseal, kek_of, secret_of, reveal}
use vaultine.Ssm.Done.{
  IsGood, Served, Served-moved, Logged-Served, moved_then-Logged, open_kek-Runs,
}
use vaultine.Ssm.Runs.{
  unlogged, find_user_or_refuse-Runs, find_live_kek-Runs, otherwise-refuse-Runs, audit_write-Runs,
}
use vaultine.Ssm.Secrets.{
  op_get, open_secret, decrypt_secret, Buffers, deliver_public, ssm_secret_get,
}

module _ {e : Env} {v : Vault} where
  decrypt_secret-Reads :
      (s : SecretRow) (kek : Bytes)
      → Reads e v (decrypt_secret s kek) (λ p. unseal e kek s ≡ some p)
  unfolding decrypt_secret
  decrypt_secret-Reads s kek = secure_alloc-Reads _ ⨾ aes_gcm_decrypt-Reads _ _ _ _ _

  deliver_public-Reads :
      (b : Buffers) (public_key : Bytes) (room : Option ℕ)
      → Reads e v
          (deliver_public b public_key room)
          (λ c. (c.private_key ≡ b.private_key) × (c.private_key_len ≡ b.private_key_len))
  unfolding deliver_public
  deliver_public-Reads b public_key none = Runs-pure b (refl, (refl, refl))
  deliver_public-Reads b public_key (some room) =
      Runs-if (is_empty public_key) (λ _. Runs-pure _ (refl, (refl, refl)))
        (λ _.
          Runs-if (leb (length public_key) room) (λ _. Runs-pure _ (refl, (refl, refl)))
            (λ _. Runs-leave _ refl))

module _ {e : Env} {v : Vault} (G : IsGood e v) where
  served : Served e v v
  served = Logged-Served G.coherent (unlogged refl)

  open_secret-Runs :
      (username name : Bytes)
      → Runs e v
          (open_secret username name)
          (λ o v'. (reveal e v.tables username name ≡ unseal e o.kek o.secret) × CacheMoved e v v')
          (λ _ v'. Served e v v')
  unfolding open_secret reveal secret_of kek_of
  open_secret-Runs username name =
      Runs-bind
        (Runs-weaken (find_user_or_refuse-Runs op_get username) (λ _ _ h. h)
          (λ _ _ h. Logged-Served G.coherent h.1))
        λ u v₁ h. rw h.0 (
          Runs-bind
            (Runs-weaken (find_live_kek-Runs op_get username (some name) u) (λ _ _ q. q)
              (λ _ _ q. Logged-Served G.coherent q))
            λ k v₂ q. rw q.0 (
              Reads-bind (Reads-or_return err_not_found (secrets_find-Reads u.id name))
                (λ _. served)
                λ s r.
                  Runs-bind
                    (Runs-weaken (open_kek-Runs G u k (find_user-Occurs username v.tables h.1) q.1)
                      (λ _ _ m. m) (λ _ _ m. Served-moved m))
                    λ kek v₃ m. Runs-pure _ (rw (h.1, q.1, r, m.0) refl, m.1)))

  -- What a return with SSM_OK has written is there, and is the stored private key.
  pub ssm_secret_get-found :
      (username_ptr name_ptr : Option Bytes) (room : ℕ) (public_room : Option ℕ)
      → Runs e v
          (ssm_secret_get username_ptr name_ptr room public_room)
          (λ b v'.
            (text : Bytes) × (b.private_key ≡ some text)
            × ((username_ptr and_then λ u. name_ptr and_then reveal e v.tables u) ≡ some text)
            × (b.private_key_len ≤ room)
            × Served e v v')
          (λ _ v'. Served e v v')
  unfolding ssm_secret_get
  ssm_secret_get-found username_ptr name_ptr room public_room =
      Reads-bind (Reads-leaving _ (Reads-deref username_ptr err_internal)) (λ _. served)
        λ username p.
          Reads-bind (Reads-leaving _ (Reads-deref name_ptr err_internal)) (λ _. served)
            λ name q. Runs-bind (Runs-leaving _ (open_secret-Runs username name)) λ o v₁ h.
              Reads-bind (Reads-leaving _ (Reads-require _ err_internal)) (λ _. Served-moved h.1)
                λ _ fits. Sure-bind (Sure-attempt (decrypt_secret-Reads o.secret o.kek)) λ d r.
                  Runs-bind
                    (Runs-leaving _ {Q = λ a v'. (v' ≡ v₁) × (unseal e o.kek o.secret ≡ some a)} (
                      Runs-weaken (otherwise-refuse-Runs d _ _ _ _ _ _ r) (λ _ _ w. w)
                        (λ _ _ w. moved_then-Logged h.1 w.1)))
                    λ plain v₂ w. rw w.0 (
                      Reads-bind (deliver_public-Reads _ _ public_room) (λ _. Served-moved h.1)
                        λ b c. Runs-bind (audit_write-Runs _ _ _ _ _ _) λ _ v₃ l. Runs-pure b (
                          plain,
                          c.0,
                          rw (p, q) (h.0 ∙ w.1),
                          rw c.1 (leb→le _ _ fits),
                          moved_then-Logged h.1 l,
                        ))

  -- In a vault with sound tables, a coherent cache and no open transaction: what ssm_secret_get
  -- writes into the private key buffer when it returns SSM_OK is the private key that is stored
  -- for that user under that name, and its length is at most the room that was given; on every
  -- return no user, key or secret is changed.
  pub ssm_secret_get-Runs :
      (username_ptr name_ptr : Option Bytes) (room : ℕ) (public_room : Option ℕ)
      → Runs e v
          (ssm_secret_get username_ptr name_ptr room public_room)
          (λ b v'.
            (b.private_key ≡ (username_ptr and_then λ u. name_ptr and_then reveal e v.tables u))
            × (b.private_key_len ≤ room)
            × Served e v v')
          (λ _ v'. Served e v v')
  ssm_secret_get-Runs username_ptr name_ptr room public_room =
      Runs-weaken (ssm_secret_get-found username_ptr name_ptr room public_room)
        (λ _ _ h. (h.1 ∙ sym h.2, h.3, h.4)) (λ _ _ h. h)
