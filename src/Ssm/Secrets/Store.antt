-- ===== src/Ssm/Secrets/Store.antt =====
-- ssm_secret_store of src/ssm.cc as an update of the map from a user name and a secret's name to the
-- private key.
use vaultine.Prelude.{
  Bytes, ◌≡◌, refl, sym, ◌∙◌, ap, Bool, true, false, ◌&&◌, eqb, Option, none, some, [], List,
  if◌then◌else◌,
}
use vaultine.World.{Env, IsLawful, User, KekRow, Vault, Tables, CacheEntry, err_internal}
use vaultine.Exec.Runs.{
  Runs, Reads-bind, Reads-or_return, Reads-deref, Reads-require, Reads-random_bytes, Runs-bind,
  Runs-weaken, Runs-or_return,
}
use vaultine.Crypto.Reads.{secure_alloc-Reads, aes_gcm_encrypt-Reads}
use vaultine.Db.Sql.{find_user, find_kek, has_secret, has_user, NewSecret, insert_secret}
use vaultine.Db.Find.{find_user-Occurs}
use vaultine.Db.Runs.{secrets_store-Changes}
use vaultine.Cache.Coherent.{IsCoherent, IsCoherent-same, CacheMoved}
use native.Mathlib.Nat.{le_refl}
use vaultine.Reveal.{wrapping_key, kek_of, reveal}
use vaultine.Reveal.Statements.{insert_secret-reveal}
use vaultine.Ssm.Done.{
  IsGood, Done, Served, Served-moved, Logged-Served, changed_then-Logged, Done-reveal,
  open_kek-Runs,
}
use vaultine.Ssm.Runs.{unlogged, opening-Runs, audit_write-Runs}
use vaultine.Ssm.Secrets.{op_store, StoreRequest, non_empty, ssm_secret_store}

kek_of-found :
    (e : Env) (t : Tables) (u : User) {k : KekRow}
    → find_kek u.id t ≡ some k
    → kek_of e t u ≡ (e.key_unwrap (wrapping_key e u.password_hash k) k.wrapped_kek)
unfolding kek_of
kek_of-found e t u h = rw h refl

-- The statement that a store has run: the row holds the private key, sealed under the user's KEK.
pub record Inserted (e : Env) (r : StoreRequest) (t t' : Tables) : Type 0 where
  pub username : Bytes
  pub named : r.username ≡ some username
  pub user : User
  pub found : find_user username t ≡ some user
  pub private_key : Bytes
  pub given : r.private_key ≡ some private_key
  pub kek : Bytes
  pub opened : kek_of e t user ≡ some kek
  pub row : NewSecret
  pub owner : row.user_id ≡ user.id
  pub name : r.name ≡ some row.name
  pub free : has_secret row.user_id row.name t ≡ false
  pub known : has_user row.user_id t ≡ true
  pub sealed : e.gcm_seal kek row.nonce [] private_key ≡ (row.private_key, row.tag)
  pub now : Bytes
  pub final : t' ≡ insert_secret row now t

-- The pointer is to this text.
abbrev pub meets : Bytes → Option Bytes → Bool
meets a none = false
meets a (some b) = eqb a b

abbrev row_of : StoreRequest → User → Bytes → Bytes → Bytes × Bytes → NewSecret
row_of r u name nonce sealed = record {
  user_id = u.id;
  name = name;
  private_key = sealed.0;
  public_key = non_empty r.public_key;
  nonce = nonce;
  tag = sealed.1;
  description = r.description;
}

pub tables_same : {e : Env} {v v' : Vault} → CacheMoved e v v' → v'.tables ≡ v.tables
tables_same m = ap (λ (u : Vault). u.tables) m.same

module _ {e : Env} {v : Vault} (G : IsGood e v) where
  pub served : Served e v v
  served = Logged-Served G.coherent (unlogged refl)

  inserted_IsCoherent :
      (n : NewSecret) (now : Bytes) (cs : List CacheEntry)
      → IsCoherent e v.tables cs
      → IsCoherent e (insert_secret n now v.tables) cs
  unfolding insert_secret
  inserted_IsCoherent n now cs h = IsCoherent-same e _ _ _ refl refl (le_refl _) h

  pub ssm_secret_store-Inserted :
      (r : StoreRequest)
      → Runs e v
          (ssm_secret_store r)
          (λ _ v'. (t : Tables) × Inserted e r v.tables t × Done e t v v')
          (λ _ v'. Served e v v')
  unfolding ssm_secret_store
  ssm_secret_store-Inserted r =
      Reads-bind (Reads-deref r.username err_internal) (λ _. served)
        λ username named.
          Reads-bind (Reads-deref r.private_key err_internal) (λ _. served)
            λ private_key given.
              Reads-bind (Reads-require _ err_internal) (λ _. served)
                λ _ _.
                  Reads-bind (Reads-deref r.name err_internal) (λ _. served)
                    λ name q.
                      opening-Runs op_store username (some name)
                        (λ _ _ l. Logged-Served G.coherent l)
                        λ u k h f.
                          Runs-bind
                            (Runs-weaken
                              (open_kek-Runs G u k (find_user-Occurs username v.tables h) f)
                              (λ _ _ m. m) (λ _ _ m. Served-moved m))
                            λ kek v₁ m.
                              Reads-bind (Reads-random_bytes 12) (λ _. Served-moved m.1)
                                λ nonce _.
                                  Reads-bind (Reads-or_return err_internal (secure_alloc-Reads _))
                                    (λ _. Served-moved m.1)
                                    λ _ _.
                                      Reads-bind
                                        (Reads-or_return err_internal
                                          (aes_gcm_encrypt-Reads private_key kek nonce []))
                                        (λ _. Served-moved m.1)
                                        λ c sealed. rw sealed (
                                          Runs-bind
                                            (Runs-or_return err_internal {R = λ _ v'. Served e v v'}
                                              (Runs-weaken (secrets_store-Changes _) (λ _ _ x. x)
                                                (λ _ _ x. rw x (Served-moved m.1))))
                                            λ _ v₂ x.
                                              Runs-weaken (audit_write-Runs _ _ _ _ _ _)
                                                (λ _ v₃ l. (
                                                  insert_secret
                                                      (row_of r u name nonce
                                                        (e.gcm_seal kek nonce [] private_key))
                                                      x.0.2.0 v.tables,
                                                  record {
                                                    username = username;
                                                    named = named;
                                                    user = u;
                                                    found = h;
                                                    private_key = private_key;
                                                    given = given;
                                                    kek = kek;
                                                    opened = kek_of-found e v.tables u f ∙ m.0;
                                                    row =
                                                        row_of r u name nonce
                                                          (e.gcm_seal kek nonce [] private_key);
                                                    owner = refl;
                                                    name = q;
                                                    free =
                                                        ap (has_secret u.id name)
                                                          (sym (tables_same m.1))
                                                        ∙ x.0.0;
                                                    known =
                                                        ap (has_user u.id) (sym (tables_same m.1))
                                                        ∙ x.0.1;
                                                    sealed = refl;
                                                    now = x.0.2.0;
                                                    final = refl;
                                                  },
                                                  changed_then-Logged m.1
                                                      (x.1
                                                        ∙ ap (λ t. record v₁ { tables = t })
                                                            (x.0.2.1
                                                            ∙ ap
                                                            (insert_secret
                                                            (row_of r u name nonce
                                                            (e.gcm_seal kek nonce [] private_key))
                                                            x.0.2.0)
                                                            (tables_same m.1)))
                                                      (inserted_IsCoherent _ _ _) l,
                                                ))
                                                (λ _ _ y. y))

  -- In a vault with sound tables, a coherent cache and no open transaction, with lawful ciphers:
  -- after a store that returns SSM_OK the secret is revealed under its user and name as the
  -- private key that was given, and every other secret of any user as before; a store that does
  -- not return SSM_OK changes no secret.
  pub ssm_secret_store-reveal :
      IsLawful e
      → (r : StoreRequest)
      → Runs e v
          (ssm_secret_store r)
          (λ _ v'.
            (username name : Bytes)
            → reveal e v'.tables username name ≡ (
                if meets username r.username && meets name r.name
                then r.private_key
                else reveal e v.tables username name))
          (λ _ v'.
            (username name : Bytes)
            → reveal e v'.tables username name ≡ reveal e v.tables username name)
  ssm_secret_store-reveal L r =
      Runs-weaken (ssm_secret_store-Inserted r)
        (λ _ v' h username name.
          let I = h.1 in
          Done-reveal h.2 username name
          ∙ ap (λ t. reveal e t username name) I.final
          ∙ insert_secret-reveal v.tables G.sound I.username I.user I.found e I.row I.now I.kek
              I.owner I.free I.opened username name
          ∙ rw (I.named, I.name, I.given)
              (ap
                (λ o.
                  if eqb username I.username && eqb name I.row.name
                  then o
                  else reveal e v.tables username name)
                (ap (λ c. e.gcm_open I.kek I.row.nonce [] c.0 c.1) (sym I.sealed)
                  ∙ L.open_seal I.kek I.row.nonce [] I.private_key)))
        (λ _ v' h. Done-reveal h)
