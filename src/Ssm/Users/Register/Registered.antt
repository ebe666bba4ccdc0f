-- ===== src/Ssm/Users/Register/Registered.antt =====
-- ssm_user_register of src/ssm.cc: what it leaves on every return.
use mathlib.Core.Path.{ap₂, subst⁻¹}
use vaultine.Prelude.{
  ℕ, Bytes, ◌≡◌, refl, sym, ◌∙◌, ap, ◌⊎◌, inl, inr, true, false, Option, none, some, take,
}
use vaultine.World.{Env, User, Vault, Tables, err_internal}
use vaultine.Exec.Runs.{
  Runs, Reads, Reads-bind, Reads-map, Reads-chain, ◌⨾◌, Reads-or_return, Reads-deref, Reads-require,
  Reads-random_bytes, Reads-pure, Runs-bind, Runs-weaken, Runs-or_return,
}
use vaultine.Exec.Sure.{Sure-bind, Sure-attempt}
use vaultine.Crypto.Reads.{secure_alloc-Reads, aes_kw_wrap-Reads}
use vaultine.Kek.{kek_generate, NewKek}
use vaultine.Kek.Reads.{kek_derive_wrapping_key-Reads, kek_expires_at-Reads}
use vaultine.Db.Sql.{find_user, insert_user, insert_kek, has_user, has_kek, has_username}
use vaultine.Db.Runs.{users_find_by_username-Reads, users_create-Changes, kek_store-Changes}
use vaultine.Ssm.Runs.{unlogged, audit_write-Runs, check_password-Reads, hash_password-Reads}
use vaultine.Ssm.Done.{IsGood, Done, Served, Served-moved, Logged-Served, left_then-Logged}
use vaultine.Ssm.Users.{register_unless, ssm_user_register}
use vaultine.Ssm.Users.Register.{inserted_user-IsCoherent, inserted_kek-IsCoherent}

-- A KEK that is wrapped under the hash and a salt.
pub record Wraps (e : Env) (hash : Bytes) (k : NewKek) : Type 0 where
  pub kek : Bytes
  pub wrapped : k.wrapped ≡ e.key_wrap (e.pwhash hash (take 16 k.salt)) kek

-- The name was free, and the user and his KEK were inserted.
pub record Joined (e : Env) (username_ptr password_ptr : Option Bytes) (t t' : Tables)
    : Type 0 where
  pub username : Bytes
  pub named : username_ptr ≡ some username
  pub password : Bytes
  pub given : password_ptr ≡ some password
  pub free : has_username username t ≡ false
  pub hash_salt : Bytes
  pub hash : Bytes
  pub hashed : hash ≡ e.pwhash_str hash_salt password
  pub now : Bytes
  pub new : NewKek
  pub wraps : Wraps e hash new
  pub unkeyed : has_kek t.next_user (insert_user username hash now t) ≡ false
  pub known : has_user t.next_user (insert_user username hash now t) ≡ true
  pub final :
      t'
      ≡ insert_kek t.next_user new.wrapped new.salt new.expires_at (insert_user username hash now t)

-- The user was inserted, and the registration was left before his KEK was.
pub record Stranded (e : Env) (t t' : Tables) : Type 0 where
  pub username : Bytes
  pub hash : Bytes
  pub now : Bytes
  pub free : has_username username t ≡ false
  pub final : t' ≡ insert_user username hash now t

abbrev pub Left : Env → (Tables → Type 0) → Vault → Vault → Type 0
Left e P v v' = Served e v v' ⊎ ((t : Tables) × P t × Done e t v v')

module _ {e : Env} {v : Vault} where
  kek_generate-Reads : (hash : Bytes) (n m : ℕ) → Reads e v (kek_generate hash n m) (Wraps e hash)
  unfolding kek_generate
  kek_generate-Reads hash n m =
      Reads-require _ _
      ⨾ Reads-require _ _
      ⨾ secure_alloc-Reads _
      ⨾ secure_alloc-Reads _
      ⨾ Reads-chain (Reads-random_bytes _) (λ kek _. Reads-chain (Reads-random_bytes _) (λ salt _.
        Reads-chain (kek_derive_wrapping_key-Reads hash salt _) (λ key q.
          Reads-chain (aes_kw_wrap-Reads kek key) (λ wrapped r.
            Reads-chain (kek_expires_at-Reads _ _) (λ x _. Reads-map (Reads-pure _) (λ k p. record {
              kek = kek;
              wrapped =
                  ap (λ (n : NewKek). n.wrapped) p
                  ∙ r
                  ∙ ap (λ z. e.key_wrap z kek) q
                  ∙ ap (λ (n : NewKek). e.key_wrap (e.pwhash hash (take 16 n.salt)) kek) (sym p);
            }))))))

module _ {e : Env} {v : Vault} (G : IsGood e v) (username_ptr password_ptr : Option Bytes) where
  abbrev pub Returned : Vault → Type 0
  Returned v' =
      (((username : Bytes) × (u : User) × (username_ptr ≡ some username)
          × (find_user username v.tables ≡ some u))
        × Served e v v')
      ⊎ ((t : Tables) × Joined e username_ptr password_ptr v.tables t × Done e t v v')

  served : Served e v v
  served = Served-moved (record { same = refl; coherent = G.coherent })

  register_unless-Runs :
      (username password : Bytes) (o : Option User)
      → username_ptr ≡ some username
      → password_ptr ≡ some password
      → (o ≡ none) ⊎ ((u : User) × (o ≡ some u) × (find_user username v.tables ≡ some u))
      → Runs e v
          (register_unless username password o)
          (λ _ v'. Returned v')
          (λ _ v'. Left e (Stranded e v.tables) v v')
  register_unless-Runs username password (some u) named given f =
      Runs-weaken (audit_write-Runs _ _ _ _ _ _)
        (λ _ _ l. inl (there f, Logged-Served G.coherent l)) (λ _ _ x. x)
    where
      there :
          (some u ≡ none)
            ⊎ ((u' : User) × (some u ≡ some u') × (find_user username v.tables ≡ some u'))
          → (username : Bytes) × (u : User) × (username_ptr ≡ some username)
            × (find_user username v.tables ≡ some u)
      there (inl p) = cc
      there (inr (u', p, q)) = (username, u', named, q)
  register_unless-Runs username password none named given f =
      Reads-bind (hash_password-Reads password) (λ _. inl served)
        λ hash w.
          Runs-bind
            (Runs-or_return err_internal {R = λ _ v'. Left e (Stranded e v.tables) v v'} (
              Runs-weaken (users_create-Changes username hash) (λ _ _ x. x)
                (λ _ _ x. inl (subst⁻¹ (Served e v) x served))))
            λ id v₁ x.
              let now = x.0.2.0 in
              let same : v₁ ≡ record v { tables = insert_user username hash now v.tables } =
                x.1 ∙ ap (λ t. record v { tables = t }) x.0.2.1 in
              let half : Left e (Stranded e v.tables) v v₁ = inr (
                insert_user username hash now v.tables,
                record { username = username; hash = hash; now = now; free = x.0.1; final = refl },
                left_then-Logged {v = v} same
                    (inserted_user-IsCoherent e v.tables username hash now v.cache G.coherent)
                    (unlogged refl),
              ) in
              Reads-bind (Reads-or_return err_internal (kek_generate-Reads hash _ _)) (λ _. half)
                λ kek wraps.
                  Runs-bind
                    (Runs-or_return err_internal {R = λ _ v'. Left e (Stranded e v.tables) v v'} (
                      Runs-weaken (kek_store-Changes id kek.wrapped kek.salt kek.expires_at)
                        (λ _ _ y. y) (λ _ _ y. subst⁻¹ (Left e (Stranded e v.tables) v) y half)))
                    λ _ v₂ y.
                      Runs-weaken (audit_write-Runs _ _ _ _ _ _)
                        (λ _ v₃ l. inr (
                          insert_kek v.tables.next_user kek.wrapped kek.salt kek.expires_at
                              (insert_user username hash now v.tables),
                          record {
                            username = username;
                            named = named;
                            password = password;
                            given = given;
                            free = x.0.1;
                            hash_salt = w.0;
                            hash = hash;
                            hashed = w.1;
                            now = now;
                            new = kek;
                            wraps = wraps;
                            unkeyed =
                                ap₂ has_kek (sym x.0.0) (sym (ap (λ (w : Vault). w.tables) same))
                                ∙ y.0.0;
                            known =
                                ap₂ has_user (sym x.0.0) (sym (ap (λ (w : Vault). w.tables) same))
                                ∙ y.0.1;
                            final = refl;
                          },
                          left_then-Logged {v = v}
                              (y.1
                                ∙ ap (λ t. record v₁ { tables = t }) y.0.2
                                ∙ ap
                                    (λ (w : Vault). record w {
                                      tables =
                                          insert_kek id kek.wrapped kek.salt kek.expires_at
                                            w.tables;
                                    })
                                    same
                                ∙ ap
                                    (λ i. record v {
                                      tables =
                                          insert_kek i kek.wrapped kek.salt kek.expires_at
                                            (insert_user username hash now v.tables);
                                    })
                                    x.0.0)
                              (inserted_kek-IsCoherent e v.tables username hash now kek.wrapped
                                kek.salt kek.expires_at v.cache G.coherent)
                              l,
                        ))
                        (λ _ _ z. z)

  pub ssm_user_register-Runs :
      Runs e v
        (ssm_user_register username_ptr password_ptr)
        (λ _ v'. Returned v')
        (λ _ v'. Left e (Stranded e v.tables) v v')
  unfolding ssm_user_register
  ssm_user_register-Runs =
      Reads-bind (Reads-deref username_ptr err_internal) (λ _. inl served)
        λ username named.
          Reads-bind (Reads-deref password_ptr err_internal) (λ _. inl served)
            λ password given.
              Reads-bind (Reads-require _ err_internal) (λ _. inl served)
                λ _ _.
                  Reads-bind (check_password-Reads password) (λ _. inl served)
                    λ _ _.
                      Sure-bind (Sure-attempt (users_find_by_username-Reads username))
                        λ o h. register_unless-Runs username password o named given h
