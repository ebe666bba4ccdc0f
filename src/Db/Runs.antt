-- ===== src/Db/Runs.antt =====
-- What the functions of src/db return and leave in the vault.
use vaultine.Prelude.{
  ℕ, Bytes, ◌≡◌, refl, sym, ◌∙◌, ap, ◌⊎◌, inl, inr, true, false, Option, some, List, [], ◌∷◌, ◌++◌,
  exists, arith,
}
use mathlib.Core.Bool.{false≢true}
use vaultine.World.{Env, Vault, Tables}
use vaultine.Exec.{Try, present}
use vaultine.Exec.Runs.{
  Runs, Reads, Reads-chain, Reads-bind, ◌⨾◌, Reads-call, Reads-require, Reads-deref, Reads-ask,
  Reads-pure, Reads-gets, Reads-time, Reads-map, Reads-ignore_call, Runs-modify, Runs-pure,
  Runs-call, Runs-if, Runs-after_modify, Reads-attempt-call_by,
}
use vaultine.Db.{sql_now, fetch_rows}
use vaultine.Db.Sql.{
  find_user, has_username, has_user, insert_user, delete_user, find_kek, has_kek, kek_at,
  insert_kek, update_kek, find_secret, has_secret, NewSecret, insert_secret, delete_secret,
  secrets_of,
}
use vaultine.Db.Users.{users_create, users_find_by_username, users_delete}
use vaultine.Db.KekMetadata.{kek_store, kek_find_by_user, kek_update}
use vaultine.Db.Secrets.{secrets_store, secrets_find, secrets_delete, secrets_list_for_user}

-- The rows that a loop over a result has read.
pub record Fetched {A : Type 0} (e : Env) (all rows : List A) : Type 0 where
  pub unread : List A
  pub parts : rows ++ unread ≡ all
  pub complete : ((n : ℕ) → e.row_fails n ≡ false) → rows ≡ all

-- A statement changed the tables so and nothing else, and one that failed changed nothing.
abbrev pub Changes : {A : Type 0} → Env → Vault → Try A → (A → Tables → Type 0) → Type 0
Changes e v m Q =
    Runs e v m (λ a v'. Q a v'.tables × (v' ≡ record v { tables = v'.tables })) (λ _ v'. v' ≡ v)

module _ {e : Env} {v : Vault} where
  pub sql_now-Reads : {E : Type 0} → Reads {E = E} e v sql_now (λ _. Unit)
  unfolding sql_now
  sql_now-Reads = Reads-chain Reads-time (λ t _. Reads-map (Reads-ask _) (λ _ _. tt))

  pub fetch_rows-Reads :
      {E A : Type 0} (rows : List A) → Reads {E = E} e v (fetch_rows rows) (Fetched e rows)
  unfolding fetch_rows
  fetch_rows-Reads [] =
      Reads-ignore_call
      ⨾ Reads-map (Reads-pure []) (λ a p. record { unread = []; parts = rw p; complete = λ _. p })
  fetch_rows-Reads (r ∷ rs) = Reads-chain (Reads-attempt-call_by _) λ o there.
      Runs-if (present o)
        (λ _. Reads-chain (fetch_rows-Reads rs) (λ rest f. Reads-map (Reads-pure (r ∷ rest)) (λ a p.
          record {
            unread = f.unread;
            parts = rw p (ap (λ t. r ∷ t) f.parts);
            complete = λ h. p ∙ ap (λ t. r ∷ t) (f.complete h);
          })))
        (λ q. Reads-map (Reads-pure []) (λ a p. record {
          unread = r ∷ rs;
          parts = rw p;
          complete = λ h. absurd (never o there q h);
        }))
    where
      never :
          (o : Option (Unit {0}))
          → (present o ≡ true) ⊎ ((i : ℕ) × (e.row_fails i ≡ true))
          → present o ≡ false
          → ((n : ℕ) → e.row_fails n ≡ false)
          → ⊥
      never o (inl p) q h = false≢true (sym q ∙ p)
      never o (inr (i, p)) q h = false≢true (sym (h i) ∙ p)

  pub users_find_by_username-Reads :
      (name : Bytes)
      → Reads e v (users_find_by_username name) (λ u. find_user name v.tables ≡ some u)
  unfolding users_find_by_username
  users_find_by_username-Reads name =
      Reads-call
      ⨾ Reads-call
      ⨾ Reads-call
      ⨾ Reads-chain (Reads-gets _) (λ o p. Reads-map (Reads-deref o tt) (λ u h. sym p ∙ h))

  pub kek_find_by_user-Reads :
      (user : ℕ) → Reads e v (kek_find_by_user user) (λ k. find_kek user v.tables ≡ some k)
  unfolding kek_find_by_user
  kek_find_by_user-Reads user =
      Reads-call
      ⨾ Reads-call
      ⨾ Reads-chain (Reads-gets _) (λ o p. Reads-map (Reads-deref o tt) (λ u h. sym p ∙ h))

  pub secrets_find-Reads :
      (user : ℕ) (name : Bytes)
      → Reads e v (secrets_find user name) (λ s. find_secret user name v.tables ≡ some s)
  unfolding secrets_find
  secrets_find-Reads user name =
      Reads-call
      ⨾ Reads-call
      ⨾ Reads-call
      ⨾ Reads-chain (Reads-gets _) (λ o p. Reads-map (Reads-deref o tt) (λ u h. sym p ∙ h))

  pub secrets_list_for_user-Reads :
      (user : ℕ) → Reads e v (secrets_list_for_user user) (Fetched e (secrets_of user v.tables))
  unfolding secrets_list_for_user
  secrets_list_for_user-Reads user =
      Reads-call
      ⨾ Reads-chain (Reads-gets _) (λ all p. rw p (fetch_rows-Reads (secrets_of user v.tables)))

  pub users_create-Changes :
      (name hash : Bytes)
      → Changes e v (users_create name hash) (λ id t.
        (id ≡ v.tables.next_user)
        × (has_username name v.tables ≡ false)
        × ((now : Bytes) × (t ≡ insert_user name hash now v.tables)))
  unfolding users_create
  users_create-Changes name hash = Runs-call refl (
      Runs-call refl (
        Runs-call refl (
          Runs-call refl (
            Reads-bind (Reads-gets _) (λ _. refl)
              λ taken p.
                Reads-bind (Reads-require _ tt) (λ _. refl)
                  λ _ q.
                    Reads-bind sql_now-Reads (λ _. refl)
                      λ now _.
                        Reads-bind (Reads-gets _) (λ _. refl)
                          λ id r.
                            Runs-after_modify _
                              (Runs-pure id ((r, ground arith, (now, refl)), refl))))))

  pub users_delete-Changes :
      (id : ℕ)
      → Changes e v
          (users_delete id)
          (λ _ t. (has_user id v.tables ≡ true) × (t ≡ delete_user id v.tables))
  unfolding users_delete
  users_delete-Changes id = Runs-call refl (
      Runs-call refl (
        Reads-bind (Reads-gets _) (λ _. refl)
          λ changed p.
            Reads-bind (Reads-require _ tt) (λ _. refl)
              λ _ q. Runs-modify _ ((sym p ∙ q, refl), refl)))

  pub kek_store-Changes :
      (user : ℕ) (wrapped salt expires : Bytes)
      → Changes e v (kek_store user wrapped salt expires) (λ _ t.
        (has_kek user v.tables ≡ false)
        × (has_user user v.tables ≡ true)
        × (t ≡ insert_kek user wrapped salt expires v.tables))
  unfolding kek_store
  kek_store-Changes user wrapped salt expires = Runs-call refl (
      Runs-call refl (
        Runs-call refl (
          Runs-call refl (
            Runs-call refl (
              Reads-bind (Reads-gets _) (λ _. refl)
                λ taken p.
                  Reads-bind (Reads-gets _) (λ _. refl)
                    λ known q.
                      Reads-bind (Reads-require _ tt) (λ _. refl)
                        λ _ r. Runs-modify _ ((ground arith, ground arith, refl), refl))))))

  pub kek_update-Changes :
      (user : ℕ) (wrapped salt expires : Bytes) (version : ℕ)
      → Changes e v (kek_update user wrapped salt expires version) (λ _ t.
        (exists (kek_at user version) v.tables.keks ≡ true)
        × (t ≡ update_kek user wrapped salt expires version v.tables))
  unfolding kek_update
  kek_update-Changes user wrapped salt expires version =
      Reads-bind (Reads-require _ tt) (λ _. refl)
        λ _ _. Runs-call refl (
          Runs-call refl (
            Runs-call refl (
              Runs-call refl (
                Runs-call refl (
                  Reads-bind (Reads-gets _) (λ _. refl)
                    λ changed p.
                      Reads-bind (Reads-require _ tt) (λ _. refl)
                        λ _ q. Runs-modify _ ((sym p ∙ q, refl), refl))))))

  pub secrets_store-Changes :
      (s : NewSecret)
      → Changes e v (secrets_store s) (λ _ t.
        (has_secret s.user_id s.name v.tables ≡ false)
        × (has_user s.user_id v.tables ≡ true)
        × ((now : Bytes) × (t ≡ insert_secret s now v.tables)))
  unfolding secrets_store
  secrets_store-Changes s = Runs-call refl (
      Runs-call refl (
        Runs-call refl (
          Runs-call refl (
            Runs-call refl (
              Runs-call refl (
                Runs-call refl (
                  Runs-call refl (
                    Reads-bind (Reads-gets _) (λ _. refl)
                      λ taken p.
                        Reads-bind (Reads-gets _) (λ _. refl)
                          λ known q.
                            Reads-bind (Reads-require _ tt) (λ _. refl)
                              λ _ r.
                                Reads-bind sql_now-Reads (λ _. refl)
                                  λ now _.
                                    Runs-modify _
                                      ((ground arith, ground arith, (now, refl)), refl)))))))))

  pub secrets_delete-Changes :
      (user : ℕ) (name : Bytes)
      → Changes e v
          (secrets_delete user name)
          (λ _ t. (has_secret user name v.tables ≡ true) × (t ≡ delete_secret user name v.tables))
  unfolding secrets_delete
  secrets_delete-Changes user name = Runs-call refl (
      Runs-call refl (
        Reads-bind (Reads-gets _) (λ _. refl)
          λ changed p.
            Reads-bind (Reads-require _ tt) (λ _. refl)
              λ _ q. Runs-modify _ ((sym p ∙ q, refl), refl)))
