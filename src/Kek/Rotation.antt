-- ===== src/Kek/Rotation.antt =====
-- kek_rotate as a transaction: it returns true with the keys replaced, or false with the vault as
-- it was.
pub mod Reveal
use mathlib.Core.Path.{subst}
use vaultine.Prelude.{
  suc, ℕ, ◌+◌, ◌*◌, Bytes, ◌≡◌, refl, sym, ◌∙◌, ap, Option, none, some, List, Bool, take,
}
use vaultine.World.{Env, IsLawful, Vault, Tables, KekRow, SecretRow}
use vaultine.Exec.{◌>>◌}
use vaultine.Exec.Runs.{
  Runs, Reads-bind, Reads-require, Reads-random_bytes, Runs-bind, Runs-weaken, Runs-call,
  Runs-leave, Runs-pure, Runs-attempt, Reads-attempt,
}
use vaultine.Crypto.Reads.{secure_alloc-Reads, aes_kw_wrap-Reads}
use vaultine.Db.Runs.{
  Fetched, kek_find_by_user-Reads, secrets_list_for_user-Reads, kek_update-Changes,
}
use vaultine.Db.KekMetadata.{kek_update}
use vaultine.Db.Sql.{find_kek, secrets_of, update_kek}
use vaultine.Db.Transaction.{
  IsSteady, OnlyTables, OnlyTables-trans, begun, rolled_back, committed, begin-Runs, commit-Runs,
  rollback-Runs,
}
use vaultine.Kek.{reencrypt_all, kek_rotate, rotate_keys, end_transaction}
use vaultine.Kek.Reads.{kek_derive_wrapping_key-Reads, kek_unwrap-Reads, kek_expires_at-Reads}
use vaultine.Db.Find.{find-update_kek}
use vaultine.Kek.Reencrypt.{Rounds, Rounds-find_kek, reencrypt_all-Runs}
use vaultine.Reveal.{unlock}

-- The tables `t'` come from `t` by a rotation of the user's keys.
pub record Rotated (e : Env) (user : ℕ) (hash : Bytes) (t t' : Tables) : Type 0 where
  pub row : KekRow
  pub found : find_kek user t ≡ some row
  pub old : Bytes
  pub opened : unlock e hash row ≡ some old
  pub rows : List SecretRow
  pub fetched : Fetched e (secrets_of user t) rows
  pub new : Bytes
  pub new_drawn : (i : ℕ) × (new ≡ e.random i 32)
  pub salt : Bytes
  pub salt_drawn : (i : ℕ) × (salt ≡ e.random i 16)
  pub expires_at : Bytes
  pub dated : (i : ℕ) × (expires_at ≡ e.strftime (e.clock i + 90 * 86400))
  pub between : Tables
  pub rounds : Rounds e old new rows t between
  pub renewed :
      find_kek user t'
      ≡ some (record row {
        wrapped_kek = e.key_wrap (e.pwhash hash (take 16 salt)) new;
        salt = salt;
        expires_at = expires_at;
        kek_version = suc row.kek_version;
      })
  pub final :
      t'
      ≡ update_kek user
          (e.key_wrap (e.pwhash hash (take 16 salt)) new)
          salt
          expires_at
          row.kek_version
          between

module _ (e : Env) (user : ℕ) (hash : Bytes) (v : Vault) where
  -- How the block between BEGIN and the end of the transaction leaves the vault.
  abbrev Ended : Option (Unit {0}) → Vault → Type 0
  Ended none v' = OnlyTables (begun v) v'
  Ended (some _) v' = Rotated e user hash v.tables v'.tables × OnlyTables (begun v) v'

module _ {e : Env} (L : IsLawful e) (S : IsSteady e) (user : ℕ) (hash : Bytes) where
  rotate_keys-Runs :
      (v : Vault)
      → v.saved ≡ none
      → Runs e v
          (rotate_keys user hash)
          (λ _ v'. Rotated e user hash v.tables v'.tables × OnlyTables (begun v) v')
          (λ _ v'. OnlyTables (begun v) v')
  unfolding rotate_keys
  rotate_keys-Runs v idle = Runs-bind (begin-Runs S v idle) λ _ v₁ p. rw p (
      Reads-bind (kek_find_by_user-Reads user) (λ _. refl)
        λ row found.
          Reads-bind (kek_unwrap-Reads row hash) (λ _. refl)
            λ old opened.
              Reads-bind (secrets_list_for_user-Reads user) (λ _. refl)
                λ rows fetched.
                  Reads-bind (Reads-random_bytes 32) (λ _. refl)
                    λ new drawn.
                      Reads-bind (Reads-random_bytes 16) (λ _. refl)
                        λ salt drawn'.
                          Reads-bind (kek_derive_wrapping_key-Reads hash salt _) (λ _. refl)
                            λ key q.
                              Reads-bind (aes_kw_wrap-Reads new key) (λ _. refl)
                                λ wrapped r.
                                  Reads-bind (kek_expires_at-Reads _ _) (λ _. refl)
                                    λ expires date.
                                      Reads-bind (Reads-attempt (secure_alloc-Reads _)) (λ _. refl)
                                        λ _ _.
                                          Reads-bind (Reads-attempt (secure_alloc-Reads _))
                                            (λ _. refl)
                                            λ _ _. Runs-call refl (
                                              write_keys v row rows old new salt key wrapped expires
                                                found opened fetched q r drawn drawn' date _ _))
    where
      write_keys :
          (v : Vault) (row : KekRow) (rows : List SecretRow)
          (old new salt key wrapped expires : Bytes)
          → find_kek user v.tables ≡ some row
          → unlock e hash row ≡ some old
          → Fetched e (secrets_of user v.tables) rows
          → key ≡ e.pwhash hash (take 16 salt)
          → wrapped ≡ e.key_wrap key new
          → ((i : ℕ) × (new ≡ e.random i 32))
          → ((i : ℕ) × (salt ≡ e.random i 16))
          → ((i : ℕ) × (expires ≡ e.strftime (e.clock i + 90 * 86400)))
          → (m : ℕ) (b : Bool)
          → Runs e
              (begun v)
              (reencrypt_all old new m b rows
                >> kek_update user wrapped salt expires row.kek_version)
              (λ _ v'. Rotated e user hash v.tables v'.tables × OnlyTables (begun v) v')
              (λ _ v'. OnlyTables (begun v) v')
      write_keys v row rows old new salt key wrapped expires found opened fetched q r drawn drawn'
            date m b =
          Runs-bind (reencrypt_all-Runs L old new m b (begun v) rows) λ _ v₂ h.
            Runs-weaken (kek_update-Changes user wrapped salt expires row.kek_version)
              (λ _ v₃ k. (
                (let updated =
                      k.0.1
                      ∙ ap (λ w. update_kek user w salt expires row.kek_version v₂.tables)
                          (r ∙ ap (λ x. e.key_wrap x new) q) in
                    record {
                      row = row;
                      found = found;
                      old = old;
                      opened = opened;
                      rows = rows;
                      fetched = fetched;
                      new = new;
                      new_drawn = drawn;
                      salt = salt;
                      salt_drawn = drawn';
                      expires_at = expires;
                      dated = date;
                      between = v₂.tables;
                      rounds = h.0;
                      renewed =
                          ap (find_kek user) updated
                          ∙ find-update_kek v₂.tables user _ salt expires {k = row}
                              (Rounds-find_kek e old new rows v.tables v₂.tables h.0 user ∙ found);
                      final = updated;
                    }),
                OnlyTables-trans (begun v) v₂ v₃ h.1 k.1,
              ))
              (λ _ v₃ k. rw k h.1)

  end_transaction-Runs :
      (v : Vault)
      → v.saved ≡ none
      → (ended : Option (Unit {0})) (v' : Vault) → Ended e user hash v ended v'
      → Runs e v'
          (end_transaction ended)
          (λ _ v''. Rotated e user hash v.tables v''.tables × OnlyTables v v'')
          (λ _ v''. v'' ≡ v)
  unfolding end_transaction
  end_transaction-Runs v idle none v' h =
      Runs-bind (rollback-Runs S v' (ap (λ (u : Vault). u.saved) h))
        λ _ v'' p. Runs-leave tt (rolled_back v v' idle h p)
  end_transaction-Runs v idle (some _) v' h =
      Runs-bind (commit-Runs S v' (ap (λ (u : Vault). u.saved) h.1)) λ _ v'' p. Runs-pure tt (
        subst (Rotated e user hash v.tables) (sym (ap (λ (u : Vault). u.tables) p)) h.0,
        committed v v' idle h.1 p,
      )

  pub kek_rotate-Runs :
      (v : Vault)
      → v.saved ≡ none
      → Runs e v
          (kek_rotate user hash)
          (λ _ v'. Rotated e user hash v.tables v'.tables × OnlyTables v v')
          (λ _ v'. v' ≡ v)
  unfolding kek_rotate
  kek_rotate-Runs v idle =
      Reads-bind (Reads-require _ tt) (λ _. refl)
        λ _ _.
          Reads-bind (secure_alloc-Reads _) (λ _. refl)
            λ _ _.
              Reads-bind (secure_alloc-Reads _) (λ _. refl)
                λ _ _.
                  Reads-bind (secure_alloc-Reads _) (λ _. refl)
                    λ _ _.
                      Reads-bind (secure_alloc-Reads _) (λ _. refl)
                        λ _ _.
                          Reads-bind (secure_alloc-Reads _) (λ _. refl)
                            λ _ _.
                              Reads-bind (secure_alloc-Reads _) (λ _. refl)
                                λ _ _.
                                  Runs-bind
                                    (Runs-attempt {S = Ended e user hash v} {T = λ _ v'. v' ≡ v}
                                      (rotate_keys-Runs v idle))
                                    (end_transaction-Runs v idle)
