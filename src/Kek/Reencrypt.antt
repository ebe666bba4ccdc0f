-- ===== src/Kek/Reencrypt.antt =====
-- The loop of kek_rotate over the secrets: what it writes, and what a lookup finds afterwards.
use vaultine.Prelude.{
  first, ℕ, Bytes, ◌≡◌, refl, sym, ◌∙◌, ap, ◌⊎◌, inl, inr, Bool, false, none, some, List, [], ◌∷◌,
  All, Occurs, first-amend-some, first-amend-none, ◌==◌, ==_iff, Bool-cases, arith, if◌then◌else◌,
}
use mathlib.Core.Path.{subst}
use vaultine.World.{Env, IsLawful, Vault, Tables, SecretRow, KekRow}
use vaultine.Exec.Runs.{
  Runs, Reads-bind, Reads-require, Reads-random_bytes, Runs-modify, Runs-bind, Runs-weaken,
  Runs-pure, Runs-call,
}
use vaultine.Crypto.Reads.{aes_gcm_encrypt-Reads, aes_gcm_decrypt-Reads}
use vaultine.Db.Transaction.{OnlyTables, OnlyTables-trans}
use vaultine.Db.Runs.{Changes, sql_now-Reads}
use vaultine.Db.Sql.{Sealed, resealed, update_secret, find_secret, find_kek, secret_at}
use vaultine.Kek.{reencrypt, reencrypt_all}
use vaultine.Reveal.{unseal}

-- What one round writes for the row `s`: the old key opens the row, and the new key opens the text
-- under a nonce that was drawn for it.
pub record Resealed (e : Env) (old new : Bytes) (s : SecretRow) (x : Sealed) : Type 0 where
  pub plain : Bytes
  pub opened : unseal e old s ≡ some plain
  pub drawn : (i : ℕ) × (x.nonce ≡ e.random i 12)
  pub sealed : e.gcm_open new x.nonce [] x.private_key x.tag ≡ some plain

-- The tables after a round for each of the rows.
abbrev pub Rounds : Env → Bytes → Bytes → List SecretRow → Tables → Tables → Type 0
Rounds e old new [] t t' = t' ≡ t
Rounds e old new (s ∷ ss) t t' =
    (x : Sealed) × (now : Bytes) × Resealed e old new s x
    × Rounds e old new ss (update_secret s.id x now t) t'

pub Rounds-users :
    (e : Env) (old new : Bytes) (ss : List SecretRow) (t t' : Tables)
    → Rounds e old new ss t t'
    → (t'.users ≡ t.users) × (t'.keks ≡ t.keks) × (t'.next_user ≡ t.next_user)
unfolding update_secret
Rounds-users e old new [] t t' p = (
  ap (λ (x : Tables). x.users) p,
  ap (λ (x : Tables). x.keks) p,
  ap (λ (x : Tables). x.next_user) p,
)
Rounds-users e old new (s ∷ ss) t t' (x, now, _, rest) = Rounds-users e old new ss _ t' rest

pub Rounds-find_kek :
    (e : Env) (old new : Bytes) (ss : List SecretRow) (t t' : Tables)
    → Rounds e old new ss t t'
    → (user : ℕ) → find_kek user t' ≡ find_kek user t
unfolding find_kek
Rounds-find_kek e old new ss t t' h user =
    ap (first (λ (k : KekRow). k.user_id == user)) (Rounds-users e old new ss t t' h).1

module _ {e : Env} (L : IsLawful e) (old new : Bytes) (m : ℕ) (b : Bool) where
  reencrypt-Changes :
      (v : Vault) (s : SecretRow)
      → Changes e v (reencrypt old new m b s) (λ _ t.
        (x : Sealed) × (now : Bytes) × Resealed e old new s x
        × (t ≡ update_secret s.id x now v.tables))
  unfolding reencrypt
  reencrypt-Changes v s =
      Reads-bind (Reads-require _ tt) (λ _. refl)
        λ _ _.
          Reads-bind (aes_gcm_decrypt-Reads _ _ _ _ _) (λ _. refl)
            λ plain p.
              Reads-bind (Reads-random_bytes 12) (λ _. refl)
                λ nonce r.
                  Reads-bind (aes_gcm_encrypt-Reads plain new nonce []) (λ _. refl)
                    λ c q. Runs-call refl (
                      Reads-bind sql_now-Reads (λ _. refl)
                        λ now _. Runs-modify _ (
                          (
                            _,
                            now,
                            record {
                              plain = plain;
                              opened = p;
                              drawn = r;
                              sealed = rw q (L.open_seal _ _ _ _);
                            },
                            refl,
                          ),
                          refl,
                        ))

  pub reencrypt_all-Runs :
      (v : Vault) (ss : List SecretRow)
      → Runs e v
          (reencrypt_all old new m b ss)
          (λ _ v'. Rounds e old new ss v.tables v'.tables × OnlyTables v v')
          (λ _ v'. OnlyTables v v')
  unfolding reencrypt_all
  reencrypt_all-Runs v [] = Runs-pure tt (refl, refl)
  reencrypt_all-Runs v (s ∷ ss) =
      Runs-bind (Runs-weaken (reencrypt-Changes v s) (λ _ v' h. h) (λ _ v' p. rw p refl)) λ _ v' h.
        Runs-weaken (reencrypt_all-Runs v' ss)
          (λ _ v'' k. (
            (h.0.0, h.0.1, h.0.2, subst (λ t. Rounds e old new ss t v''.tables) h.0.3 k.0),
            OnlyTables-trans v v' v'' h.1 k.1,
          ))
          (λ _ v'' k. OnlyTables-trans v v' v'' h.1 k)

-- A lookup finds the row that it found before, with the new fields if it is the row's turn.
find-update_secret :
    (t : Tables) (id user : ℕ) (x : Sealed) (now name : Bytes) {r : SecretRow}
    → find_secret user name t ≡ some r
    → find_secret user name (update_secret id x now t)
      ≡ some (if r.id == id then resealed x now r else r)
unfolding find_secret update_secret
find-update_secret t id user x now name =
    first-amend-some (secret_at user name) (λ s. s.id == id) (resealed x now) t.secrets (λ s. refl)

find-update_secret-none :
    (t : Tables) (id user : ℕ) (x : Sealed) (now name : Bytes)
    → find_secret user name t ≡ none
    → find_secret user name (update_secret id x now t) ≡ none
unfolding find_secret update_secret
find-update_secret-none t id user x now name =
    first-amend-none (secret_at user name) (λ s. s.id == id) (resealed x now) t.secrets (λ s. refl)

module _ (e : Env) (old new : Bytes) (user : ℕ) (name : Bytes) where
  pub Rounds-find_none :
      (ss : List SecretRow) (t t' : Tables)
      → find_secret user name t ≡ none
      → Rounds e old new ss t t'
      → find_secret user name t' ≡ none
  Rounds-find_none [] t t' h p = rw p h
  Rounds-find_none (s ∷ ss) t t' h (x, now, _, rest) =
      Rounds-find_none ss _ t' (find-update_secret-none t s.id user x now name h) rest

  -- A row whose turn never comes stays as it is.
  pub Rounds-find_other :
      (ss : List SecretRow) (t t' : Tables) (r : SecretRow)
      → All (λ s. (r.id == s.id) ≡ false) ss
      → find_secret user name t ≡ some r
      → Rounds e old new ss t t'
      → find_secret user name t' ≡ some r
  Rounds-find_other [] t t' r a h p = rw p h
  Rounds-find_other (s ∷ ss) t t' r a h (x, now, _, rest) =
      Rounds-find_other ss _ t' r a.1
        (find-update_secret t s.id user x now name h
          ∙ ap (λ c. some (if c then resealed x now r else r)) a.0)
        rest

  -- A row whose turn comes holds in the end under the new key what it held under the old one.
  pub Rounds-find :
      (ss : List SecretRow) (t t' : Tables) (r₀ r : SecretRow)
      → find_secret user name t ≡ some r
      → r.id ≡ r₀.id
      → All (λ s. s.id ≡ r₀.id → s ≡ r₀) ss
      → (unseal e new r ≡ unseal e old r₀) ⊎ Occurs r₀ ss
      → Rounds e old new ss t t'
      → (r' : SecretRow) × (find_secret user name t' ≡ some r')
        × (unseal e new r' ≡ unseal e old r₀)
  Rounds-find [] t t' r₀ r h i a (inl d) p = (r, rw p h, d)
  Rounds-find [] t t' r₀ r h i a (inr o) p = absurd o
  Rounds-find (s ∷ ss) t t' r₀ r h i a d (x, now, done, rest) = elim (Bool-cases (r.id == s.id)) [
    | inl hit ↦
        Rounds-find ss _ t' r₀ (resealed x now r)
          (find-update_secret t s.id user x now name h
            ∙ ap (λ c. some (if c then resealed x now r else r)) hit)
          i a.1
          (inl (
            done.sealed
            ∙ sym done.opened
            ∙ ap (unseal e old) (a.0 (sym ((==_iff r.id s.id).0 hit) ∙ i))))
          rest
    | inr miss ↦
        Rounds-find ss _ t' r₀ r
          (find-update_secret t s.id user x now name h
            ∙ ap (λ c. some (if c then resealed x now r else r)) miss)
          i a.1 (later miss d) rest
  ]
    where
      later :
          (r.id == s.id) ≡ false
          → (unseal e new r ≡ unseal e old r₀) ⊎ Occurs r₀ (s ∷ ss)
          → (unseal e new r ≡ unseal e old r₀) ⊎ Occurs r₀ ss
      later miss (inl q) = inl q
      later miss (inr (inl q)) = absurd (ground (arith, ap (λ (c : SecretRow). c.id) q))
      later miss (inr (inr o)) = inr o
