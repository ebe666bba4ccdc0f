-- ===== src/Kek/Rotation/Reveal.antt =====
-- A rotation changes every key and every ciphertext of the user, and no secret of anybody.
use vaultine.Prelude.{
  ℕ, suc, Bytes, ◌≡◌, refl, sym, ◌∙◌, ap, inl, inr, false, ◌==◌, ==_iff, Bool-cases, Option-cases,
  some, All-intro, Occurs, Distinct-eq, take, arith, first, eqb,
}
use mathlib.Core.Path.{subst}
use vaultine.World.{Env, IsLawful, Tables, User, KekRow, SecretRow}
use vaultine.Db.Sql.{find_user, find_kek, find_secret, secret_at, update_kek}
use vaultine.Db.Find.{
  Occurs-secrets_of, secrets_of-Occurs, find_secret-Occurs, find_user-Occurs, find-update_kek,
  find-update_kek_other,
}
use vaultine.Kek.Reencrypt.{
  Rounds-users, Rounds-find_kek, Rounds-find, Rounds-find_none, Rounds-find_other,
}
use vaultine.Kek.Rotation.{Rotated}
use vaultine.Reveal.{◌and_then◌, unseal, kek_of, secret_of, reveal}
use vaultine.Sound.{IsSound, same_secret_id}

-- A rotation leaves the users and the KEK rows of the others alone.
module _ {e : Env} {user : ℕ} {hash : Bytes} {t t' : Tables} (R : Rotated e user hash t t') where
  pub Rotated-users : (t'.users ≡ t.users) × (t'.next_user ≡ t.next_user)
  unfolding update_kek
  Rotated-users = (
    ap (λ (x : Tables). x.users) R.final
        ∙ (Rounds-users e R.old R.new R.rows t R.between R.rounds).0,
    ap (λ (x : Tables). x.next_user) R.final
        ∙ (Rounds-users e R.old R.new R.rows t R.between R.rounds).2,
  )

  pub Rotated-kek_other : (id : ℕ) → (id == user) ≡ false → find_kek id t' ≡ find_kek id t
  Rotated-kek_other id ne =
      ap (find_kek id) R.final
      ∙ find-update_kek_other R.between user id R.row.kek_version _ _ _ ne
      ∙ Rounds-find_kek e R.old R.new R.rows t R.between R.rounds id

  -- The version of the user's KEK is one more.
  pub Rotated-version :
      (k : KekRow) × (find_kek user t' ≡ some k) × (k.kek_version ≡ suc R.row.kek_version)
  Rotated-version = (_, R.renewed, refl)

module _ {e : Env} (L : IsLawful e) {user : ℕ} {hash : Bytes} {t t' : Tables} (V : IsSound t)
    (complete : (n : ℕ) → e.row_fails n ≡ false) (R : Rotated e user hash t t') where
  open R use {row, found, old, opened, rows, fetched, new, salt, expires_at, between, rounds, final}

  abbrev wrapped : Bytes
  wrapped = e.key_wrap (e.pwhash hash (take 16 salt)) new

  keks_between : (id : ℕ) → find_kek id between ≡ find_kek id t
  keks_between = Rounds-find_kek e old new rows t between rounds

  secrets_after : (id : ℕ) (name : Bytes) → find_secret id name t' ≡ find_secret id name between
  unfolding find_secret update_kek
  secrets_after id name = ap (λ (x : Tables). first (secret_at id name) x.secrets) final

  users_after : (username : Bytes) → find_user username t' ≡ find_user username t
  unfolding find_user update_kek
  users_after username =
      ap (λ (x : Tables). first (λ (u : User). eqb u.username username) x.users) final
      ∙ ap (first (λ (u : User). eqb u.username username))
          (Rounds-users e old new rows t between rounds).0

  kek_before : (x : User) → x.id ≡ user → x.password_hash ≡ hash → kek_of e t x ≡ some old
  unfolding kek_of
  kek_before x i h = rw (i, h, found) opened

  -- The row of the user's KEK opens to the new key under the old hash.
  kek_after : (x : User) → x.id ≡ user → x.password_hash ≡ hash → kek_of e t' x ≡ some new
  unfolding kek_of
  kek_after x i h =
      rw
        (
          i,
          h,
          final,
          find-update_kek between user wrapped salt expires_at {k = row}
              (keks_between user ∙ found),
        )
        (L.unwrap_wrap _ _)

  kek_other : (x : User) → (x.id == user) ≡ false → kek_of e t' x ≡ kek_of e t x
  unfolding kek_of
  kek_other x ne = rw (
    final,
    find-update_kek_other between user x.id row.kek_version wrapped salt expires_at ne,
    keks_between x.id,
  )

  -- In `t` a row is known by its id.
  same_row : (a b : SecretRow) → Occurs a t.secrets → Occurs b t.secrets → a.id ≡ b.id → a ≡ b
  same_row a b o o' h =
      Distinct-eq same_secret_id t.secrets a b (λ x y. ground arith) V.secret_ids o o'
        ((==_iff a.id b.id).1 h)

  row_of : (s : SecretRow) → Occurs s rows → (s.user_id ≡ user) × Occurs s t.secrets
  row_of s o = secrets_of-Occurs user t s (subst (Occurs s) (fetched.complete complete) o)

  secret_after :
      (name : Bytes)
      → (find_secret user name t' and_then unseal e new)
        ≡ (find_secret user name t and_then unseal e old)
  secret_after name = elim (Option-cases (find_secret user name t)) [
    | inl h ↦
        rw
          (h, secrets_after user name, Rounds-find_none e old new user name rows t between h rounds)
    | inr (r, h) ↦
        let (i, o) = find_secret-Occurs user name t h in
        let (r', k, d) =
          Rounds-find e old new user name rows t between r r h refl
            (All-intro (λ s. s.id ≡ r.id → s ≡ r) rows (λ s m. same_row s r (row_of s m).1 o))
            (inr
              (subst (Occurs r) (sym (fetched.complete complete)) (Occurs-secrets_of user t r i o)))
            rounds in
        rw (h, secrets_after user name, k) d
  ]

  secret_other :
      (id : ℕ) (name : Bytes)
      → (id == user) ≡ false
      → find_secret id name t' ≡ find_secret id name t
  secret_other id name ne = secrets_after id name ∙ elim (Option-cases (find_secret id name t)) [
    | inl h ↦ Rounds-find_none e old new id name rows t between h rounds ∙ sym h
    | inr (r, h) ↦
        let (i, o) = find_secret-Occurs id name t h in
        Rounds-find_other e old new id name rows t between r
          (All-intro (λ s. (r.id == s.id) ≡ false) rows
            (λ s m. elim (Bool-cases (r.id == s.id)) [
              | inl q ↦
                  let same = same_row r s o (row_of s m).1 ((==_iff r.id s.id).0 q) in
                  absurd (ground (arith, i, (row_of s m).0, ap (λ (c : SecretRow). c.user_id) same))
              | inr q ↦ q
            ]))
          h rounds
        ∙ sym h
  ]

  secret_of_after :
      (x : User) (name : Bytes)
      → (x.id ≡ user → x.password_hash ≡ hash)
      → secret_of e t' x name ≡ secret_of e t x name
  unfolding secret_of
  secret_of_after x name known = elim (Bool-cases (x.id == user)) [
    | inl q ↦
        let i = (==_iff x.id user).0 q in
        rw (kek_after x i (known i), kek_before x i (known i), i) (secret_after name)
    | inr q ↦ rw (kek_other x q, secret_other x.id name q)
  ]

  -- What is stored for any user under any name is what was stored before.
  pub Rotated-reveal :
      ((x : User) → Occurs x t.users → x.id ≡ user → x.password_hash ≡ hash)
      → (username name : Bytes) → reveal e t' username name ≡ reveal e t username name
  unfolding reveal
  Rotated-reveal known username name = elim (Option-cases (find_user username t)) [
    | inl h ↦ rw (users_after username, h)
    | inr (x, h) ↦
        rw (users_after username, h)
          (secret_of_after x name (known x (find_user-Occurs username t h)))
  ]
