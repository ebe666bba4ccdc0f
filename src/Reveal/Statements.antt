-- ===== src/Reveal/Statements.antt =====
-- What the SQL statements on users and secrets do to the secrets that the tables hold.
use vaultine.Prelude.{
  ℕ, Bytes, ◌≡◌, refl, sym, ◌∙◌, ap, inl, inr, Bool, true, false, not, ◌&&◌, ◌==◌, ==_iff, ==_refl,
  eqb, eqb_iff, eqb_sym, keep-Occurs, first-Occurs, Distinct-eq, Option, none, some, [], first,
  keep, Bool-cases, Option-cases, first-append, first-passes, first-keep, first-keep-some,
  first-keep-none, first-dropped, exists-first, if◌then◌else◌, arith,
}
use mathlib.Core.Option.{some-injective, none-ne-some}
use mathlib.Core.Path.{ap₂, subst}
use vaultine.World.{Env, Tables, User, SecretRow}
use vaultine.Db.Sql.{
  find_user, find_kek, find_secret, has_secret, secret_at, NewSecret, insert_secret, delete_secret,
  delete_user,
}
use vaultine.Db.Find.{find_user-Occurs}
use vaultine.Cache.Coherent.{user_by_id}
use vaultine.Reveal.{◌and_then◌, unlock, unseal, kek_of, secret_of, reveal}
use vaultine.Sound.{IsSound, same_username}

-- What a lookup finds after an INSERT and a DELETE.
find_secret-insert :
    (t : Tables) (n : NewSecret) (now : Bytes) (id : ℕ) (name kek : Bytes) (e : Env)
    → has_secret n.user_id n.name t ≡ false
    → (find_secret id name (insert_secret n now t) and_then unseal e kek) ≡ (
        if id == n.user_id && eqb name n.name
        then e.gcm_open kek n.nonce [] n.private_key n.tag
        else find_secret id name t and_then unseal e kek)
unfolding find_secret insert_secret
find_secret-insert t n now id name kek e free =
    ap (λ o. o and_then unseal e kek) (first-append (secret_at id name) t.secrets _)
    ∙ elim (Option-cases (first (secret_at id name) t.secrets)) [
      | inl h ↦ ground (arith, h, eqb_sym name n.name)
      | inr (s, h) ↦ elim (Bool-cases (id == n.user_id && eqb name n.name)) [
        | inl c ↦
            let p = (eqb_iff name n.name).0 (ground arith) in
            let q = (==_iff id n.user_id).0 (ground arith) in
            let r = exists-first (secret_at n.user_id n.name) t.secrets free in
            absurd (
              none-ne-some s
                (sym r ∙ ap₂ (λ i m. first (secret_at i m) t.secrets) (sym q) (sym p) ∙ h))
        | inr c ↦ rw (h, c) refl
      ]
    ]

find_secret-delete :
    (t : Tables) (user : ℕ) (gone : Bytes) (id : ℕ) (name : Bytes)
    → find_secret id name (delete_secret user gone t)
      ≡ (if id == user && eqb name gone then none else find_secret id name t)
unfolding find_secret delete_secret
find_secret-delete t user gone id name = elim (Bool-cases (id == user && eqb name gone)) [
  | inl c ↦
      let p = (eqb_iff name gone).0 (ground arith) in
      let q = (==_iff id user).0 (ground arith) in
      ground (
        arith,
        c,
        subst
            (λ i.
              first (secret_at i name) (keep (λ s. not (secret_at user gone s)) t.secrets) ≡ none)
            (sym q)
            (subst
              (λ m.
                first (secret_at user m) (keep (λ s. not (secret_at user gone s)) t.secrets) ≡ none)
              (sym p) (first-dropped (secret_at user gone) t.secrets)),
      )
  | inr c ↦ rw c (
      first-keep (secret_at id name) (λ s. not (secret_at user gone s)) t.secrets
        (λ s h. kept s c h))
]
  where
    kept :
        (s : SecretRow)
        → (id == user && eqb name gone) ≡ false
        → secret_at id name s ≡ true
        → not (secret_at user gone s) ≡ true
    kept s c h = elim (Bool-cases (secret_at user gone s)) [
      | inl k ↦
          let p : s.name ≡ name = (eqb_iff s.name name).0 (ground arith) in
          let q : s.name ≡ gone = (eqb_iff s.name gone).0 (ground arith) in
          absurd (ground (arith, eqb_iff name gone, sym p ∙ q))
      | inr k ↦ rw k refl
    ]

-- How a secret is found.
module _ (e : Env) (t : Tables) where
  reveal-missing :
      (username name : Bytes) → find_user username t ≡ none → reveal e t username name ≡ none
  unfolding reveal
  reveal-missing username name h = rw h refl

  reveal-found :
      (username name : Bytes) {x : User}
      → find_user username t ≡ some x
      → reveal e t username name ≡ secret_of e t x name
  unfolding reveal
  reveal-found username name h = rw h refl

  secret_of-locked : (x : User) (name : Bytes) → kek_of e t x ≡ none → secret_of e t x name ≡ none
  unfolding secret_of
  secret_of-locked x name h = rw h refl

  secret_of-opened :
      (x : User) (name : Bytes) {kek : Bytes}
      → kek_of e t x ≡ some kek
      → secret_of e t x name ≡ (find_secret x.id name t and_then unseal e kek)
  unfolding secret_of
  secret_of-opened x name h = rw h refl

-- Tables with the same users and keys hold the same secrets of a user whose rows are found alike.
secret_of-alike :
    (e : Env) (t t' : Tables) (x : User) (name : Bytes)
    → kek_of e t' x ≡ kek_of e t x
    → find_secret x.id name t' ≡ find_secret x.id name t
    → secret_of e t' x name ≡ secret_of e t x name
unfolding secret_of
secret_of-alike e t t' x name p q = rw (p, q) refl

secret_of-insert :
    (e : Env) (t : Tables) (n : NewSecret) (now : Bytes) (x : User) (name : Bytes)
    → has_secret n.user_id n.name t ≡ false
    → secret_of e (insert_secret n now t) x name ≡ (
        if x.id == n.user_id && eqb name n.name
        then kek_of e t x and_then (λ kek. e.gcm_open kek n.nonce [] n.private_key n.tag)
        else secret_of e t x name)
unfolding kek_of find_kek insert_secret
secret_of-insert e t n now x name free = elim (Option-cases (kek_of e t x)) [
  | inl h ↦
      secret_of-locked e (insert_secret n now t) x name h
      ∙ sym
          (both (x.id == n.user_id && eqb name n.name) (rw h refl) (secret_of-locked e t x name h))
  | inr (kek, h) ↦
      secret_of-opened e (insert_secret n now t) x name h
      ∙ find_secret-insert t n now x.id name kek e free
      ∙ chosen (x.id == n.user_id && eqb name n.name) (rw h refl)
          (sym (secret_of-opened e t x name h))
]
  where
    both : (b : Bool) {p q : Option Bytes} → p ≡ none → q ≡ none → (if b then p else q) ≡ none
    both true h k = h
    both false h k = k

    chosen :
        (b : Bool) {p p' q q' : Option Bytes}
        → p ≡ p'
        → q ≡ q'
        → (if b then p else q) ≡ (if b then p' else q')
    chosen true h k = h
    chosen false h k = k

secret_of-delete :
    (e : Env) (t : Tables) (user : ℕ) (gone : Bytes) (x : User) (name : Bytes)
    → secret_of e (delete_secret user gone t) x name
      ≡ (if x.id == user && eqb name gone then none else secret_of e t x name)
unfolding kek_of find_kek delete_secret
secret_of-delete e t user gone x name = elim (Option-cases (kek_of e t x)) [
  | inl h ↦
      secret_of-locked e (delete_secret user gone t) x name h
      ∙ sym (never (x.id == user && eqb name gone) (secret_of-locked e t x name h))
  | inr (kek, h) ↦
      secret_of-opened e (delete_secret user gone t) x name h
      ∙ ap (λ o. o and_then unseal e kek) (find_secret-delete t user gone x.id name)
      ∙ through (x.id == user && eqb name gone) _ _ (sym (secret_of-opened e t x name h))
]
  where
    never : (b : Bool) {q : Option Bytes} → q ≡ none → (if b then none else q) ≡ none
    never true k = refl
    never false k = k

    through :
        (b : Bool) (o : Option SecretRow) (f : SecretRow → Option Bytes) {q : Option Bytes}
        → (o and_then f) ≡ q
        → ((if b then none else o) and_then f) ≡ (if b then none else q)
    through true o f k = refl
    through false o f k = k

secret_of-delete_user :
    (e : Env) (t : Tables) (user : ℕ) (x : User) (name : Bytes)
    → (x.id == user) ≡ false
    → secret_of e (delete_user user t) x name ≡ secret_of e t x name
unfolding kek_of find_kek delete_user find_secret
secret_of-delete_user e t user x name ne =
    secret_of-alike e t (delete_user user t) x name
      (ap (λ o. o and_then unlock e x.password_hash)
        (first-keep (λ k. k.user_id == x.id) (λ k. not (k.user_id == user)) t.keks
          (λ k h. ground (arith, h, ne))))
      (first-keep (secret_at x.id name) (λ s. not (s.user_id == user)) t.secrets
        (λ s h. ground (arith, h, ne)))

module _ (t : Tables) (V : IsSound t) (username : Bytes) (u : User)
    (found : find_user username t ≡ some u) where
  found_name : (name : Bytes) (x : User) → find_user name t ≡ some x → x.username ≡ name
  unfolding find_user
  found_name name x h =
      (eqb_iff _ _).0 (first-passes (λ (y : User). eqb y.username name) t.users {a = x} h)

  absent : (name : Bytes) → find_user name t ≡ none → eqb name username ≡ false
  absent name h = elim (Bool-cases (eqb name username)) [
    | inl same ↦
        absurd (
          none-ne-some u (sym h ∙ ap (λ m. find_user m t) ((eqb_iff name username).0 same) ∙ found))
    | inr other ↦ other
  ]

  -- Of the users that can be found, ids tell apart what names do.
  pub owner_by_name :
      (name : Bytes) (x : User) → find_user name t ≡ some x → (x.id == u.id) ≡ eqb name username
  owner_by_name name x h = elim (Bool-cases (eqb name username)) [
    | inl same ↦
        let n = (eqb_iff name username).0 same in
        let p = some-injective x u (sym h ∙ ap (λ m. find_user m t) n ∙ found) in
        rw (same, p) (==_refl u.id)
    | inr other ↦ elim (Bool-cases (x.id == u.id)) [
      | inl i ↦
          let p =
            user_by_id x u V (find_user-Occurs name t h) (find_user-Occurs username t found)
              ((==_iff x.id u.id).0 i) in
          let n =
            sym (found_name name x h)
            ∙ ap (λ (y : User). y.username) p
            ∙ found_name username u found in
          absurd (ground (arith, other, (eqb_iff name username).1 n))
      | inr i ↦ i ∙ sym other
    ]
  ]

  -- INSERT INTO secrets: the new secret is there, and every other one is as before.
  pub insert_secret-reveal :
      (e : Env) (n : NewSecret) (now kek : Bytes)
      → n.user_id ≡ u.id
      → has_secret n.user_id n.name t ≡ false
      → kek_of e t u ≡ some kek
      → (username' name' : Bytes)
      → reveal e (insert_secret n now t) username' name' ≡ (
          if eqb username' username && eqb name' n.name
          then e.gcm_open kek n.nonce [] n.private_key n.tag
          else reveal e t username' name')
  unfolding find_user insert_secret
  insert_secret-reveal e n now kek i free opened username' name' =
      elim (Option-cases (find_user username' t)) [
        | inl h ↦
            reveal-missing e (insert_secret n now t) username' name' h
            ∙ sym (rw (absent username' h) (reveal-missing e t username' name' h))
        | inr (x, h) ↦
            reveal-found e (insert_secret n now t) username' name' h
            ∙ secret_of-insert e t n now x name' free
            ∙ rw (i, owner_by_name username' x h, reveal-found e t username' name' h)
                (when (eqb username' username && eqb name' n.name) _ (λ c.
                  ap
                    (λ y.
                      kek_of e t y and_then λ kek'. e.gcm_open kek' n.nonce [] n.private_key n.tag)
                    (some-injective x u (
                      sym h
                      ∙ ap (λ m. find_user m t) ((eqb_iff username' username).0 (ground arith))
                      ∙ found))
                  ∙ rw opened refl))
      ]
    where
      when :
          (b : Bool) (q : Option Bytes) {p p' : Option Bytes}
          → (b ≡ true → p ≡ p')
          → (if b then p else q) ≡ (if b then p' else q)
      when true q f = f refl
      when false q f = refl

  -- DELETE FROM secrets: that secret is gone, and every other one is as before.
  pub delete_secret-reveal :
      (e : Env) (name username' name' : Bytes)
      → reveal e (delete_secret u.id name t) username' name'
        ≡ (if eqb username' username && eqb name' name then none else reveal e t username' name')
  unfolding find_user delete_secret
  delete_secret-reveal e name username' name' = elim (Option-cases (find_user username' t)) [
    | inl h ↦
        reveal-missing e (delete_secret u.id name t) username' name' h
        ∙ sym (rw (absent username' h) (reveal-missing e t username' name' h))
    | inr (x, h) ↦
        reveal-found e (delete_secret u.id name t) username' name' h
        ∙ secret_of-delete e t u.id name x name'
        ∙ rw (owner_by_name username' x h, reveal-found e t username' name' h) refl
  ]

  -- DELETE FROM users takes the user of that name away.
  pub find_user-deleted : find_user username (delete_user u.id t) ≡ none
  unfolding delete_user find_user
  find_user-deleted = elim (Option-cases (find_user username (delete_user u.id t))) [
    | inl h ↦ h
    | inr (y, h) ↦
        let (kept, o) =
          keep-Occurs (λ (x : User). not (x.id == u.id)) t.users y
            (first-Occurs (λ x. eqb x.username username)
              (keep (λ (x : User). not (x.id == u.id)) t.users) h) in
        let n : eqb y.username username ≡ true =
          first-passes (λ x. eqb x.username username)
            (keep (λ (x : User). not (x.id == u.id)) t.users) {a = y} h in
        let m = found_name username u found in
        let p : y ≡ u =
          Distinct-eq same_username t.users y u (λ a b. eqb_sym a.username b.username) V.usernames o
            (find_user-Occurs username t found) (ap (eqb y.username) m ∙ n) in
        absurd (ground (arith, kept, ap (λ (x : User). x.id) p, ==_refl u.id))
  ]

  -- DELETE FROM users: the user's secrets are gone, and every other one is as before.
  pub delete_user-reveal :
      (e : Env) (username' name' : Bytes)
      → reveal e (delete_user u.id t) username' name'
        ≡ (if eqb username' username then none else reveal e t username' name')
  unfolding find_user delete_user
  delete_user-reveal e username' name' = elim (Option-cases (find_user username' t)) [
    | inl h ↦
        reveal-missing e (delete_user u.id t) username' name'
          (first-keep-none (λ x. eqb x.username username') (λ x. not (x.id == u.id)) t.users h)
        ∙ sym (rw (absent username' h) (reveal-missing e t username' name' h))
    | inr (x, h) ↦ elim (Bool-cases (eqb username' username)) [
      | inl same ↦
          reveal-missing e (delete_user u.id t) username' name' (
            ap (λ m. find_user m (delete_user u.id t)) ((eqb_iff username' username).0 same)
            ∙ find_user-deleted)
          ∙ rw same refl
      | inr other ↦
          let ne = owner_by_name username' x h ∙ other in
          reveal-found e (delete_user u.id t) username' name' {x = x} (
            first-keep-some (λ y. eqb y.username username') (λ y. not (y.id == u.id)) t.users
              {a = x} h (rw ne refl))
          ∙ secret_of-delete_user e t u.id x name' ne
          ∙ rw (other, reveal-found e t username' name' h) refl
    ]
  ]
