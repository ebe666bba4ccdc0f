-- ===== src/Sound/Statements.antt =====
-- The statements keep the constraints of the schema.
use vaultine.Prelude.{
  ℕ, suc, ◌<◌, Bytes, ◌≡◌, refl, ◌∙◌, true, false, not, ◌==◌, eqb, [], ◌∷◌, All-map, All-append,
  All-keep, All-amend, All-intro, keep-Occurs, All-Occurs, Distinct-append, Distinct-keep,
  Distinct-amend, exists-All, exists-keep, exists-amend, exists-append, arith,
}
use vaultine.World.{User, KekRow, SecretRow, Tables}
use vaultine.Db.Sql.{
  has_user, has_username, has_kek, insert_user, insert_kek, has_secret, secret_at, NewSecret,
  insert_secret, delete_secret, delete_user, set_password_hash, set_wrapped_kek, update_kek,
  update_secret, Sealed, resealed, rewrapped, kek_at,
}
use vaultine.Sound.{
  IsSound, same_user_id, same_username, same_owner, same_secret_id, same_secret_name,
}

module _ (t : Tables) (V : IsSound t) where
  pub insert_secret-IsSound :
      (n : NewSecret) (now : Bytes)
      → has_secret n.user_id n.name t ≡ false
      → has_user n.user_id t ≡ true
      → IsSound (insert_secret n now t)
  unfolding insert_secret
  insert_secret-IsSound n now free known = record {
    user_ids = V.user_ids;
    usernames = V.usernames;
    users_below = V.users_below;
    users_positive = V.users_positive;
    owners = V.owners;
    versions = V.versions;
    keks_owned = V.keks_owned;
    secret_ids = Distinct-append same_secret_id t.secrets _ V.secret_ids (
        All-map (λ s. s.id < t.next_secret) _ t.secrets (λ s h. ground (arith, h)) V.secrets_below);
    secret_names =
        Distinct-append same_secret_name t.secrets _ V.secret_names
          (exists-All (secret_at n.user_id n.name) t.secrets free);
    secrets_below =
        All-append (λ s. s.id < suc t.next_secret) t.secrets (_ ∷ [])
          (All-map (λ s. s.id < t.next_secret) _ t.secrets (λ s h. omega (arith, h))
            V.secrets_below)
          (omega arith, tt);
    secrets_owned =
        All-append (λ s. has_user s.user_id t ≡ true) t.secrets (_ ∷ []) V.secrets_owned
          (known, tt);
  }

  pub delete_secret-IsSound : (user : ℕ) (name : Bytes) → IsSound (delete_secret user name t)
  unfolding delete_secret
  delete_secret-IsSound user name = record {
    user_ids = V.user_ids;
    usernames = V.usernames;
    users_below = V.users_below;
    users_positive = V.users_positive;
    owners = V.owners;
    versions = V.versions;
    keks_owned = V.keks_owned;
    secret_ids = Distinct-keep same_secret_id _ t.secrets V.secret_ids;
    secret_names = Distinct-keep same_secret_name _ t.secrets V.secret_names;
    secrets_below = All-keep (λ s. s.id < t.next_secret) _ t.secrets V.secrets_below;
    secrets_owned = All-keep (λ s. has_user s.user_id t ≡ true) _ t.secrets V.secrets_owned;
  }

  pub delete_user-IsSound : (user : ℕ) → IsSound (delete_user user t)
  unfolding delete_user
  delete_user-IsSound user = record {
    user_ids = Distinct-keep same_user_id _ t.users V.user_ids;
    usernames = Distinct-keep same_username _ t.users V.usernames;
    users_below = All-keep (λ u. u.id < t.next_user) _ t.users V.users_below;
    users_positive = V.users_positive;
    owners = Distinct-keep same_owner _ t.keks V.owners;
    versions = All-keep (λ k. 0 < k.kek_version) _ t.keks V.versions;
    keks_owned = All-intro _ _ (λ k o.
        let (q, o') = keep-Occurs (λ (k : KekRow). not (k.user_id == user)) t.keks k o in
        exists-keep (λ u. u.id == k.user_id) (λ u. not (u.id == user)) t.users
          (λ u h. ground (arith, h, q))
          (All-Occurs (λ (k : KekRow). has_user k.user_id t ≡ true) t.keks k V.keks_owned o'));
    secret_ids = Distinct-keep same_secret_id _ t.secrets V.secret_ids;
    secret_names = Distinct-keep same_secret_name _ t.secrets V.secret_names;
    secrets_below = All-keep (λ s. s.id < t.next_secret) _ t.secrets V.secrets_below;
    secrets_owned = All-intro _ _ (λ s o.
        let (q, o') = keep-Occurs (λ (s : SecretRow). not (s.user_id == user)) t.secrets s o in
        exists-keep (λ u. u.id == s.user_id) (λ u. not (u.id == user)) t.users
          (λ u h. ground (arith, h, q))
          (All-Occurs (λ (s : SecretRow). has_user s.user_id t ≡ true) t.secrets s V.secrets_owned
            o'));
  }

  pub set_password_hash-IsSound :
      (user : ℕ) (hash : Bytes) → IsSound (set_password_hash user hash t)
  unfolding set_password_hash
  set_password_hash-IsSound user hash = record {
    user_ids =
        Distinct-amend same_user_id (λ u. u.id == user) (λ u. record u { password_hash = hash })
          t.users (λ x y. refl) (λ x y. refl) V.user_ids;
    usernames =
        Distinct-amend same_username (λ u. u.id == user) (λ u. record u { password_hash = hash })
          t.users (λ x y. refl) (λ x y. refl) V.usernames;
    users_below =
        All-amend (λ u. u.id < t.next_user) (λ u. u.id == user)
          (λ u. record u { password_hash = hash }) t.users (λ x h. h) V.users_below;
    users_positive = V.users_positive;
    owners = V.owners;
    versions = V.versions;
    keks_owned =
        All-map (λ k. has_user k.user_id t ≡ true) _ t.keks
          (λ k h.
            exists-amend (λ u. u.id == k.user_id) (λ u. u.id == user)
              (λ u. record u { password_hash = hash }) t.users (λ x. refl)
            ∙ h)
          V.keks_owned;
    secret_ids = V.secret_ids;
    secret_names = V.secret_names;
    secrets_below = V.secrets_below;
    secrets_owned =
        All-map (λ s. has_user s.user_id t ≡ true) _ t.secrets
          (λ s h.
            exists-amend (λ u. u.id == s.user_id) (λ u. u.id == user)
              (λ u. record u { password_hash = hash }) t.users (λ x. refl)
            ∙ h)
          V.secrets_owned;
  }

  pub set_wrapped_kek-IsSound :
      (user : ℕ) (wrapped : Bytes) → IsSound (set_wrapped_kek user wrapped t)
  unfolding set_wrapped_kek
  set_wrapped_kek-IsSound user wrapped = record {
    user_ids = V.user_ids;
    usernames = V.usernames;
    users_below = V.users_below;
    users_positive = V.users_positive;
    owners =
        Distinct-amend same_owner (λ k. k.user_id == user) (λ k. record k { wrapped_kek = wrapped })
          t.keks (λ x y. refl) (λ x y. refl) V.owners;
    versions =
        All-amend (λ k. 0 < k.kek_version) (λ k. k.user_id == user)
          (λ k. record k { wrapped_kek = wrapped }) t.keks (λ k h. h) V.versions;
    keks_owned =
        All-amend (λ k. has_user k.user_id t ≡ true) (λ k. k.user_id == user)
          (λ k. record k { wrapped_kek = wrapped }) t.keks (λ k h. h) V.keks_owned;
    secret_ids = V.secret_ids;
    secret_names = V.secret_names;
    secrets_below = V.secrets_below;
    secrets_owned = V.secrets_owned;
  }

  pub update_kek-IsSound :
      (user : ℕ) (wrapped salt expires : Bytes) (version : ℕ)
      → IsSound (update_kek user wrapped salt expires version t)
  unfolding update_kek
  update_kek-IsSound user wrapped salt expires version = record {
    user_ids = V.user_ids;
    usernames = V.usernames;
    users_below = V.users_below;
    users_positive = V.users_positive;
    owners =
        Distinct-amend same_owner (kek_at user version) (rewrapped wrapped salt expires) t.keks
          (λ x y. refl) (λ x y. refl) V.owners;
    versions =
        All-amend (λ k. 0 < k.kek_version) (kek_at user version) (rewrapped wrapped salt expires)
          t.keks (λ k h. omega arith) V.versions;
    keks_owned =
        All-amend (λ k. has_user k.user_id t ≡ true) (kek_at user version)
          (rewrapped wrapped salt expires) t.keks (λ k h. h) V.keks_owned;
    secret_ids = V.secret_ids;
    secret_names = V.secret_names;
    secrets_below = V.secrets_below;
    secrets_owned = V.secrets_owned;
  }

  pub update_secret-IsSound :
      (id : ℕ) (x : Sealed) (now : Bytes) → IsSound (update_secret id x now t)
  unfolding update_secret
  update_secret-IsSound id x now = record {
    user_ids = V.user_ids;
    usernames = V.usernames;
    users_below = V.users_below;
    users_positive = V.users_positive;
    owners = V.owners;
    versions = V.versions;
    keks_owned = V.keks_owned;
    secret_ids =
        Distinct-amend same_secret_id (λ s. s.id == id) (resealed x now) t.secrets (λ x y. refl)
          (λ x y. refl) V.secret_ids;
    secret_names =
        Distinct-amend same_secret_name (λ s. s.id == id) (resealed x now) t.secrets (λ x y. refl)
          (λ x y. refl) V.secret_names;
    secrets_below =
        All-amend (λ s. s.id < t.next_secret) (λ s. s.id == id) (resealed x now) t.secrets
          (λ s h. h) V.secrets_below;
    secrets_owned =
        All-amend (λ s. has_user s.user_id t ≡ true) (λ s. s.id == id) (resealed x now) t.secrets
          (λ s h. h) V.secrets_owned;
  }

  pub insert_user-IsSound :
      (username hash now : Bytes)
      → has_username username t ≡ false
      → IsSound (insert_user username hash now t)
  unfolding insert_user
  insert_user-IsSound username hash now free = record {
    user_ids =
        Distinct-append same_user_id t.users _ V.user_ids
          (All-map (λ u. u.id < t.next_user) _ t.users (λ u h. ground (arith, h)) V.users_below);
    usernames =
        Distinct-append same_username t.users _ V.usernames
          (exists-All (λ u. eqb u.username username) t.users free);
    users_below =
        All-append (λ u. u.id < suc t.next_user) t.users (_ ∷ [])
          (All-map (λ u. u.id < t.next_user) _ t.users (λ u h. omega (arith, h)) V.users_below)
          (omega arith, tt);
    users_positive = omega (arith, V.users_positive);
    owners = V.owners;
    versions = V.versions;
    keks_owned =
        All-map (λ k. has_user k.user_id t ≡ true) _ t.keks
          (λ k h. exists-append (λ (u : User). u.id == k.user_id) t.users _ h) V.keks_owned;
    secret_ids = V.secret_ids;
    secret_names = V.secret_names;
    secrets_below = V.secrets_below;
    secrets_owned =
        All-map (λ s. has_user s.user_id t ≡ true) _ t.secrets
          (λ s h. exists-append (λ (u : User). u.id == s.user_id) t.users _ h) V.secrets_owned;
  }

  pub insert_kek-IsSound :
      (user : ℕ) (wrapped salt expires : Bytes)
      → has_kek user t ≡ false
      → has_user user t ≡ true
      → IsSound (insert_kek user wrapped salt expires t)
  unfolding insert_kek
  insert_kek-IsSound user wrapped salt expires free known = record {
    user_ids = V.user_ids;
    usernames = V.usernames;
    users_below = V.users_below;
    users_positive = V.users_positive;
    owners =
        Distinct-append same_owner t.keks _ V.owners
          (exists-All (λ k. k.user_id == user) t.keks free);
    versions = All-append (λ k. 0 < k.kek_version) t.keks (_ ∷ []) V.versions (omega arith, tt);
    keks_owned =
        All-append (λ k. has_user k.user_id t ≡ true) t.keks (_ ∷ []) V.keks_owned (known, tt);
    secret_ids = V.secret_ids;
    secret_names = V.secret_names;
    secrets_below = V.secrets_below;
    secrets_owned = V.secrets_owned;
  }
