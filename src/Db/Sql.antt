-- ===== src/Db/Sql.antt =====
-- The SQL statements of src/db/*.cc and src/ssm.cc as functions on the tables, with the constraints
-- of the schema in db/database.cc: UNIQUE, REFERENCES ... ON DELETE CASCADE, AUTOINCREMENT.
use vaultine.Prelude.{
  ℕ, suc, Bytes, eqb, lex_leb, Bool, not, ◌&&◌, Option, List, [], ◌∷◌, ◌++◌, ◌==◌, if◌then◌else◌,
  keep, first, exists, amend,
}
use vaultine.World.{User, KekRow, SecretRow, Tables}

-- ORDER BY: `before a b` says that a may stand before b. Rows that tie keep their row order.
module _ {A : Type 0} (before : A → A → Bool) where
  unfoldable pub place : A → List A → List A
  place a [] = a ∷ []
  place a (b ∷ bs) = let rest = place a bs in if before a b then a ∷ b ∷ bs else b ∷ rest

  unfoldable pub order_by : List A → List A
  unfolding place
  order_by [] = []
  order_by (a ∷ as') = place a (order_by as')

-- SELECT ... FROM users WHERE username = ?
unfoldable pub find_user : Bytes → Tables → Option User
find_user username t = first (λ u. eqb u.username username) t.users

abbrev pub has_username : Bytes → Tables → Bool
has_username username t = exists (λ (u : User). eqb u.username username) t.users

abbrev pub has_user : ℕ → Tables → Bool
has_user id t = exists (λ (u : User). u.id == id) t.users

-- INSERT INTO users (username, password_hash)
unfoldable pub insert_user : Bytes → Bytes → Bytes → Tables → Tables
insert_user username hash now t = record t {
  users = t.users ++ (row ∷ []);
  next_user = suc t.next_user;
}
  where
    row : User
    row = record { id = t.next_user; username = username; password_hash = hash; created_at = now }

-- UPDATE users SET password_hash = ? WHERE id = ?
unfoldable pub set_password_hash : ℕ → Bytes → Tables → Tables
set_password_hash id hash t = record t {
  users = amend (λ u. u.id == id) (λ u. record u { password_hash = hash }) t.users;
}

-- DELETE FROM users WHERE id = ?, with the rows that refer to the user.
unfoldable pub delete_user : ℕ → Tables → Tables
delete_user id t = record t {
  users = keep (λ u. not (u.id == id)) t.users;
  keks = keep (λ k. not (k.user_id == id)) t.keks;
  secrets = keep (λ s. not (s.user_id == id)) t.secrets;
}

-- SELECT ... FROM kek_metadata WHERE user_id = ?
unfoldable pub find_kek : ℕ → Tables → Option KekRow
find_kek user t = first (λ k. k.user_id == user) t.keks

abbrev pub has_kek : ℕ → Tables → Bool
has_kek user t = exists (λ (k : KekRow). k.user_id == user) t.keks

-- INSERT INTO kek_metadata (user_id, wrapped_kek, salt, expires_at)
unfoldable pub insert_kek : ℕ → Bytes → Bytes → Bytes → Tables → Tables
insert_kek user wrapped salt expires t = record t {
  keks = t.keks ++ (row ∷ []);
  next_kek = suc t.next_kek;
}
  where
    row : KekRow
    row = record {
      id = t.next_kek;
      user_id = user;
      wrapped_kek = wrapped;
      salt = salt;
      expires_at = expires;
      kek_version = 1;
    }

abbrev pub kek_at : ℕ → ℕ → KekRow → Bool
kek_at user version k = k.user_id == user && k.kek_version == version

abbrev pub rewrapped : Bytes → Bytes → Bytes → KekRow → KekRow
rewrapped wrapped salt expires k = record k {
  wrapped_kek = wrapped;
  salt = salt;
  expires_at = expires;
  kek_version = suc k.kek_version;
}

-- UPDATE kek_metadata SET ..., kek_version = kek_version + 1 WHERE user_id = ? AND kek_version = ?
unfoldable pub update_kek : ℕ → Bytes → Bytes → Bytes → ℕ → Tables → Tables
update_kek user wrapped salt expires version t = record t {
  keks = amend (kek_at user version) (rewrapped wrapped salt expires) t.keks;
}

-- UPDATE kek_metadata SET wrapped_kek = ? WHERE user_id = ?
unfoldable pub set_wrapped_kek : ℕ → Bytes → Tables → Tables
set_wrapped_kek user wrapped t = record t {
  keks = amend (λ k. k.user_id == user) (λ k. record k { wrapped_kek = wrapped }) t.keks;
}

-- DELETE FROM kek_metadata WHERE user_id = ?
unfoldable pub delete_kek : ℕ → Tables → Tables
delete_kek user t = record t { keks = keep (λ k. not (k.user_id == user)) t.keks }

abbrev pub secret_at : ℕ → Bytes → SecretRow → Bool
secret_at user name s = s.user_id == user && eqb s.name name

-- SELECT ... FROM secrets WHERE user_id = ? AND name = ?
unfoldable pub find_secret : ℕ → Bytes → Tables → Option SecretRow
find_secret user name t = first (secret_at user name) t.secrets

abbrev pub has_secret : ℕ → Bytes → Tables → Bool
has_secret user name t = exists (secret_at user name) t.secrets

-- What secrets_store binds to its statement.
pub record NewSecret : Type 0 where
  pub user_id : ℕ
  pub name : Bytes
  pub private_key : Bytes
  pub public_key : Option Bytes
  pub nonce : Bytes
  pub tag : Bytes
  pub description : Option Bytes

-- INSERT INTO secrets (user_id, name, private_key, public_key, nonce, tag, description)
unfoldable pub insert_secret : NewSecret → Bytes → Tables → Tables
insert_secret n now t = record t {
  secrets = t.secrets ++ (row ∷ []);
  next_secret = suc t.next_secret;
}
  where
    row : SecretRow
    row = record {
      id = t.next_secret;
      user_id = n.user_id;
      name = n.name;
      private_key = n.private_key;
      public_key = n.public_key;
      nonce = n.nonce;
      tag = n.tag;
      description = n.description;
      updated_at = now;
    }

-- DELETE FROM secrets WHERE user_id = ? AND name = ?
unfoldable pub delete_secret : ℕ → Bytes → Tables → Tables
delete_secret user name t = record t { secrets = keep (λ s. not (secret_at user name s)) t.secrets }

-- SELECT ... FROM secrets WHERE user_id = ? ORDER BY updated_at DESC
unfoldable pub secrets_of : ℕ → Tables → List SecretRow
unfolding order_by
secrets_of user t =
    order_by (λ a b. lex_leb b.updated_at a.updated_at) (keep (λ s. s.user_id == user) t.secrets)

-- What kek_rotate binds to its UPDATE of one secret.
pub record Sealed : Type 0 where
  pub private_key : Bytes
  pub public_key : Option Bytes
  pub nonce : Bytes
  pub tag : Bytes

abbrev pub resealed : Sealed → Bytes → SecretRow → SecretRow
resealed x now s = record s {
  private_key = x.private_key;
  public_key = x.public_key;
  nonce = x.nonce;
  tag = x.tag;
  updated_at = now;
}

-- UPDATE secrets SET private_key = ?, ..., updated_at = strftime(..., 'now') WHERE id = ?
unfoldable pub update_secret : ℕ → Sealed → Bytes → Tables → Tables
update_secret id x now t = record t { secrets = amend (λ s. s.id == id) (resealed x now) t.secrets }
