-- ===== src/Reveal.antt =====
-- What the stored rows mean: the KEK that a user's hash opens, and the secrets that it opens. This
-- is the view by which the operations of src/kek/kek.cc and src/ssm.cc are specified.
pub mod Statements
pub mod Inserts
use vaultine.Prelude.{Bytes, Option, none, some, [], take}
use vaultine.World.{Env, Tables, User, KekRow, SecretRow}
use vaultine.Db.Sql.{find_user, find_kek, find_secret}

infixl 5 ◌and_then◌
abbrev pub ◌and_then◌ {ℓ} : {A B : Type ℓ} → Option A → (A → Option B) → Option B
none and_then f = none
some a and_then f = f a

-- The wrapping key of a user: Argon2id of the stored hash and the salt of the KEK row.
abbrev pub wrapping_key : Env → Bytes → KekRow → Bytes
wrapping_key e hash k = e.pwhash hash (take 16 k.salt)

abbrev pub unlock : Env → Bytes → KekRow → Option Bytes
unlock e hash k = e.key_unwrap (wrapping_key e hash k) k.wrapped_kek

abbrev pub unseal : Env → Bytes → SecretRow → Option Bytes
unseal e kek s = e.gcm_open kek s.nonce [] s.private_key s.tag

-- The KEK of a user, and the private key that is stored for him under a name.
unfoldable pub kek_of : Env → Tables → User → Option Bytes
kek_of e t u = find_kek u.id t and_then unlock e u.password_hash

unfoldable pub secret_of : Env → Tables → User → Bytes → Option Bytes
secret_of e t u name = kek_of e t u and_then λ kek. find_secret u.id name t and_then unseal e kek

unfoldable pub reveal : Env → Tables → Bytes → Bytes → Option Bytes
reveal e t username name = find_user username t and_then λ u. secret_of e t u name
