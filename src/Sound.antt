-- ===== src/Sound.antt =====
-- The constraints of the schema in db/database.cc as an invariant of the tables: keys are unique,
-- ids stay below their AUTOINCREMENT counter, and rows refer to users that exist.
pub mod Statements
use vaultine.Prelude.{◌<◌, ◌≡◌, eqb, Bool, true, ◌&&◌, ◌==◌, All, Distinct}
use vaultine.World.{User, KekRow, SecretRow, Tables}
use vaultine.Db.Sql.{has_user}

abbrev pub same_user_id : User → User → Bool
same_user_id a b = a.id == b.id

abbrev pub same_username : User → User → Bool
same_username a b = eqb a.username b.username

abbrev pub same_owner : KekRow → KekRow → Bool
same_owner a b = a.user_id == b.user_id

abbrev pub same_secret_id : SecretRow → SecretRow → Bool
same_secret_id a b = a.id == b.id

abbrev pub same_secret_name : SecretRow → SecretRow → Bool
same_secret_name a b = a.user_id == b.user_id && eqb a.name b.name

pub record IsSound (t : Tables) : Type 0 where
  pub user_ids : Distinct same_user_id t.users
  pub usernames : Distinct same_username t.users
  pub users_below : All (λ (u : User). u.id < t.next_user) t.users
  pub users_positive : 0 < t.next_user
  pub owners : Distinct same_owner t.keks
  pub versions : All (λ (k : KekRow). 0 < k.kek_version) t.keks
  pub keks_owned : All (λ (k : KekRow). has_user k.user_id t ≡ true) t.keks
  pub secret_ids : Distinct same_secret_id t.secrets
  pub secret_names : Distinct same_secret_name t.secrets
  pub secrets_below : All (λ (s : SecretRow). s.id < t.next_secret) t.secrets
  pub secrets_owned : All (λ (s : SecretRow). has_user s.user_id t ≡ true) t.secrets
