-- ===== src/Export.antt =====
-- src/export/export.cc: users, secrets and KEK dates as JSON or CSV text, without any key.
pub mod Escape
pub mod Text
pub mod Renamed
use vaultine.Prelude.{
  ℕ, Bytes, codes, Bool, true, false, ◌&&◌, ◌==◌, ltb, lex_leb, Option, none, some, List, [], ◌∷◌,
  first, length, map, if◌then◌else◌,
}
use vaultine.World.{Status, err_internal, User, SecretRow, KekRow, Tables}
use vaultine.Exec.{Exec, Try, pure, call, ◌or_return◌, ◌>>=◌, ◌>>◌}
use vaultine.Kek.{or_empty}
use vaultine.Db.{select, fetch_rows}
use vaultine.Db.Sql.{order_by}
use vaultine.Export.Text.{UserLine, SecretLine, KekLine, metadata_text}

-- SELECT id, username, created_at FROM users ORDER BY id
unfoldable pub select_users : Tables → List UserLine
select_users t =
    map (λ (u : User). record { id = u.id; username = u.username; created_at = u.created_at })
      (order_by (λ a b. ltb a.id b.id) t.users)

unfoldable pub query_users : Try (List UserLine)
query_users = do call; rows ← select select_users; fetch_rows rows

-- ... JOIN users u ON u.id = user_id
unfoldable pub join_users : {A : Type 0} → (A → ℕ) → List User → List A → List (User × A)
join_users owner users [] = []
join_users owner users (a ∷ as') = elim (first (λ u. u.id == owner a) users) [
  | none ↦ join_users owner users as'
  | some u ↦ (u, a) ∷ join_users owner users as'
]

abbrev pub secret_line : User × SecretRow → SecretLine
secret_line (u, s) = record {
  username = u.username;
  name = s.name;
  size = length s.private_key;
  has_pub = elim s.public_key [ none ↦ false | some _ ↦ true ];
  description = or_empty s.description;
  updated_at = s.updated_at;
}

-- ORDER BY u.id, s.name
abbrev pub by_user_and_name : User × SecretRow → User × SecretRow → Bool
by_user_and_name (u, s) (u', s') =
    if ltb u.id u'.id then true else (u.id == u'.id && lex_leb s.name s'.name)

unfoldable pub select_secrets : Tables → List SecretLine
select_secrets t =
    map secret_line (order_by by_user_and_name (join_users (λ s. s.user_id) t.users t.secrets))

unfoldable pub query_secrets : Try (List SecretLine)
query_secrets = do call; rows ← select select_secrets; fetch_rows rows

abbrev pub kek_line : User × KekRow → KekLine
kek_line (u, k) = record {
  username = u.username;
  expires_at = k.expires_at;
  version = k.kek_version;
}

unfoldable pub select_keks : Tables → List KekLine
select_keks t =
    map kek_line
      (order_by (λ a b. ltb a.0.id b.0.id) (join_users (λ (k : KekRow). k.user_id) t.users t.keks))

unfoldable pub query_keks : Try (List KekLine)
query_keks = do call; rows ← select select_keks; fetch_rows rows

-- What the callback is given.
unfoldable pub export_metadata : Bool → Bool → Exec Status Bytes
export_metadata json redact_pii = do
  users ← query_users or_return err_internal
  secrets ← query_secrets or_return err_internal
  keks ← query_keks or_return err_internal
  pure (metadata_text json redact_pii users secrets keks)
