-- ===== src/Db/Secrets.antt =====
-- src/db/secrets.cc.
use vaultine.Prelude.{ℕ, Bytes, List, not, ◌&&◌}
use vaultine.World.{SecretRow}
use vaultine.Exec.{Try, require, deref, call, ◌>>=◌, ◌>>◌}
use vaultine.Db.{on_tables, select, sql_now, fetch_rows}
use vaultine.Db.Sql.{
  has_user, has_secret, find_secret, NewSecret, insert_secret, delete_secret, secrets_of,
}

-- Prepare, six binds whose result is tested, step. The statement fails on a name that the user has
-- already (UNIQUE) and on an unknown user (REFERENCES). The lengths of the two blobs, which are cast to
-- int, are taken to be below `int_limit` of Crypto.
unfoldable pub secrets_store : NewSecret → Try Unit
secrets_store n = do
  call
  call
  call
  call
  call
  call
  call
  call
  taken ← select (has_secret n.user_id n.name)
  known ← select (has_user n.user_id)
  require (not taken && known) tt
  now ← sql_now
  on_tables (insert_secret n now)

unfoldable pub secrets_find : ℕ → Bytes → Try SecretRow
secrets_find user name = do call; call; call; row ← select (find_secret user name); deref row tt

unfoldable pub secrets_delete : ℕ → Bytes → Try Unit
secrets_delete user name = do
  call
  call
  changed ← select (has_secret user name)
  require changed tt
  on_tables (delete_secret user name)

-- The loop ends in success also when the reading of a row fails.
unfoldable pub secrets_list_for_user : ℕ → Try (List SecretRow)
secrets_list_for_user user = do call; rows ← select (secrets_of user); fetch_rows rows
