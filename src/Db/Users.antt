-- ===== src/Db/Users.antt =====
-- src/db/users.cc. Pointers that the callers never leave null are plain values here, and so is the
-- database, which is part of the world.
use vaultine.Prelude.{ℕ, Bytes}
use vaultine.World.{User}
use vaultine.Exec.{Try, pure, require, deref, call, ◌>>=◌, ◌>>◌}
use vaultine.Prelude.{not}
use vaultine.Db.{on_tables, select, sql_now}
use vaultine.Db.Sql.{find_user, has_username, has_user, insert_user, delete_user}

-- Prepare, bind the name, bind the hash, step.
unfoldable pub users_create : Bytes → Bytes → Try ℕ
users_create username hash = do
  call
  call
  call
  call
  taken ← select (has_username username)
  require (not taken) tt
  now ← sql_now
  id ← select (λ t. t.next_user)
  on_tables (insert_user username hash now)
  pure id

unfoldable pub users_find_by_username : Bytes → Try User
users_find_by_username username = do
  call
  call
  call
  row ← select (find_user username)
  deref row tt

-- `ok = sqlite3_changes(db) > 0`: a statement that finds no row changes nothing.
unfoldable pub users_delete : ℕ → Try Unit
users_delete id = do
  call
  call
  changed ← select (has_user id)
  require changed tt
  on_tables (delete_user id)
