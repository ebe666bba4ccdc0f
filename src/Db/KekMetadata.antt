-- ===== src/Db/KekMetadata.antt =====
-- src/db/kek_metadata.cc.
use vaultine.Prelude.{ℕ, Bytes, not, exists, ◌&&◌, ltb}
use vaultine.World.{KekRow}
use vaultine.Exec.{Try, require, deref, call, ◌>>=◌, ◌>>◌}
use vaultine.Db.{on_tables, select}
use vaultine.Db.Sql.{has_user, has_kek, kek_at, find_kek, insert_kek, update_kek, delete_kek}

-- The statement fails on a user that has a row already (UNIQUE) and on an unknown user (REFERENCES).
unfoldable pub kek_store : ℕ → Bytes → Bytes → Bytes → Try Unit
kek_store user wrapped salt expires = do
  call
  call
  call
  call
  call
  taken ← select (has_kek user)
  known ← select (has_user user)
  require (not taken && known) tt
  on_tables (insert_kek user wrapped salt expires)

unfoldable pub kek_find_by_user : ℕ → Try KekRow
kek_find_by_user user = do call; call; row ← select (find_kek user); deref row tt

-- The row is replaced only if its version is the expected one; sqlite3_changes() == 0 is an error.
unfoldable pub kek_update : ℕ → Bytes → Bytes → Bytes → ℕ → Try Unit
kek_update user wrapped salt expires expected_version = do
  require (ltb 0 expected_version) tt
  call
  call
  call
  call
  call
  changed ← select (λ t. exists (kek_at user expected_version) t.keks)
  require changed tt
  on_tables (update_kek user wrapped salt expires expected_version)

unfoldable pub kek_delete : ℕ → Try Unit
kek_delete user = do
  call
  call
  changed ← select (has_kek user)
  require changed tt
  on_tables (delete_kek user)
