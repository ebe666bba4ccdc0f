-- ===== src/Ssm/Calls.antt =====
-- Any sequence of calls of the public functions of src/ssm.cc that work on the open database.
pub mod Reads
pub mod Writes
pub mod Migrate
pub mod Good
pub mod Spec
pub mod Refines
use vaultine.Prelude.{ℕ, Bool, true, false, Bytes, Option, List, [], ◌∷◌}
use vaultine.World.{Env, World}
use vaultine.Exec.{Exec, Result, value, fail}
use vaultine.Ssm.Users.{
  ssm_user_register, ssm_user_authenticate, ssm_user_delete, ssm_user_change_password,
  ssm_kek_rotate,
}
use vaultine.Ssm.Secrets.{
  StoreRequest, ssm_secret_store, ssm_secret_get, ssm_secret_delete, ssm_secret_list,
}
use vaultine.Ssm.Audit.{ℤ, ssm_audit_log_query}
use vaultine.Cache.{ssm_cache_get_stats}
use vaultine.Ssm.Handle.{Disk, ssm_export, ssm_db_version, ssm_db_migrate, ssm_backup_create}

-- A call with its arguments.
pub data Call : Type 0 where
  user_register : Option Bytes → Option Bytes → Call
  user_authenticate : Option Bytes → Option Bytes → Call
  user_delete : Option Bytes → Option Bytes → Call
  user_change_password : Option Bytes → Option Bytes → Option Bytes → Call
  kek_rotate : Option Bytes → Call
  secret_store : StoreRequest → Call
  secret_get : Option Bytes → Option Bytes → ℕ → Option ℕ → Call
  secret_delete : Option Bytes → Option Bytes → Call
  secret_list : Option Bytes → Call
  audit_log_query : Option Bytes → Option Bytes → Option Bytes → ℤ → ℤ → Call
  export : (json redact : Bool) → Call
  db_version : Call
  db_migrate : Call
  backup_create : Disk → Option Bytes → Option Bytes → Call
  cache_get_stats : Call

-- Whether a function returned SSM_OK.
abbrev pub succeeded : {E A : Type 0} → Result E A → Bool
succeeded (value a) = true
succeeded (fail x) = false

abbrev pub answered : {E A : Type 0} → Exec E A → Env → World → Bool × World
answered m e w = (succeeded (m e w).0, (m e w).1)

-- A call: whether it returned SSM_OK, and the world it leaves.
unfoldable pub perform : Call → Env → World → Bool × World
perform (user_register u p) = answered (ssm_user_register u p)
perform (user_authenticate u p) = answered (ssm_user_authenticate u p)
perform (user_delete u p) = answered (ssm_user_delete u p)
perform (user_change_password u p q) = answered (ssm_user_change_password u p q)
perform (kek_rotate u) = answered (ssm_kek_rotate u)
perform (secret_store r) = answered (ssm_secret_store r)
perform (secret_get u n room public_room) = answered (ssm_secret_get u n room public_room)
perform (secret_delete u n) = answered (ssm_secret_delete u n)
perform (secret_list u) = answered (ssm_secret_list u)
perform (audit_log_query u o r limit offset) = answered (ssm_audit_log_query u o r limit offset)
perform (export json redact) = answered (ssm_export json redact)
perform db_version = answered ssm_db_version
perform db_migrate = answered ssm_db_migrate
perform (backup_create d path key) = answered (ssm_backup_create d path key)
perform cache_get_stats = answered {E = Unit {0}} ssm_cache_get_stats

unfoldable pub run : Call → Env → World → World
unfolding perform
run c e w = (perform c e w).1

unfoldable pub run_all : List Call → Env → World → World
unfolding run
run_all [] e w = w
run_all (c ∷ cs) e w = run_all cs e (run c e w)
