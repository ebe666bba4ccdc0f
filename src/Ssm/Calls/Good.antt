-- ===== src/Ssm/Calls/Good.antt =====
-- The invariant of the vault: sound tables, a coherent cache, and no transaction left open.
use vaultine.Prelude.{List, [], ◌∷◌}
use vaultine.World.{Env, IsLawful, World, Vault}
use vaultine.Exec.{Exec, Result, value, fail}
use vaultine.Exec.Runs.{Post}
use vaultine.Exec.Stays.{Stays, Stays-Reads, Stays-gets}
use vaultine.Db.Transaction.{IsSteady}
use vaultine.Cache.{ssm_cache_get_stats}
use vaultine.Ssm.Done.{IsGood}
use vaultine.Ssm.Calls.{
  Call, user_register, user_authenticate, user_delete, user_change_password, kek_rotate,
  secret_store, secret_get, secret_delete, secret_list, audit_log_query, export, db_version,
  db_migrate, backup_create, cache_get_stats, perform, run, run_all,
}
use vaultine.Ssm.Calls.Reads.{
  ssm_secret_get-OnlyServes, ssm_secret_list-OnlyServes, ssm_audit_log_query-OnlyServes,
  ssm_export-OnlyServes, ssm_db_version-OnlyServes, ssm_backup_create-Reads,
}
use vaultine.Ssm.Calls.Migrate.{ssm_db_migrate-Stays}
use vaultine.Ssm.Calls.Writes.{
  OnlyServes-Stays, ssm_user_register-Stays, ssm_user_authenticate-Stays, ssm_user_delete-Stays,
  ssm_user_change_password-Stays, ssm_kek_rotate-Stays, ssm_secret_store-Stays,
  ssm_secret_delete-Stays,
}

pub left-keeps :
    {e : Env} {P : Vault → Type 0} {E A : Type 0} {m : Exec E A}
    → Stays e P m
    → (w : World) → P w.vault
    → P (m e w).1.vault
left-keeps {e} {P} {m = m} h w p = end _ ((h w.vault p).at w.calls)
  where
    end :
        {E A : Type 0} (r : Result E A × World) → Post (λ _ v'. P v') (λ _ v'. P v') r → P r.1.vault
    end (value a, w) h = h
    end (fail x, w) h = h

module _ {e : Env} (L : IsLawful e) (S : IsSteady e) (w : World) (G : IsGood e w.vault) where
  pub run-IsGood : (c : Call) → IsGood e (run c e w).vault
  unfolding run perform ssm_cache_get_stats
  run-IsGood (user_register u p) = left-keeps (ssm_user_register-Stays L S u p) w G
  run-IsGood (user_authenticate u p) = left-keeps (ssm_user_authenticate-Stays L S u p) w G
  run-IsGood (user_delete u p) = left-keeps (ssm_user_delete-Stays L S u p) w G
  run-IsGood (user_change_password u p q) =
      left-keeps (ssm_user_change_password-Stays L S u p q) w G
  run-IsGood (kek_rotate u) = left-keeps (ssm_kek_rotate-Stays L S u) w G
  run-IsGood (secret_store r) = left-keeps (ssm_secret_store-Stays L S r) w G
  run-IsGood (secret_get u n room public_room) =
      left-keeps (OnlyServes-Stays (λ v G'. ssm_secret_get-OnlyServes G' u n room public_room)) w G
  run-IsGood (secret_delete u n) = left-keeps (ssm_secret_delete-Stays L S u n) w G
  run-IsGood (secret_list u) =
      left-keeps (OnlyServes-Stays (λ v G'. ssm_secret_list-OnlyServes G' u)) w G
  run-IsGood (audit_log_query u o r limit offset) =
      left-keeps (OnlyServes-Stays (λ v G'. ssm_audit_log_query-OnlyServes G' u o r limit offset)) w
        G
  run-IsGood (export json redact) =
      left-keeps (OnlyServes-Stays (λ v G'. ssm_export-OnlyServes G' json redact)) w G
  run-IsGood db_version = left-keeps (OnlyServes-Stays (λ v G'. ssm_db_version-OnlyServes G')) w G
  run-IsGood db_migrate = left-keeps (ssm_db_migrate-Stays S) w G
  run-IsGood (backup_create d path key) =
      left-keeps {P = IsGood e} (Stays-Reads (λ v. ssm_backup_create-Reads L d path key)) w G
  run-IsGood cache_get_stats =
      left-keeps {P = IsGood e} {m = ssm_cache_get_stats {E = Unit {0}}} (Stays-gets _) w G

-- With lawful ciphers and where BEGIN and COMMIT are not refused: any sequence of calls of the
-- public functions that work on the open database, whatever they return, leads from a vault with
-- sound tables, a cache that agrees with them and no open transaction to such a vault.
pub run_all-IsGood :
    {e : Env}
    → IsLawful e
    → IsSteady e
    → (calls : List Call) (w : World) → IsGood e w.vault
    → IsGood e (run_all calls e w).vault
unfolding run_all
run_all-IsGood L S [] w G = G
run_all-IsGood L S (c ∷ cs) w G = run_all-IsGood L S cs _ (run-IsGood L S w G c)
