-- ===== src/Ssm/Calls/Refines.antt =====
-- The calls of the public functions of src/ssm.cc do to the secrets what their specification says.
use vaultine.Prelude.{ℕ, Bytes, ◌≡◌, refl, ◌∙◌, ap, false, List, [], ◌∷◌}
use mathlib.Core.Path.{fun_ext}
use vaultine.World.{Env, IsLawful, World, Vault}
use vaultine.Exec.{Exec, Result, value, fail}
use vaultine.Exec.Runs.{Post, Runs, Reads, Runs-weaken, Reads-gets}
use vaultine.Db.Transaction.{IsSteady}
use vaultine.Reveal.{reveal}
use vaultine.Cache.{ssm_cache_get_stats}
use vaultine.Ssm.Done.{IsGood, Done-reveal}
use vaultine.Ssm.Secrets.Store.{ssm_secret_store-reveal}
use vaultine.Ssm.Secrets.Delete.{ssm_secret_delete-reveal}
use vaultine.Ssm.Users.Access.{ssm_user_authenticate-Runs, ssm_user_delete-reveal}
use vaultine.Ssm.Users.Register.Reveal.{ssm_user_register-reveal}
use vaultine.Ssm.Users.Rotate.{ssm_kek_rotate-reveal}
use vaultine.Ssm.Users.ChangePassword.{ssm_user_change_password-reveal}
use vaultine.Ssm.Calls.{
  Call, user_register, user_authenticate, user_delete, user_change_password, kek_rotate,
  secret_store, secret_get, secret_delete, secret_list, audit_log_query, export, db_version,
  db_migrate, backup_create, cache_get_stats, succeeded, answered, perform, run, run_all,
}
use vaultine.Ssm.Calls.Spec.{SecretTable, effect, applied, specified, answers}
use vaultine.Ssm.Calls.Reads.{
  OnlyServes, ssm_secret_get-OnlyServes, ssm_secret_list-OnlyServes, ssm_audit_log_query-OnlyServes,
  ssm_export-OnlyServes, ssm_db_version-OnlyServes, ssm_backup_create-Reads,
}
use vaultine.Ssm.Calls.Migrate.{ssm_db_migrate-reveal}
use vaultine.Ssm.Calls.Good.{run-IsGood}

abbrev Turns : Env → Vault → SecretTable → Vault → Type 0
Turns e v s v' = (username name : Bytes) → reveal e v'.tables username name ≡ s username name

-- What a function ensures of the secrets, as its call is answered.
answered-applied :
    {e : Env} {E A : Type 0} {m : Exec E A} (c : Call) (w : World)
    → Runs e w.vault m
        (λ _ v'. Turns e w.vault (effect c (reveal e w.vault.tables)) v')
        (λ _ v'. Turns e w.vault (reveal e w.vault.tables) v')
    → Turns e w.vault
        (applied c (answered m e w).0 (reveal e w.vault.tables))
        (answered m e w).1.vault
answered-applied {e} {m = m} c w h = end (m e w) (h.at w.calls)
  where
    end :
        {E A : Type 0} (r : Result E A × World)
        → Post
            (λ _ v'. Turns e w.vault (effect c (reveal e w.vault.tables)) v')
            (λ _ v'. Turns e w.vault (reveal e w.vault.tables) v')
            r
        → Turns e w.vault (applied c (succeeded r.0) (reveal e w.vault.tables)) r.1.vault
    end (value a, w') k = k
    end (fail x, w') k = k

module _ {e : Env} (L : IsLawful e) (S : IsSteady e)
    (complete : (n : ℕ) → e.row_fails n ≡ false) where
  serves :
      {E A : Type 0} {v : Vault} {m : Exec E A}
      → OnlyServes e v m
      → Runs e v m
          (λ _ v'. Turns e v (reveal e v.tables) v')
          (λ _ v'. Turns e v (reveal e v.tables) v')
  serves h = Runs-weaken h (λ _ _ k. Done-reveal k) (λ _ _ k. Done-reveal k)

  unmoved :
      {E A : Type 0} {v : Vault} {m : Exec E A} {X : A → Type 0}
      → Reads e v m X
      → Runs e v m
          (λ _ v'. Turns e v (reveal e v.tables) v')
          (λ _ v'. Turns e v (reveal e v.tables) v')
  unmoved h =
      Runs-weaken h (λ _ _ q n m. ap (λ (u : Vault). reveal e u.tables n m) q.0)
        (λ _ _ q n m. ap (λ (u : Vault). reveal e u.tables n m) q)

  perform-applied :
      (w : World)
      → IsGood e w.vault
      → (c : Call)
      → Turns e w.vault
          (applied c (perform c e w).0 (reveal e w.vault.tables))
          (perform c e w).1.vault
  unfolding perform ssm_cache_get_stats
  perform-applied w G (user_register u p) =
      answered-applied (user_register u p) w
        (Runs-weaken (ssm_user_register-reveal G u p L) (λ _ _ h. h.1) (λ _ _ h. h))
  perform-applied w G (user_authenticate u p) = answered-applied (user_authenticate u p) w (
      Runs-weaken (ssm_user_authenticate-Runs G u p) (λ _ _ h. Done-reveal h.1)
        (λ _ _ h. Done-reveal h))
  perform-applied w G (user_delete u p) =
      answered-applied (user_delete u p) w
        (Runs-weaken (ssm_user_delete-reveal G u p) (λ _ _ h. h.1) (λ _ _ h. h))
  perform-applied w G (user_change_password u p q) =
      answered-applied (user_change_password u p q) w
        (Runs-weaken (ssm_user_change_password-reveal L S G u p q) (λ _ _ h. h.2) (λ _ _ h. h))
  perform-applied w G (kek_rotate u) =
      answered-applied (kek_rotate u) w
        (Runs-weaken (ssm_kek_rotate-reveal L S G complete u) (λ _ _ h. h.0) (λ _ _ h. h))
  perform-applied w G (secret_store r) =
      answered-applied (secret_store r) w (ssm_secret_store-reveal G L r)
  perform-applied w G (secret_get u n room public_room) =
      answered-applied (secret_get u n room public_room) w
        (serves (ssm_secret_get-OnlyServes G u n room public_room))
  perform-applied w G (secret_delete u n) =
      answered-applied (secret_delete u n) w (ssm_secret_delete-reveal G u n)
  perform-applied w G (secret_list u) =
      answered-applied (secret_list u) w (serves (ssm_secret_list-OnlyServes G u))
  perform-applied w G (audit_log_query u o r limit offset) =
      answered-applied (audit_log_query u o r limit offset) w
        (serves (ssm_audit_log_query-OnlyServes G u o r limit offset))
  perform-applied w G (export json redact) =
      answered-applied (export json redact) w (serves (ssm_export-OnlyServes G json redact))
  perform-applied w G db_version =
      answered-applied db_version w (serves (ssm_db_version-OnlyServes G))
  perform-applied w G db_migrate = answered-applied db_migrate w (ssm_db_migrate-reveal S G)
  perform-applied w G (backup_create d path key) =
      answered-applied (backup_create d path key) w (unmoved (ssm_backup_create-Reads L d path key))
  perform-applied w G cache_get_stats =
      answered-applied {E = Unit {0}} {m = ssm_cache_get_stats} cache_get_stats w
        (unmoved (Reads-gets _))

  -- With lawful ciphers, where BEGIN and COMMIT are not refused and every row can be read, from a
  -- vault with sound tables, a coherent cache and no open transaction: after any sequence of calls
  -- the secrets that are revealed are those of the specification, in which a call that returned
  -- SSM_OK has put its secret under its user and name, taken one away, or taken away all of a user,
  -- and every other call has changed nothing.
  pub run_all-specified :
      (calls : List Call) (w : World)
      → IsGood e w.vault
      → (username name : Bytes)
      → reveal e (run_all calls e w).vault.tables username name
        ≡ specified (answers calls e w) (reveal e w.vault.tables) username name
  unfolding run_all answers specified run
  run_all-specified [] w G username name = refl
  run_all-specified (c ∷ cs) w G username name =
      run_all-specified cs (perform c e w).1 (run-IsGood L S w G c) username name
      ∙ ap (λ (s : SecretTable). specified (answers cs e (perform c e w).1) s username name)
          (fun_ext (λ u. fun_ext (λ n. perform-applied w G c u n)))
