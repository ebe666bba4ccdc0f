-- ===== src/Ssm/Calls/Reads.antt =====
-- The public functions of src/ssm.cc that only read leave users, keys and secrets as they are.
use mathlib.Core.Path.{subst⁻¹}
use vaultine.Prelude.{ℕ, Bool, Bytes, refl, Option, none, some, List, map}
use vaultine.World.{Env, IsLawful, Vault, err_internal}
use vaultine.Exec.{Exec, call, gets, ◌>>=◌, ◌>>◌}
use vaultine.Exec.Runs.{
  Runs, Reads, Reads-bind, Reads-chain, Reads-map, Reads-gets, Reads-deref, Reads-or_return,
  Reads-call, Reads-attempt, Reads-call_by, Reads-pure, Reads-require, ◌⨾◌, Runs-bind, Runs-weaken,
  Runs-pure,
}
use vaultine.Backup.Files.{backup_create-Reads}
use vaultine.Db.{fetch_rows}
use vaultine.Db.Runs.{fetch_rows-Reads, secrets_list_for_user-Reads}
use vaultine.Db.Migrations.{version_read, db_get_version}
use vaultine.Export.{query_users, query_secrets, query_keks, export_metadata}
use vaultine.Ssm.Runs.{audit_write-Runs, opening-Runs}
use vaultine.Ssm.Done.{IsGood, Served, Logged-Served, Served-moved}
use vaultine.Ssm.Audit.{ℤ, ssm_audit_log_query}
use vaultine.Ssm.Secrets.{op_list, listed, ssm_secret_get, ssm_secret_list}
use vaultine.Ssm.Secrets.Get.{ssm_secret_get-Runs}
use vaultine.Ssm.Handle.{Disk, ssm_backup_create, ssm_export, ssm_db_version}

-- A call that changes no user, key or secret, whatever it returns.
abbrev pub OnlyServes : {E A : Type 0} → Env → Vault → Exec E A → Type 0
OnlyServes e v m = Runs e v m (λ _ v'. Served e v v') (λ _ v'. Served e v v')

module _ {e : Env} {v : Vault} (G : IsGood e v) where
  pub Served-refl : Served e v v
  Served-refl = Served-moved (record { same = refl; coherent = G.coherent })

  pub OnlyServes-Reads :
      {E A : Type 0} {m : Exec E A} {X : A → Type 0} → Reads e v m X → OnlyServes e v m
  OnlyServes-Reads h =
      Runs-weaken h (λ _ v' q. subst⁻¹ (Served e v) q.0 Served-refl)
        (λ _ v' q. subst⁻¹ (Served e v) q Served-refl)

  pub ssm_secret_get-OnlyServes :
      (u n : Option Bytes) (room : ℕ) (public_room : Option ℕ)
      → OnlyServes e v (ssm_secret_get u n room public_room)
  ssm_secret_get-OnlyServes u n room public_room =
      Runs-weaken (ssm_secret_get-Runs G u n room public_room) (λ _ _ h. h.2) (λ _ _ h. h)

  pub ssm_secret_list-OnlyServes : (u : Option Bytes) → OnlyServes e v (ssm_secret_list u)
  unfolding ssm_secret_list
  ssm_secret_list-OnlyServes u =
      Reads-bind (Reads-deref u err_internal) (λ _. Served-refl)
        λ username _.
          opening-Runs op_list username none (λ _ _ l. Logged-Served G.coherent l)
            λ user k _ _.
              Reads-bind (Reads-or_return err_internal (secrets_list_for_user-Reads user.id))
                (λ _. Served-refl)
                λ rows _.
                  Runs-bind (audit_write-Runs _ _ _ _ _ _)
                    λ _ v' l. Runs-pure (map listed rows) (Logged-Served G.coherent l)

  rows-Reads :
      {A : Type 0} (f : Vault → List A)
      → Reads e v (do call; rows ← gets f; fetch_rows rows) (λ _. Unit {0})
  rows-Reads f =
      Reads-call
      ⨾ Reads-chain (Reads-gets f) (λ rows _. Reads-map (fetch_rows-Reads rows) (λ _ _. tt))

  pub ssm_audit_log_query-OnlyServes :
      (u o r : Option Bytes) (limit offset : ℤ)
      → OnlyServes e v (ssm_audit_log_query u o r limit offset)
  unfolding ssm_audit_log_query vaultine.Db.AuditLog.audit_log_query
  ssm_audit_log_query-OnlyServes u o r limit offset =
      OnlyServes-Reads (Reads-or_return err_internal (rows-Reads _))

  ssm_db_version-Reads : Reads e v ssm_db_version (λ _. Unit {0})
  unfolding ssm_db_version db_get_version
  ssm_db_version-Reads =
      Reads-or_return err_internal
        (Reads-call ⨾ Reads-chain (Reads-attempt (Reads-call_by _)) λ row _. version_of row)
    where
      version_of :
          (row : Option (Unit {0})) → Reads {E = Unit {0}} e v (version_read row) (λ _. Unit {0})
      version_of none = Reads-map (Reads-pure _) (λ _ _. tt)
      version_of (some _) = Reads-map (Reads-gets _) (λ _ _. tt)

  pub ssm_db_version-OnlyServes : OnlyServes e v ssm_db_version
  ssm_db_version-OnlyServes = OnlyServes-Reads ssm_db_version-Reads

  ssm_export-Reads : (json redact : Bool) → Reads e v (ssm_export json redact) (λ _. Unit {0})
  unfolding ssm_export export_metadata query_users query_secrets query_keks
  ssm_export-Reads json redact =
      Reads-chain (Reads-or_return err_internal (rows-Reads _)) λ users _.
        Reads-chain (Reads-or_return err_internal (rows-Reads _)) λ secrets _.
          Reads-chain (Reads-or_return err_internal (rows-Reads _))
            λ keks _. Reads-map (Reads-pure _) (λ _ _. tt)

  pub ssm_export-OnlyServes : (json redact : Bool) → OnlyServes e v (ssm_export json redact)
  ssm_export-OnlyServes json redact = OnlyServes-Reads (ssm_export-Reads json redact)

module _ {e : Env} {v : Vault} where
  -- The database and the handle are not changed.
  pub ssm_backup_create-Reads :
      IsLawful e
      → (d : Disk) (path_ptr key_ptr : Option Bytes)
      → Reads e v (ssm_backup_create d path_ptr key_ptr) (λ _. Unit {0})
  unfolding ssm_backup_create
  ssm_backup_create-Reads L d path_ptr key_ptr =
      Reads-chain (Reads-deref path_ptr err_internal) λ path _.
        Reads-chain (Reads-deref key_ptr err_internal) λ key _.
          Reads-chain (Reads-attempt Reads-call) λ moved _.
            Reads-require _ _
            ⨾ Reads-chain (Reads-gets _) λ t _.
              Reads-or_return err_internal (Reads-map (backup_create-Reads L _ _ _ _) (λ _ _. tt))
