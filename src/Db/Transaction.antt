-- ===== src/Db/Transaction.antt =====
-- BEGIN, COMMIT and ROLLBACK of a connection whose transactions can be begun and committed.
use vaultine.Prelude.{ℕ, ◌≡◌, sym, ◌∙◌, ap, false, none, some}
use vaultine.World.{Env, Vault, Tables}
use vaultine.Exec.{attempt, call_by, gets, modify, ignore_call, ◌>>=◌}
use vaultine.Exec.Runs.{Runs}
use vaultine.Db.{begin_immediate, commit, rollback}

-- Neither BEGIN nor COMMIT is refused.
pub record IsSteady (e : Env) : Type 0 where
  pub begins : (n : ℕ) → e.begin_fails n ≡ false
  pub commits : (n : ℕ) → e.commit_fails n ≡ false

-- Nothing but the tables differs.
abbrev pub OnlyTables : Vault → Vault → Type 0
OnlyTables v v' = v' ≡ record v { tables = v'.tables }

pub OnlyTables-trans : (v v' v'' : Vault) → OnlyTables v v' → OnlyTables v' v'' → OnlyTables v v''
OnlyTables-trans v v' v'' p q = q ∙ ap (λ (u : Vault). record u { tables = v''.tables }) p

-- The vault as BEGIN leaves it.
abbrev pub begun : Vault → Vault
begun v = record v { saved = some v.tables }

-- After ROLLBACK the vault is what it was before BEGIN.
pub rolled_back :
    (v v' : Vault) {v'' : Vault}
    → v.saved ≡ none
    → OnlyTables (begun v) v'
    → v'' ≡ record v' { tables = v.tables; saved = none }
    → v'' ≡ v
rolled_back v v' idle h p =
    p
    ∙ ap (λ (u : Vault). record u { tables = v.tables; saved = none }) h
    ∙ ap (λ s. record v { saved = s }) (sym idle)

-- After COMMIT only the tables differ from before BEGIN.
pub committed :
    (v v' : Vault) {v'' : Vault}
    → v.saved ≡ none
    → OnlyTables (begun v) v'
    → v'' ≡ record v' { saved = none }
    → OnlyTables v v''
committed v v' {v''} idle h p =
    p
    ∙ ap (λ (u : Vault). record u { saved = none }) h
    ∙ ap (λ s. record v { tables = v'.tables; saved = s }) (sym idle)
    ∙ ap (λ t. record v { tables = t }) (sym (ap (λ (u : Vault). u.tables) p))

module _ {e : Env} {F : Type 0} (S : IsSteady e) (v : Vault) {R : F → Vault → Type 0} where
  pub begin-Runs :
      v.saved ≡ none
      → Runs e v (attempt begin_immediate) (λ _ v'. v' ≡ record v { saved = some v.tables }) R
  unfolding attempt begin_immediate call_by gets ◌>>=◌ modify
  begin-Runs h = record { at = λ n. rw (S.begins n, h) }

  pub commit-Runs :
      {t : Tables}
      → v.saved ≡ some t
      → Runs e v (attempt commit) (λ _ v'. v' ≡ record v { saved = none }) R
  unfolding attempt commit call_by gets ◌>>=◌ modify
  commit-Runs h = record { at = λ n. rw (S.commits n, h) }

  pub rollback-Runs :
      {t : Tables}
      → v.saved ≡ some t
      → Runs e v rollback (λ _ v'. v' ≡ record v { tables = t; saved = none }) R
  unfolding rollback ignore_call ◌>>=◌ modify
  rollback-Runs h = record { at = λ n. rw h }
