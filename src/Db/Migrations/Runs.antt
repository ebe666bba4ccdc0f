-- ===== src/Db/Migrations/Runs.antt =====
-- A migration step is all or nothing, and the version in the database says which indexes exist.
use vaultine.Prelude.{
  ℕ, ◌≤◌, ◌≡◌, refl, sym, ◌∙◌, ap, true, false, ◌==◌, ==_iff, leb, leb→le, Option, none, some, List,
  [], ◌∷◌, arith,
}
use mathlib.Core.Path.{subst⁻¹}
use vaultine.World.{Env, Vault, Tables}
use vaultine.Exec.{attempt, call_by, gets, modify, ◌>>=◌}
use vaultine.Exec.Runs.{
  Runs, Reads, Reads-bind, Reads-gets, Reads-require, Runs-bind, Runs-weaken, Runs-attempt,
  Runs-pure, Runs-leave, Runs-if, Runs-call, Runs-modify, Runs-after_modify,
}
use vaultine.Exec.Sure.{Sure, Sure-bind}
use vaultine.Db.{begin_immediate, commit, with_tables}
use vaultine.Db.Transaction.{IsSteady, OnlyTables, begun, rolled_back, rollback-Runs}
use vaultine.Db.Migrations.{
  Migration, migrations, db_get_version, db_set_version, end_step, versioned_step, migrate_from,
  adopt, db_migrate,
}

abbrev pub versioned : (Tables → Tables) → ℕ → Tables → Tables
versioned f n t = record (f t) { user_version = n }

module _ {e : Env} where
  pub db_set_version-Runs :
      (v : Vault) (n : ℕ)
      → Runs e v
          (db_set_version n)
          (λ _ v'. v' ≡ with_tables (λ t. record t { user_version = n }) v)
          (λ _ v'. v' ≡ v)
  unfolding db_set_version
  db_set_version-Runs v n = Runs-call refl (Runs-modify _ refl)

  pub Sure-there :
      {E : Type 0} {v : Vault}
      → ((n : ℕ) → e.row_fails n ≡ false)
      → Sure {E = E} e v (attempt (call_by (λ e. e.row_fails))) (λ o. o ≡ some tt)
  unfolding attempt call_by
  Sure-there h = record { at = λ n. rw (h n) (refl, refl) }

  -- The version that is read is the version, where the row can be read.
  db_get_version-Reads :
      (v : Vault)
      → ((n : ℕ) → e.row_fails n ≡ false)
      → Reads e v db_get_version (λ n. n ≡ v.tables.user_version)
  unfolding db_get_version
  db_get_version-Reads v complete =
      Runs-call refl (Sure-bind (Sure-there complete) λ o p. rw p (Reads-gets _))

module _ {e : Env} (S : IsSteady e) where
  begin_immediate-Runs :
      (v : Vault)
      → v.saved ≡ none
      → Runs e v begin_immediate (λ _ v'. v' ≡ begun v) (λ _ v'. v' ≡ v)
  unfolding begin_immediate call_by gets ◌>>=◌ modify
  begin_immediate-Runs v h = record { at = λ n. rw (S.begins n, h) refl }

  commit_open-Runs :
      (v : Vault) {t : Tables} {R : Unit {0} → Vault → Type 0}
      → v.saved ≡ some t
      → Runs e v commit (λ _ v'. v' ≡ record v { saved = none }) R
  unfolding commit call_by gets ◌>>=◌ modify
  commit_open-Runs v h = record { at = λ n. rw (S.commits n, h) refl }

  -- The statement has run and the version is the new one, or nothing has changed.
  pub versioned_step-Runs :
      (v : Vault) (f : Tables → Tables) (n : ℕ)
      → v.saved ≡ none
      → Runs e v (versioned_step f n) (λ _ v'. v' ≡ with_tables (versioned f n) v) (λ _ v'. v' ≡ v)
  unfolding versioned_step
  versioned_step-Runs v f n idle = Runs-bind (begin_immediate-Runs v idle) λ _ v₁ p. rw p (
      Runs-bind
        (Runs-attempt {S = Inside} {T = λ _ v'. v' ≡ v} (
          Runs-call refl (
            Runs-after_modify _ (
              Runs-weaken (db_set_version-Runs (with_tables f (begun v)) n) (λ _ _ q. q)
                (λ _ _ q. rw q refl)))))
        ended)
    where
      Inside : Option (Unit {0}) → Vault → Type 0
      Inside none v' = OnlyTables (begun v) v'
      Inside (some _) v' = v' ≡ with_tables (versioned f n) (begun v)

      ended :
          (o : Option (Unit {0})) (v' : Vault)
          → Inside o v'
          → Runs e v' (end_step o) (λ _ v''. v'' ≡ with_tables (versioned f n) v) (λ _ v''. v'' ≡ v)
      ended none v' h =
          Runs-bind (rollback-Runs S v' (ap (λ (u : Vault). u.saved) h))
            λ _ v'' p. Runs-leave tt (rolled_back v v' idle h p)
      ended (some _) v' h =
          Runs-weaken (commit_open-Runs v' {R = λ _ v''. v'' ≡ v} (ap (λ (u : Vault). u.saved) h))
            (λ _ v'' p.
              p
              ∙ ap (λ (u : Vault). record u { saved = none }) h
              ∙ ap (λ s. record v { tables = versioned f n v.tables; saved = s }) (sym idle))
            (λ _ _ q. q)

-- The indexes that a version of the schema has exist.
pub record IsVersioned (t : Tables) : Type 0 where
  pub user_index : 2 ≤ t.user_version → t.user_index ≡ true
  pub name_index : 3 ≤ t.user_version → t.name_index ≡ true

-- Only the schema was changed, and the version says which indexes exist.
pub record Migrated (v v' : Vault) : Type 0 where
  pub same : v' ≡ record v {
    tables = record v.tables {
      user_version = v'.tables.user_version;
      user_index = v'.tables.user_index;
      name_index = v'.tables.name_index;
    };
  }
  pub kept : IsVersioned v'.tables

Migrated-trans : {v v' v'' : Vault} → Migrated v v' → Migrated v' v'' → Migrated v v''
Migrated-trans {v} {v'} {v''} m k = record {
  same =
      k.same
      ∙ ap
          (λ (u : Vault). record u {
            tables = record u.tables {
              user_version = v''.tables.user_version;
              user_index = v''.tables.user_index;
              name_index = v''.tables.name_index;
            };
          })
          m.same;
  kept = k.kept;
}

Migrated-idle : {v v' : Vault} → Migrated v v' → v.saved ≡ none → v'.saved ≡ none
Migrated-idle m h = ap (λ (u : Vault). u.saved) m.same ∙ h

still : {v v' : Vault} → IsVersioned v.tables → v' ≡ v → Migrated v v'
still {v} h p = record {
  same = rw p refl;
  kept = subst⁻¹ (λ (u : Vault). IsVersioned u.tables) p h;
}

-- A statement that goes with its version.
abbrev Fits : (Tables → Tables) → ℕ → ℕ → Type 0
Fits f before after =
    (v : Vault)
    → IsVersioned v.tables
    → v.tables.user_version ≡ before
    → Migrated v (with_tables (versioned f after) v)

abbrev AllFit : List Migration → Type 0
AllFit [] = Unit
AllFit (m ∷ ms) = Fits m.sql m.from_version m.to_version × AllFit ms

migrations-AllFit : AllFit migrations
migrations-AllFit = (
  λ v h p. record {
    same = refl;
    kept = record { user_index = λ _. refl; name_index = λ q. absurd (omega arith) };
  },
  (
    λ v h p. record {
      same = refl;
      kept = record { user_index = λ q. h.user_index (omega arith); name_index = λ _. refl };
    },
    tt,
  ),
)

module _ {e : Env} (S : IsSteady e) where
  migrate_from-Runs :
      (ms : List Migration) (v : Vault) (current : ℕ)
      → AllFit ms
      → v.saved ≡ none
      → IsVersioned v.tables
      → v.tables.user_version ≡ current
      → Runs e v
          (migrate_from current ms)
          (λ n v'. Migrated v v' × (v'.tables.user_version ≡ n))
          (λ _ v'. Migrated v v')
  unfolding migrate_from
  migrate_from-Runs [] v current fit idle h p = Runs-pure current (still h refl, p)
  migrate_from-Runs (m ∷ ms) v current fit idle h p =
      Runs-if (m.from_version == current)
        (λ q.
          let moved = fit.0 v h (p ∙ sym ((==_iff m.from_version current).0 q)) in
          Runs-bind
            (Runs-weaken (versioned_step-Runs S v m.sql m.to_version idle) (λ _ _ r. r)
              (λ _ _ r. still h r))
            λ _ v' r. rw r (
              Runs-weaken
                (migrate_from-Runs ms (with_tables (versioned m.sql m.to_version) v) m.to_version
                  fit.1 idle moved.kept refl)
                (λ n v'' k. (Migrated-trans moved k.0, k.1)) (λ _ v'' k. Migrated-trans moved k)))
        (λ _. migrate_from-Runs ms v current fit.1 idle h p)

  adopt-Runs :
      (v : Vault)
      → IsVersioned v.tables
      → Runs e v
          (adopt v.tables.user_version)
          (λ n v'. Migrated v v' × (v'.tables.user_version ≡ n))
          (λ _ v'. Migrated v v')
  adopt-Runs v h =
      Runs-if (v.tables.user_version == 0)
        (λ _.
          Runs-bind (Runs-weaken (db_set_version-Runs v 1) (λ _ _ r. r) (λ _ _ r. still h r))
            λ _ v' r. Runs-pure 1 (rw r (adopted, refl)))
        (λ _. Runs-pure _ (still h refl, refl))
    where
      adopted : Migrated v (with_tables (λ t. record t { user_version = 1 }) v)
      adopted = record {
        same = refl;
        kept = record {
          user_index = λ q. absurd (omega arith);
          name_index = λ q. absurd (omega arith);
        };
      }

  -- Where BEGIN and COMMIT are not refused, every row can be read, no transaction is open and the
  -- version says which indexes exist: a migration that returns true leaves version 3 or a later
  -- one, and on every return no row is changed and the version still says which indexes exist.
  pub db_migrate-Runs :
      ((n : ℕ) → e.row_fails n ≡ false)
      → (v : Vault) → v.saved ≡ none
      → IsVersioned v.tables
      → Runs e v db_migrate
          (λ _ v'. Migrated v v' × (3 ≤ v'.tables.user_version))
          (λ _ v'. Migrated v v')
  unfolding db_migrate
  db_migrate-Runs complete v idle h =
      Reads-bind (db_get_version-Reads v complete) (λ _. still h refl)
        λ found p. rw p (
          Runs-bind (adopt-Runs v h) λ current v' m.
            Runs-if (leb 3 current)
              (λ q. Runs-pure tt (m.0, omega (arith, leb→le 3 current q, m.1)))
              (λ _.
                Runs-bind {Q = λ n v₂. Migrated v v₂ × (v₂.tables.user_version ≡ n)}
                  (Runs-weaken
                    (migrate_from-Runs migrations v' current migrations-AllFit
                      (Migrated-idle m.0 idle) m.0.kept m.1)
                    (λ _ _ k. (Migrated-trans m.0 k.0, k.1)) (λ _ _ k. Migrated-trans m.0 k))
                  λ reached v'' k.
                    Runs-weaken (Reads-require (reached == 3) tt)
                      (λ _ v₃ r. rw r.0 (k.0, omega (arith, (==_iff reached 3).0 r.1, k.1)))
                      (λ _ v₃ r. rw r k.0)))
