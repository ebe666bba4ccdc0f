-- ===== src/Ssm/Runs.antt =====
-- What the guards and helpers of src/ssm.cc return and leave in the vault.
use vaultine.Prelude.{
  ℕ, Bytes, ◌≡◌, refl, sym, ◌∙◌, ap, ◌⊎◌, inl, inr, true, Option, none, some, List, [], ◌++◌,
}
use mathlib.Core.List.{append-nil}
use vaultine.World.{Env, Status, err_auth, err_internal, User, KekRow, AuditEntry, Vault, Tables}
use vaultine.Exec.{◌>>=◌, Exec}
use mathlib.Core.Path.{subst}
use mathlib.Core.Option.{some-injective}
use vaultine.Exec.Sure.{Sure, Sure-bind, Sure-map, Sure-pure, Sure-ask, Sure-time, Sure-attempt}
use vaultine.Exec.Runs.{
  Runs, Reads, Reads-map, Reads-bind, Reads-chain, Reads-gets, Reads-require, Runs-bind,
  Runs-weaken, Runs-if, Runs-attempt, Runs-pure, Runs-leave, Runs-or_return, Runs-call, Runs-modify,
}
use vaultine.Crypto.Reads.{secure_alloc-Reads, argon2id_hash-Reads}
use vaultine.Kek.{kek_is_expired, has_passed}
use vaultine.Db.Sql.{find_user, find_kek}
use vaultine.Db.AuditLog.{Event, audit_log_write, insert_audit}
use vaultine.Db.Runs.{Changes, sql_now-Reads, users_find_by_username-Reads, kek_find_by_user-Reads}
use vaultine.Ssm.{
  audit_write, refuse, otherwise, is_ok, check_password, find_user_or_refuse, find_live_kek,
  hash_password,
}

-- Entries were added at the end of the audit log, and nothing else was changed.
pub record Logged (v v' : Vault) : Type 0 where
  pub added : List AuditEntry
  pub grown : v'.tables.audit ≡ v.tables.audit ++ added
  pub same : v' ≡ record v {
    tables = record v.tables { audit = v'.tables.audit; next_audit = v'.tables.next_audit };
  }

pub unlogged : {v v' : Vault} → v' ≡ v → Logged v v'
unlogged {v} p = record {
  added = [];
  grown = ap (λ (u : Vault). u.tables.audit) p ∙ sym (append-nil v.tables.audit);
  same = rw p;
}

logged :
    (ev : Event) (now : Bytes) {v v' : Vault}
    → v'.tables ≡ insert_audit ev now v.tables
    → v' ≡ record v { tables = v'.tables }
    → Logged v v'
unfolding insert_audit
logged ev now {v} p q = record {
  added = _;
  grown = ap (λ (t : Tables). t.audit) p;
  same =
      q
      ∙ ap (λ t. record v { tables = t }) p
      ∙ ap
          (λ (t : Tables). record v {
            tables = record v.tables { audit = t.audit; next_audit = t.next_audit };
          })
          (sym p);
}

module _ {e : Env} {v : Vault} where
  audit_log_write-Changes :
      (ev : Event)
      → Changes e v (audit_log_write ev) (λ _ t. (now : Bytes) × (t ≡ insert_audit ev now v.tables))
  unfolding audit_log_write
  audit_log_write-Changes ev = Runs-call refl (
      Runs-call refl (
        Runs-call refl (
          Runs-call refl (
            Runs-call refl
              (Reads-bind sql_now-Reads (λ _. refl) λ now _. Runs-modify _ ((now, refl), refl))))))

  -- The function never fails: an error of the database is dropped.
  pub audit_write-Runs :
      {E : Type 0} (username : Bytes) (user : ℕ) (operation : Bytes) (result : Status)
      (target details : Option Bytes) {R : E → Vault → Type 0}
      → Runs e v (audit_write username user operation result target details) (λ _ v'. Logged v v') R
  unfolding audit_write
  audit_write-Runs username user operation result target details =
      Runs-bind
        (Runs-attempt {S = λ _ v'. Logged v v'} (
          Runs-weaken (audit_log_write-Changes _) (λ _ v' h. logged _ h.0.0 h.0.1 h.1)
            (λ _ v' p. unlogged p)))
        (λ _ v' h. Runs-pure tt h)

  pub refuse-Runs :
      {A : Type 0} (username : Bytes) (user : ℕ) (operation : Bytes) (result : Status)
      (target details : Option Bytes) {Q : A → Vault → Type 0}
      → Runs e v
          (refuse username user operation result target details)
          Q
          (λ s v'. (s ≡ result) × Logged v v')
  unfolding refuse
  refuse-Runs username user operation result target details =
      Runs-bind (audit_write-Runs username user operation result target details)
        (λ _ v' h. Runs-leave result (refl, h))

  pub check_password-Reads :
      (password : Bytes)
      → Reads e v (check_password password) (λ _. is_ok (v.validator password) ≡ true)
  unfolding check_password
  check_password-Reads password =
      Reads-chain (Reads-gets _)
        (λ f p. Reads-map (Reads-require _ _) (λ _ h. ap (λ g. is_ok (g password)) (sym p) ∙ h))

  -- A value that an attempt gave, or a refusal.
  pub otherwise-refuse-Runs :
      {A : Type 0} {P : A → Type 0} (o : Option A) (username : Bytes) (user : ℕ) (operation : Bytes)
      (result : Status) (target details : Option Bytes)
      → (o ≡ none) ⊎ ((a : A) × (o ≡ some a) × P a)
      → Runs e v
          (otherwise o (refuse username user operation result target details))
          (λ a v'. (v' ≡ v) × P a)
          (λ s v'. (s ≡ result) × Logged v v')
  otherwise-refuse-Runs none n u op r t d h = refuse-Runs n u op r t d
  otherwise-refuse-Runs (some a) n u op r t d (inl p) = cc
  otherwise-refuse-Runs {P = P} (some a) n u op r t d (inr (x, p, h)) =
      Runs-pure a (refl, subst P (sym (some-injective a x p)) h)

  pub find_user_or_refuse-Runs :
      (operation username : Bytes)
      → Runs e v
          (find_user_or_refuse operation username)
          (λ u v'. (v' ≡ v) × (find_user username v.tables ≡ some u))
          (λ s v'. (s ≡ err_auth) × Logged v v')
  unfolding find_user_or_refuse
  find_user_or_refuse-Runs operation username =
      Sure-bind (Sure-attempt (users_find_by_username-Reads username))
        (λ o h. otherwise-refuse-Runs o _ _ _ _ _ _ h)

  has_passed-Sure : {E : Type 0} (o : Option ℕ) → Sure {E = E} e v (has_passed o) (λ _. Unit {0})
  has_passed-Sure none = Sure-map (Sure-pure true) (λ _ _. tt)
  has_passed-Sure (some t) = Sure-bind Sure-time (λ now _. Sure-map (Sure-pure _) (λ _ _. tt))

  kek_is_expired-Sure :
      {E : Type 0} (expires_at : Bytes)
      → Sure {E = E} e v (kek_is_expired expires_at) (λ _. Unit {0})
  unfolding kek_is_expired
  kek_is_expired-Sure expires_at = Sure-bind (Sure-ask _) (λ o _. has_passed-Sure o)

  pub find_live_kek-Runs :
      (operation username : Bytes) (target : Option Bytes) (user : User)
      → Runs e v
          (find_live_kek operation username target user)
          (λ k v'. (v' ≡ v) × (find_kek user.id v.tables ≡ some k))
          (λ _ v'. Logged v v')
  unfolding find_live_kek
  find_live_kek-Runs operation username target user =
      Reads-bind (Runs-or_return err_internal (kek_find_by_user-Reads user.id)) (λ _. unlogged refl)
        λ kek found. Sure-bind (kek_is_expired-Sure kek.expires_at) λ expired _.
          Runs-if expired (λ _. Runs-weaken (refuse-Runs _ _ _ _ _ _) (λ _ _ h. h) (λ _ _ h. h.1))
            (λ _. Runs-pure kek (refl, found))

  -- The hash is one of the password, under a salt that was drawn.
  pub hash_password-Reads :
      (password : Bytes)
      → Reads e v (hash_password password) (λ h. (salt : Bytes) × (h ≡ e.pwhash_str salt password))
  unfolding hash_password
  hash_password-Reads password =
      Sure-bind (Sure-attempt (secure_alloc-Reads 128))
        (λ _ _. Runs-or_return err_internal (argon2id_hash-Reads password _))

module _ {e : Env} {v : Vault} {A : Type 0} where
  -- An operation begins with the user of that name and the row of his KEK, or it ends there.
  pub opening-Runs :
      (operation username : Bytes) (target : Option Bytes) {f : User → KekRow → Exec Status A}
      {Q : A → Vault → Type 0} {R : Status → Vault → Type 0}
      → ((s : Status) (v' : Vault) → Logged v v' → R s v')
      → ((u : User) (k : KekRow)
          → find_user username v.tables ≡ some u
          → find_kek u.id v.tables ≡ some k
          → Runs e v (f u k) Q R)
      → Runs e v
          (find_user_or_refuse operation username >>= λ u.
            find_live_kek operation username target u >>= λ k. f u k)
          Q
          R
  opening-Runs operation username target r h =
      Runs-bind
        (Runs-weaken (find_user_or_refuse-Runs operation username) (λ _ _ p. p)
          (λ s v' p. r s v' p.1))
        λ u v₁ p. rw p.0 (
          Runs-bind (Runs-weaken (find_live_kek-Runs operation username target u) (λ _ _ q. q) r)
            λ k v₂ q. rw q.0 (h u k p.1 q.1))
