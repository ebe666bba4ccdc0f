-- ===== src/Ssm/Secrets/Expired.antt =====
-- Where no foreign call reports an error, the operations of src/ssm.cc on secrets refuse a user whose
-- KEK has expired.
use vaultine.Prelude.{
  ℕ, ◌≤◌, Bytes, codes, ◌≡◌, refl, ◌∙◌, ap, true, false, leb, Option, some, arith,
}
use vaultine.World.{Env, Status, User, KekRow, Vault, err_internal, err_expired}
use vaultine.Exec.{Exec, ◌>>=◌}
use vaultine.Exec.Runs.{
  Runs, Runs-bind, Runs-weaken, Runs-pure, Runs-leave, Runs-modify, Runs-leaving, Runs-attempt,
}
use vaultine.Exec.Sure.{
  Sure, Sure-bind, Sure-map, Sure-pure, Sure-ask, Sure-time, Sure-deref, Sure-require, Sure-call,
  Sure-or_return, Sure-leaving,
}
use vaultine.Crypto.{is_empty}
use vaultine.Db.{with_tables, sql_now}
use vaultine.Db.Sql.{find_user, find_kek}
use vaultine.Db.AuditLog.{Event, insert_audit, audit_log_write}
use vaultine.Kek.{kek_is_expired}
use vaultine.Ssm.{audit_write, refuse, find_user_or_refuse, find_live_kek, ssm_status_to_string}
use vaultine.Ssm.Healthy.{IsQuiet, find_user_or_refuse-Sure, kek_find_by_user-Sure}
use vaultine.Ssm.Secrets.{
  op_get, op_store, op_delete, empty_buffers, open_secret, ssm_secret_get, ssm_secret_delete,
  ssm_secret_store,
}

abbrev pub expired_event : Bytes → User → Bytes → Bytes → Event
expired_event username u operation name = record {
  user_id = u.id;
  username = username;
  operation = operation;
  result = codes "SSM_ERR_EXPIRED";
  operation_target = some name;
  details = some (codes "{\"error\":\"KEK expired\"}");
}

-- Nothing but one entry of the audit log was written.
abbrev pub OneEntry : Event → Vault → Vault → Type 0
OneEntry ev v v' = (now : Bytes) × (v' ≡ with_tables (insert_audit ev now) v)

-- The call returns SSM_ERR_EXPIRED.
abbrev pub Expires :
    {A : Type 0} → Env → Vault → Bytes → User → Bytes → Bytes → Exec Status A → Type 0
Expires e v username u operation name m =
    Runs e v m (λ _ _. ⊥)
      (λ s v'. (s ≡ err_expired) × OneEntry (expired_event username u operation name) v v')

module _ {e : Env} {v : Vault} (quiet : IsQuiet e) where
  sql_now-Sure : {E : Type 0} → Sure {E = E} e v sql_now (λ _. Unit {0})
  unfolding sql_now
  sql_now-Sure = Sure-bind Sure-time λ now _. Sure-map (Sure-ask _) (λ _ _. tt)

  audit_log_write-Entry :
      (ev : Event) → Runs e v (audit_log_write ev) (λ _ v'. OneEntry ev v v') (λ _ _. ⊥)
  unfolding audit_log_write
  audit_log_write-Entry ev = Sure-bind (Sure-call quiet) λ _ _. Sure-bind (Sure-call quiet) λ _ _.
      Sure-bind (Sure-call quiet) λ _ _. Sure-bind (Sure-call quiet) λ _ _.
        Sure-bind (Sure-call quiet) λ _ _. Sure-bind sql_now-Sure λ now _. Runs-modify _ (now, refl)

  module _ (username : Bytes) (u : User) (known : find_user username v.tables ≡ some u) (k : KekRow)
      (found : find_kek u.id v.tables ≡ some k) (expiry : ℕ)
      (dated : e.strptime k.expires_at ≡ some expiry) (passed : (n : ℕ) → expiry ≤ e.clock n) where
    audit_write-Entry :
        (operation name : Bytes)
        → Runs {E = Status} e v
            (audit_write username u.id operation err_expired
              (some name)
              (some (codes "{\"error\":\"KEK expired\"}")))
            (λ _ v'. OneEntry (expired_event username u operation name) v v')
            (λ _ _. ⊥)
    unfolding audit_write ssm_status_to_string
    audit_write-Entry operation name =
        Runs-bind
          (Runs-attempt {S = λ _ v'. OneEntry (expired_event username u operation name) v v'}
            (Runs-weaken (audit_log_write-Entry _) (λ _ _ h. h) (λ _ _ q. absurd q)))
          λ _ v' h. Runs-pure tt h

    refuse-Expires :
        {A : Type 0} (operation name : Bytes)
        → Expires {A = A} e v username u operation name (
            refuse username u.id operation err_expired
              (some name)
              (some (codes "{\"error\":\"KEK expired\"}")))
    unfolding refuse
    refuse-Expires operation name =
        Runs-bind (Runs-weaken (audit_write-Entry operation name) (λ _ _ h. h) (λ _ _ q. absurd q))
          (λ _ v' h. Runs-leave err_expired (refl, h))

    kek_is_expired-Sure :
        {E : Type 0} → Sure {E = E} e v (kek_is_expired k.expires_at) (λ b. b ≡ true)
    unfolding kek_is_expired
    kek_is_expired-Sure = Sure-bind (Sure-ask _) λ o p.
        rw (p, dated) (Sure-bind Sure-time λ now q. Sure-map (Sure-pure _) (λ b r. r ∙ late now q))
      where
        late : (now : ℕ) → ((i : ℕ) × (now ≡ e.clock i)) → leb expiry now ≡ true
        late now (i, p) = ground (arith, passed i, p)

    find_live_kek-Expires :
        (operation name : Bytes)
        → Expires e v username u operation name (find_live_kek operation username (some name) u)
    unfolding find_live_kek
    find_live_kek-Expires operation name =
        Sure-bind (Sure-or_return err_internal (kek_find_by_user-Sure quiet u.id found))
          λ a p. rw p (Sure-bind kek_is_expired-Sure λ b q. rw q (refuse-Expires operation name))

    -- The part that the three operations have in common.
    guard-Expires :
        {A : Type 0} (operation name : Bytes) (m : User → KekRow → Exec Status A)
        → Expires e v username u operation name (do
          user ← find_user_or_refuse operation username
          kek ← find_live_kek operation username (some name) user
          m user kek)
    guard-Expires operation name m =
        Sure-bind (find_user_or_refuse-Sure quiet operation username known)
          λ a p. rw p (Runs-bind (find_live_kek-Expires operation name) (λ _ _ q. absurd q))

    -- In any vault, where no foreign call reports an error: for a user whose KEK row has a date that
    -- has passed or is now, whether or not his hash opens the KEK, storing a secret that is not empty,
    -- reading one and deleting one return SSM_ERR_EXPIRED, whatever the name of the secret is, no
    -- buffer is written, and nothing is changed but for one entry of the audit log, which says so.
    pub ssm_secrets-Expires :
        (name private_key : Bytes) (public_key description : Option Bytes) (room : ℕ)
        (public_room : Option ℕ)
        → is_empty private_key ≡ false
        → Expires e v username u op_store name (
            ssm_secret_store (record {
              username = some username;
              private_key = some private_key;
              public_key = public_key;
              name = some name;
              description = description;
            }))
          × Runs e v
              (ssm_secret_get (some username) (some name) room public_room)
              (λ _ _. ⊥)
              (λ s v'.
                (s ≡ (err_expired, empty_buffers room public_room))
                × OneEntry (expired_event username u op_get name) v v')
          × Expires e v username u op_delete name (ssm_secret_delete (some username) (some name))
    unfolding ssm_secret_store ssm_secret_get ssm_secret_delete open_secret
    ssm_secrets-Expires name private_key public_key description room public_room full = (
      Sure-bind (Sure-deref _ err_internal refl) λ a p. rw p (
          Sure-bind (Sure-deref _ err_internal refl) λ b q. rw q (
            Sure-bind (Sure-require err_internal (rw full refl)) λ _ _.
              Sure-bind (Sure-deref _ err_internal refl)
                λ c r. rw r (guard-Expires op_store name _))),
      Sure-bind (Sure-leaving _ (Sure-deref _ err_internal refl)) λ a p. rw p (
          Sure-bind (Sure-leaving _ (Sure-deref _ err_internal refl)) λ b q. rw q (
            Runs-bind
              (Runs-leaving _ (
                Runs-weaken (guard-Expires op_get name _) (λ _ _ x. x)
                  (λ s v' h. (ap (λ t. (t, empty_buffers room public_room)) h.0, h.1))))
              (λ _ _ x. absurd x))),
      Sure-bind (Sure-deref _ err_internal refl) λ a p.
          rw p (
            Sure-bind (Sure-deref _ err_internal refl)
              λ b q. rw q (guard-Expires op_delete name _)),
    )
