-- ===== src/Ssm/Users/Access.antt =====
-- ssm_user_authenticate and ssm_user_delete of src/ssm.cc: who is let in, and what goes with a user.
use vaultine.Prelude.{
  ℕ, Bytes, ◌≡◌, refl, sym, ◌∙◌, ap, ◌⊎◌, inl, inr, true, false, not, ◌==◌, Option, none, some,
  List, All-map, keep-Occurs, first-keep, arith, if◌then◌else◌,
}
use vaultine.World.{Env, User, Vault, Tables, CacheEntry, err_internal}
use vaultine.Exec.{present}
use vaultine.Exec.Runs.{
  Runs, Reads-bind, Reads-deref, Reads-require, Runs-bind, Runs-pure, Runs-weaken, Runs-if,
  Runs-or_return,
}
use vaultine.Exec.Sure.{Sure-bind, Sure-attempt}
use vaultine.Crypto.Reads.{argon2id_verify-Reads}
use mathlib.Core.Bool.{false≢true}
use vaultine.Ssm.Secrets.Store.{meets}
use vaultine.Db.Sql.{find_user, find_kek, delete_user}
use vaultine.Db.Runs.{users_find_by_username-Reads, users_delete-Changes}
use vaultine.Cache.Coherent.{IsRight, IsCoherent}
use vaultine.Reveal.{reveal}
use vaultine.Reveal.Statements.{delete_user-reveal}
use vaultine.Ssm.Runs.{Logged, unlogged, find_user_or_refuse-Runs, audit_write-Runs, refuse-Runs}
use vaultine.Ssm.Done.{IsGood, Done, Served, Logged-Served, left_then-Logged, Done-reveal}
use vaultine.Ssm.Users.{
  op_delete, authenticate_found, ssm_user_authenticate, verify_or_refuse, ssm_user_delete,
}

-- The password is that of the user of that name.
pub record Knows (e : Env) (t : Tables) (username_ptr password_ptr : Option Bytes) : Type 0 where
  pub username : Bytes
  pub named : username_ptr ≡ some username
  pub password : Bytes
  pub given : password_ptr ≡ some password
  pub user : User
  pub found : find_user username t ≡ some user
  pub verified : e.pwhash_str_verify user.password_hash password ≡ true

module _ {e : Env} {v : Vault} where
  pub verify_or_refuse-Runs :
      (operation username password : Bytes) (u : User)
      → Runs e v
          (verify_or_refuse operation username password u)
          (λ _ v'. (v' ≡ v) × (e.pwhash_str_verify u.password_hash password ≡ true))
          (λ _ v'. Logged v v')
  unfolding verify_or_refuse
  verify_or_refuse-Runs operation username password u =
      Sure-bind (Sure-attempt (argon2id_verify-Reads password u.password_hash)) λ o h.
        Runs-if (present o) (λ p. Runs-pure tt (refl, verified o h p))
          (λ _. Runs-weaken (refuse-Runs _ _ _ _ _ _) (λ _ _ x. x) (λ _ _ x. x.1))
    where
      verified :
          (o : Option (Unit {0}))
          → (o ≡ none)
            ⊎ ((a : Unit {0}) × (o ≡ some a)
                × (e.pwhash_str_verify u.password_hash password ≡ true))
          → present o ≡ true
          → e.pwhash_str_verify u.password_hash password ≡ true
      verified none h p = cc
      verified (some _) (inl q) p = cc
      verified (some _) (inr h) p = h.2

pub deleted_user-IsCoherent :
    (e : Env) (t : Tables) (user : ℕ) (cs : List CacheEntry)
    → IsCoherent e t cs
    → IsCoherent e (delete_user user t) cs
unfolding delete_user find_kek
deleted_user-IsCoherent e t user cs h =
    All-map (IsRight e t) _ cs
      (λ c r. record {
        known = λ p. r.known p;
        current = λ p u o i k f.
            let (q, o') = keep-Occurs (λ (x : User). not (x.id == user)) t.users u o in
            r.current p u o' i k (
              sym (
                first-keep (λ k. k.user_id == u.id) (λ k. not (k.user_id == user)) t.keks
                  (λ x s. ground (arith, s, q)))
              ∙ f);
      })
      h

module _ {e : Env} {v : Vault} (G : IsGood e v) where
  served : Served e v v
  served = Logged-Served G.coherent (unlogged refl)

  -- In a vault with sound tables, a coherent cache and no open transaction: whoever is told that a
  -- password is right has given a password that the hash of the user of that name verifies; no
  -- user, key or secret is changed on any return.
  pub ssm_user_authenticate-Runs :
      (username_ptr password_ptr : Option Bytes)
      → Runs e v
          (ssm_user_authenticate username_ptr password_ptr)
          (λ b v'. (b ≡ true → Knows e v.tables username_ptr password_ptr) × Served e v v')
          (λ _ v'. Served e v v')
  unfolding ssm_user_authenticate
  ssm_user_authenticate-Runs username_ptr password_ptr =
      Reads-bind (Reads-deref username_ptr err_internal) (λ _. served)
        λ username named.
          Reads-bind (Reads-deref password_ptr err_internal) (λ _. served)
            λ password given.
              Reads-bind (Reads-require _ err_internal) (λ _. served)
                λ _ _.
                  Sure-bind (Sure-attempt (users_find_by_username-Reads username))
                    (answered username password named given)
    where
      answered :
          (username password : Bytes)
          → username_ptr ≡ some username
          → password_ptr ≡ some password
          → (found : Option User)
          → (found ≡ none)
            ⊎ ((u : User) × (found ≡ some u) × (find_user username v.tables ≡ some u))
          → Runs e v
              (authenticate_found username password found)
              (λ b v'. (b ≡ true → Knows e v.tables username_ptr password_ptr) × Served e v v')
              (λ _ v'. Served e v v')
      answered username password named given none h =
          Runs-bind (audit_write-Runs _ _ _ _ _ _)
            λ _ v' l. Runs-pure false ((λ p. absurd (false≢true p)), Logged-Served G.coherent l)
      answered username password named given (some u) (inl p) = cc
      answered username password named given (some u) (inr (x, p, h)) =
          Sure-bind (Sure-attempt (argon2id_verify-Reads password u.password_hash)) λ o q.
            Runs-bind (audit_write-Runs _ _ _ _ _ _) λ _ v' l. Runs-pure (present o) (
              λ r. elim q [
                | inl n ↦ absurd (false≢true (ap present (sym n) ∙ r))
                | inr w ↦ record {
                  username = username;
                  named = named;
                  password = password;
                  given = given;
                  user = u;
                  found = h ∙ sym p;
                  verified = w.2;
                }
              ],
              Logged-Served G.coherent l,
            )

  pub ssm_user_delete-Deleted :
      (username_ptr password_ptr : Option Bytes)
      → Runs e v
          (ssm_user_delete username_ptr password_ptr)
          (λ _ v'.
            (K : Knows e v.tables username_ptr password_ptr) × Done e
              (delete_user K.user.id v.tables)
              v
              v')
          (λ _ v'. Served e v v')
  unfolding ssm_user_delete
  ssm_user_delete-Deleted username_ptr password_ptr =
      Reads-bind (Reads-deref username_ptr err_internal) (λ _. served)
        λ username named.
          Reads-bind (Reads-deref password_ptr err_internal) (λ _. served)
            λ password given.
              Reads-bind (Reads-require _ err_internal) (λ _. served)
                λ _ _.
                  Runs-bind
                    (Runs-weaken (find_user_or_refuse-Runs op_delete username) (λ _ _ h. h)
                      (λ _ _ h. Logged-Served G.coherent h.1))
                    λ u v₁ h. rw h.0 (
                      Runs-bind
                        (Runs-weaken (verify_or_refuse-Runs op_delete username password u)
                          (λ _ _ q. q) (λ _ _ l. Logged-Served G.coherent l))
                        λ _ v₂ q. rw q.0 (
                          Runs-bind
                            (Runs-or_return err_internal {R = λ _ v'. Served e v v'} (
                              Runs-weaken (users_delete-Changes u.id) (λ _ _ x. x)
                                (λ _ _ x. rw x served)))
                            λ _ v₃ x.
                              Runs-weaken (audit_write-Runs _ _ _ _ _ _)
                                (λ _ v₄ l. (
                                  record {
                                    username = username;
                                    named = named;
                                    password = password;
                                    given = given;
                                    user = u;
                                    found = h.1;
                                    verified = q.1;
                                  },
                                  left_then-Logged (x.1 ∙ ap (λ t. record v { tables = t }) x.0.1)
                                      (deleted_user-IsCoherent e v.tables u.id v.cache G.coherent)
                                      l,
                                ))
                                (λ _ _ y. y)))

  -- In a vault with sound tables, a coherent cache and no open transaction: a deletion of a user
  -- that returns SSM_OK was given the password of that user, and afterwards no secret of his is
  -- revealed while those of all other users are as before; otherwise no secret is changed.
  pub ssm_user_delete-reveal :
      (username_ptr password_ptr : Option Bytes)
      → Runs e v
          (ssm_user_delete username_ptr password_ptr)
          (λ _ v'.
            Knows e v.tables username_ptr password_ptr
            × ((username name : Bytes)
                → reveal e v'.tables username name ≡ (
                    if meets username username_ptr then none else reveal e v.tables username name)))
          (λ _ v'.
            (username name : Bytes)
            → reveal e v'.tables username name ≡ reveal e v.tables username name)
  ssm_user_delete-reveal username_ptr password_ptr =
      Runs-weaken (ssm_user_delete-Deleted username_ptr password_ptr)
        (λ _ v' h. (
          h.0,
          λ username name.
              Done-reveal h.1 username name
              ∙ delete_user-reveal v.tables G.sound h.0.username h.0.user h.0.found e username name
              ∙ rw h.0.named refl,
        ))
        (λ _ v' h. Done-reveal h)
