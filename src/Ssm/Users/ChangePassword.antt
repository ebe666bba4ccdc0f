-- ===== src/Ssm/Users/ChangePassword.antt =====
-- ssm_user_change_password of src/ssm.cc: a new hash, and the same KEK wrapped under it.
pub mod Statements
use mathlib.Core.Path.{subst}
use vaultine.Prelude.{
  ℕ, Bytes, ◌≡◌, refl, sym, ◌∙◌, ap, inl, inr, false, ◌==◌, ==_iff, ==_refl, eqb, Bool-cases,
  Option-cases, Option, none, some, List, Occurs, amend, first-amend-some, first-amend-none,
  first-passes, amend-Occurs, arith, take, if◌then◌else◌,
}
use vaultine.World.{Env, IsLawful, User, KekRow, CacheEntry, Vault, Tables, err_internal}
use vaultine.Exec.Runs.{
  Runs, Reads-bind, Reads-deref, Reads-require, Runs-bind, Runs-weaken, Runs-attempt,
  Runs-after_modify, Runs-call, Runs-modify,
}
use vaultine.Crypto.Reads.{secure_alloc-Reads, aes_kw_wrap-Reads}
use vaultine.Db.Sql.{find_user, find_kek, find_secret, set_password_hash, set_wrapped_kek}
use vaultine.Db.Find.{find_user-Occurs}
use vaultine.Db.Runs.{kek_find_by_user-Reads}
use vaultine.Db.Transaction.{
  IsSteady, OnlyTables, begun, rolled_back, committed, begin-Runs, commit-Runs, rollback-Runs,
}
use vaultine.Cache.{holds, erased, cache_invalidate}
use vaultine.Cache.Coherent.{IsCoherent, invalidate-IsCoherent, user_by_id}
use vaultine.Kek.Reads.{kek_unwrap-Reads, kek_derive_wrapping_key-Reads}
use vaultine.Reveal.{unlock, kek_of, secret_of, reveal}
use vaultine.Sound.{IsSound}
use vaultine.Ssm.Runs.{
  Logged, unlogged, find_user_or_refuse-Runs, audit_write-Runs, refuse-Runs, check_password-Reads,
  hash_password-Reads,
}
use vaultine.Ssm.Done.{
  IsGood, Done, Served, Logged-Served, left_then-Logged, Done-reveal, Done-find_user,
}
use vaultine.Ssm.Users.{op_change_password, replace_password, end_change, ssm_user_change_password}
use vaultine.Ssm.Users.Access.{Knows, verify_or_refuse-Runs}
use vaultine.Ssm.Users.ChangePassword.Statements.{
  Rehashed, Rehashed-reveal, set_password_hash-kek, find_user-after, after-IsCoherent,
}

module _ (e : Env) (u : User) (hash : Bytes) (v : Vault) where
  abbrev Ended : Option (Unit {0}) → Vault → Type 0
  Ended none v' = OnlyTables (begun v) v'
  Ended (some _) v' = Rehashed e u hash v.tables v'.tables × OnlyTables (begun v) v'

module _ {e : Env} (S : IsSteady e) (u : User) (hash : Bytes) where
  replace_password-Runs :
      (v : Vault)
      → Runs e
          (begun v)
          (replace_password u hash)
          (λ _ v'. Rehashed e u hash v.tables v'.tables × OnlyTables (begun v) v')
          (λ _ v'. OnlyTables (begun v) v')
  unfolding replace_password
  replace_password-Runs v = Runs-call refl (
      Runs-call refl (
        Runs-after_modify _ (
          Reads-bind (kek_find_by_user-Reads u.id) (λ _. refl)
            λ k f.
              Reads-bind (secure_alloc-Reads _) (λ _. refl)
                λ _ _.
                  Reads-bind (secure_alloc-Reads _) (λ _. refl)
                    λ _ _.
                      Reads-bind (secure_alloc-Reads _) (λ _. refl)
                        λ _ _.
                          Reads-bind (kek_unwrap-Reads k u.password_hash) (λ _. refl)
                            λ kek o.
                              Reads-bind (kek_derive_wrapping_key-Reads hash k.salt _) (λ _. refl)
                                λ key p.
                                  Reads-bind (aes_kw_wrap-Reads kek key) (λ _. refl)
                                    λ wrapped q. Runs-call refl (
                                      Runs-call refl (
                                        Runs-modify _ (
                                          record {
                                            row = k;
                                            row_found =
                                                sym (set_password_hash-kek u.id u.id hash v.tables)
                                                ∙ f;
                                            kek = kek;
                                            opened = o;
                                            final =
                                                ap
                                                  (λ w.
                                                    set_wrapped_kek u.id w
                                                      (set_password_hash u.id hash v.tables))
                                                  (q ∙ ap (λ x. e.key_wrap x kek) p);
                                          },
                                          refl,
                                        ))))))

-- A change of password has been committed for the user of that name.
pub record Changed (e : Env) (username_ptr old_ptr new_ptr : Option Bytes) (t t' : Tables)
    : Type 0 where
  pub knows : Knows e t username_ptr old_ptr
  pub new_password : Bytes
  pub given : new_ptr ≡ some new_password
  pub salt : Bytes
  pub rehashed : Rehashed e knows.user (e.pwhash_str salt new_password) t t'

module _ {e : Env} (L : IsLawful e) (S : IsSteady e) {v : Vault} (G : IsGood e v) where
  served : Served e v v
  served = Logged-Served G.coherent (unlogged refl)

  end_change-Runs :
      (username : Bytes) (u : User) (hash : Bytes) (o : Option (Unit {0})) (v₁ : Vault)
      → Ended e u hash v o v₁
      → Runs e v₁
          (end_change username u o)
          (λ _ v'. (t : Tables) × Rehashed e u hash v.tables t × Done e t v v')
          (λ _ v'. Served e v v')
  unfolding cache_invalidate
  end_change-Runs username u hash none v₁ h =
      Runs-bind (rollback-Runs S v₁ (ap (λ (w : Vault). w.saved) h)) λ _ v₂ p.
        Runs-weaken (refuse-Runs _ _ _ _ _ _) (λ _ _ x. x)
          (λ _ v₃ x.
            Logged-Served G.coherent (subst (λ w. Logged w v₃) (rolled_back v v₁ G.idle h p) x.1))
  end_change-Runs username u hash (some _) v₁ (R, h) =
      Runs-bind (commit-Runs S v₁ (ap (λ (w : Vault). w.saved) h)) λ _ v₂ p. Runs-after_modify _ (
        Runs-weaken (audit_write-Runs _ _ _ _ _ _)
          (λ _ v₃ l. (
            v₂.tables,
            subst (Rehashed e u hash v.tables) (sym (ap (λ (w : Vault). w.tables) p)) R,
            left_then-Logged
                (ap (λ (w : Vault). record w { cache = amend (holds u.id) erased w.cache })
                  (committed v v₁ G.idle h p))
                (subst (λ t. IsCoherent e t (amend (holds u.id) erased v.cache))
                  (sym (ap (λ (w : Vault). w.tables) p ∙ R.final))
                  (after-IsCoherent v.tables u.id hash _ e v.cache G.coherent))
                l,
          ))
          (λ _ _ y. y))

  pub ssm_user_change_password-Changed :
      (username_ptr old_ptr new_ptr : Option Bytes)
      → Runs e v
          (ssm_user_change_password username_ptr old_ptr new_ptr)
          (λ _ v'. (t : Tables) × Changed e username_ptr old_ptr new_ptr v.tables t × Done e t v v')
          (λ _ v'. Served e v v')
  unfolding ssm_user_change_password
  ssm_user_change_password-Changed username_ptr old_ptr new_ptr =
      Reads-bind (Reads-deref username_ptr err_internal) (λ _. served)
        λ username named.
          Reads-bind (Reads-deref old_ptr err_internal) (λ _. served)
            λ old_password given.
              Reads-bind (Reads-deref new_ptr err_internal) (λ _. served)
                λ new_password new.
                  Reads-bind (Reads-require _ err_internal) (λ _. served)
                    λ _ _.
                      Reads-bind (check_password-Reads new_password) (λ _. served)
                        λ _ _.
                          Runs-bind
                            (Runs-weaken (find_user_or_refuse-Runs op_change_password username)
                              (λ _ _ h. h) (λ _ _ h. Logged-Served G.coherent h.1))
                            λ u v₁ h. rw h.0 (
                              Runs-bind
                                (Runs-weaken
                                  (verify_or_refuse-Runs op_change_password username old_password u)
                                  (λ _ _ q. q) (λ _ _ l. Logged-Served G.coherent l))
                                λ _ v₂ q. rw q.0 (
                                  Reads-bind (hash_password-Reads new_password) (λ _. served)
                                    λ hash w. Runs-bind (begin-Runs S v G.idle) λ _ v₃ p. rw p (
                                      Runs-bind
                                        (Runs-attempt {S = Ended e u hash v}
                                          {T = λ _ v'. Served e v v'}
                                          (replace_password-Runs S u hash v))
                                        λ o v₄ r.
                                          Runs-weaken (end_change-Runs username u hash o v₄ r)
                                            (λ _ v₅ x. (
                                              x.0,
                                              record {
                                                knows = record {
                                                  username = username;
                                                  named = named;
                                                  password = old_password;
                                                  given = given;
                                                  user = u;
                                                  found = h.1;
                                                  verified = q.1;
                                                };
                                                new_password = new_password;
                                                given = new;
                                                salt = w.0;
                                                rehashed =
                                                    subst (λ y. Rehashed e u y v.tables x.0) w.1
                                                      x.1;
                                              },
                                              x.2,
                                            ))
                                            (λ _ _ y. y))))

  -- In a vault with sound tables, a coherent cache and no open transaction, with lawful ciphers,
  -- where BEGIN and COMMIT are not refused: a change of password that returns SSM_OK was given the
  -- old password, and afterwards the new one is that of the user and no secret of anybody has
  -- changed; one that does not return SSM_OK changes no secret.
  pub ssm_user_change_password-reveal :
      (username_ptr old_ptr new_ptr : Option Bytes)
      → Runs e v
          (ssm_user_change_password username_ptr old_ptr new_ptr)
          (λ _ v'.
            Knows e v.tables username_ptr old_ptr
            × Knows e v'.tables username_ptr new_ptr
            × ((username name : Bytes)
                → reveal e v'.tables username name ≡ reveal e v.tables username name))
          (λ _ v'.
            (username name : Bytes)
            → reveal e v'.tables username name ≡ reveal e v.tables username name)
  ssm_user_change_password-reveal username_ptr old_ptr new_ptr =
      Runs-weaken (ssm_user_change_password-Changed username_ptr old_ptr new_ptr)
        (λ _ v' h. (
          h.1.knows,
          renewed h.1 h.2,
          λ username name.
              Done-reveal h.2 username name
              ∙ Rehashed-reveal L G.sound
                  (find_user-Occurs h.1.knows.username v.tables h.1.knows.found) h.1.rehashed
                  username name,
        ))
        (λ _ v' h. Done-reveal h)
    where
      renewed :
          {t : Tables} {v' : Vault}
          → Changed e username_ptr old_ptr new_ptr v.tables t
          → Done e t v v'
          → Knows e v'.tables username_ptr new_ptr
      renewed {t} {v'} C D = record {
        username = C.knows.username;
        named = C.knows.named;
        password = C.new_password;
        given = C.given;
        user = record C.knows.user { password_hash = e.pwhash_str C.salt C.new_password };
        found =
            Done-find_user D C.knows.username
            ∙ ap (find_user C.knows.username) C.rehashed.final
            ∙ find_user-after v.tables C.knows.user.id _ _ C.knows.username C.knows.found
            ∙ rw (==_refl C.knows.user.id) refl;
        verified = L.verify_hash C.salt C.new_password;
      }
