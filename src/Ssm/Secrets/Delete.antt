-- ===== src/Ssm/Secrets/Delete.antt =====
-- ssm_secret_delete of src/ssm.cc as an update of the map from a user name and a secret's name to the
-- private key.
use vaultine.Prelude.{
  ℕ, Bytes, ◌≡◌, refl, ◌∙◌, ap, true, ◌&&◌, Option, none, some, List, if◌then◌else◌,
}
use vaultine.World.{Env, User, Vault, Tables, CacheEntry, err_internal, err_not_found}
use vaultine.Exec.Runs.{Runs, Reads-bind, Reads-deref, Runs-bind, Runs-weaken, Runs-or_return}
use vaultine.Db.Sql.{find_user, has_secret, delete_secret}
use vaultine.Db.Runs.{secrets_delete-Changes}
use vaultine.Cache.Coherent.{IsCoherent, IsCoherent-same}
use native.Mathlib.Nat.{le_refl}
use vaultine.Reveal.{reveal}
use vaultine.Reveal.Statements.{delete_secret-reveal}
use vaultine.Ssm.Done.{IsGood, Done, Served, Logged-Served, changed_then-Logged, Done-reveal}
use vaultine.Ssm.Runs.{opening-Runs, audit_write-Runs}
use vaultine.Ssm.Secrets.{op_delete, ssm_secret_delete}
use vaultine.Ssm.Secrets.Store.{meets, served}

-- The statement that a deletion has run.
pub record Deleted (username_ptr name_ptr : Option Bytes) (t t' : Tables) : Type 0 where
  pub username : Bytes
  pub named : username_ptr ≡ some username
  pub user : User
  pub found : find_user username t ≡ some user
  pub name : Bytes
  pub given : name_ptr ≡ some name
  pub there : has_secret user.id name t ≡ true
  pub final : t' ≡ delete_secret user.id name t

module _ {e : Env} {v : Vault} (G : IsGood e v) where
  deleted_IsCoherent :
      (user : ℕ) (name : Bytes) (cs : List CacheEntry)
      → IsCoherent e v.tables cs
      → IsCoherent e (delete_secret user name v.tables) cs
  unfolding delete_secret
  deleted_IsCoherent user name cs h = IsCoherent-same e _ _ _ refl refl (le_refl _) h

  pub ssm_secret_delete-Deleted :
      (username_ptr name_ptr : Option Bytes)
      → Runs e v
          (ssm_secret_delete username_ptr name_ptr)
          (λ _ v'. (t : Tables) × Deleted username_ptr name_ptr v.tables t × Done e t v v')
          (λ _ v'. Served e v v')
  unfolding ssm_secret_delete
  ssm_secret_delete-Deleted username_ptr name_ptr =
      Reads-bind (Reads-deref username_ptr err_internal) (λ _. served G)
        λ username named.
          Reads-bind (Reads-deref name_ptr err_internal) (λ _. served G)
            λ name q.
              opening-Runs op_delete username (some name) (λ _ _ l. Logged-Served G.coherent l)
                λ u k h f.
                  Runs-bind
                    (Runs-or_return err_not_found {R = λ _ v'. Served e v v'} (
                      Runs-weaken (secrets_delete-Changes u.id name) (λ _ _ x. x)
                        (λ _ _ x. rw x (served G))))
                    λ _ v₁ x.
                      Runs-weaken (audit_write-Runs _ _ _ _ _ _)
                        (λ _ v₂ l. (
                          delete_secret u.id name v.tables,
                          record {
                            username = username;
                            named = named;
                            user = u;
                            found = h;
                            name = name;
                            given = q;
                            there = x.0.0;
                            final = refl;
                          },
                          changed_then-Logged (record { same = refl; coherent = G.coherent })
                              (x.1 ∙ ap (λ t. record v { tables = t }) x.0.1)
                              (deleted_IsCoherent _ _ _) l,
                        ))
                        (λ _ _ y. y)

  -- In a vault with sound tables, a coherent cache and no open transaction: after a deletion that
  -- returns SSM_OK the secret is not revealed any more and every other secret of any user is as
  -- before; a deletion that does not return SSM_OK changes no secret.
  pub ssm_secret_delete-reveal :
      (username_ptr name_ptr : Option Bytes)
      → Runs e v
          (ssm_secret_delete username_ptr name_ptr)
          (λ _ v'.
            (username name : Bytes)
            → reveal e v'.tables username name ≡ (
                if meets username username_ptr && meets name name_ptr
                then none
                else reveal e v.tables username name))
          (λ _ v'.
            (username name : Bytes)
            → reveal e v'.tables username name ≡ reveal e v.tables username name)
  ssm_secret_delete-reveal username_ptr name_ptr =
      Runs-weaken (ssm_secret_delete-Deleted username_ptr name_ptr)
        (λ _ v' h username name.
          let D = h.1 in
          Done-reveal h.2 username name
          ∙ ap (λ t. reveal e t username name) D.final
          ∙ delete_secret-reveal v.tables G.sound D.username D.user D.found e D.name username name
          ∙ rw (D.named, D.given) refl)
        (λ _ v' h. Done-reveal h)
