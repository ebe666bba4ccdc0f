-- ===== src/Ssm/Users/Rotate.antt =====
-- ssm_kek_rotate of src/ssm.cc: the keys change, what they protect does not.
use vaultine.Prelude.{
  ℕ, suc, ◌<◌, Bytes, ◌≡◌, refl, sym, ◌∙◌, ap, false, ◌==◌, Option, none, some, List, Occurs, amend,
}
use mathlib.Core.Path.{subst}
use vaultine.World.{Env, IsLawful, User, KekRow, CacheEntry, Vault, Tables, err_internal}
use vaultine.Exec.Runs.{
  Runs, Reads-bind, Reads-deref, Runs-bind, Runs-weaken, Runs-attempt, Runs-after_modify,
}
use vaultine.Db.Sql.{find_user, find_kek}
use vaultine.Db.Find.{find_user-Occurs}
use vaultine.Db.Transaction.{IsSteady, OnlyTables}
use vaultine.Cache.{holds, erased, cache_invalidate}
use vaultine.Cache.Coherent.{IsCoherent, invalidate-IsCoherent, user_by_id}
use vaultine.Kek.Rotation.{Rotated, kek_rotate-Runs}
use vaultine.Kek.Rotation.Reveal.{Rotated-reveal, Rotated-users, Rotated-kek_other, Rotated-version}
use vaultine.Reveal.{◌and_then◌, reveal}
use mathlib.Core.Option.{some-injective}
use vaultine.Ssm.Runs.{unlogged, find_user_or_refuse-Runs, audit_write-Runs, refuse-Runs}
use vaultine.Ssm.Done.{IsGood, Done, Served, Logged-Served, left_then-Logged, Done-reveal}
use vaultine.Ssm.Users.{op_rotate, ssm_kek_rotate, end_rotate}

-- A rotation has been committed for the user of that name.
pub record Renewed (e : Env) (username_ptr : Option Bytes) (t t' : Tables) : Type 0 where
  pub username : Bytes
  pub named : username_ptr ≡ some username
  pub user : User
  pub found : find_user username t ≡ some user
  pub rotated : Rotated e user.id user.password_hash t t'

version_raised :
    {e : Env} {username_ptr : Option Bytes} {t : Tables} {v v' : Vault}
    → Done e t v v'
    → Renewed e username_ptr v.tables t
    → (u : User) (k k' : KekRow) → (username_ptr and_then λ n. find_user n v.tables) ≡ some u
    → find_kek u.id v.tables ≡ some k
    → find_kek u.id v'.tables ≡ some k'
    → k'.kek_version ≡ suc k.kek_version
unfolding find_kek
version_raised {t = t} {v = v} D N u k k' p f f' =
    let q : u ≡ N.user =
      some-injective u N.user
        (sym p ∙ ap (λ o. o and_then λ n. find_user n v.tables) N.named ∙ N.found) in
    let (k₁, g, w) = Rotated-version N.rotated in
    let a : k₁ ≡ k' = some-injective k₁ k' (
      sym g
      ∙ ap (λ i. find_kek i t) (ap (λ (y : User). y.id) (sym q))
      ∙ ap (λ (x : Vault). find_kek u.id x.tables) (sym D.same)
      ∙ f') in
    let b : N.rotated.row ≡ k =
      some-injective N.rotated.row k (
        sym N.rotated.found
        ∙ ap (λ i. find_kek i v.tables) (ap (λ (y : User). y.id) (sym q))
        ∙ f) in
    ap (λ (c : KekRow). c.kek_version) (sym a) ∙ w ∙ ap (λ (c : KekRow). suc c.kek_version) b

module _ {e : Env} (L : IsLawful e) (S : IsSteady e) {v : Vault} (G : IsGood e v) where
  served : Served e v v
  served = Logged-Served G.coherent (unlogged refl)

  Rotated-IsCoherent :
      {user : ℕ} {hash : Bytes} {t : Tables}
      → Rotated e user hash v.tables t
      → (cs : List CacheEntry) → IsCoherent e v.tables cs
      → IsCoherent e t (amend (holds user) erased cs)
  Rotated-IsCoherent {user} {hash} {t} R cs h =
      invalidate-IsCoherent user cs
        (λ c ne r. record {
          known = λ p. subst (λ n. c.user_id < n) (sym (Rotated-users R).1) (r.known p);
          current = λ p u o i k f.
              r.current p u (subst (Occurs u) (Rotated-users R).0 o) i k
                (sym (Rotated-kek_other R u.id (ap (λ n. n == user) i ∙ ne)) ∙ f);
        })
        h

  -- It returns SSM_OK with the keys of the user replaced, or the vault is as it was but for the audit
  -- log.
  pub ssm_kek_rotate-Renewed :
      (username_ptr : Option Bytes)
      → Runs e v
          (ssm_kek_rotate username_ptr)
          (λ _ v'. (t : Tables) × Renewed e username_ptr v.tables t × Done e t v v')
          (λ _ v'. Served e v v')
  unfolding ssm_kek_rotate cache_invalidate
  ssm_kek_rotate-Renewed username_ptr =
      Reads-bind (Reads-deref username_ptr err_internal) (λ _. served)
        λ username named.
          Runs-bind
            (Runs-weaken (find_user_or_refuse-Runs op_rotate username) (λ _ _ h. h)
              (λ _ _ h. Logged-Served G.coherent h.1))
            λ u v₁ h. rw h.0 (
              Runs-bind
                (Runs-attempt {S = Attempted u} {T = λ _ v'. Served e v v'}
                  (kek_rotate-Runs L S u.id u.password_hash v G.idle))
                (ended username u named h.1))
    where
      Attempted : User → Option (Unit {0}) → Vault → Type 0
      Attempted u (some _) v' = Rotated e u.id u.password_hash v.tables v'.tables × OnlyTables v v'
      Attempted u none v' = v' ≡ v

      ended :
          (username : Bytes) (u : User)
          → username_ptr ≡ some username
          → find_user username v.tables ≡ some u
          → (o : Option (Unit {0})) (v₁ : Vault) → Attempted u o v₁
          → Runs e v₁
              (end_rotate username u o)
              (λ _ v'. (t : Tables) × Renewed e username_ptr v.tables t × Done e t v v')
              (λ _ v'. Served e v v')
      ended username u named found none v₁ p = rw p (
          Runs-weaken (refuse-Runs _ _ _ _ _ _) (λ _ _ x. x)
            (λ _ _ x. Logged-Served G.coherent x.1))
      ended username u named found (some _) v₁ (R, p) = Runs-after_modify _ (
          Runs-weaken (audit_write-Runs _ _ _ _ _ _)
            (λ _ v₂ l. (
              v₁.tables,
              record { username = username; named = named; user = u; found = found; rotated = R },
              left_then-Logged
                  (ap (λ (w : Vault). record w { cache = amend (holds u.id) erased w.cache }) p)
                  (Rotated-IsCoherent R v.cache G.coherent) l,
            ))
            (λ _ _ y. y))

  -- In a vault with sound tables, a coherent cache and no open transaction, with lawful ciphers,
  -- where BEGIN and COMMIT are not refused and every row can be read: a rotation changes no secret
  -- of any user whether it returns SSM_OK or not, and with SSM_OK the version of the KEK of the
  -- user goes up by one.
  pub ssm_kek_rotate-reveal :
      ((n : ℕ) → e.row_fails n ≡ false)
      → (username_ptr : Option Bytes)
      → Runs e v
          (ssm_kek_rotate username_ptr)
          (λ _ v'.
            ((username name : Bytes)
              → reveal e v'.tables username name ≡ reveal e v.tables username name)
            × ((u : User) (k k' : KekRow)
                → (username_ptr and_then λ n. find_user n v.tables) ≡ some u
                → find_kek u.id v.tables ≡ some k
                → find_kek u.id v'.tables ≡ some k'
                → k'.kek_version ≡ suc k.kek_version))
          (λ _ v'.
            (username name : Bytes)
            → reveal e v'.tables username name ≡ reveal e v.tables username name)
  ssm_kek_rotate-reveal complete username_ptr =
      Runs-weaken (ssm_kek_rotate-Renewed username_ptr)
        (λ _ v' h.
          let N = h.1 in
          (
            λ username name.
                Done-reveal h.2 username name
                ∙ Rotated-reveal L G.sound complete N.rotated
                    (λ x o i.
                      ap (λ (y : User). y.password_hash)
                        (user_by_id x N.user G.sound o
                          (find_user-Occurs N.username v.tables N.found) i))
                    username name,
            λ u k k' p f f'. version_raised h.2 N u k k' p f f',
          ))
        (λ _ v' h. Done-reveal h)
