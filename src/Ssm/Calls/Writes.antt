-- ===== src/Ssm/Calls/Writes.antt =====
-- The public functions of src/ssm.cc that work on the open database keep its invariant: sound tables,
-- a coherent cache, and no transaction left open.
use mathlib.Core.Path.{subst⁻¹}
use vaultine.Prelude.{ℕ, Bytes, Option, List, [], ◌∷◌}
use vaultine.World.{Env, IsLawful, Vault, Tables, SecretRow}
use vaultine.Exec.{Exec}
use vaultine.Exec.Runs.{Runs-weaken}
use vaultine.Exec.Stays.{Stays}
use vaultine.Db.Transaction.{IsSteady}
use vaultine.Kek.Reencrypt.{Rounds}
use vaultine.Kek.Rotation.{Rotated}
use vaultine.Sound.{IsSound}
use vaultine.Sound.Statements.{
  insert_secret-IsSound, delete_secret-IsSound, delete_user-IsSound, set_password_hash-IsSound,
  set_wrapped_kek-IsSound, update_kek-IsSound, update_secret-IsSound,
}
use vaultine.Ssm.Done.{IsGood, Done, Served, Done-IsGood}
use vaultine.Ssm.Secrets.Store.{ssm_secret_store-Inserted}
use vaultine.Ssm.Secrets.Delete.{ssm_secret_delete-Deleted}
use vaultine.Ssm.Users.Access.{ssm_user_authenticate-Runs, ssm_user_delete-Deleted}
use vaultine.Ssm.Users.ChangePassword.{ssm_user_change_password-Changed}
use vaultine.Ssm.Users.Register.Reveal.{ssm_user_register-IsGood}
use vaultine.Ssm.Users.Rotate.{ssm_kek_rotate-Renewed}
use vaultine.Ssm.Users.{
  ssm_user_register, ssm_user_authenticate, ssm_user_delete, ssm_user_change_password,
  ssm_kek_rotate,
}
use vaultine.Ssm.Secrets.{StoreRequest, ssm_secret_store, ssm_secret_delete}
use vaultine.Ssm.Calls.Reads.{OnlyServes}

Rounds-IsSound :
    (e : Env) (old new : Bytes) (ss : List SecretRow) (t t' : Tables)
    → Rounds e old new ss t t'
    → IsSound t
    → IsSound t'
Rounds-IsSound e old new [] t t' p V = subst⁻¹ IsSound p V
Rounds-IsSound e old new (s ∷ ss) t t' (x, now, _, rest) V =
    Rounds-IsSound e old new ss _ t' rest (update_secret-IsSound t V s.id x now)

Rotated-IsSound :
    {e : Env} {user : ℕ} {hash : Bytes} {t t' : Tables}
    → Rotated e user hash t t'
    → IsSound t
    → IsSound t'
Rotated-IsSound {e} {user} {t = t} R V = subst⁻¹ IsSound R.final (
    update_kek-IsSound R.between (Rounds-IsSound e R.old R.new R.rows t R.between R.rounds V) user _
      _ _ _)

module _ {e : Env} where
  done : {v v' : Vault} {t : Tables} → IsGood e v → IsSound t → Done e t v v' → IsGood e v'
  done G V h = Done-IsGood h G.idle V

  pub served : {v v' : Vault} → IsGood e v → Served e v v' → IsGood e v'
  served G h = done G G.sound h

  pub OnlyServes-Stays :
      {E A : Type 0} {m : Exec E A}
      → ((v : Vault) → IsGood e v → OnlyServes e v m)
      → Stays e (IsGood e) m
  OnlyServes-Stays h v G = Runs-weaken (h v G) (λ _ _ k. served G k) (λ _ _ k. served G k)

module _ {e : Env} (L : IsLawful e) (S : IsSteady e) where
  pub ssm_user_register-Stays : (u p : Option Bytes) → Stays e (IsGood e) (ssm_user_register u p)
  ssm_user_register-Stays u p v G = (ssm_user_register-IsGood G u p)

  pub ssm_user_authenticate-Stays :
      (u p : Option Bytes) → Stays e (IsGood e) (ssm_user_authenticate u p)
  ssm_user_authenticate-Stays u p v G =
      (Runs-weaken (ssm_user_authenticate-Runs G u p) (λ _ _ h. served G h.1) (λ _ _ h. served G h))

  pub ssm_user_delete-Stays : (u p : Option Bytes) → Stays e (IsGood e) (ssm_user_delete u p)
  ssm_user_delete-Stays u p v G =
      (Runs-weaken (ssm_user_delete-Deleted G u p)
        (λ _ _ h. done G (delete_user-IsSound v.tables G.sound h.0.user.id) h.1)
        (λ _ _ h. served G h))

  pub ssm_user_change_password-Stays :
      (u p q : Option Bytes) → Stays e (IsGood e) (ssm_user_change_password u p q)
  ssm_user_change_password-Stays u p q v G =
      (Runs-weaken (ssm_user_change_password-Changed L S G u p q)
        (λ _ _ h.
          done G
            (subst⁻¹ IsSound h.1.rehashed.final (
              set_wrapped_kek-IsSound _
                (set_password_hash-IsSound v.tables G.sound h.1.knows.user.id _) h.1.knows.user.id
                _))
            h.2)
        (λ _ _ h. served G h))

  pub ssm_kek_rotate-Stays : (u : Option Bytes) → Stays e (IsGood e) (ssm_kek_rotate u)
  ssm_kek_rotate-Stays u v G =
      (Runs-weaken (ssm_kek_rotate-Renewed L S G u)
        (λ _ _ h. done G (Rotated-IsSound h.1.rotated G.sound) h.2) (λ _ _ h. served G h))

  pub ssm_secret_store-Stays : (r : StoreRequest) → Stays e (IsGood e) (ssm_secret_store r)
  ssm_secret_store-Stays r v G =
      (Runs-weaken (ssm_secret_store-Inserted G r)
        (λ _ _ h.
          done G
            (subst⁻¹ IsSound h.1.final
              (insert_secret-IsSound v.tables G.sound h.1.row h.1.now h.1.free h.1.known))
            h.2)
        (λ _ _ h. served G h))

  pub ssm_secret_delete-Stays : (u m : Option Bytes) → Stays e (IsGood e) (ssm_secret_delete u m)
  ssm_secret_delete-Stays u m v G =
      (Runs-weaken (ssm_secret_delete-Deleted G u m)
        (λ _ _ h.
          done G
            (subst⁻¹ IsSound h.1.final
              (delete_secret-IsSound v.tables G.sound h.1.user.id h.1.name))
            h.2)
        (λ _ _ h. served G h))
