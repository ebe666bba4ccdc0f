-- ===== src/Scenario/Witnesses.antt =====
-- The theorems on the public interface of src/ssm.cc, applied to the vault of the scenario.
use vaultine.Prelude.{
  List, [], ◌∷◌, suc, ◌≤◌, Bytes, codes, ◌≡◌, ◌⊎◌, refl, true, ◌&&◌, none, some, if◌then◌else◌,
}
use vaultine.World.{User, KekRow}
use vaultine.Exec.Runs.{Runs}
use vaultine.Db.Sql.{find_user, find_kek}
use vaultine.Reveal.{◌and_then◌, reveal}
use vaultine.Scenario.{toy, toy-IsLawful, toy-IsSteady, alice, password, vault, vault-IsGood}
use vaultine.Ssm.Done.{IsGood, Served}
use vaultine.Ssm.Calls.{
  Call, user_register, kek_rotate, secret_store, secret_get, user_delete, run_all,
}
use vaultine.Ssm.Calls.Good.{run_all-IsGood}
use vaultine.Ssm.Calls.Spec.{specified, answers}
use vaultine.Ssm.Calls.Refines.{run_all-specified}
use vaultine.Ssm.Users.Register.Reveal.{Member, ssm_user_register-reveal}
use vaultine.Ssm.Secrets.{StoreRequest, ssm_secret_get, ssm_secret_store, ssm_secret_delete}
use vaultine.Ssm.Secrets.Get.{ssm_secret_get-Runs}
use vaultine.Ssm.Secrets.Store.{meets, ssm_secret_store-reveal}
use vaultine.Ssm.Secrets.Delete.{ssm_secret_delete-reveal}
use vaultine.Ssm.Users.ChangePassword.{ssm_user_change_password-reveal}
use vaultine.Ssm.Users.{
  ssm_user_register, ssm_user_change_password, ssm_kek_rotate, ssm_user_authenticate,
  ssm_user_delete,
}
use vaultine.Ssm.Users.Rotate.{ssm_kek_rotate-reveal}
use vaultine.Ssm.Users.Access.{Knows, ssm_user_authenticate-Runs, ssm_user_delete-reveal}

abbrev mail : Bytes
mail = codes "mail"

abbrev request : StoreRequest
request = record {
  username = some alice;
  private_key = some (codes "second");
  public_key = none;
  name = some (codes "bank");
  description = none;
}

ssm_secret_get_example :
    Runs toy vault
      (ssm_secret_get (some alice) (some mail) 64 (some 64))
      (λ b v'.
        (b.private_key ≡ (some alice and_then λ u. some mail and_then reveal toy vault.tables u))
        × (b.private_key_len ≤ 64)
        × Served toy vault v')
      (λ _ v'. Served toy vault v')
ssm_secret_get_example = ssm_secret_get-Runs vault-IsGood (some alice) (some mail) 64 (some 64)

ssm_secret_store_example :
    Runs toy vault
      (ssm_secret_store request)
      (λ _ v'.
        (username name : Bytes)
        → reveal toy v'.tables username name ≡ (
            if meets username request.username && meets name request.name
            then request.private_key
            else reveal toy vault.tables username name))
      (λ _ v'.
        (username name : Bytes)
        → reveal toy v'.tables username name ≡ reveal toy vault.tables username name)
ssm_secret_store_example = ssm_secret_store-reveal vault-IsGood toy-IsLawful request

ssm_secret_delete_example :
    Runs toy vault
      (ssm_secret_delete (some alice) (some mail))
      (λ _ v'.
        (username name : Bytes)
        → reveal toy v'.tables username name ≡ (
            if meets username (some alice) && meets name (some mail)
            then none
            else reveal toy vault.tables username name))
      (λ _ v'.
        (username name : Bytes)
        → reveal toy v'.tables username name ≡ reveal toy vault.tables username name)
ssm_secret_delete_example = ssm_secret_delete-reveal vault-IsGood (some alice) (some mail)

ssm_kek_rotate_example :
    Runs toy vault
      (ssm_kek_rotate (some alice))
      (λ _ v'.
        ((username name : Bytes)
          → reveal toy v'.tables username name ≡ reveal toy vault.tables username name)
        × ((u : User) (k k' : KekRow)
            → (some alice and_then λ n. find_user n vault.tables) ≡ some u
            → find_kek u.id vault.tables ≡ some k
            → find_kek u.id v'.tables ≡ some k'
            → k'.kek_version ≡ suc k.kek_version))
      (λ _ v'.
        (username name : Bytes)
        → reveal toy v'.tables username name ≡ reveal toy vault.tables username name)
ssm_kek_rotate_example =
    ssm_kek_rotate-reveal toy-IsLawful toy-IsSteady vault-IsGood (λ _. refl) (some alice)

ssm_user_authenticate_example :
    Runs toy vault
      (ssm_user_authenticate (some alice) (some password))
      (λ b v'.
        (b ≡ true → Knows toy vault.tables (some alice) (some password)) × Served toy vault v')
      (λ _ v'. Served toy vault v')
ssm_user_authenticate_example = ssm_user_authenticate-Runs vault-IsGood (some alice) (some password)

ssm_user_delete_example :
    Runs toy vault
      (ssm_user_delete (some alice) (some password))
      (λ _ v'.
        Knows toy vault.tables (some alice) (some password)
        × ((username name : Bytes)
            → reveal toy v'.tables username name ≡ (
                if meets username (some alice)
                then none
                else reveal toy vault.tables username name)))
      (λ _ v'.
        (username name : Bytes)
        → reveal toy v'.tables username name ≡ reveal toy vault.tables username name)
ssm_user_delete_example = ssm_user_delete-reveal vault-IsGood (some alice) (some password)

ssm_user_change_password_example :
    Runs toy vault
      (ssm_user_change_password (some alice) (some password) (some (codes "open!")))
      (λ _ v'.
        Knows toy vault.tables (some alice) (some password)
        × Knows toy v'.tables (some alice) (some (codes "open!"))
        × ((username name : Bytes)
            → reveal toy v'.tables username name ≡ reveal toy vault.tables username name))
      (λ _ v'.
        (username name : Bytes)
        → reveal toy v'.tables username name ≡ reveal toy vault.tables username name)
ssm_user_change_password_example =
    ssm_user_change_password-reveal toy-IsLawful toy-IsSteady vault-IsGood (some alice)
      (some password) (some (codes "open!"))

abbrev session : List Call
session =
    user_register (some (codes "bob")) (some password)
    ∷ secret_store request
    ∷ kek_rotate (some alice)
    ∷ secret_get (some alice) (some mail) 64 none
    ∷ user_delete (some alice) (some password)
    ∷ []

run_all_example : IsGood toy (run_all session toy (record { calls = 0; vault = vault })).vault
run_all_example =
    run_all-IsGood toy-IsLawful toy-IsSteady session (record { calls = 0; vault = vault })
      vault-IsGood

run_all-specified_example :
    reveal toy
      (run_all session toy (record { calls = 0; vault = vault })).vault.tables
      alice
      (codes "bank")
    ≡ specified
        (answers session toy (record { calls = 0; vault = vault }))
        (reveal toy vault.tables)
        alice
        (codes "bank")
run_all-specified_example =
    run_all-specified toy-IsLawful toy-IsSteady (λ _. refl) session
      (record { calls = 0; vault = vault }) vault-IsGood alice (codes "bank")

ssm_user_register_example :
    Runs toy vault
      (ssm_user_register (some (codes "bob")) (some (codes "hunter")))
      (λ _ v'.
        (((username : Bytes) × (u : User) × (some (codes "bob") ≡ some username)
            × (find_user username vault.tables ≡ some u))
          ⊎ Member toy v'.tables (some (codes "bob")) (some (codes "hunter")))
        × ((username name : Bytes)
            → reveal toy v'.tables username name ≡ reveal toy vault.tables username name))
      (λ _ v'.
        (username name : Bytes)
        → reveal toy v'.tables username name ≡ reveal toy vault.tables username name)
ssm_user_register_example =
    ssm_user_register-reveal vault-IsGood (some (codes "bob")) (some (codes "hunter")) toy-IsLawful
