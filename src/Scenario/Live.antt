-- ===== src/Scenario/Live.antt =====
-- The theorems on what the operations on secrets return where no foreign call reports an error,
-- applied to the scenario.
use vaultine.Prelude.{Bytes, codes, ◌≡◌, refl, ◌&&◌, none, some, [], arith, if◌then◌else◌, eqb}
use vaultine.Exec.Runs.{Runs}
use vaultine.Reveal.{reveal, wrapping_key}
use vaultine.Ssm.Done.{Served}
use vaultine.Ssm.Healthy.{IsLive}
use vaultine.World.{Env, err_expired}
use vaultine.Ssm.Secrets.{
  StoreRequest, op_store, op_get, op_delete, empty_buffers, ssm_secret_store, ssm_secret_get,
  ssm_secret_delete,
}
use vaultine.Ssm.Secrets.Expired.{Expires, OneEntry, expired_event, ssm_secrets-Expires}
use vaultine.Ssm.Secrets.Store.{meets}
use vaultine.Ssm.Secrets.Live.{Holds, ssm_secret_store-Live, ssm_secret_get-Live}
use vaultine.Scenario.{
  toy, toy-IsLawful, alice, hash, kek, vault, vault-IsGood, alice_user, alice_kek, alice_secret,
}

abbrev alice-IsLive : IsLive toy alice_user alice_kek
alice-IsLive = record {
  kek = kek;
  opened = toy-IsLawful.unwrap_wrap (wrapping_key toy hash alice_kek) kek;
  hashed = refl;
  salted = omega arith;
  whole = refl;
  expiry = 1000000;
  dated = refl;
  ahead = λ n. omega arith;
}

alice_secret-Holds : Holds toy kek alice_secret (codes "key")
alice_secret-Holds = record {
  opened = toy-IsLawful.open_seal kek alice_secret.nonce [] (codes "key");
  filled_parts = refl;
  short = refl;
}

abbrev bank : Bytes
bank = codes "bank"

abbrev bank_key : Bytes
bank_key = codes "second"

abbrev bank_request : StoreRequest
bank_request = record {
  username = some alice;
  private_key = some bank_key;
  public_key = none;
  name = some bank;
  description = none;
}

ssm_secret_store-Live_example :
    Runs toy vault
      (ssm_secret_store bank_request)
      (λ _ v'.
        (username name : Bytes)
        → reveal toy v'.tables username name ≡ (
            if meets username bank_request.username && meets name bank_request.name
            then bank_request.private_key
            else reveal toy vault.tables username name))
      (λ _ _. ⊥)
unfolding vaultine.Db.Sql.find_user vaultine.Db.Sql.find_kek eqb
ssm_secret_store-Live_example =
    ssm_secret_store-Live toy-IsLawful (λ _. refl) vault-IsGood alice alice_user refl alice_kek refl
      alice-IsLive bank_request bank_key bank refl refl refl refl refl

ssm_secret_get-Live_example :
    Runs toy vault
      (ssm_secret_get (some alice) (some (codes "mail")) 64 none)
      (λ b v'. (b.private_key ≡ some (codes "key")) × Served toy vault v')
      (λ _ _. ⊥)
unfolding vaultine.Db.Sql.find_user vaultine.Db.Sql.find_kek vaultine.Db.Sql.find_secret eqb
ssm_secret_get-Live_example =
    ssm_secret_get-Live toy-IsLawful (λ _. refl) vault-IsGood alice alice_user refl alice_kek refl
      alice-IsLive (codes "mail") (codes "key") alice_secret 64 refl alice_secret-Holds
      (omega arith)

-- The same at a later time.
abbrev later : Env
later = record toy { clock = λ _. 2000000 }

ssm_secrets-Expires_example :
    Expires later vault alice alice_user op_store bank (
      ssm_secret_store (record {
        username = some alice;
        private_key = some bank_key;
        public_key = none;
        name = some bank;
        description = none;
      }))
    × Runs later vault
        (ssm_secret_get (some alice) (some bank) 64 none)
        (λ _ _. ⊥)
        (λ s v'.
          (s ≡ (err_expired, empty_buffers 64 none))
          × OneEntry (expired_event alice alice_user op_get bank) vault v')
    × Expires later vault alice alice_user op_delete bank
        (ssm_secret_delete (some alice) (some bank))
unfolding vaultine.Db.Sql.find_user vaultine.Db.Sql.find_kek eqb
ssm_secrets-Expires_example =
    ssm_secrets-Expires (λ _. refl) alice alice_user refl alice_kek refl 1000000 refl
      (λ n. omega arith) bank bank_key none none 64 none refl
