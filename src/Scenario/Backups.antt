-- ===== src/Scenario/Backups.antt =====
-- The theorems on a backup and its restoration, applied to the scenario.
use vaultine.Prelude.{
  ◌<◌, length, ◌++◌, Bytes, codes, eqb, ◌≡◌, refl, false, none, some, replicate, length-replicate,
  arith,
}
use vaultine.World.{Env, IsLawful, Vault}
use vaultine.Exec.Runs.{Runs, Reads}
use vaultine.Backup.{has_path_traversal, contains}
use vaultine.Ssm.Handle.{Disk, ssm_backup_create, ssm_backup_restore}
use vaultine.Ssm.Handle.Paths.{is_file, template_fits, split_path, temporary_path}
use vaultine.Ssm.Handle.Split.{has_slash, IsDirectory, temporary_path-split}
use vaultine.Ssm.Handle.Restore.{after_write, ssm_backup_restore-ssm_backup_create}
use vaultine.Scenario.{toy, toy-IsLawful, vault}

-- Random bytes that are letters, as in the names of mkstemp.
abbrev lettered : Env
lettered = record toy { random = λ _ len. replicate len 65 }

lettered-IsLawful : IsLawful lettered
lettered-IsLawful = record {
  random_length = λ i n. length-replicate n 65;
  parse_format = toy-IsLawful.parse_format;
  hash_length = toy-IsLawful.hash_length;
  verify_hash = toy-IsLawful.verify_hash;
  pwhash_length = toy-IsLawful.pwhash_length;
  wrap_length = toy-IsLawful.wrap_length;
  unwrap_wrap = toy-IsLawful.unwrap_wrap;
  seal_length = toy-IsLawful.seal_length;
  tag_length = toy-IsLawful.tag_length;
  open_seal = toy-IsLawful.open_seal;
  sha256_length = toy-IsLawful.sha256_length;
  hmac_length = toy-IsLawful.hmac_length;
}

abbrev db_path : Bytes
db_path = codes "/srv/vault.db"

abbrev backup_path : Bytes
backup_path = codes "vault.bak"

-- A disk on which a database file is read as the tables of the scenario.
abbrev disk : Disk
disk = record {
  sqlcipher = false;
  db_path = db_path;
  files = λ _. none;
  image = λ _. codes "SQLite format 3";
  load = λ _. some vault.tables;
}

no_traversal : has_path_traversal (some (temporary_path db_path (replicate 6 65))) ≡ false
unfolding has_path_traversal temporary_path split_path eqb contains
no_traversal = refl

ssm_backup_example :
    Reads lettered vault (ssm_backup_create disk (some backup_path) (some (replicate 32 1))) (λ out.
      (v' : Vault)
      → Runs lettered v'
          (ssm_backup_restore
            (after_write disk backup_path out)
            (some backup_path)
            (some (replicate 32 1)))
          (λ _ v''. v'' ≡ record v' { tables = vault.tables; saved = none })
          (λ _ _. ⊥))
unfolding has_path_traversal is_file template_fits split_path eqb contains
ssm_backup_example =
    ssm_backup_restore-ssm_backup_create lettered-IsLawful (λ _. refl) (λ _. refl) disk disk
      (some backup_path) (some (replicate 32 1)) backup_path refl refl (omega arith) (omega arith)
      refl refl refl (λ i. no_traversal)

temporary_path_example :
    (directory : Bytes) × (base : Bytes) × (db_path ≡ directory ++ base)
    × (temporary_path db_path (codes "AbCdEf")
        ≡ directory ++ (codes "." ++ (base ++ (codes "." ++ codes "AbCdEf"))))
    × (has_slash base ≡ false)
    × IsDirectory directory
    × (length (temporary_path db_path (codes "AbCdEf")) < 512)
    × (length directory < 512)
unfolding template_fits split_path
temporary_path_example = temporary_path-split db_path (codes "AbCdEf") refl refl
