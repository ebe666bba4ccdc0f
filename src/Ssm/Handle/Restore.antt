-- ===== src/Ssm/Handle/Restore.antt =====
-- ssm_backup_restore of src/ssm.cc on what ssm_backup_create wrote.
use mathlib.Core.Path.{subst⁻¹}
use vaultine.Prelude.{
  ℕ, ◌≤◌, ◌<◌, length, ◌≡◌, refl, sym, ◌∙◌, ap, Bytes, true, false, ◌==◌, leb, Option, none, some,
  arith, eqb_refl,
}
use vaultine.World.{Env, IsLawful, Vault, Tables, err_internal}
use vaultine.Exec.{Exec, ignore_call}
use vaultine.Exec.Runs.{
  Runs, Reads, Runs-weaken, Runs-after_modify, Runs-attempt, Reads-call, ◌⨾◌, Reads-require,
  Reads-map, Reads-chain, Reads-deref, Reads-or_return, Reads-gets, Runs-leaving,
}
use mathlib.Core.Bool.{false≢true}
use mathlib.Core.Option.{some-injective}
use vaultine.Reveal.{◌and_then◌}
use vaultine.Exec.Stays.{Runs-or_else}
use vaultine.Exec.Sure.{
  Sure, Sure-bind, Sure-map, Sure-pure, Sure-gets, Sure-deref, Sure-require, Sure-call,
  Sure-or_return, Sure-leaving, Sure-attempted, Sure-random_bytes, ◌⨟◌,
}
use vaultine.Db.{restored, with_tables}
use vaultine.Db.Migrations.{db_create_schema, db_migrate, db_get_version}
use vaultine.Db.Migrations.Runs.{Sure-there}
use vaultine.Crypto.{int_limit}
use vaultine.Backup.{has_path_traversal, backup_restore}
use vaultine.Backup.Restore.{backup_restore-later}
use vaultine.Ssm.Handle.{
  Disk, db_open, sqlcipher_is_present, null_handle, bad_handle, read_version, verify_restored,
  replace_database, after_checkpoint, written, ssm_backup_create, ssm_backup_restore,
}
use vaultine.Ssm.Handle.Paths.{is_file, template_fits, temporary_path}

-- The vault after its connection was closed and one to tables `t` was opened.
abbrev reopened : Tables → Vault → Vault
reopened t v = record v { tables = t; saved = none }

reopened-restored : (t : Tables) (v : Vault) → with_tables (λ _. t) (restored v) ≡ reopened t v
reopened-restored t v = by_saved v.saved refl
  where
    by_saved :
        (s : Option Tables)
        → v.saved ≡ s
        → with_tables
            (λ _. t)
            (elim s [ none ↦ v | some u ↦ record v { tables = u; saved = none } ])
          ≡ reopened t v
    by_saved none p = ap (λ s. record v { tables = t; saved = s }) p
    by_saved (some u) p = refl

nonzero : (k n : ℕ) → 3 ≤ k → n ≡ k → (n == 0) ≡ false
nonzero k n h p = ground (arith, h, p)

newest : (k n : ℕ) → 3 ≤ k → n ≡ k → leb 3 n ≡ true
newest k n h p = ground (arith, h, p)

Sure-ignore_call : {E : Type 0} {e : Env} {v : Vault} → Sure {E = E} e v ignore_call (λ _. Unit)
unfolding ignore_call
Sure-ignore_call = record { at = λ n. (refl, tt) }

module _ {e : Env} (quiet : (n : ℕ) → e.fails n ≡ false)
    (complete : (n : ℕ) → e.row_fails n ≡ false) where
  db_get_version-Sure : (v : Vault) → Sure e v db_get_version (λ n. n ≡ v.tables.user_version)
  unfolding db_get_version
  db_get_version-Sure v =
      Sure-call quiet ⨟ Sure-bind (Sure-there complete) λ o p. rw p (Sure-gets _)

  -- A schema that is up to date is left alone.
  module _ (v : Vault) (current : 3 ≤ v.tables.user_version) where
    db_create_schema-Sure : Sure e v db_create_schema (λ _. Unit)
    unfolding db_create_schema
    db_create_schema-Sure =
        Sure-call quiet
        ⨟ Sure-bind (Sure-attempted (db_get_version-Sure v))
            λ o p. rw (p.1, nonzero _ p.0 current p.2) (Sure-map (Sure-pure tt) (λ _ _. tt))

    db_migrate-Sure : Sure e v db_migrate (λ _. Unit)
    unfolding db_migrate
    db_migrate-Sure = Sure-bind (db_get_version-Sure v) λ n p. rw (nonzero _ n current p) (
        Sure-bind (Sure-pure n)
          λ c q. rw (newest _ c current (q ∙ p)) (Sure-map (Sure-pure tt) (λ _ _. tt)))

  read_version-Sure : (v : Vault) (t : Tables) → Sure e v (read_version t) (λ n. n ≡ t.user_version)
  unfolding read_version
  read_version-Sure v t =
      Sure-call quiet ⨟ Sure-bind (Sure-there complete) λ o p. rw p (Sure-pure _)

  db_open-Sure : (v : Vault) (path : Bytes) → Sure e v (db_open false (some path) none) (λ _. Unit)
  unfolding db_open sqlcipher_is_present
  db_open-Sure v path =
      Sure-deref (some path) null_handle refl
      ⨟ Sure-or_return bad_handle (Sure-call quiet)
      ⨟ Sure-bind {P = λ o. o ≡ none}
          (Runs-attempt (
            Runs-weaken (Reads-call ⨾ Reads-require false tt) (λ _ _ q. absurd (false≢true q.1))
              (λ _ _ q. (q, refl))))
          λ o p. rw p (Sure-map (Sure-pure tt) (λ _ _. tt))

  module _ (d : Disk) (plain : d.sqlcipher ≡ false) (image : Bytes) (t : Tables)
      (loads : d.load image ≡ some t) (current : 3 ≤ t.user_version) where
    verify_restored-Sure :
        (v : Vault) (bytes : Bytes)
        → image ≡ bytes
        → Sure e v (verify_restored d bytes) (λ t'. t' ≡ t)
    unfolding verify_restored
    verify_restored-Sure v bytes p =
        Sure-call quiet
        ⨟ Sure-bind (Sure-deref (d.load bytes) tt (ap d.load (sym p) ∙ loads)) λ t' q. rw q (
            Sure-call quiet
            ⨟ Sure-bind (Sure-attempted (read_version-Sure v t)) λ o r.
              rw (r.1, nonzero _ r.0 current r.2)
                (Sure-pure tt
                  ⨟ Sure-bind (read_version-Sure v t)
                      λ n k. Sure-require tt (newest _ n current k) ⨟ Sure-pure t))

    replace_database-Runs :
        (v₀ : Vault) → Runs e v₀ (replace_database d t) (λ _ v'. v' ≡ reopened t v₀) (λ _ _. ⊥)
    unfolding replace_database
    replace_database-Runs v₀ =
        let v = restored v₀ in
        Runs-after_modify restored (
          Sure-bind Sure-ignore_call λ _ _. Sure-bind Sure-ignore_call λ _ _.
            Sure-bind (Sure-attempted (Sure-call quiet)) λ o p. rw p.1 (
              Runs-after_modify _ (
                rw plain (
                  Sure-bind
                    (Runs-or_else (db_open-Sure (with_tables (λ _. t) v) d.db_path)
                      (λ _ _ q. absurd q))
                    λ _ _. Runs-leaving _ {R = λ _ _. ⊥} (
                      Runs-weaken
                        (db_create_schema-Sure (with_tables (λ _. t) v) current
                          ⨟ db_migrate-Sure (with_tables (λ _. t) v) current)
                        (λ _ _ q. q.0 ∙ reopened-restored t v₀) (λ _ _ q. q))))))

    -- A backup of `t` is restored, if backup_restore restores it.
    restores :
        (v : Vault) (path key : Bytes)
        → is_file d.db_path ≡ true
        → template_fits d.db_path ≡ true
        → ((out : Bytes)
            → ((i : ℕ) × (out ≡ temporary_path d.db_path (e.random i 6)))
            → Sure e v (backup_restore d.files (some path) (some out) (some key)) (λ p. image ≡ p))
        → Runs e v
            (ssm_backup_restore d (some path) (some key))
            (λ _ v'. v' ≡ reopened t v)
            (λ _ _. ⊥)
    unfolding ssm_backup_restore
    restores v path key file fits restored =
        Sure-bind (Sure-leaving _ (Sure-deref (some path) err_internal refl)) λ path₁ p.
          Sure-bind (Sure-leaving _ (Sure-deref (some key) err_internal refl)) λ key₁ q.
            rw (p, q)
              (Sure-bind (Sure-leaving _ (Sure-require err_internal file)) λ _ _.
                Sure-bind (Sure-random_bytes 6) λ suffix r.
                  Sure-bind (Sure-leaving _ (Sure-require err_internal fits)) λ _ _.
                    Sure-bind (Sure-leaving _ (Sure-or_return err_internal (Sure-call quiet)))
                      λ _ _.
                        Sure-bind
                          (Sure-leaving _ (
                            Sure-or_return err_internal (
                              restored (temporary_path d.db_path suffix)
                                (r.0, ap (temporary_path d.db_path) r.1))))
                          λ plaintext h.
                            Sure-bind
                              (Sure-leaving _
                                (Sure-or_return err_internal (verify_restored-Sure v plaintext h)))
                              λ t' k. rw k (replace_database-Runs v))

-- The files once a file was written.
abbrev pub after_write : Disk → Bytes → Bytes → Disk
after_write d path bytes = record d { files = written path bytes d.files }

module _ {e : Env} {v : Vault} where
  -- Where no foreign call reports an error, every row can be read and the ciphers are lawful, on a
  -- build without SQLCipher, for tables of version 3 or a later one that SQLite reads back from the
  -- file that holds them, which is below 2 GiB, and where the database is a file whose path fits into
  -- the buffer and no path has a traversal: what ssm_backup_create wrote at a path is restored from
  -- it with SSM_OK, whatever has become of the vault in the meantime, and then the vault has the
  -- tables that it had at the time of the backup, no transaction is open, and it is otherwise as it
  -- was.
  pub ssm_backup_restore-ssm_backup_create :
      IsLawful e
      → ((n : ℕ) → e.fails n ≡ false)
      → ((n : ℕ) → e.row_fails n ≡ false)
      → (d d' : Disk) (path_ptr key_ptr : Option Bytes) (path : Bytes) → d'.sqlcipher ≡ false
      → d'.load (d.image v.tables) ≡ some v.tables
      → length (d.image v.tables) < int_limit
      → 3 ≤ v.tables.user_version
      → is_file d'.db_path ≡ true
      → template_fits d'.db_path ≡ true
      → has_path_traversal (some path) ≡ false
      → ((i : ℕ) → has_path_traversal (some (temporary_path d'.db_path (e.random i 6))) ≡ false)
      → Reads e v (ssm_backup_create d path_ptr key_ptr) (λ out.
        (v' : Vault)
        → Runs e v'
            (ssm_backup_restore (after_write d' path out) (some path) key_ptr)
            (λ _ v''. v'' ≡ record v' { tables = v.tables; saved = none })
            (λ _ _. ⊥))
  unfolding ssm_backup_create
  ssm_backup_restore-ssm_backup_create L quiet complete d d' path_ptr key_ptr path plain loads short
        current file fits ps pt =
      Reads-chain (Reads-deref path_ptr err_internal) λ dst _.
        Reads-chain (Reads-deref key_ptr err_internal) λ key k.
          Reads-chain (sure (Sure-attempted (Sure-call quiet))) λ moved q.
            Reads-chain (Reads-require (is_file d.db_path) err_internal) λ _ _.
              Reads-chain (Reads-gets _) λ t g. Reads-or_return err_internal (
                Reads-map
                  (backup_restore-later L quiet (after_checkpoint d t moved) (some d.db_path)
                    (some dst) (some key))
                  λ out h v'.
                    subst⁻¹
                      (λ (o : Option Bytes).
                        Runs e v' (ssm_backup_restore (after_write d' path out) (some path) o)
                          (λ _ v''. v'' ≡ reopened v.tables v') (λ _ _. ⊥))
                      k
                      (restores quiet complete (after_write d' path out) plain (d.image v.tables)
                        v.tables loads current v' path key file fits
                        (λ copy r.
                          Sure-map
                            (h v' (written path out d'.files) path copy ps
                              (ap (λ o. has_path_traversal (some o)) r.1 ∙ pt r.0)
                              (rw (eqb_refl path) refl))
                            (λ p z. some-injective _ _ (sym (backed t moved g q.1) ∙ z)))))
    where
      backed :
          (t : Tables) (moved : Option (Unit {0}))
          → t ≡ v.tables
          → moved ≡ some tt
          → (some d.db_path and_then after_checkpoint d t moved) ≡ some (d.image v.tables)
      backed t moved g q = rw (q, g, eqb_refl d.db_path) refl

      sure : {E A : Type 0} {m : Exec E A} {P : A → Type 0} → Sure e v m P → Reads e v m P
      sure h = Runs-weaken h (λ _ _ q. q) (λ _ _ q. absurd q)
