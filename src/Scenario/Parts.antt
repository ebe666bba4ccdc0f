-- ===== src/Scenario/Parts.antt =====
-- The theorems on the parts behind the public interface, applied to the scenario.
use vaultine.Prelude.{
  ℕ, ◌≢◌, ◌≤◌, ◌<◌, ◌+◌, Bytes, codes, ◌≡◌, refl, ◌⊎◌, ◌↔◌, inl, inr, true, false, Option, none,
  some, [], ◌∷◌, ◌++◌, length, replicate, arith,
}
use mathlib.Core.Path.{subst}
use mathlib.Core.Option.{some-injective}
use vaultine.Crypto.{int_limit}
use vaultine.Exec.{◌>>◌}
use vaultine.Cache.Inserted.{KeyOf, cache_lookup-cache_insert}
use vaultine.World.{World, Vault, CacheEntry, err_internal}
use vaultine.Exec.Runs.{Runs, Reads}
use vaultine.Exec.Sure.{Sure}
use vaultine.Reveal.{◌and_then◌, wrapping_key, unlock}
use vaultine.Cache.{cache_insert, cache_lookup, cached_key, pick_slot}
use vaultine.Cache.Coherent.{CacheMoved, cache_lookup-Runs}
use vaultine.Cache.Slots.{Picks, pick_slot-Picks, pick_slot-found}
use vaultine.Kek.{kek_rotate}
use vaultine.Kek.Rotation.{Rotated, kek_rotate-Runs}
use vaultine.Db.Transaction.{OnlyTables}
use vaultine.Db.Migrations.{db_migrate}
use vaultine.Db.Migrations.Runs.{IsVersioned, Migrated, db_migrate-Runs}
use vaultine.Backup.{has_path_traversal, backup_create, backup_restore}
use vaultine.Backup.Restore.{backup_restore-backup_create}
use vaultine.Export.Escape.{json_escape, csv_escape}
use vaultine.Export.Escape.Readers.{read_json, read_csv, read_json-json_escape, read_csv-csv_escape}
use vaultine.Export.{export_metadata}
use vaultine.Export.Renamed.{export_metadata-renamed}
use vaultine.Export.Renamed.Rows.{in_renamed}
use vaultine.Hex.{hex_val, decode_loop, hex_decode, hex_decode_vector, hex_encode}
use vaultine.Hex.Written.{Pairs, hex_decode-hex_decode_vector, hex_decode-Pairs}
use vaultine.Hex.RoundTrip.{hex_decode-hex_encode}
use vaultine.Ssm.{open_kek}
use vaultine.Ssm.Done.{IsGood, open_kek-Runs}
use vaultine.Ssm.Handle.{vacant, ssm_init}
use vaultine.Ssm.Handle.Init.{Begun, Current, ssm_init-IsGood}
use vaultine.Scenario.{
  toy, toy-IsLawful, toy-IsSteady, vault, vault-IsGood, alice_user, alice_kek, hash,
}

cache_lookup_example :
    Runs {E = Unit {0}} toy vault
      (cache_lookup alice_user.id)
      (λ o v'.
        ((o ≡ none) ⊎ (o ≡ some (wrapping_key toy alice_user.password_hash alice_kek)))
        × CacheMoved toy vault v')
      (λ _ v'. CacheMoved toy vault v')
unfolding vaultine.Db.Sql.find_kek
cache_lookup_example =
    cache_lookup-Runs vault vault-IsGood.sound vault-IsGood.coherent alice_user alice_kek (inl refl)
      refl

open_kek_example :
    Runs toy vault
      (open_kek alice_user alice_kek)
      (λ kek v'.
        (unlock toy alice_user.password_hash alice_kek ≡ some kek) × CacheMoved toy vault v')
      (λ _ v'. CacheMoved toy vault v')
unfolding vaultine.Db.Sql.find_kek
open_kek_example = open_kek-Runs vault-IsGood alice_user alice_kek (inl refl) refl

abbrev entry : CacheEntry
entry = record { user_id = 1; key = replicate 32 5; last_used = 3; valid = true }

-- A cache with a valid entry of another user.
abbrev half_full : Vault
half_full = record vault { cache = record entry { user_id = 2; last_used = 0 } ∷ vacant ∷ [] }

cache_insert_example :
    Runs {E = Unit {0}} toy half_full
      (cache_insert 1 (replicate 32 5) >> cache_lookup 1)
      (λ o _. o ≡ some (replicate 32 5))
      (λ _ _. ⊥)
    × ((other : ℕ)
        → other ≢ 1
        → Runs {E = Unit {0}} toy half_full
            (cache_insert 1 (replicate 32 5) >> cache_lookup other)
            (λ o _. (o ≡ none) ⊎ KeyOf other half_full.cache o)
            (λ _ _. ⊥))
unfolding cached_key
cache_insert_example =
    cache_lookup-cache_insert half_full 1 (replicate 32 5) (omega arith)
      (λ n. (omega arith, (omega arith, tt))) refl

pick_slot_example :
    (i : ℕ) × (pick_slot 0 none (9 + 1) (entry ∷ vacant ∷ []) ≡ some i)
    × (i < length (entry ∷ vacant ∷ []))
pick_slot_example = pick_slot-found 9 entry (vacant ∷ []) (omega arith, (omega arith, tt))

kek_rotate_example :
    Runs toy vault
      (kek_rotate 1 hash)
      (λ _ v'. Rotated toy 1 hash vault.tables v'.tables × OnlyTables vault v')
      (λ _ v'. v' ≡ vault)
kek_rotate_example = kek_rotate-Runs toy-IsLawful toy-IsSteady 1 hash vault refl

vault-IsVersioned : IsVersioned vault.tables
vault-IsVersioned = record { user_index = λ _. refl; name_index = λ _. refl }

db_migrate_example :
    Runs toy vault db_migrate
      (λ _ v'. Migrated vault v' × (3 ≤ v'.tables.user_version))
      (λ _ v'. Migrated vault v')
db_migrate_example = db_migrate-Runs toy-IsSteady (λ _. refl) vault refl vault-IsVersioned

ssm_init_example :
    Runs toy vault
      (ssm_init true (some (codes "vault.db")) (some (replicate 32 1)))
      (λ _ v'. IsGood toy v' × Current vault.tables v')
      (λ s v'. (s ≡ err_internal) × Begun vault.tables v')
ssm_init_example =
    ssm_init-IsGood toy-IsSteady (λ _. refl) true (some (codes "vault.db")) (some (replicate 32 1))
      vault vault-IsGood.sound vault-IsVersioned refl

abbrev disk : Bytes → Option Bytes
disk path = some (codes "database")

abbrev path : Bytes
path = codes "vault.db"

backup_example :
    Reads toy vault (backup_create disk (some path) (some path) (some (replicate 32 1))) (λ out.
      (disk' : Bytes → Option Bytes) (src' dst' : Bytes)
      → has_path_traversal (some src') ≡ false
      → has_path_traversal (some dst') ≡ false
      → disk' src' ≡ some out
      → Sure toy vault
          (backup_restore disk' (some src') (some dst') (some (replicate 32 1)))
          (λ p. (some path and_then disk) ≡ some p))
backup_example =
    backup_restore-backup_create toy-IsLawful (λ _. refl) disk (some path) (some path)
      (some (replicate 32 1))
      (λ data' p. subst (λ b. length b < int_limit) (some-injective _ _ p) (omega arith))

-- Text with everything in it that has to be escaped.
abbrev awkward : Bytes
awkward = codes "a\"b\\c,d\n"

read_json_example :
    read_json false (json_escape awkward ++ (34 ∷ 58 ∷ [])) ≡ some (awkward, 58 ∷ [])
read_json_example = read_json-json_escape awkward (58 ∷ []) (
  inl (omega arith),
  (
    inl (omega arith),
    (
      inl (omega arith),
      (
        inl (omega arith),
        (inl (omega arith), (inl (omega arith), (inl (omega arith), (inr (inr (inl refl)), tt)))),
      ),
    ),
  ),
)

read_csv_example : read_csv (csv_escape awkward ++ (44 ∷ 58 ∷ [])) ≡ (awkward, 44 ∷ 58 ∷ [])
read_csv_example = read_csv-csv_escape awkward 44 (58 ∷ []) refl

abbrev start : World
start = record { calls = 0; vault = vault }

export_metadata_example :
    (export_metadata true true toy (in_renamed (λ name. codes "nobody") start)).0
    ≡ (export_metadata true true toy start).0
export_metadata_example = export_metadata-renamed (λ name. codes "nobody") toy true start

hex_decode_example : hex_decode (hex_encode (0 ∷ 127 ∷ 255 ∷ [])) 32 ≡ some (0 ∷ 127 ∷ 255 ∷ [])
hex_decode_example =
    hex_decode-hex_encode (0 ∷ 127 ∷ 255 ∷ []) 32 (λ p. cc)
      (omega arith, (omega arith, (omega arith, tt))) (omega arith)

pick_slot_scan_example :
    Picks 0 none 10 (entry ∷ entry ∷ []) (pick_slot 0 none 10 (entry ∷ entry ∷ []))
pick_slot_scan_example = pick_slot-Picks 0 none 10 (entry ∷ entry ∷ [])

-- Two characters for each byte, in either case.
abbrev key_text : Bytes
key_text = codes "0aFF"

hex_decoders_example :
    (hex_decode key_text 32 ≡ some (10 ∷ 255 ∷ []))
    ↔ ((hex_decode_vector key_text ≡ some (10 ∷ 255 ∷ [])) × (length {A = ℕ} (10 ∷ 255 ∷ []) ≤ 32))
hex_decoders_example = hex_decode-hex_decode_vector key_text 32 (10 ∷ 255 ∷ [])

hex_decode-Pairs_example :
    (0 < length {A = ℕ} (10 ∷ 255 ∷ []))
    × (length {A = ℕ} (10 ∷ 255 ∷ []) ≤ 32)
    × Pairs key_text (10 ∷ 255 ∷ [])
unfolding hex_decode decode_loop hex_val
hex_decode-Pairs_example = hex_decode-Pairs key_text 32 refl
