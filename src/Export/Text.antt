-- ===== src/Export/Text.antt =====
-- The text of an export: one function for each emit function of src/export/export.cc.
pub mod Redacted
use vaultine.Prelude.{
  ℕ, suc, ◌+◌, Bytes, codes, to_string, Bool, ltb, Option, List, [], ◌∷◌, ◌++◌, if◌then◌else◌,
}
use vaultine.Export.Escape.{json_escape, csv_escape}

-- user_row, secret_row and kek_row.
pub record UserLine : Type 0 where
  pub id : ℕ
  pub username : Bytes
  pub created_at : Bytes

pub record SecretLine : Type 0 where
  pub username : Bytes
  pub name : Bytes
  pub size : ℕ
  pub has_pub : Bool
  pub description : Bytes
  pub updated_at : Bytes

pub record KekLine : Type 0 where
  pub username : Bytes
  pub expires_at : Bytes
  pub version : ℕ

abbrev pub comma_before : ℕ → Bytes
comma_before i = if ltb 0 i then codes "," else []

-- The loops, from element `i` on.
unfoldable pub json_users_from : ℕ → List UserLine → Bool → Bytes
json_users_from i [] redact_pii = []
json_users_from i (u ∷ us) redact_pii =
    comma_before i
    ++ (codes "{\"username\":\""
        ++ ((if redact_pii then codes "user_" ++ to_string (i + 1) else json_escape u.username)
            ++ (codes "\",\"created_at\":\""
                ++ (json_escape u.created_at
                    ++ (codes "\"}" ++ json_users_from (suc i) us redact_pii)))))

unfoldable pub emit_json_users : List UserLine → Bool → Bytes
emit_json_users users redact_pii =
    codes "\"users\":[" ++ (json_users_from 0 users redact_pii ++ codes "]")

unfoldable pub csv_users_from : ℕ → List UserLine → Bool → Bytes
csv_users_from i [] redact_pii = []
csv_users_from i (u ∷ us) redact_pii =
    (if redact_pii then codes "user_" ++ to_string (i + 1) else csv_escape u.username)
    ++ (codes ","
        ++ (csv_escape u.created_at ++ (codes "\n" ++ csv_users_from (suc i) us redact_pii)))

unfoldable pub emit_csv_users : List UserLine → Bool → Bytes
emit_csv_users users redact_pii = codes "username,created_at\n" ++ csv_users_from 0 users redact_pii

abbrev pub true_or_false : Bool → Bytes
true_or_false b = if b then codes "true" else codes "false"

unfoldable pub json_secrets_from : ℕ → List SecretLine → Bool → Bytes
json_secrets_from i [] redact_pii = []
json_secrets_from i (s ∷ ss) redact_pii =
    comma_before i
    ++ (codes "{\"user\":\""
        ++ ((if redact_pii then codes "redacted" else json_escape s.username)
            ++ (codes "\",\"name\":\""
                ++ (json_escape s.name
                    ++ (codes "\",\"size\":"
                        ++ (to_string s.size
                            ++ (codes ",\"has_pub\":"
                                ++ (true_or_false s.has_pub
                                    ++ (codes ",\"description\":\""
                                        ++ (json_escape s.description
                                            ++ (codes "\",\"updated_at\":\""
                                                ++ (json_escape s.updated_at
                                                    ++ (codes "\"}"
                                                        ++ json_secrets_from (suc i) ss
                                                            redact_pii)))))))))))))

unfoldable pub emit_json_secrets : List SecretLine → Bool → Bytes
emit_json_secrets secrets redact_pii =
    codes "\"secrets\":[" ++ (json_secrets_from 0 secrets redact_pii ++ codes "]")

unfoldable pub csv_secrets_from : List SecretLine → Bool → Bytes
csv_secrets_from [] redact_pii = []
csv_secrets_from (s ∷ ss) redact_pii =
    (if redact_pii then codes "redacted" else csv_escape s.username)
    ++ (codes ","
        ++ (csv_escape s.name
            ++ (codes ","
                ++ (to_string s.size
                    ++ (codes ","
                        ++ (true_or_false s.has_pub
                            ++ (codes ","
                                ++ (csv_escape s.description
                                    ++ (codes ","
                                        ++ (csv_escape s.updated_at
                                            ++ (codes "\n"
                                                ++ csv_secrets_from ss redact_pii)))))))))))

unfoldable pub emit_csv_secrets : List SecretLine → Bool → Bytes
emit_csv_secrets secrets redact_pii =
    codes "user,name,size,has_pub,description,updated_at\n" ++ csv_secrets_from secrets redact_pii

unfoldable pub json_keks_from : ℕ → List KekLine → Bool → Bytes
json_keks_from i [] redact_pii = []
json_keks_from i (k ∷ ks) redact_pii =
    comma_before i
    ++ (codes "{\"user\":\""
        ++ ((if redact_pii then codes "redacted" else json_escape k.username)
            ++ (codes "\",\"expires_at\":\""
                ++ (json_escape k.expires_at
                    ++ (codes "\",\"version\":"
                        ++ (to_string k.version
                            ++ (codes "}" ++ json_keks_from (suc i) ks redact_pii)))))))

unfoldable pub emit_json_keks : List KekLine → Bool → Bytes
emit_json_keks keks redact_pii =
    codes "\"kek_metadata\":[" ++ (json_keks_from 0 keks redact_pii ++ codes "]")

unfoldable pub csv_keks_from : List KekLine → Bool → Bytes
csv_keks_from [] redact_pii = []
csv_keks_from (k ∷ ks) redact_pii =
    (if redact_pii then codes "redacted" else csv_escape k.username)
    ++ (codes ","
        ++ (csv_escape k.expires_at
            ++ (codes "," ++ (to_string k.version ++ (codes "\n" ++ csv_keks_from ks redact_pii)))))

unfoldable pub emit_csv_keks : List KekLine → Bool → Bytes
emit_csv_keks keks redact_pii = codes "user,expires_at,version\n" ++ csv_keks_from keks redact_pii

-- The buffer that export_metadata fills.
unfoldable pub metadata_text : Bool → Bool → List UserLine → List SecretLine → List KekLine → Bytes
metadata_text json redact_pii users secrets keks =
    if json
    then (codes "{"
        ++ (emit_json_users users redact_pii
            ++ (codes ","
                ++ (emit_json_secrets secrets redact_pii
                    ++ (codes "," ++ (emit_json_keks keks redact_pii ++ codes "}"))))))
    else (codes "=== users ===\n"
        ++ (emit_csv_users users redact_pii
            ++ (codes "=== secrets ===\n"
                ++ (emit_csv_secrets secrets redact_pii
                    ++ (codes "=== kek_metadata ===\n" ++ emit_csv_keks keks redact_pii)))))
