-- ===== src/Export/Text/Redacted.antt =====
-- The text of a redacted export, of lines in a given order, without the user names and ids in them.
use vaultine.Prelude.{ℕ, suc, ◌≡◌, refl, Bool, true, false, List, [], ◌∷◌, map}
use vaultine.Export.Text.{
  UserLine, SecretLine, KekLine, json_users_from, emit_json_users, csv_users_from, emit_csv_users,
  json_secrets_from, emit_json_secrets, csv_secrets_from, emit_csv_secrets, json_keks_from,
  emit_json_keks, csv_keks_from, emit_csv_keks, metadata_text,
}

abbrev pub nameless_user : UserLine → UserLine
nameless_user u = record u { id = 0; username = [] }

abbrev pub nameless_secret : SecretLine → SecretLine
nameless_secret s = record s { username = [] }

abbrev pub nameless_kek : KekLine → KekLine
nameless_kek k = record k { username = [] }

json_users_from-nameless :
    (i : ℕ) (us : List UserLine)
    → json_users_from i (map nameless_user us) true ≡ json_users_from i us true
unfolding json_users_from
json_users_from-nameless i [] = refl
json_users_from-nameless i (u ∷ us) = rw (json_users_from-nameless (suc i) us) refl

csv_users_from-nameless :
    (i : ℕ) (us : List UserLine)
    → csv_users_from i (map nameless_user us) true ≡ csv_users_from i us true
unfolding csv_users_from
csv_users_from-nameless i [] = refl
csv_users_from-nameless i (u ∷ us) = rw (csv_users_from-nameless (suc i) us) refl

json_secrets_from-nameless :
    (i : ℕ) (ss : List SecretLine)
    → json_secrets_from i (map nameless_secret ss) true ≡ json_secrets_from i ss true
unfolding json_secrets_from
json_secrets_from-nameless i [] = refl
json_secrets_from-nameless i (s ∷ ss) = rw (json_secrets_from-nameless (suc i) ss) refl

csv_secrets_from-nameless :
    (ss : List SecretLine)
    → csv_secrets_from (map nameless_secret ss) true ≡ csv_secrets_from ss true
unfolding csv_secrets_from
csv_secrets_from-nameless [] = refl
csv_secrets_from-nameless (s ∷ ss) = rw (csv_secrets_from-nameless ss) refl

json_keks_from-nameless :
    (i : ℕ) (ks : List KekLine)
    → json_keks_from i (map nameless_kek ks) true ≡ json_keks_from i ks true
unfolding json_keks_from
json_keks_from-nameless i [] = refl
json_keks_from-nameless i (k ∷ ks) = rw (json_keks_from-nameless (suc i) ks) refl

csv_keks_from-nameless :
    (ks : List KekLine) → csv_keks_from (map nameless_kek ks) true ≡ csv_keks_from ks true
unfolding csv_keks_from
csv_keks_from-nameless [] = refl
csv_keks_from-nameless (k ∷ ks) = rw (csv_keks_from-nameless ks) refl

pub metadata_text-nameless :
    (json : Bool) (users : List UserLine) (secrets : List SecretLine) (keks : List KekLine)
    → metadata_text json true users secrets keks
      ≡ metadata_text json true
          (map nameless_user users)
          (map nameless_secret secrets)
          (map nameless_kek keks)
unfolding metadata_text emit_json_users emit_csv_users emit_json_secrets emit_csv_secrets
    emit_json_keks emit_csv_keks
metadata_text-nameless true users secrets keks =
    rw
      (
        json_users_from-nameless 0 users,
        json_secrets_from-nameless 0 secrets,
        json_keks_from-nameless 0 keks,
      )
      refl
metadata_text-nameless false users secrets keks =
    rw
      (
        csv_users_from-nameless 0 users,
        csv_secrets_from-nameless secrets,
        csv_keks_from-nameless keks,
      )
      refl
