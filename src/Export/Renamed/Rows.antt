-- ===== src/Export/Renamed/Rows.antt =====
-- What the queries of src/export/export.cc select where the users have other names: the same lines,
-- with those names.
use vaultine.Prelude.{
  ℕ, Bytes, ◌≡◌, refl, sym, ◌∙◌, ap, inl, inr, Bool, Bool-cases, ◌==◌, ltb, Option, none, some,
  List, [], ◌∷◌, map, first,
}
use vaultine.World.{World, User, SecretRow, KekRow, Tables}
use vaultine.Db.{with_tables}
use vaultine.Db.Sql.{place, order_by}
use vaultine.Export.{
  by_user_and_name, select_users, join_users, secret_line, select_secrets, kek_line, select_keks,
}
use vaultine.Export.Text.{UserLine, SecretLine, KekLine}

pub map-map :
    {A B C : Type 0} (g : B → C) (h : A → B) (xs : List A)
    → map g (map h xs) ≡ map (λ x. g (h x)) xs
map-map g h [] = refl
map-map g h (x ∷ xs) = ap (λ t. g (h x) ∷ t) (map-map g h xs)

module _ {A B : Type 0} (g : A → B) (before : A → A → Bool) (before' : B → B → Bool)
    (same : (a b : A) → before' (g a) (g b) ≡ before a b) where
  place-map : (a : A) (xs : List A) → place before' (g a) (map g xs) ≡ map g (place before a xs)
  unfolding place
  place-map a [] = refl
  place-map a (b ∷ xs) = elim (Bool-cases (before a b)) [
    | inl p ↦ rw (same a b, p) refl
    | inr p ↦ rw (same a b, p) (ap (λ t. g b ∷ t) (place-map a xs))
  ]

  order_by-map : (xs : List A) → order_by before' (map g xs) ≡ map g (order_by before xs)
  unfolding order_by
  order_by-map [] = refl
  order_by-map (a ∷ xs) = ap (place before' (g a)) (order_by-map xs) ∙ place-map a _

module _ (f : Bytes → Bytes) where
  abbrev renamed_user : User → User
  renamed_user u = record u { username = f u.username }

  -- The tables with `f` of each user name in its place.
  abbrev pub renamed : Tables → Tables
  renamed t = record t { users = map renamed_user t.users }

  abbrev pub in_renamed : World → World
  in_renamed w = record w { vault = with_tables renamed w.vault }

  abbrev renamed_owner : {A : Type 0} → User × A → User × A
  renamed_owner (u, a) = (renamed_user u, a)

  abbrev pub user_renamed : UserLine → UserLine
  user_renamed l = record l { username = f l.username }

  abbrev pub secret_renamed : SecretLine → SecretLine
  secret_renamed l = record l { username = f l.username }

  abbrev pub kek_renamed : KekLine → KekLine
  kek_renamed l = record l { username = f l.username }

  join_users-renamed :
      {A : Type 0} (owner : A → ℕ) (users : List User) (xs : List A)
      → join_users owner (map renamed_user users) xs ≡ map renamed_owner (join_users owner users xs)
  unfolding join_users
  join_users-renamed owner users [] = refl
  join_users-renamed owner users (a ∷ xs) =
      joined (join_users-renamed owner users xs) _ _ (first-renamed users)
    where
      first-renamed :
          (us : List User)
          → first (λ (u : User). u.id == owner a) (map renamed_user us)
            ≡ elim (first (λ (u : User). u.id == owner a) us) [
              | none ↦ none
              | some u ↦ some (renamed_user u)
            ]
      first-renamed [] = refl
      first-renamed (u ∷ us) = elim (Bool-cases (u.id == owner a)) [
        | inl p ↦ rw p refl
        | inr p ↦ rw p (first-renamed us)
      ]

      joined :
          join_users owner (map renamed_user users) xs
            ≡ map renamed_owner (join_users owner users xs)
          → (o o' : Option User) → o' ≡ elim o [ none ↦ none | some u ↦ some (renamed_user u) ]
          → elim o' [
            | none ↦ join_users owner (map renamed_user users) xs
            | some u ↦ (u, a) ∷ join_users owner (map renamed_user users) xs
          ]
            ≡ map renamed_owner (elim o [
              | none ↦ join_users owner users xs
              | some u ↦ (u, a) ∷ join_users owner users xs
            ])
      joined rest none o' p = rw p rest
      joined rest (some u) o' p = rw p (ap (λ t. (renamed_user u, a) ∷ t) rest)

  pub select_users-renamed :
      (t : Tables) → select_users (renamed t) ≡ map user_renamed (select_users t)
  unfolding select_users
  select_users-renamed t =
      ap (map _) (order_by-map renamed_user _ _ (λ _ _. refl) t.users)
      ∙ map-map _ renamed_user _
      ∙ sym (map-map user_renamed _ _)

  pub select_secrets-renamed :
      (t : Tables) → select_secrets (renamed t) ≡ map secret_renamed (select_secrets t)
  unfolding select_secrets
  select_secrets-renamed t =
      ap (λ l. map secret_line (order_by by_user_and_name l))
        (join_users-renamed (λ (s : SecretRow). s.user_id) t.users t.secrets)
      ∙ ap (map secret_line) (order_by-map renamed_owner _ _ (λ _ _. refl) _)
      ∙ map-map secret_line renamed_owner _
      ∙ sym (map-map secret_renamed secret_line _)

  abbrev by_user : User × KekRow → User × KekRow → Bool
  by_user a b = ltb a.0.id b.0.id

  pub select_keks-renamed : (t : Tables) → select_keks (renamed t) ≡ map kek_renamed (select_keks t)
  unfolding select_keks
  select_keks-renamed t =
      ap (λ l. map kek_line (order_by by_user l))
        (join_users-renamed (λ (k : KekRow). k.user_id) t.users t.keks)
      ∙ ap (map kek_line) (order_by-map renamed_owner _ _ (λ _ _. refl) _)
      ∙ map-map kek_line renamed_owner _
      ∙ sym (map-map kek_renamed kek_line _)
