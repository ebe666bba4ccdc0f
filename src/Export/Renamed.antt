-- ===== src/Export/Renamed.antt =====
-- What export_metadata of src/export/export.cc tells of the user names where it redacts them: nothing.
pub mod Rows
use mathlib.Core.Path.{ap₂}
use vaultine.Prelude.{
  ℕ, Bytes, ◌≡◌, refl, sym, ◌∙◌, ap, inl, inr, Bool, true, false, Bool-cases, ◌==◌, ltb, Option,
  none, some, List, [], ◌∷◌, map, first, arith, if◌then◌else◌,
}
use vaultine.World.{Env, World, Vault, Status, err_internal, User, SecretRow, KekRow, Tables}
use vaultine.Exec.{
  Exec, Try, Result, value, fail, pure, leave, gets, continue, replaced, attempt, present, call,
  call_by, ignore_call, ◌or_return◌, ◌>>=◌, ◌>>◌,
}
use vaultine.Db.{with_tables, select, fetch_rows}
use vaultine.Db.Sql.{place, order_by}
use vaultine.Export.{
  by_user_and_name, select_users, query_users, join_users, secret_line, select_secrets,
  query_secrets, kek_line, select_keks, query_keks, export_metadata,
}
use vaultine.Export.Text.{UserLine, SecretLine, KekLine, metadata_text}
use vaultine.Export.Text.Redacted.{
  nameless_user, nameless_secret, nameless_kek, metadata_text-nameless,
}
use vaultine.Export.Renamed.Rows.{
  map-map, renamed, in_renamed, user_renamed, secret_renamed, kek_renamed, select_users-renamed,
  select_secrets-renamed, select_keks-renamed,
}

module _ (f : Bytes → Bytes) (e : Env) where
  -- What a function returns in the vault in which the users are renamed, from what it returns.
  abbrev follow : {E A B : Type 0} → (A → B) → Result E A × World → Result E B × World
  follow g (value a, w) = (value (g a), in_renamed f w)
  follow g (fail x, w) = (fail x, in_renamed f w)

  record Follows {E A B : Type 0} (g : A → B) (m : Exec E A) (m' : Exec E B) : Type 0 where
    at : (w : World) → m' e (in_renamed f w) ≡ follow g (m e w)

  abbrev same : {A : Type 0} → A → A
  same a = a

  Follows-bind :
      {E A A' B B' : Type 0} (g : A → A') (h : B → B') {m : Exec E A} {m' : Exec E A'}
      {k : A → Exec E B} (k' : A' → Exec E B')
      → Follows g m m'
      → ((a : A) → Follows h (k a) (k' (g a)))
      → Follows h (m >>= k) (m' >>= k')
  unfolding ◌>>=◌
  Follows-bind {E} {A} g h {m} {m'} {k} k' p q = record {
    at = λ w. ap (continue k' e) (p.at w) ∙ goes_on (m e w);
  }
    where
      goes_on : (r : Result E A × World) → continue k' e (follow g r) ≡ follow h (continue k e r)
      goes_on (value a, w) = (q a).at w
      goes_on (fail x, w) = refl

  Follows-or_return :
      {E F A B : Type 0} (g : A → B) (x : F) {m : Exec E A} {m' : Exec E B}
      → Follows g m m'
      → Follows g (m or_return x) (m' or_return x)
  unfolding ◌or_return◌
  Follows-or_return {E} {F} {A} g x {m} p = record {
    at = λ w. ap (replaced x) (p.at w) ∙ replaces (m e w);
  }
    where
      replaces : (r : Result E A × World) → replaced x (follow g r) ≡ follow g (replaced x r)
      replaces (value a, w) = refl
      replaces (fail y, w) = refl

  Follows-if :
      {E A B : Type 0} {g : A → B} (b : Bool) {m n : Exec E A} {m' n' : Exec E B}
      → Follows g m m'
      → Follows g n n'
      → Follows g (if b then m else n) (if b then m' else n')
  Follows-if true p q = p
  Follows-if false p q = q

  Follows-pure : {E A B : Type 0} (g : A → B) (a : A) → Follows {E = E} g (pure a) (pure (g a))
  unfolding pure
  Follows-pure g a = record { at = λ w. refl }

  Follows-call : Follows same call call
  unfolding call call_by
  Follows-call = record {
    at = λ w. elim (Bool-cases (e.fails w.calls)) [ inl p ↦ rw p refl | inr p ↦ rw p refl ];
  }

  Follows-there :
      {E : Type 0}
      → Follows {E = E} same
          (attempt (call_by (λ e. e.row_fails)))
          (attempt (call_by (λ e. e.row_fails)))
  unfolding attempt call_by
  Follows-there = record {
    at = λ w. elim (Bool-cases (e.row_fails w.calls)) [ inl p ↦ rw p refl | inr p ↦ rw p refl ];
  }

  Follows-fetch_rows :
      {E A B : Type 0} (g : A → B) (rows : List A)
      → Follows {E = E} (map g) (fetch_rows rows) (fetch_rows (map g rows))
  unfolding fetch_rows ignore_call
  Follows-fetch_rows g [] =
      Follows-bind same (map g) _ (record { at = λ _. refl }) (λ _. Follows-pure (map g) [])
  Follows-fetch_rows g (r ∷ rows) = Follows-bind same (map g) _ Follows-there λ there.
      Follows-if (present there)
        (Follows-bind (map g) (map g) _ (Follows-fetch_rows g rows)
          λ rest. Follows-pure (map g) (r ∷ rest))
        (Follows-pure (map g) [])

  -- A statement that selects the renamed lines.
  Follows-query :
      {A B : Type 0} (g : A → B) (s : Tables → List A) (s' : Tables → List B)
      → ((t : Tables) → s' (renamed f t) ≡ map g (s t))
      → Follows {E = Unit}
          (map g)
          (do call; rows ← select s; fetch_rows rows)
          (do call; rows ← select s'; fetch_rows rows)
  unfolding gets
  Follows-query g s s' p = Follows-bind same (map g) _ Follows-call λ _.
      Follows-bind (map g) (map g) _
        (record { at = λ w. ap (λ l. (value l, in_renamed f w)) (p w.vault.tables) })
        λ rows. Follows-fetch_rows g rows

  nameless-renamed :
      (us : List UserLine) (ss : List SecretLine) (ks : List KekLine) (json : Bool)
      → metadata_text json true
          (map (user_renamed f) us)
          (map (secret_renamed f) ss)
          (map (kek_renamed f) ks)
        ≡ metadata_text json true us ss ks
  nameless-renamed us ss ks json =
      metadata_text-nameless json _ _ _
      ∙ rw
          (
            map-map nameless_user (user_renamed f) us,
            map-map nameless_secret (secret_renamed f) ss,
            map-map nameless_kek (kek_renamed f) ks,
          )
          refl
      ∙ sym (metadata_text-nameless json us ss ks)

  -- Whatever is put in the place of the user names, by any function of them: a redacted export of the
  -- vault, as JSON or as CSV, gives the callback the same text, or fails with the same error.
  pub export_metadata-renamed :
      (json : Bool) (w : World)
      → (export_metadata json true e (in_renamed f w)).0 ≡ (export_metadata json true e w).0
  unfolding export_metadata query_users query_secrets query_keks pure
  export_metadata-renamed json w = ap (λ r. r.0) (followed.at w) ∙ same_result _
    where
      followed : Follows same (export_metadata json true) (export_metadata json true)
      followed =
          Follows-bind (map (user_renamed f)) same _
            (Follows-or_return _ err_internal
              (Follows-query (user_renamed f) select_users select_users (select_users-renamed f)))
            λ us.
              Follows-bind (map (secret_renamed f)) same _
                (Follows-or_return _ err_internal (
                  Follows-query (secret_renamed f) select_secrets select_secrets
                    (select_secrets-renamed f)))
                λ ss.
                  Follows-bind (map (kek_renamed f)) same _
                    (Follows-or_return _ err_internal (
                      Follows-query (kek_renamed f) select_keks select_keks
                        (select_keks-renamed f)))
                    λ ks. record {
                      at = λ w.
                          ap (λ text. (value text, in_renamed f w))
                            (nameless-renamed us ss ks json);
                    }

      same_result : (r : Result Status Bytes × World) → (follow same r).0 ≡ r.0
      same_result (value a, w) = refl
      same_result (fail x, w) = refl
