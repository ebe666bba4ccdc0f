-- ===== src/Reveal/Inserts.antt =====
-- A new user, and a KEK for a user without one, change no secret of anybody.
use vaultine.Prelude.{
  ℕ, ◌<◌, Bytes, ◌≡◌, refl, sym, ◌∙◌, ap, inl, inr, true, false, ◌==◌, ==_iff, eqb, Option, none,
  some, List, [], ◌∷◌, All, first, exists, Bool-cases, Option-cases, first-append,
  first-append-other, exists-first, arith,
}
use vaultine.World.{Env, Tables, User, KekRow, SecretRow}
use vaultine.Db.Sql.{find_user, find_kek, find_secret, has_kek, secret_at, insert_user, insert_kek}
use vaultine.Reveal.{◌and_then◌, kek_of, secret_of, reveal}
use vaultine.Sound.{IsSound}

nothing_then : {A B : Type 0} (o : Option A) → ◌and_then◌ {B = B} o (λ a. none) ≡ none
nothing_then none = refl
nothing_then (some a) = refl

-- No row belongs to an id that no user has had.
unowned :
    {A : Type 0} (owner : A → ℕ) (users : List User) (n : ℕ) (rows : List A)
    → All (λ (u : User). u.id < n) users
    → All (λ a. exists (λ (u : User). u.id == owner a) users ≡ true) rows
    → exists (λ a. owner a == n) rows ≡ false
unowned owner users n [] below h = refl
unowned owner users n (a ∷ rows) below h =
    ground (arith, unowned owner users n rows below h.1, absent users below (owner a), h.0)
  where
    absent :
        (us : List User)
        → All (λ (u : User). u.id < n) us
        → (i : ℕ) → exists (λ (u : User). u.id == i) us ≡ true
        → (i == n) ≡ false
    absent [] b i k = cc
    absent (u ∷ us) b i k = ground (arith, b.0, absent us b.1 i)

module _ (t : Tables) (V : IsSound t) where
  pub no_kek : has_kek t.next_user t ≡ false
  no_kek = unowned (λ (k : KekRow). k.user_id) t.users t.next_user t.keks V.users_below V.keks_owned

  no_secret : exists (λ (s : SecretRow). s.user_id == t.next_user) t.secrets ≡ false
  no_secret =
      unowned (λ (s : SecretRow). s.user_id) t.users t.next_user t.secrets V.users_below
        V.secrets_owned

  pub find_no_secret : (name : Bytes) → find_secret t.next_user name t ≡ none
  unfolding find_secret
  find_no_secret name = none_of t.secrets no_secret
    where
      none_of :
          (ss : List SecretRow)
          → exists (λ (s : SecretRow). s.user_id == t.next_user) ss ≡ false
          → first (secret_at t.next_user name) ss ≡ none
      none_of [] h = refl
      none_of (s ∷ ss) h = ground (arith, none_of ss)

-- The KEK of a user who has no secrets.
pub insert_kek-reveal :
    (e : Env) (t : Tables) (user : ℕ) (wrapped salt expires : Bytes)
    → ((name : Bytes) → find_secret user name t ≡ none)
    → (username name : Bytes)
    → reveal e (insert_kek user wrapped salt expires t) username name ≡ reveal e t username name
unfolding insert_kek reveal secret_of kek_of find_user find_kek find_secret
insert_kek-reveal e t user wrapped salt expires bare username name =
    elim (Option-cases (first (λ (u : User). eqb u.username username) t.users)) [
      | inl h ↦ rw h refl
      | inr (x, h) ↦ elim (Bool-cases (user == x.id)) [
        | inl q ↦
            let p : find_secret x.id name t ≡ none =
              ap (λ i. find_secret i name t) (sym ((==_iff user x.id).0 q)) ∙ bare name in
            rw (h, p) (nothing_then _ ∙ sym (nothing_then _))
        | inr q ↦ rw (h, other x q) refl
      ]
    ]
  where
    other :
        (x : User)
        → (user == x.id) ≡ false
        → find_kek x.id (insert_kek user wrapped salt expires t) ≡ find_kek x.id t
    other x q = first-append-other (λ (k : KekRow). k.user_id == x.id) t.keks _ q

module _ (e : Env) (t : Tables) (V : IsSound t) (username hash now : Bytes) where
  pub insert_user-reveal :
      (n m : Bytes) → reveal e (insert_user username hash now t) n m ≡ reveal e t n m
  unfolding insert_user reveal secret_of kek_of find_user find_kek find_secret
  insert_user-reveal n m = elim (Option-cases (first (λ (u : User). eqb u.username n) t.users)) [
    | inl h ↦ elim (Bool-cases (eqb username n)) [
      | inl q ↦
          rw
            (
              first-append (λ (u : User). eqb u.username n) t.users _,
              h,
              q,
              exists-first (λ (k : KekRow). k.user_id == t.next_user) t.keks (no_kek t V),
            )
            refl
      | inr q ↦ rw (first-append (λ (u : User). eqb u.username n) t.users _, h, q) refl
    ]
    | inr (x, h) ↦ rw (first-append (λ (u : User). eqb u.username n) t.users _, h) refl
  ]
