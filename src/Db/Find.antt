-- ===== src/Db/Find.antt =====
-- What the SELECT statements find before and after the others.
use vaultine.Prelude.{
  ℕ, Bytes, ◌≡◌, refl, sym, ◌∙◌, ◌⊎◌, inl, inr, Bool, false, ◌==◌, ==_iff, Bool-cases, Option-cases,
  some, List, [], ◌∷◌, Occurs, first-amend-some, first-amend-none, first-passes, first-Occurs,
  keep-Occurs, Occurs-keep, arith,
}
use vaultine.World.{Tables, KekRow, SecretRow, User}
use vaultine.Db.Sql.{
  order_by, place, find_kek, kek_at, rewrapped, update_kek, find_secret, secret_at, secrets_of,
  find_user,
}

module _ {A : Type 0} (before : A → A → Bool) where
  Occurs-place :
      (x : A) (xs : List A) (a : A) → (a ≡ x) ⊎ Occurs a xs → Occurs a (place before x xs)
  unfolding place
  Occurs-place x [] a o = o
  Occurs-place x (y ∷ ys) a o = elim (Bool-cases (before x y)) [
    | inl h ↦ rw (h, place) o
    | inr h ↦ rw (h, place) (swap (Occurs-place x ys a) o)
  ]
    where
      swap :
          ((a ≡ x) ⊎ Occurs a ys → Occurs a (place before x ys))
          → (a ≡ x) ⊎ ((a ≡ y) ⊎ Occurs a ys)
          → (a ≡ y) ⊎ Occurs a (place before x ys)
      swap ih (inl p) = inr (ih (inl p))
      swap ih (inr (inl p)) = inl p
      swap ih (inr (inr p)) = inr (ih (inr p))

  place-Occurs :
      (x : A) (xs : List A) (a : A) → Occurs a (place before x xs) → (a ≡ x) ⊎ Occurs a xs
  unfolding place
  place-Occurs x [] a o = o
  place-Occurs x (y ∷ ys) a o = elim (Bool-cases (before x y)) [
    | inl h ↦ rw (h, place) at o
    | inr h ↦ swap (place-Occurs x ys a) (rw (h, place) at o)
  ]
    where
      swap :
          (Occurs a (place before x ys) → (a ≡ x) ⊎ Occurs a ys)
          → (a ≡ y) ⊎ Occurs a (place before x ys)
          → (a ≡ x) ⊎ ((a ≡ y) ⊎ Occurs a ys)
      swap ih (inl p) = inr (inl p)
      swap ih (inr p) = elim (ih p) [ inl q ↦ inl q | inr q ↦ inr (inr q) ]

  -- ORDER BY keeps every row and makes none up.
  pub Occurs-order_by : (xs : List A) (a : A) → Occurs a xs → Occurs a (order_by before xs)
  unfolding order_by
  Occurs-order_by [] a o = o
  Occurs-order_by (x ∷ xs) a (inl p) = Occurs-place x _ a (inl p)
  Occurs-order_by (x ∷ xs) a (inr o) = Occurs-place x _ a (inr (Occurs-order_by xs a o))

  pub order_by-Occurs : (xs : List A) (a : A) → Occurs a (order_by before xs) → Occurs a xs
  unfolding order_by
  order_by-Occurs [] a o = o
  order_by-Occurs (x ∷ xs) a o = elim (place-Occurs x _ a o) [
    | inl p ↦ inl p
    | inr p ↦ inr (order_by-Occurs xs a p)
  ]

pub Occurs-secrets_of :
    (user : ℕ) (t : Tables) (s : SecretRow)
    → s.user_id ≡ user
    → Occurs s t.secrets
    → Occurs s (secrets_of user t)
unfolding secrets_of
Occurs-secrets_of user t s h o =
    Occurs-order_by _ _ s (Occurs-keep _ t.secrets s ((==_iff s.user_id user).1 h) o)

pub secrets_of-Occurs :
    (user : ℕ) (t : Tables) (s : SecretRow)
    → Occurs s (secrets_of user t)
    → (s.user_id ≡ user) × Occurs s t.secrets
unfolding secrets_of
secrets_of-Occurs user t s o =
    let (h, k) = keep-Occurs _ t.secrets s (order_by-Occurs _ _ s o) in
    ((==_iff s.user_id user).0 h, k)

pub find_secret-Occurs :
    (user : ℕ) (name : Bytes) (t : Tables) {s : SecretRow}
    → find_secret user name t ≡ some s
    → (s.user_id ≡ user) × Occurs s t.secrets
unfolding find_secret
find_secret-Occurs user name t {s} h = (
  ground (arith, first-passes (secret_at user name) t.secrets {a = s} h),
  first-Occurs _ t.secrets h,
)

pub find_user-Occurs :
    (name : Bytes) (t : Tables) {u : User} → find_user name t ≡ some u → Occurs u t.users
unfolding find_user
find_user-Occurs name t h = first-Occurs _ t.users h

-- UPDATE kek_metadata rewrites the row that was found.
pub find-update_kek :
    (t : Tables) (user : ℕ) (wrapped salt expires : Bytes) {k : KekRow}
    → find_kek user t ≡ some k
    → find_kek user (update_kek user wrapped salt expires k.kek_version t)
      ≡ some (rewrapped wrapped salt expires k)
unfolding find_kek update_kek
find-update_kek t user wrapped salt expires {k} h =
    first-amend-some (λ c. c.user_id == user) (kek_at user k.kek_version)
      (rewrapped wrapped salt expires) t.keks (λ c. refl) h
    ∙ ground (arith, first-passes (λ (c : KekRow). c.user_id == user) t.keks {a = k} h)

pub find-update_kek_other :
    (t : Tables) (user id version : ℕ) (wrapped salt expires : Bytes)
    → (id == user) ≡ false
    → find_kek id (update_kek user wrapped salt expires version t) ≡ find_kek id t
unfolding find_kek update_kek
find-update_kek_other t user id version wrapped salt expires ne =
    elim (Option-cases (find_kek id t)) [
      | inl h ↦
          first-amend-none (λ c. c.user_id == id) (kek_at user version)
            (rewrapped wrapped salt expires) t.keks (λ c. refl) h
          ∙ sym h
      | inr (k, h) ↦
          first-amend-some (λ c. c.user_id == id) (kek_at user version)
            (rewrapped wrapped salt expires) t.keks (λ c. refl) h
          ∙ ground (arith, first-passes (λ (c : KekRow). c.user_id == id) t.keks {a = k} h)
          ∙ sym h
    ]
