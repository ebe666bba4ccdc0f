-- ===== src/Ssm/Users/ChangePassword/Statements.antt =====
-- The two UPDATE statements of ssm_user_change_password (src/ssm.cc): what is found and revealed
-- after them.
use mathlib.Core.Path.{subst}
use vaultine.Prelude.{
  ℕ, Bytes, ◌≡◌, refl, sym, ◌∙◌, ap, inl, inr, false, ◌==◌, ==_iff, eqb, Bool-cases, Option-cases,
  none, some, List, Occurs, amend, first-amend-some, first-amend-none, first-passes, amend-Occurs,
  arith, take, if◌then◌else◌,
}
use vaultine.World.{Env, IsLawful, User, KekRow, CacheEntry, Tables}
use vaultine.Db.Sql.{find_user, find_kek, find_secret, set_password_hash, set_wrapped_kek}
use vaultine.Db.Find.{find_user-Occurs}
use vaultine.Cache.{holds, erased}
use vaultine.Cache.Coherent.{IsCoherent, invalidate-IsCoherent, user_by_id}
use vaultine.Reveal.{unlock, kek_of, secret_of, reveal}
use vaultine.Sound.{IsSound}

-- The two UPDATE statements have run: the hash is one of the new password, and the row holds the KEK
-- that the old hash opened, wrapped under the new hash and the same salt.
pub record Rehashed (e : Env) (u : User) (hash : Bytes) (t t' : Tables) : Type 0 where
  pub row : KekRow
  pub row_found : find_kek u.id t ≡ some row
  pub kek : Bytes
  pub opened : unlock e u.password_hash row ≡ some kek
  pub final :
      t'
      ≡ set_wrapped_kek u.id
          (e.key_wrap (e.pwhash hash (take 16 row.salt)) kek)
          (set_password_hash u.id hash t)

pub set_password_hash-kek :
    (id user : ℕ) (hash : Bytes) (t : Tables)
    → find_kek id (set_password_hash user hash t) ≡ find_kek id t
unfolding find_kek set_password_hash
set_password_hash-kek id user hash t = refl

-- What the two statements do to what is looked up.
module _ (t : Tables) (user : ℕ) (hash wrapped : Bytes) where
  abbrev pub after : Tables
  after = set_wrapped_kek user wrapped (set_password_hash user hash t)

  find_user-after-none : (name : Bytes) → find_user name t ≡ none → find_user name after ≡ none
  unfolding find_user set_wrapped_kek set_password_hash
  find_user-after-none name h =
      first-amend-none (λ x. eqb x.username name) (λ x. x.id == user)
        (λ x. record x { password_hash = hash }) t.users (λ x. refl) h

  pub find_user-after :
      (name : Bytes) {x : User}
      → find_user name t ≡ some x
      → find_user name after ≡ some (if x.id == user then record x { password_hash = hash } else x)
  unfolding find_user set_wrapped_kek set_password_hash
  find_user-after name h =
      first-amend-some (λ x. eqb x.username name) (λ x. x.id == user)
        (λ x. record x { password_hash = hash }) t.users (λ x. refl) h

  find_kek-after :
      (k : KekRow)
      → find_kek user t ≡ some k
      → find_kek user after ≡ some (record k { wrapped_kek = wrapped })
  unfolding find_kek set_wrapped_kek set_password_hash
  find_kek-after k h =
      first-amend-some (λ c. c.user_id == user) (λ c. c.user_id == user)
        (λ c. record c { wrapped_kek = wrapped }) t.keks (λ x. refl) h
      ∙ ground (arith, first-passes (λ (c : KekRow). c.user_id == user) t.keks {a = k} h)

  find_kek-after-other : (id : ℕ) → (id == user) ≡ false → find_kek id after ≡ find_kek id t
  unfolding find_kek set_wrapped_kek set_password_hash
  find_kek-after-other id ne = elim (Option-cases (find_kek id t)) [
    | inl h ↦
        first-amend-none (λ c. c.user_id == id) (λ c. c.user_id == user)
          (λ c. record c { wrapped_kek = wrapped }) t.keks (λ x. refl) h
        ∙ sym h
    | inr (k, h) ↦
        first-amend-some (λ c. c.user_id == id) (λ c. c.user_id == user)
          (λ c. record c { wrapped_kek = wrapped }) t.keks (λ x. refl) h
        ∙ ground (arith, first-passes (λ (c : KekRow). c.user_id == id) t.keks {a = k} h)
        ∙ sym h
  ]

  secret_of-after :
      (e : Env) (x x' : User) (name : Bytes)
      → x'.id ≡ x.id
      → kek_of e after x' ≡ kek_of e t x
      → secret_of e after x' name ≡ secret_of e t x name
  unfolding secret_of find_secret set_wrapped_kek set_password_hash
  secret_of-after e x x' name i h = rw (h, i) refl

  pub after-IsCoherent :
      (e : Env) (cs : List CacheEntry)
      → IsCoherent e t cs
      → IsCoherent e after (amend (holds user) erased cs)
  unfolding set_wrapped_kek set_password_hash
  after-IsCoherent e cs h =
      invalidate-IsCoherent user cs
        (λ c ne r. record {
          known = λ p. r.known p;
          current = λ p x o i k f.
              let (y, o', q) =
                amend-Occurs (λ (z : User). z.id == user) (λ z. record z { password_hash = hash })
                  t.users x o in
              let s : x ≡ y = unmoved c ne x y q i in
              r.current p x (subst (λ z. Occurs z t.users) (sym s) o') i k
                (sym (find_kek-after-other x.id (ap (λ n. n == user) i ∙ ne)) ∙ f);
        })
        h
    where
      unmoved :
          (c : CacheEntry)
          → (c.user_id == user) ≡ false
          → (x y : User) → x ≡ (if y.id == user then record y { password_hash = hash } else y)
          → x.id ≡ c.user_id
          → x ≡ y
      unmoved c ne x y q i = elim (Bool-cases (y.id == user)) [
        | inl m ↦ absurd (ground (arith, ap (λ (z : User). z.id) q))
        | inr m ↦ ground arith
      ]

module _ {e : Env} (L : IsLawful e) {t t' : Tables} (V : IsSound t) {u : User} {hash : Bytes}
    (here : Occurs u t.users) (R : Rehashed e u hash t t') where
  abbrev wrapped : Bytes
  wrapped = e.key_wrap (e.pwhash hash (take 16 R.row.salt)) R.kek

  -- The new hash opens the KEK that the old one opened.
  kek_of-rehashed :
      kek_of e (after t u.id hash wrapped) (record u { password_hash = hash }) ≡ kek_of e t u
  unfolding kek_of
  kek_of-rehashed =
      rw (find_kek-after t u.id hash wrapped R.row R.row_found, R.row_found)
        (L.unwrap_wrap _ _ ∙ sym R.opened)

  kek_of-other :
      (x : User) → (x.id == u.id) ≡ false → kek_of e (after t u.id hash wrapped) x ≡ kek_of e t x
  unfolding kek_of
  kek_of-other x ne = rw (find_kek-after-other t u.id hash wrapped x.id ne) refl

  -- What is stored for any user under any name is what was stored before.
  pub Rehashed-reveal :
      (username name : Bytes) → reveal e t' username name ≡ reveal e t username name
  unfolding reveal
  Rehashed-reveal username name =
      ap (λ x. reveal e x username name) R.final ∙ elim (Option-cases (find_user username t)) [
        | inl h ↦ rw (find_user-after-none t u.id hash wrapped username h, h) refl
        | inr (x, h) ↦
            rw (find_user-after t u.id hash wrapped username h, h)
              (elim (Bool-cases (x.id == u.id)) [
                | inl i ↦
                    let p =
                      user_by_id x u V (find_user-Occurs username t h) here
                        ((==_iff x.id u.id).0 i) in
                    rw i (
                      secret_of-after t u.id hash wrapped e x (record x { password_hash = hash })
                        name refl
                        (ap
                            (λ y.
                              kek_of e (after t u.id hash wrapped)
                                (record y { password_hash = hash }))
                            p
                          ∙ kek_of-rehashed
                          ∙ ap (kek_of e t) (sym p)))
                | inr ne ↦
                    rw ne (secret_of-after t u.id hash wrapped e x x name refl (kek_of-other x ne))
              ])
      ]
