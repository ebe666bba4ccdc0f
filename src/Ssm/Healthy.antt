-- ===== src/Ssm/Healthy.antt =====
-- Where no foreign call reports an error, the guards of src/ssm.cc let a user in whose KEK is live.
use vaultine.Prelude.{
  ℕ, ◌<◌, ◌≤◌, Bytes, ◌≡◌, refl, ◌∙◌, ap, true, false, not, ◌==◌, leb, Option, none, some, ◌∷◌, [],
  length, take, arith, Occurs,
}
use vaultine.World.{Env, IsLawful, User, KekRow, SecretRow, Vault, err_internal}
use vaultine.Exec.{Exec}
use vaultine.Exec.Runs.{
  Runs, Post, Runs-bind, Runs-weaken, Runs-pure, Runs-modify, Runs-after_modify,
}
use vaultine.Exec.{Result, value, fail}
use vaultine.World.{World}
use vaultine.Exec.Sure.{
  Sure, Sure-bind, Sure-map, Sure-pure, Sure-gets, Sure-ask, Sure-time, Sure-deref, Sure-require,
  Sure-call, Sure-or_return, Sure-attempted, ◌⨟◌,
}
use vaultine.Crypto.{is_empty, secure_alloc, aes_kw_unwrap}
use vaultine.Kek.{kek_derive_wrapping_key, kek_is_expired}
use vaultine.Db.Sql.{find_user, find_kek, find_secret}
use vaultine.Db.Users.{users_find_by_username}
use vaultine.Db.KekMetadata.{kek_find_by_user}
use vaultine.Db.Secrets.{secrets_find}
use vaultine.Cache.{cache_lookup, cache_insert, after_scan, fill_slot}
use vaultine.Cache.Coherent.{CacheMoved, cache_lookup-Runs}
use vaultine.Reveal.{unlock}
use vaultine.Ssm.{find_user_or_refuse, find_live_kek, open_kek, otherwise, derive_and_cache}
use vaultine.Ssm.Done.{IsGood, keyed, after_move}

both-Post :
    {E A : Type 0} (r : Result E A × World) (Q S : A → Vault → Type 0) (R T : E → Vault → Type 0)
    → Post Q R r
    → Post S T r
    → Post (λ a w. Q a w × S a w) (λ x w. R x w × T x w) r
both-Post (value a, w) Q S R T h k = (h, k)
both-Post (fail x, w) Q S R T h k = (h, k)

module _ {E A : Type 0} {e : Env} {v : Vault} where
  -- What is ensured where a computation returns, once it is known to return.
  pub Runs-returns :
      {m : Exec E A} {Q : A → Vault → Type 0} {R : E → Vault → Type 0}
      → Runs e v m Q R
      → Runs e v m (λ _ _. Unit {0}) (λ _ _. ⊥)
      → Runs e v m Q (λ _ _. ⊥)
  Runs-returns {Q = Q} {R = R} h k =
      Runs-weaken {Q = λ a w. Q a w × Unit {0}} {R = λ x w. R x w × ⊥}
        (record { at = λ n. both-Post _ Q (λ _ _. Unit {0}) R (λ _ _. ⊥) (h.at n) (k.at n) })
        (λ _ _ p. p.0) (λ _ _ p. p.1)

-- No foreign call reports an error.
abbrev pub IsQuiet : Env → Type 0
IsQuiet e = (n : ℕ) → e.fails n ≡ false

-- A KEK row that the user's hash opens and that has not expired.
pub record IsLive (e : Env) (u : User) (k : KekRow) : Type 0 where
  pub kek : Bytes
  pub opened : unlock e u.password_hash k ≡ some kek
  pub hashed : is_empty u.password_hash ≡ false
  pub salted : 16 ≤ length k.salt
  pub whole : length k.wrapped_kek ≡ 40
  pub expiry : ℕ
  pub dated : e.strptime k.expires_at ≡ some expiry
  pub ahead : (n : ℕ) → e.clock n < expiry

module _ {e : Env} {v : Vault} (quiet : IsQuiet e) where
  pub secure_alloc-Sure : (n : ℕ) → (n == 0) ≡ false → Sure e v (secure_alloc n) (λ _. Unit)
  unfolding secure_alloc
  secure_alloc-Sure n h = Sure-require tt (rw h refl) ⨟ Sure-call quiet ⨟ Sure-call quiet

  users_find_by_username-Sure :
      (name : Bytes) {u : User}
      → find_user name v.tables ≡ some u
      → Sure e v (users_find_by_username name) (λ a. a ≡ u)
  unfolding users_find_by_username
  users_find_by_username-Sure name h =
      Sure-call quiet
      ⨟ Sure-call quiet
      ⨟ Sure-call quiet
      ⨟ Sure-bind (Sure-gets _) (λ o p. Sure-deref o tt (p ∙ h))

  pub kek_find_by_user-Sure :
      (user : ℕ) {k : KekRow}
      → find_kek user v.tables ≡ some k
      → Sure e v (kek_find_by_user user) (λ a. a ≡ k)
  unfolding kek_find_by_user
  kek_find_by_user-Sure user h =
      Sure-call quiet ⨟ Sure-call quiet ⨟ Sure-bind (Sure-gets _) (λ o p. Sure-deref o tt (p ∙ h))

  pub secrets_find-Sure :
      (user : ℕ) (name : Bytes) {s : SecretRow}
      → find_secret user name v.tables ≡ some s
      → Sure e v (secrets_find user name) (λ a. a ≡ s)
  unfolding secrets_find
  secrets_find-Sure user name h =
      Sure-call quiet
      ⨟ Sure-call quiet
      ⨟ Sure-call quiet
      ⨟ Sure-bind (Sure-gets _) (λ o p. Sure-deref o tt (p ∙ h))

  pub find_user_or_refuse-Sure :
      (operation username : Bytes) {u : User}
      → find_user username v.tables ≡ some u
      → Sure e v (find_user_or_refuse operation username) (λ a. a ≡ u)
  unfolding find_user_or_refuse
  find_user_or_refuse-Sure operation username {u} h =
      Sure-bind (Sure-attempted (users_find_by_username-Sure username h))
        (λ o p. rw p.1 (Sure-map (Sure-pure p.0) (λ a q. q ∙ p.2)))

  kek_is_expired-Sure :
      {E : Type 0} (u : User) (k : KekRow)
      → IsLive e u k
      → Sure {E = E} e v (kek_is_expired k.expires_at) (λ b. b ≡ false)
  unfolding kek_is_expired
  kek_is_expired-Sure u k l = Sure-bind (Sure-ask _) λ o p.
      rw (p, l.dated) (Sure-bind Sure-time λ now q. Sure-map (Sure-pure _) (λ b r. r ∙ early now q))
    where
      early : (now : ℕ) → ((i : ℕ) × (now ≡ e.clock i)) → leb l.expiry now ≡ false
      early now (i, p) = ground (arith, l.ahead i, p)

  pub find_live_kek-Sure :
      (operation username : Bytes) (target : Option Bytes) (u : User) (k : KekRow)
      → find_kek u.id v.tables ≡ some k
      → IsLive e u k
      → Sure e v (find_live_kek operation username target u) (λ a. a ≡ k)
  unfolding find_live_kek
  find_live_kek-Sure operation username target u k h l =
      Sure-bind (Sure-or_return err_internal (kek_find_by_user-Sure u.id h))
        λ a p. rw p (Sure-bind (kek_is_expired-Sure u k l) λ b q. rw q (Sure-pure k))

  kek_derive_wrapping_key-Sure :
      (hash salt : Bytes)
      → is_empty hash ≡ false
      → 16 ≤ length salt
      → Sure e v (kek_derive_wrapping_key hash salt 32) (λ key. key ≡ e.pwhash hash (take 16 salt))
  unfolding kek_derive_wrapping_key
  kek_derive_wrapping_key-Sure hash salt h s =
      Sure-require tt (ground (arith, h, s)) ⨟ Sure-require tt refl ⨟ Sure-call quiet ⨟ Sure-ask _

  aes_kw_unwrap-Sure :
      (cipher key : Bytes) {text : Bytes}
      → length cipher ≡ 40
      → length key ≡ 32
      → e.key_unwrap key cipher ≡ some text
      → Sure e v (aes_kw_unwrap cipher key) (λ p. p ≡ text)
  unfolding aes_kw_unwrap
  aes_kw_unwrap-Sure cipher key c l h =
      Sure-require tt (filled cipher c)
      ⨟ Sure-require tt (rw l refl)
      ⨟ Sure-require tt (rw c refl)
      ⨟ Sure-call quiet
      ⨟ Sure-call quiet
      ⨟ Sure-call quiet
      ⨟ Sure-call quiet
      ⨟ Sure-bind (Sure-ask _) (λ o p. Sure-deref o tt (p ∙ h))
    where
      filled : (b : Bytes) → length b ≡ 40 → not (is_empty b) ≡ true
      filled [] h = absurd (omega (arith, h))
      filled (x ∷ b) h = refl

module _ {E : Type 0} {e : Env} {v : Vault} where
  cache_lookup-returns :
      (user : ℕ) → Runs {E = E} e v (cache_lookup user) (λ _ _. Unit {0}) (λ _ _. ⊥)
  unfolding cache_lookup
  cache_lookup-returns user = Sure-bind (Sure-gets _) λ o _. scanned o
    where
      scanned :
          (o : Option Bytes) → Runs {E = E} e v (after_scan user o) (λ _ _. Unit {0}) (λ _ _. ⊥)
      scanned none = Runs-after_modify _ (Runs-pure none tt)
      scanned (some key) = Sure-bind Sure-time λ _ _. Runs-after_modify _ (Runs-pure (some key) tt)

  cache_insert-returns :
      (user : ℕ) (key : Bytes)
      → Runs {E = E} e v (cache_insert user key) (λ _ _. Unit {0}) (λ _ _. ⊥)
  unfolding cache_insert
  cache_insert-returns user key =
      Sure-bind Sure-time λ _ _. Sure-bind (Sure-gets _) λ slot _. filled slot
    where
      filled : (o : Option ℕ) → Runs {E = E} e v (fill_slot user key o) (λ _ _. Unit {0}) (λ _ _. ⊥)
      filled none = Runs-pure tt tt
      filled (some slot) = Sure-bind Sure-time λ _ _. Runs-modify _ tt

module _ {e : Env} {v : Vault} (L : IsLawful e) (quiet : IsQuiet e) (G : IsGood e v) (u : User)
    (k : KekRow) (here : Occurs u v.tables.users) (found : find_kek u.id v.tables ≡ some k)
    (live : IsLive e u k) where
  keyed-returns :
      (w : Vault) (o : Option Bytes)
      → Runs e w (otherwise o (derive_and_cache u k)) (λ _ _. Unit {0}) (λ _ _. ⊥)
  keyed-returns w (some key) = Runs-pure key tt
  keyed-returns w none =
      Sure-bind
        (Sure-or_return err_internal
          (kek_derive_wrapping_key-Sure quiet u.password_hash k.salt live.hashed live.salted))
        λ key _. Runs-bind (cache_insert-returns u.id key) λ _ _ _. Runs-pure key tt

  -- The KEK of a user is opened if his KEK row is live.
  pub open_kek-Live :
      Runs e v (open_kek u k) (λ kek v'. (kek ≡ live.kek) × CacheMoved e v v') (λ _ _. ⊥)
  unfolding open_kek
  open_kek-Live = Sure-bind (Sure-or_return err_internal (secure_alloc-Sure quiet 32 refl)) λ _ _.
      Sure-bind (Sure-or_return err_internal (secure_alloc-Sure quiet 32 refl)) λ _ _.
        Runs-bind
          (Runs-returns (cache_lookup-Runs v G.sound G.coherent u k here found)
            (cache_lookup-returns u.id))
          λ o v₁ h.
            Runs-bind
              (Runs-returns
                (after_move h.1 (λ c hits misses. keyed G u k here found o c hits misses h.0))
                (keyed-returns v₁ o))
              λ key v₂ q.
                Runs-weaken
                  (Sure-or_return err_internal (
                    aes_kw_unwrap-Sure quiet k.wrapped_kek key live.whole
                      (ap length q.0 ∙ L.pwhash_length _ _)
                      (ap (λ x. e.key_unwrap x k.wrapped_kek) q.0 ∙ live.opened)))
                  (λ kek v₃ r. (r.1, rw r.0 q.1)) (λ _ _ r. r)
