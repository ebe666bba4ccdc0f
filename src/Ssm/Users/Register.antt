-- ===== src/Ssm/Users/Register.antt =====
-- ssm_user_register of src/ssm.cc: a user and his KEK, in two statements that are no transaction. The
-- cache that was coherent before is so after each of them.
pub mod Registered
pub mod Reveal
use vaultine.Prelude.{
  ℕ, Bytes, ◌≡◌, refl, sym, ◌∙◌, ap, ◌⊎◌, inl, inr, ◌==◌, Option, none, some, List, [], ◌∷◌, ◌++◌,
  All-map, Occurs, first-append-other, arith,
}
use mathlib.Core.Path.{ap₂, subst⁻¹}
use vaultine.World.{Env, User, KekRow, CacheEntry, Vault, Tables, err_internal}
use vaultine.Exec.Runs.{
  Runs, Reads, Reads-bind, Reads-map, Reads-chain, ◌⨾◌, Reads-or_return, Reads-deref, Reads-require,
  Reads-random_bytes, Reads-pure, Runs-bind, Runs-weaken, Runs-or_return,
}
use vaultine.Exec.Sure.{Sure-bind, Sure-attempt}
use vaultine.Crypto.Reads.{secure_alloc-Reads, aes_kw_wrap-Reads}
use vaultine.Kek.{kek_generate}
use vaultine.Kek.Reads.{kek_derive_wrapping_key-Reads, kek_expires_at-Reads}
use vaultine.Db.Sql.{find_kek, insert_user, insert_kek, has_user, has_kek}
use vaultine.Db.Runs.{users_find_by_username-Reads, users_create-Changes, kek_store-Changes}
use vaultine.Cache.Coherent.{IsRight, IsCoherent}
use vaultine.Sound.{IsSound}
use vaultine.Sound.Statements.{insert_user-IsSound, insert_kek-IsSound}
use vaultine.Ssm.Runs.{
  Logged, unlogged, audit_write-Runs, check_password-Reads, hash_password-Reads,
}
use vaultine.Ssm.Done.{IsGood, Logged-Served, left_then-Logged, Done-IsGood}
use vaultine.Ssm.Users.{register_unless, ssm_user_register}

append-Occurs :
    {A : Type 0} (xs : List A) (b a : A) → Occurs a (xs ++ (b ∷ [])) → Occurs a xs ⊎ (a ≡ b)
append-Occurs [] b a (inl p) = inr p
append-Occurs [] b a (inr o) = absurd o
append-Occurs (x ∷ xs) b a (inl p) = inl (inl p)
append-Occurs (x ∷ xs) b a (inr o) = elim (append-Occurs xs b a o) [
  | inl q ↦ inl (inr q)
  | inr q ↦ inr q
]

-- Nobody has a valid entry under the id that a new user gets, so the cache stays right for him and,
-- once he has one, for his KEK.
module _ (e : Env) (t : Tables) (username hash now : Bytes) where
  pub inserted_user-IsCoherent :
      (cs : List CacheEntry) → IsCoherent e t cs → IsCoherent e (insert_user username hash now t) cs
  unfolding insert_user find_kek
  inserted_user-IsCoherent cs h =
      All-map (IsRight e t) _ cs
        (λ c r. record {
          known = λ p. omega (arith, r.known p);
          current = λ p u o i k f. elim (append-Occurs t.users _ u o) [
            | inl o' ↦ r.current p u o' i k f
            | inr q ↦ absurd (omega (arith, r.known p, i, ap (λ (x : User). x.id) q))
          ];
        })
        h

  pub inserted_kek-IsCoherent :
      (wrapped salt expires : Bytes) (cs : List CacheEntry)
      → IsCoherent e t cs
      → IsCoherent e
          (insert_kek t.next_user wrapped salt expires (insert_user username hash now t))
          cs
  unfolding insert_user insert_kek find_kek
  inserted_kek-IsCoherent wrapped salt expires cs h =
      All-map (IsRight e t) _ cs
        (λ c r. record {
          known = λ p. omega (arith, r.known p);
          current = λ p u o i k f. elim (append-Occurs t.users _ u o) [
            | inl o' ↦ r.current p u o' i k (
                sym (
                  first-append-other (λ (y : KekRow). y.user_id == u.id) t.keks _
                    (ground (arith, r.known p, i)))
                ∙ f)
            | inr q ↦ absurd (omega (arith, r.known p, i, ap (λ (x : User). x.id) q))
          ];
        })
        h
