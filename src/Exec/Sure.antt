-- ===== src/Exec/Sure.antt =====
-- Computations that leave the vault alone and cannot fail.
use mathlib.Core.Path.{subst⁻¹}
use vaultine.Prelude.{ℕ, ◌≡◌, refl, ◌⊎◌, inl, inr, Option, none, some, Bool, true, false}
use vaultine.World.{Env, Vault}
use mathlib.Core.Option.{some-injective}
use vaultine.Exec.{
  require, deref, random_bytes, call, call_by, leave, leaving, ◌or_return◌, Exec, Try, pure, gets,
  ask, attempt, time, ◌>>=◌,
}
use vaultine.Exec.Runs.{
  Runs, Reads, Runs-bind, Runs-weaken, Runs-attempt, Runs-or_return, Runs-leaving,
}

abbrev pub Sure : {E A : Type 0} → Env → Vault → Exec E A → (A → Type 0) → Type 0
Sure e v m P = Runs e v m (λ a v'. (v' ≡ v) × P a) (λ _ _. ⊥)

module _ {E A B : Type 0} where
  pub Sure-bind :
      {e : Env} {v : Vault} {m : Exec E A} {f : A → Exec E B} {P : A → Type 0}
      {S : B → Vault → Type 0} {R : E → Vault → Type 0}
      → Sure e v m P
      → ((a : A) → P a → Runs e v (f a) S R)
      → Runs e v (m >>= f) S R
  Sure-bind {e} {v} {m} {f} {P} {S} {R} h k =
      Runs-bind {Q = λ a v'. (v' ≡ v) × P a} {R = R}
        (Runs-weaken h (λ a v' q. q) (λ x v' q. absurd q))
        (λ a v' q. subst⁻¹ (λ u. Runs e u (f a) S R) q.0 (k a q.1))

module _ {E A : Type 0} {e : Env} {v : Vault} where
  pub Sure-map :
      {m : Exec E A} {P S : A → Type 0} → Sure e v m P → ((a : A) → P a → S a) → Sure e v m S
  Sure-map h f = Runs-weaken h (λ a v' q. (q.0, f a q.1)) (λ x v' q. q)

  pub Sure-pure : (a : A) → Sure {E = E} e v (pure a) (λ b. b ≡ a)
  unfolding pure
  Sure-pure a = record { at = λ n. (refl, refl) }

  pub Sure-gets : (f : Vault → A) → Sure {E = E} e v (gets f) (λ a. a ≡ f v)
  unfolding gets
  Sure-gets f = record { at = λ n. (refl, refl) }

  pub Sure-ask : (f : Env → A) → Sure {E = E} e v (ask f) (λ a. a ≡ f e)
  unfolding ask
  Sure-ask f = record { at = λ n. (refl, refl) }

  -- A call that is tested later: it gave its value, or none.
  pub Sure-attempt :
      {m : Try A} {P : A → Type 0}
      → Reads e v m P
      → Sure {E = E} e v (attempt m) (λ o. (o ≡ none) ⊎ ((a : A) × (o ≡ some a) × P a))
  Sure-attempt h =
      Runs-attempt (Runs-weaken h (λ a v' q. (q.0, inr (a, refl, q.1))) (λ x v' q. (q, inl refl)))

module _ {E : Type 0} {e : Env} {v : Vault} where
  pub Sure-time : Sure {E = E} e v time (λ t. (i : ℕ) × (t ≡ e.clock i))
  unfolding time
  Sure-time = record { at = λ n. (refl, (n, refl)) }

module _ {e : Env} {v : Vault} where
  -- Where no foreign call reports an error.
  pub Sure-call : ((n : ℕ) → e.fails n ≡ false) → Sure e v call (λ _. Unit)
  unfolding call call_by
  Sure-call quiet = record { at = λ n. rw (quiet n) (refl, tt) }

  pub Sure-require : {E : Type 0} {b : Bool} (x : E) → b ≡ true → Sure e v (require b x) (λ _. Unit)
  unfolding require
  Sure-require x p = record { at = λ n. rw p (refl, tt) }

  pub Sure-deref :
      {E A : Type 0} (o : Option A) (x : E) {a : A} → o ≡ some a → Sure e v (deref o x) (λ b. b ≡ a)
  unfolding deref pure leave
  Sure-deref none x p = cc
  Sure-deref (some b) x {a} p = record { at = λ n. (refl, some-injective b a p) }

  pub Sure-random_bytes :
      {E : Type 0} (k : ℕ) → Sure {E = E} e v (random_bytes k) (λ r. (i : ℕ) × (r ≡ e.random i k))
  unfolding random_bytes
  Sure-random_bytes k = record { at = λ n. (refl, (n, refl)) }

module _ {E F A : Type 0} {e : Env} {v : Vault} where
  pub Sure-or_return :
      {m : Exec E A} (x : F) {P : A → Type 0} → Sure e v m P → Sure e v (m or_return x) P
  Sure-or_return x h = Runs-or_return x {R = λ _ _. ⊥} h

  pub Sure-leaving :
      {m : Exec E A} (f : E → F) {P : A → Type 0} → Sure e v m P → Sure e v (leaving f m) P
  Sure-leaving f h = Runs-leaving f {R = λ _ _. ⊥} h

  -- The value of a call that cannot fail is there to be tested.
  pub Sure-attempted :
      {m : Exec E A} {P : A → Type 0}
      → Sure e v m P
      → Sure {E = F} e v (attempt m) (λ o. (a : A) × (o ≡ some a) × P a)
  Sure-attempted h =
      Runs-attempt (Runs-weaken h (λ a v' q. (q.0, (a, refl, q.1))) (λ x v' q. absurd q))

module _ {E A B : Type 0} where
  infixr 5 ◌⨟◌
  pub ◌⨟◌ :
      {e : Env} {v : Vault} {m : Exec E A} {k : Exec E B} {P : A → Type 0} {S : B → Type 0}
      → Sure e v m P
      → Sure e v k S
      → Sure e v (m >>= λ _. k) S
  g ⨟ h = Sure-bind g (λ _ _. h)
