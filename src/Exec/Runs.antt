-- ===== src/Exec/Runs.antt =====
-- What a computation ensures of its result and of the vault after it, whatever the number of the
-- first foreign call, with a rule for each way to build a computation.
use vaultine.Prelude.{
  ℕ, suc, ◌≡◌, refl, ◌⊎◌, inl, inr, Bool, true, false, Option, none, some, if◌then◌else◌,
}
use mathlib.Core.Path.{subst⁻¹}
use vaultine.World.{Env, World, Vault}
use vaultine.Exec.{
  Result, value, fail, Exec, Try, pure, leave, gets, modify, continue, require, deref, ask, attempt,
  kept, present, leaving, relabelled, replaced, call, call_by, ignore_call, time, random_bytes,
  ◌or_return◌, ◌>>=◌,
}

-- `Q` of the value and the vault after a return, `R` of the reason and the vault after a failure.
abbrev pub Post :
    {E A : Type 0} → (A → Vault → Type 0) → (E → Vault → Type 0) → Result E A × World → Type 0
Post Q R (value a, w) = Q a w.vault
Post Q R (fail x, w) = R x w.vault

pub record Runs {E A : Type 0} (e : Env) (v : Vault) (m : Exec E A) (Q : A → Vault → Type 0)
    (R : E → Vault → Type 0) : Type 0 where
  pub at : (n : ℕ) → Post Q R (m e (record { calls = n; vault = v }))

-- A computation that leaves the vault alone, and whose value satisfies `P`.
abbrev pub Reads : {E A : Type 0} → Env → Vault → Exec E A → (A → Type 0) → Type 0
Reads e v m P = Runs e v m (λ a v'. (v' ≡ v) × P a) (λ _ v'. v' ≡ v)

module _ {E A B : Type 0} where
  continue-Post :
      (f : A → Exec E B) (e : Env) (r : Result E A × World) (Q : A → Vault → Type 0)
      (S : B → Vault → Type 0) (R : E → Vault → Type 0)
      → Post Q R r
      → ((a : A) (v : Vault) → Q a v → Runs e v (f a) S R)
      → Post S R (continue f e r)
  continue-Post f e (value a, w) Q S R h k = (k a w.vault h).at w.calls
  continue-Post f e (fail x, w) Q S R h k = h

  pub Runs-bind :
      {e : Env} {v : Vault} {m : Exec E A} {f : A → Exec E B} {Q : A → Vault → Type 0}
      {S : B → Vault → Type 0} {R : E → Vault → Type 0}
      → Runs e v m Q R
      → ((a : A) (v' : Vault) → Q a v' → Runs e v' (f a) S R)
      → Runs e v (m >>= f) S R
  unfolding ◌>>=◌
  Runs-bind {e} {v} {m} {f} {Q} {S} {R} h k = record {
    at = λ n. continue-Post f e _ Q S R (h.at n) k;
  }

module _ {E A : Type 0} where
  weaken-Post :
      (r : Result E A × World) (Q S : A → Vault → Type 0) (R T : E → Vault → Type 0)
      → Post Q R r
      → ((a : A) (v : Vault) → Q a v → S a v)
      → ((x : E) (v : Vault) → R x v → T x v)
      → Post S T r
  weaken-Post (value a, w) Q S R T h f g = f a w.vault h
  weaken-Post (fail x, w) Q S R T h f g = g x w.vault h

  pub Runs-weaken :
      {e : Env} {v : Vault} {m : Exec E A} {Q S : A → Vault → Type 0} {R T : E → Vault → Type 0}
      → Runs e v m Q R
      → ((a : A) (v' : Vault) → Q a v' → S a v')
      → ((x : E) (v' : Vault) → R x v' → T x v')
      → Runs e v m S T
  Runs-weaken {Q} {S} {R} {T} h f g = record { at = λ n. weaken-Post _ Q S R T (h.at n) f g }

  pub Reads-map :
      {e : Env} {v : Vault} {m : Exec E A} {P S : A → Type 0}
      → Reads e v m P
      → ((a : A) → P a → S a)
      → Reads e v m S
  Reads-map h f = Runs-weaken h (λ a v' q. (q.0, f a q.1)) (λ x v' q. q)

  pub Runs-if :
      {e : Env} {v : Vault} (b : Bool) {m k : Exec E A} {Q : A → Vault → Type 0}
      {R : E → Vault → Type 0}
      → (b ≡ true → Runs e v m Q R)
      → (b ≡ false → Runs e v k Q R)
      → Runs e v (if b then m else k) Q R
  Runs-if true h k = h refl
  Runs-if false h k = k refl

module _ {E A B : Type 0} where
  -- After a part that only reads, the rest runs in the same vault.
  pub Reads-bind :
      {e : Env} {v : Vault} {m : Exec E A} {f : A → Exec E B} {P : A → Type 0}
      {S : B → Vault → Type 0} {R : E → Vault → Type 0}
      → Reads e v m P
      → ((x : E) → R x v)
      → ((a : A) → P a → Runs e v (f a) S R)
      → Runs e v (m >>= f) S R
  Reads-bind {e} {v} {m} {f} {P} {S} {R} h g k =
      Runs-bind {Q = λ a v'. (v' ≡ v) × P a} {R = R}
        (Runs-weaken h (λ a v' q. q) (λ x v' q. subst⁻¹ (R x) q (g x)))
        (λ a v' q. subst⁻¹ (λ u. Runs e u (f a) S R) q.0 (k a q.1))

  pub Reads-chain :
      {e : Env} {v : Vault} {m : Exec E A} {f : A → Exec E B} {P : A → Type 0} {S : B → Type 0}
      → Reads e v m P
      → ((a : A) → P a → Reads e v (f a) S)
      → Reads e v (m >>= f) S
  Reads-chain h k = Reads-bind h (λ x. refl) k

  -- One part that reads after another, whose value is not used.
  infixr 5 ◌⨾◌
  pub ◌⨾◌ :
      {e : Env} {v : Vault} {m : Exec E A} {k : Exec E B} {P : A → Type 0} {S : B → Type 0}
      → Reads e v m P
      → Reads e v k S
      → Reads e v (m >>= λ _. k) S
  g ⨾ h = Reads-chain g (λ _ _. h)

module _ {E F A : Type 0} where
  or_return-Post :
      (x : F) (r : Result E A × World) (Q : A → Vault → Type 0) (R : F → Vault → Type 0)
      → Post Q (λ _ v. R x v) r
      → Post Q R (replaced x r)
  or_return-Post x (value a, w) Q R h = h
  or_return-Post x (fail y, w) Q R h = h

  pub Runs-or_return :
      {e : Env} {v : Vault} {m : Exec E A} (x : F) {Q : A → Vault → Type 0} {R : F → Vault → Type 0}
      → Runs e v m Q (λ _ v'. R x v')
      → Runs e v (m or_return x) Q R
  unfolding ◌or_return◌
  Runs-or_return x {Q} {R} h = record { at = λ n. or_return-Post x _ Q R (h.at n) }

  leaving-Post :
      (f : E → F) (r : Result E A × World) (Q : A → Vault → Type 0) (R : F → Vault → Type 0)
      → Post Q (λ y v. R (f y) v) r
      → Post Q R (relabelled f r)
  leaving-Post f (value a, w) Q R h = h
  leaving-Post f (fail y, w) Q R h = h

  pub Runs-leaving :
      {e : Env} {v : Vault} {m : Exec E A} (f : E → F) {Q : A → Vault → Type 0}
      {R : F → Vault → Type 0}
      → Runs e v m Q (λ y v'. R (f y) v')
      → Runs e v (leaving f m) Q R
  unfolding leaving
  Runs-leaving f {Q} {R} h = record { at = λ n. leaving-Post f _ Q R (h.at n) }

  attempt-Post :
      (r : Result E A × World) (S : Option A → Vault → Type 0) (T : F → Vault → Type 0)
      → Post (λ a. S (some a)) (λ _. S none) r
      → Post S T (kept r)
  attempt-Post (value a, w) S T h = h
  attempt-Post (fail x, w) S T h = h

  pub Runs-attempt :
      {e : Env} {v : Vault} {m : Exec E A} {S : Option A → Vault → Type 0} {T : F → Vault → Type 0}
      → Runs e v m (λ a. S (some a)) (λ _. S none)
      → Runs e v (attempt m) S T
  unfolding attempt
  Runs-attempt {S} {T} h = record { at = λ n. attempt-Post _ S T (h.at n) }

module _ {E F A : Type 0} {e : Env} {v : Vault} where
  pub Reads-leaving :
      {m : Exec E A} (f : E → F) {P : A → Type 0} → Reads e v m P → Reads e v (leaving f m) P
  Reads-leaving f h = Runs-leaving f {R = λ _ v'. v' ≡ v} h

  pub Reads-or_return :
      {m : Exec E A} (x : F) {P : A → Type 0} → Reads e v m P → Reads e v (m or_return x) P
  Reads-or_return x h = Runs-or_return x {R = λ _ v'. v' ≡ v} h

  pub Reads-attempt :
      {m : Exec E A} {P : A → Type 0} → Reads e v m P → Reads {E = F} e v (attempt m) (λ _. Unit)
  Reads-attempt h = Runs-attempt (Runs-weaken h (λ a v' q. (q.0, tt)) (λ x v' q. (q, tt)))

module _ {E A : Type 0} {e : Env} {v : Vault} where
  pub Runs-pure :
      (a : A) {Q : A → Vault → Type 0} {R : E → Vault → Type 0} → Q a v → Runs e v (pure a) Q R
  unfolding pure
  Runs-pure a h = record { at = λ n. h }

  pub Runs-leave :
      (x : E) {Q : A → Vault → Type 0} {R : E → Vault → Type 0} → R x v → Runs e v (leave x) Q R
  unfolding leave
  Runs-leave x h = record { at = λ n. h }

  pub Reads-pure : (a : A) → Reads {E = E} e v (pure a) (λ b. b ≡ a)
  unfolding pure
  Reads-pure a = record { at = λ n. (refl, refl) }

  pub Reads-gets : (f : Vault → A) → Reads {E = E} e v (gets f) (λ a. a ≡ f v)
  unfolding gets
  Reads-gets f = record { at = λ n. (refl, refl) }

  pub Reads-ask : (f : Env → A) → Reads {E = E} e v (ask f) (λ a. a ≡ f e)
  unfolding ask
  Reads-ask f = record { at = λ n. (refl, refl) }

  pub Reads-deref : (o : Option A) (x : E) → Reads e v (deref o x) (λ a. o ≡ some a)
  unfolding deref pure leave
  Reads-deref none x = record { at = λ n. refl }
  Reads-deref (some a) x = record { at = λ n. (refl, refl) }

module _ {E : Type 0} {e : Env} {v : Vault} where
  pub Reads-require : (b : Bool) (x : E) → Reads e v (require b x) (λ _. b ≡ true)
  unfolding require
  Reads-require true x = record { at = λ n. (refl, refl) }
  Reads-require false x = record { at = λ n. refl }

  pub Reads-ignore_call : Reads {E = E} e v ignore_call (λ _. Unit)
  unfolding ignore_call
  Reads-ignore_call = record { at = λ n. (refl, tt) }

  pub Reads-time : Reads {E = E} e v time (λ t. (i : ℕ) × (t ≡ e.clock i))
  unfolding time
  Reads-time = record { at = λ n. (refl, (n, refl)) }

  pub Reads-random_bytes :
      (k : ℕ) → Reads {E = E} e v (random_bytes k) (λ r. (i : ℕ) × (r ≡ e.random i k))
  unfolding random_bytes
  Reads-random_bytes k = record { at = λ n. (refl, (n, refl)) }

  pub Runs-modify :
      (f : Vault → Vault) {Q : Unit {0} → Vault → Type 0} {R : E → Vault → Type 0}
      → Q tt (f v)
      → Runs e v (modify f) Q R
  unfolding modify
  Runs-modify f h = record { at = λ n. h }

module _ {e : Env} {v : Vault} where
  -- A call that returns did not fail.
  pub Reads-call_by :
      (answers : Env → ℕ → Bool)
      → Reads e v (call_by answers) (λ _. (i : ℕ) × (answers e i ≡ false))
  unfolding call_by
  Reads-call_by answers = record { at = λ n. called n (answers e n) refl }
    where
      called :
          (n : ℕ) (b : Bool)
          → answers e n ≡ b
          → Post {E = Unit {0}} {A = Unit {0}}
              (λ _ v'. (v' ≡ v) × ((i : ℕ) × (answers e i ≡ false)))
              (λ _ v'. v' ≡ v)
              (if b then fail tt else value tt, record { calls = suc n; vault = v })
      called n true p = refl
      called n false p = (refl, (n, p))

  pub Reads-call : Reads e v call (λ _. Unit)
  unfolding call
  Reads-call = Runs-weaken (Reads-call_by (λ e. e.fails)) (λ a v' h. (h.0, tt)) (λ x v' h. h)

  -- The parts of a `do` block before its last line.
  pub Runs-call :
      {B : Type 0} {m : Try B} {S : B → Vault → Type 0} {R : Unit {0} → Vault → Type 0}
      → R tt v
      → Runs e v m S R
      → Runs e v (call >>= λ _. m) S R
  Runs-call r h = Reads-bind Reads-call (λ x. r) (λ a p. h)

  pub Runs-require :
      {E B : Type 0} (b : Bool) (x : E) {m : Exec E B} {S : B → Vault → Type 0}
      {R : E → Vault → Type 0}
      → (b ≡ false → R x v)
      → (b ≡ true → Runs e v m S R)
      → Runs e v (require b x >>= λ _. m) S R
  unfolding require ◌>>=◌
  Runs-require true x r h = record { at = λ n. (h refl).at n }
  Runs-require false x r h = record { at = λ n. r refl }

  pub Runs-after_modify :
      {E B : Type 0} (f : Vault → Vault) {m : Exec E B} {S : B → Vault → Type 0}
      {R : E → Vault → Type 0}
      → Runs e (f v) m S R
      → Runs e v (modify f >>= λ _. m) S R
  unfolding modify ◌>>=◌
  Runs-after_modify f h = record { at = λ n. h.at n }

  -- A call whose error is looked at later: it went well, or the environment has a failure in it.
  pub Reads-attempt-call_by :
      {E : Type 0} (answers : Env → ℕ → Bool)
      → Reads {E = E} e v
          (attempt (call_by answers))
          (λ o. (present o ≡ true) ⊎ ((i : ℕ) × (answers e i ≡ true)))
  unfolding attempt call_by
  Reads-attempt-call_by {E} answers = record { at = λ n. called n (answers e n) refl }
    where
      called :
          (n : ℕ) (b : Bool)
          → answers e n ≡ b
          → Post {E = E} {A = Option (Unit {0})}
              (λ o v'. (v' ≡ v) × ((present o ≡ true) ⊎ ((i : ℕ) × (answers e i ≡ true))))
              (λ _ v'. v' ≡ v)
              (kept {F = E} (if b then fail tt else value tt, record { calls = suc n; vault = v }))
      called n true p = (refl, inr (n, p))
      called n false p = (refl, inl refl)
