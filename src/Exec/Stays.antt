-- ===== src/Exec/Stays.antt =====
-- Computations that keep a property of the vault on every return, with a rule for each way to build
-- one.
use vaultine.Prelude.{Bool, true, false, Option, if◌then◌else◌}
use mathlib.Core.Path.{subst⁻¹}
use vaultine.World.{Env, World, Vault}
use vaultine.Exec.{
  Result, value, fail, Exec, pure, leave, gets, attempt, deref, require, rescued, call, ignore_call,
  ◌or_else◌, ◌or_return◌, ◌>>=◌,
}
use vaultine.Exec.Runs.{
  Post, Runs, Reads, Runs-bind, Runs-weaken, Runs-pure, Runs-leave, Runs-attempt, Runs-or_return,
  Reads-call, Reads-ignore_call, Reads-deref, Reads-require, Reads-gets,
}

-- `P` holds after every return, if it holds before.
abbrev pub Stays : {E A : Type 0} → Env → (Vault → Type 0) → Exec E A → Type 0
Stays e P m = (v : Vault) → P v → Runs e v m (λ _ v'. P v') (λ _ v'. P v')

module _ {E F A : Type 0} {e : Env} where
  or_else-Post :
      (k : E → Exec F A) (r : Result E A × World) (Q : A → Vault → Type 0) (R : E → Vault → Type 0)
      (S : F → Vault → Type 0)
      → Post Q R r
      → ((x : E) (v : Vault) → R x v → Runs e v (k x) Q S)
      → Post Q S (rescued k e r)
  or_else-Post k (value a, w) Q R S h f = h
  or_else-Post k (fail x, w) Q R S h f = (f x w.vault h).at w.calls

  pub Runs-or_else :
      {v : Vault} {m : Exec E A} {k : E → Exec F A} {Q : A → Vault → Type 0}
      {R : E → Vault → Type 0} {S : F → Vault → Type 0}
      → Runs e v m Q R
      → ((x : E) (v' : Vault) → R x v' → Runs e v' (k x) Q S)
      → Runs e v (m or_else k) Q S
  unfolding ◌or_else◌
  Runs-or_else {k = k} {Q = Q} {R = R} {S = S} h f = record {
    at = λ n. or_else-Post k _ Q R S (h.at n) f;
  }

module _ {e : Env} {P : Vault → Type 0} where
  pub Stays-Reads :
      {E A : Type 0} {m : Exec E A} {X : A → Type 0} → ((v : Vault) → Reads e v m X) → Stays e P m
  Stays-Reads h v p = Runs-weaken (h v) (λ _ v' q. subst⁻¹ P q.0 p) (λ _ v' q. subst⁻¹ P q p)

  pub Stays-bind :
      {E A B : Type 0} {m : Exec E A} {f : A → Exec E B}
      → Stays e P m
      → ((a : A) → Stays e P (f a))
      → Stays e P (m >>= f)
  Stays-bind h k v p = Runs-bind (h v p) (λ a v' q. k a v' q)

  pub Stays-or_else :
      {E F A : Type 0} {m : Exec E A} {k : E → Exec F A}
      → Stays e P m
      → ((x : E) → Stays e P (k x))
      → Stays e P (m or_else k)
  Stays-or_else h k v p = Runs-or_else (h v p) (λ x v' q. k x v' q)

  pub Stays-or_return :
      {E F A : Type 0} {m : Exec E A} (x : F) → Stays e P m → Stays e P (m or_return x)
  Stays-or_return x h v p = Runs-or_return x (h v p)

  pub Stays-attempt : {E F A : Type 0} {m : Exec E A} → Stays e P m → Stays {E = F} e P (attempt m)
  Stays-attempt h v p = Runs-attempt (h v p)

  pub Stays-if :
      {E A : Type 0} (b : Bool) {m k : Exec E A}
      → Stays e P m
      → Stays e P k
      → Stays e P (if b then m else k)
  Stays-if true h k = h
  Stays-if false h k = k

  pub Stays-pure : {E A : Type 0} (a : A) → Stays {E = E} e P (pure a)
  Stays-pure a v p = Runs-pure a p

  pub Stays-leave : {E A : Type 0} (x : E) → Stays {A = A} e P (leave x)
  Stays-leave x v p = Runs-leave x p

  pub Stays-call : Stays e P call
  Stays-call = Stays-Reads (λ v. Reads-call)

  pub Stays-ignore_call : {E : Type 0} → Stays {E = E} e P ignore_call
  Stays-ignore_call = Stays-Reads (λ v. Reads-ignore_call)

  pub Stays-deref : {E A : Type 0} (o : Option A) (x : E) → Stays e P (deref o x)
  Stays-deref o x = Stays-Reads (λ v. Reads-deref o x)

  pub Stays-require : {E : Type 0} (b : Bool) (x : E) → Stays e P (require b x)
  Stays-require b x = Stays-Reads (λ v. Reads-require b x)

  pub Stays-gets : {E A : Type 0} (f : Vault → A) → Stays {E = E} e P (gets f)
  Stays-gets f v p =
      Runs-weaken (Reads-gets f) (λ _ v' q. subst⁻¹ P q.0 p) (λ _ v' q. subst⁻¹ P q p)
