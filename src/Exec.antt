-- ===== src/Exec.antt =====
-- Functions that change the world and may return early. `Exec E A` returns an `A`, or leaves with
-- an `E`; what was written before stays written. A C++ function that returns `bool` is a `Try`.
pub mod Runs
pub mod Sure
pub mod Stays
use vaultine.Prelude.{ℕ, suc, Bytes, Bool, true, false, Option, none, some, if◌then◌else◌}
use vaultine.World.{Env, World, Vault}

pub data Result (E A : Type 0) : Type 0 where
  value : A → Result E A
  fail : E → Result E A

abbrev pub Exec : Type 0 → Type 0 → Type 0
Exec E A = Env → World → Result E A × World

abbrev pub Try : Type 0 → Type 0
Try A = Exec Unit A

module _ {E A : Type 0} where
  unfoldable pub pure : A → Exec E A
  pure a e w = (value a, w)

  unfoldable pub leave : E → Exec E A
  leave x e w = (fail x, w)

  unfoldable pub gets : (Vault → A) → Exec E A
  gets f e w = (value (f w.vault), w)

unfoldable pub modify : {E : Type 0} → (Vault → Vault) → Exec E Unit
modify f e w = (value tt, record w { vault = f w.vault })

-- A call of foreign code is over: the next one has the next number.
abbrev pub tick : World → World
tick w = record w { calls = suc w.calls }

module _ {E A B : Type 0} where
  -- What is run after a result: the rest of the block, unless it was left.
  abbrev pub continue : (A → Exec E B) → Env → Result E A × World → Result E B × World
  continue f e (value a, w) = f a e w
  continue f e (fail x, w) = (fail x, w)

  infixl 5 ◌>>=◌ ◌>>◌
  unfoldable pub ◌>>=◌ : Exec E A → (A → Exec E B) → Exec E B
  ◌>>=◌ m f e w = continue f e (m e w)

  abbrev pub ◌>>◌ : Exec E A → Exec E B → Exec E B
  m >> k = m >>= λ _. k

module _ {A E F : Type 0} where
  abbrev pub replaced : F → Result E A × World → Result F A × World
  replaced x (value a, w) = (value a, w)
  replaced x (fail _, w) = (fail x, w)

  -- `if (!m) return x;`
  infixl 6 ◌or_return◌
  unfoldable pub ◌or_return◌ : Exec E A → F → Exec F A
  ◌or_return◌ m x e w = replaced x (m e w)

  abbrev pub relabelled : (E → F) → Result E A × World → Result F A × World
  relabelled f (value a, w) = (value a, w)
  relabelled f (fail x, w) = (fail (f x), w)

  -- A return is completed by what the caller of the block adds to it.
  unfoldable pub leaving : (E → F) → Exec E A → Exec F A
  leaving f m e w = relabelled f (m e w)

  abbrev pub kept : Result E A × World → Result F (Option A) × World
  kept (value a, w) = (value (some a), w)
  kept (fail _, w) = (value none, w)

  -- The result of a call that is tested later.
  unfoldable pub attempt : Exec E A → Exec F (Option A)
  attempt m e w = kept (m e w)

module _ {A E F : Type 0} where
  abbrev pub rescued : (E → Exec F A) → Env → Result E A × World → Result F A × World
  rescued k e (value a, w) = (value a, w)
  rescued k e (fail x, w) = k x e w

  -- What is run with the reason of a failure, in place of a value.
  infixl 6 ◌or_else◌
  unfoldable pub ◌or_else◌ : Exec E A → (E → Exec F A) → Exec F A
  ◌or_else◌ m k e w = rescued k e (m e w)

-- `if (!test) return x;`
unfoldable pub require : {E : Type 0} → Bool → E → Exec E Unit
require test x e w = (if test then value tt else fail x, w)

-- A null pointer makes the function return `x`.
unfoldable pub deref : {E A : Type 0} → Option A → E → Exec E A
deref none x = leave x
deref (some a) x = pure a

abbrev pub present : {A : Type 0} → Option A → Bool
present none = false
present (some _) = true

-- The value of a foreign function.
unfoldable pub ask : {E A : Type 0} → (Env → A) → Exec E A
ask f e w = (value (f e), w)

-- A call of foreign code that may report an error, as the environment answers it.
unfoldable pub call_by : (Env → ℕ → Bool) → Try Unit
call_by answers e w = (if answers e w.calls then fail tt else value tt, tick w)

unfoldable pub call : Try Unit
call = call_by (λ e. e.fails)

-- A call whose error is ignored.
unfoldable pub ignore_call : {E : Type 0} → Exec E Unit
ignore_call e w = (value tt, tick w)

-- time(nullptr)
unfoldable pub time : {E : Type 0} → Exec E ℕ
time e w = (value (e.clock w.calls), tick w)

-- crypto/random.cc: randombytes_buf(buf, len)
unfoldable pub random_bytes : {E : Type 0} → ℕ → Exec E Bytes
random_bytes n e w = (value (e.random w.calls n), tick w)
