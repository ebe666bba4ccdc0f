-- ===== src/Kek/Reads.antt =====
-- What the functions of src/kek/kek.cc that only compute return when they return.
use vaultine.Prelude.{
  ◌+◌, ◌*◌, ℕ, zero, suc, Bytes, ◌≡◌, refl, sym, ap, ◌∙◌, some, List, [], ◌∷◌, take,
}
use vaultine.World.{Env, Vault, KekRow}
use vaultine.Exec.Runs.{
  Reads, Reads-chain, ◌⨾◌, Reads-call, Reads-require, Reads-ask, Reads-time, Reads-map,
}
use vaultine.Crypto.Reads.{secure_alloc-Reads, aes_kw_unwrap-Reads}
use vaultine.Kek.{kek_derive_wrapping_key, kek_expires_at, kek_unwrap}
use vaultine.Reveal.{unlock}

pub take-take {ℓ} : {A : Type ℓ} (n : ℕ) (xs : List A) → take n (take n xs) ≡ take n xs
take-take zero xs = refl
take-take (suc n) [] = refl
take-take (suc n) (x ∷ xs) = ap (λ t. x ∷ t) (take-take n xs)

module _ {e : Env} {v : Vault} where
  pub kek_derive_wrapping_key-Reads :
      (hash salt : Bytes) (n : ℕ)
      → Reads e v (kek_derive_wrapping_key hash salt n) (λ k. k ≡ e.pwhash hash (take 16 salt))
  unfolding kek_derive_wrapping_key
  kek_derive_wrapping_key-Reads hash salt n =
      Reads-require _ _ ⨾ Reads-require _ _ ⨾ Reads-call ⨾ Reads-ask _

  -- The KEK that kek_unwrap returns is the one that the hash opens.
  pub kek_unwrap-Reads :
      (k : KekRow) (hash : Bytes)
      → Reads e v (kek_unwrap k.wrapped_kek hash k.salt) (λ kek. unlock e hash k ≡ some kek)
  unfolding kek_unwrap
  kek_unwrap-Reads k hash =
      Reads-require _ _
      ⨾ secure_alloc-Reads _
      ⨾ Reads-chain (kek_derive_wrapping_key-Reads hash _ _) (λ key p.
        Reads-map (aes_kw_unwrap-Reads k.wrapped_kek key) (λ kek h.
          ap (λ x. e.key_unwrap x k.wrapped_kek)
            (ap (e.pwhash hash) (sym (take-take 16 k.salt)) ∙ sym p)
          ∙ h))

  pub kek_expires_at-Reads :
      (days n : ℕ)
      → Reads e v
          (kek_expires_at days n)
          (λ date. (i : ℕ) × (date ≡ e.strftime (e.clock i + days * 86400)))
  unfolding kek_expires_at
  kek_expires_at-Reads days n =
      Reads-require _ _
      ⨾ Reads-chain Reads-time (λ t p.
        Reads-map (Reads-ask _) (λ _ q. (p.0, q ∙ ap (λ now. e.strftime (now + days * 86400)) p.1)))
