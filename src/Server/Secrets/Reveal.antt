-- ===== src/Server/Secrets/Reveal.antt =====
-- src/cli/ssm_server.cc: what GET /v1/users/<username>/secrets/<name> replies.
use mathlib.Core.Path.{subst, subst⁻¹}
use vaultine.Prelude.{ℕ, ◌≤◌, Bytes, ◌≡◌, refl, sym, ◌∙◌, inl, inr, ◌&&◌, ltb, some, ◌∷◌, arith}
use vaultine.World.{
  Env, Vault, Status, ok, err_auth, err_not_found, err_expired, err_integrity, err_internal,
}
use vaultine.Exec.{leave, ◌>>=◌}
use vaultine.Exec.Runs.{Runs, Runs-bind, Runs-weaken, Runs-pure, Runs-leave, Runs-if}
use vaultine.Exec.Stays.{Runs-or_else}
use vaultine.Crypto.{is_empty}
use vaultine.Kek.{or_empty}
use vaultine.Hex.{hex_encode}
use vaultine.Reveal.{reveal}
use vaultine.Ssm.Done.{IsGood, Served, Served-trans, Done-reveal, Done-IsGood}
use vaultine.Ssm.Calls.Reads.{Served-refl}
use vaultine.Ssm.Secrets.{Buffers}
use vaultine.Ssm.Secrets.Get.{ssm_secret_get-found}
use vaultine.Server.{
  Reply, Outcome, Members, object, text, Content, replied, member, reply_json, reply_ok,
  reply_error, reply_status, refuse_error, refuse_status, http_ok,
}
use vaultine.Server.Guard.{Says, reply_json-Only}
use vaultine.Server.Route.{RouteMatch, secret_name}
use vaultine.Server.Secrets.{
  again, get_secret, refuse_get, code_of_get, keys_found, public_found, key_private, is_internal,
  buffer_size, handle_secret_get_req,
}

-- An early return with an error for a reply.
abbrev pub IsRefusal : Outcome → Type 0
IsRefusal o = (r : Reply) × (o ≡ replied r) × (400 ≤ r.code)

module _ {e : Env} {A : Type 0} (v : Vault) where
  refuse_json :
      (code : ℕ) (content : Content)
      → 400 ≤ code
      → Runs e v
          (do r ← reply_json code content; leave {A = A} (replied r))
          (λ _ _. ⊥)
          (λ o v'. (v' ≡ v) × IsRefusal o)
  refuse_json code content h =
      Runs-bind (Runs-weaken (reply_json-Only v code content) (λ _ _ q. q) (λ _ _ q. absurd q))
        λ r v' q. Runs-leave (replied r) (q.0, (r, refl, high r q.1))
    where
      high : (r : Reply) → Says (record { code = code; content = content }) r → 400 ≤ r.code
      high r (inl p) = rw p h
      high r (inr p) = rw p (omega arith)

  refuse_status-Refuses :
      (code : ℕ) (op : Bytes) (st : Status)
      → 400 ≤ code
      → Runs e v (refuse_status {A = A} code op st) (λ _ _. ⊥) (λ o v'. (v' ≡ v) × IsRefusal o)
  unfolding refuse_status reply_status
  refuse_status-Refuses code op st h = refuse_json code _ h

  refuse_error-Refuses :
      (code : ℕ) (msg : Bytes)
      → 400 ≤ code
      → Runs e v (refuse_error {A = A} code msg) (λ _ _. ⊥) (λ o v'. (v' ≡ v) × IsRefusal o)
  unfolding refuse_error reply_error
  refuse_error-Refuses code msg h = refuse_json code _ h

  refuse_get-Refuses :
      (x : Status × Buffers)
      → Runs e v (refuse_get {A = A} x) (λ _ _. ⊥) (λ o v'. (v' ≡ v) × IsRefusal o)
  refuse_get-Refuses (st, b) = refuse_status-Refuses _ _ st (high st)
    where
      high : (st : Status) → 400 ≤ code_of_get st
      high ok = omega arith
      high err_auth = omega arith
      high err_not_found = omega arith
      high err_expired = omega arith
      high err_integrity = omega arith
      high err_internal = omega arith

-- What the two calls of ssm_secret_get leave.
module _ {e : Env} {v : Vault} (G : IsGood e v) (username name : Bytes) where
  abbrev Found : Buffers → Vault → Type 0
  Found b v' =
      (text : Bytes) × (b.private_key ≡ some text)
      × (reveal e v.tables username name ≡ some text)
      × Served e v v'

  again-Runs :
      (x : Status × Buffers) (v₁ : Vault)
      → Served e v v₁
      → Runs e v₁ (again username name x) Found (λ _ v'. Served e v v')
  again-Runs (st, b) v₁ h =
      Runs-if (is_internal st && ltb buffer_size b.private_key_len)
        (λ _.
          Runs-weaken
            (ssm_secret_get-found (Done-IsGood h G.idle G.sound) (some username) (some name)
              b.private_key_len (some b.public_key_len))
            (λ c v₂ k. (k.0, k.1, sym (Done-reveal h username name) ∙ k.2, Served-trans h k.4))
            (λ _ v₂ k. Served-trans h k))
        (λ _. Runs-leave (st, b) h)

  get_secret-Runs : Runs e v (get_secret username name) Found (λ _ v'. Served e v v')
  unfolding get_secret
  get_secret-Runs =
      Runs-or_else
        (Runs-weaken (ssm_secret_get-found G (some username) (some name) buffer_size _)
          (λ c v₂ k. (k.0, k.1, k.2, k.4)) (λ _ _ k. k))
        again-Runs

module _ {e : Env} {v : Vault} (G : IsGood e v) (m : RouteMatch) where
  abbrev pub Delivers : Reply → Type 0
  Delivers r =
      (key : Bytes) × (others : Members) × (reveal e v.tables m.username (secret_name m.resource)
        ≡ some key)
      × Says
          (record {
            code = http_ok;
            content = object (member key_private (text (hex_encode key)) ∷ others);
          })
          r

  -- In a vault with sound tables, a coherent cache and no open transaction: a GET for a secret
  -- replies 200 with the hexadecimal text of the private key that is stored for that user under
  -- that name, unless no buffer could be allocated for it; or it replies an error, of code 400 or
  -- more. No user, key or secret is changed, and no exception ends the process.
  pub handle_secret_get_req-Runs :
      Runs e v
        (handle_secret_get_req m)
        (λ r v'. Delivers r × Served e v v')
        (λ o v'. IsRefusal o × Served e v v')
  unfolding handle_secret_get_req reply_ok
  handle_secret_get_req-Runs =
      Runs-bind {Q = λ _ v'. v' ≡ v}
        (Runs-if (is_empty (secret_name m.resource))
          (λ _.
            Runs-weaken (refuse_error-Refuses v 404 _ (omega arith)) (λ _ _ x. absurd x)
              (λ o v' q. (q.1, subst⁻¹ (Served e v) q.0 (Served-refl G))))
          (λ _. Runs-pure tt refl))
        λ _ v₁ p. rw p (
          Runs-bind
            (Runs-or_else (get_secret-Runs G m.username (secret_name m.resource)) λ x v₂ h.
              Runs-weaken (refuse_get-Refuses v₂ x) (λ _ _ q. absurd q)
                (λ o v' q. (q.1, subst⁻¹ (Served e v) q.0 h)))
            λ b v₂ f.
              Runs-weaken (reply_json-Only v₂ http_ok (object (keys_found b)))
                (λ r v' q. (
                  (
                    f.0,
                    public_found b,
                    f.2,
                    subst
                        (λ o.
                          Says
                            (record {
                              code = http_ok;
                              content = object (
                                  member key_private (text (hex_encode (or_empty o)))
                                  ∷ public_found b);
                            })
                            r)
                        f.1 q.1,
                  ),
                  subst⁻¹ (Served e v) q.0 f.3,
                ))
                (λ _ _ q. absurd q))
