-- ===== src/Server/Guard.antt =====
-- src/cli/ssm_server.cc: what a request without the API key gets.
use mathlib.Core.Path.{subst⁻¹}
use mathlib.Core.Logic.{◌≢◌}
use vaultine.Crypto.{is_empty}
use vaultine.Prelude.{
  sym, ap, ◌∙◌, eqb, eqb_iff, Bool-cases, Option-cases, ℕ, Bytes, codes, ◌≡◌, refl, ◌⊎◌, inl, inr,
  Bool, true, false, not, [], ◌∷◌, Option, none, some, if◌then◌else◌,
}
use vaultine.World.{Env, Vault}
use vaultine.Exec.{Exec, present, pure}
use vaultine.Exec.Runs.{Runs, Runs-bind, Runs-weaken, Runs-pure, Runs-attempt, Reads-call}
use vaultine.Ssm.Handle.{Disk}
use vaultine.Server.{
  JsonCpp, Request, Reply, Outcome, Content, object, text, member, reply_json, reply_ok,
  reply_error, out_of_memory, check_api_key, http_ok, http_unauthorized,
}
use vaultine.Server.Admin.{health, version, handle_health, handle_version}
use vaultine.Server.Dispatch.{at, is_get, choose, authorized_handler, request_handler}

abbrev pub unauthorized : Reply
unauthorized = record {
  code = http_unauthorized;
  content = object (member (codes "error") (text (codes "missing or invalid API key")) ∷ []);
}

-- What is replied without a key: to GET /v1/health and GET /v1/version a constant, else an error.
abbrev pub public_reply : Request → Reply
public_reply req =
    if at req (codes "/v1/health") (is_get req.method)
    then record { code = http_ok; content = object health }
    else if at req (codes "/v1/version") (is_get req.method)
    then record { code = http_ok; content = object version }
    else unauthorized

-- The reply, unless no buffer could be allocated for it.
abbrev pub Says : Reply → Reply → Type 0
Says said r = (r ≡ said) ⊎ (r ≡ out_of_memory)

abbrev pub Only : Env → Vault → Reply → Exec Outcome Reply → Type 0
Only e v said m = Runs e v m (λ r v'. (v' ≡ v) × Says said r) (λ _ _. ⊥)

check_api_key-false :
    (api_key : Bytes) (req : Request)
    → is_empty api_key ≡ false
    → req.header (codes "X-API-Key") ≢ some api_key
    → check_api_key api_key req ≡ false
unfolding check_api_key
check_api_key-false api_key req set other = elim (Option-cases (req.header (codes "X-API-Key"))) [
  | inl none_there ↦ rw (set, none_there) refl
  | inr (key, there) ↦ elim (Bool-cases (eqb api_key key)) [
    | inl same ↦ absurd (other (there ∙ ap some (sym ((eqb_iff api_key key).0 same))))
    | inr differs ↦ rw (set, there, differs) refl
  ]
]

module _ {e : Env} (v : Vault) where
  pub reply_json-Only :
      (code : ℕ) (content : Content)
      → Only e v (record { code = code; content = content }) (reply_json code content)
  unfolding reply_json
  reply_json-Only code content =
      Runs-bind {Q = λ _ v'. v' ≡ v}
        (Runs-attempt (Runs-weaken Reads-call (λ _ _ h. h.0) (λ _ _ h. h))) said
    where
      said :
          (buffer : Option (Unit {0})) (v' : Vault)
          → v' ≡ v
          → Runs {E = Outcome} e v'
              (pure (
                if present buffer
                then record { code = code; content = content }
                else out_of_memory))
              (λ r v''. (v'' ≡ v) × Says (record { code = code; content = content }) r)
              (λ _ _. ⊥)
      said none v' h = Runs-pure _ (h, inr refl)
      said (some _) v' h = Runs-pure _ (h, inl refl)

  module _ {Value : Type 0} (json : JsonCpp Value) (disk : Disk) (api_key : Bytes)
      (req : Request) where
    -- Where a key is set, to a request that does not give it: the vault is not changed, and the reply
    -- is the constant one of GET /v1/health or GET /v1/version, or else 401 with a constant error,
    -- or the page that tells that there is no memory for it. No exception ends the process.
    pub request_handler-unauthorized :
        is_empty api_key ≡ false
        → req.header (codes "X-API-Key") ≢ some api_key
        → Runs e v
            (request_handler json disk api_key req)
            (λ r v'. (v' ≡ v) × Says (public_reply req) r)
            (λ _ _. ⊥)
    unfolding request_handler choose handle_health handle_version reply_ok reply_error
    request_handler-unauthorized set other =
        chosen (at req (codes "/v1/health") (is_get req.method))
          (at req (codes "/v1/version") (is_get req.method)) (check_api_key api_key req)
          (check_api_key-false api_key req set other)
      where
        chosen :
            (a b c : Bool)
            → c ≡ false
            → Only e v
                (if a
                  then record { code = http_ok; content = object health }
                  else if b
                  then record { code = http_ok; content = object version }
                  else unauthorized)
                (choose
                  ((a, handle_health)
                    ∷ (b, handle_version)
                    ∷ (not c, reply_error http_unauthorized (codes "missing or invalid API key"))
                    ∷ [])
                  (authorized_handler json disk req))
        chosen true b c p = reply_json-Only _ _
        chosen false true c p = reply_json-Only _ _
        chosen false false c p =
            subst⁻¹
              (λ t. Only e v unauthorized (
                choose
                  ((not t, reply_error http_unauthorized (codes "missing or invalid API key")) ∷ [])
                  (authorized_handler json disk req)))
              p (reply_json-Only _ _)
