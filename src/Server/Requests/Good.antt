-- ===== src/Server/Requests/Good.antt =====
-- What requests leave of the vault: its invariant, and after a GET every user, key and secret.
use vaultine.Prelude.{Bytes, ◌≡◌, refl, ◌∙◌, ap, Bool, true, false, ◌&&◌, List, [], ◌∷◌, All}
use vaultine.World.{Env, IsLawful, World, Vault, Tables}
use vaultine.Exec.{Exec, Result, value, fail}
use vaultine.Exec.Runs.{Post, Runs, Runs-weaken}
use vaultine.Exec.Stays.{Stays, Stays-Reads}
use vaultine.Db.Transaction.{IsSteady}
use vaultine.Ssm.Done.{IsGood, Served}
use vaultine.Ssm.Handle.{Disk}
use vaultine.Ssm.Calls.Reads.{
  OnlyServes, ssm_secret_get-OnlyServes, ssm_secret_list-OnlyServes, ssm_audit_log_query-OnlyServes,
  ssm_export-OnlyServes, ssm_db_version-OnlyServes, ssm_backup_create-Reads,
}
use vaultine.Ssm.Calls.Migrate.{ssm_db_migrate-Stays}
use vaultine.Ssm.Calls.Writes.{
  served, ssm_user_register-Stays, ssm_user_authenticate-Stays, ssm_user_delete-Stays,
  ssm_user_change_password-Stays, ssm_kek_rotate-Stays, ssm_secret_store-Stays,
  ssm_secret_delete-Stays,
}
use vaultine.Server.{
  JsonCpp, Method, get, post, put, delete, other_method, Request, Reply, Outcome, replied,
  terminated,
}
use vaultine.Server.Stays.{Reading, Writing}
use vaultine.Server.Stays.Dispatch.{is_restore, request_handler-Stays}
use vaultine.Server.Dispatch.{is_get, is_post, request_handler}
use vaultine.Server.Requests.{unless_terminated, serve}

-- What changes no user, key or secret keeps `P`.
reading :
    {e : Env} {P : Vault → Type 0}
    → ((v : Vault) → P v → IsGood e v)
    → ((v v' : Vault) → P v → Served e v v' → P v')
    → Reading e P
reading {e} {P} good keep = record {
  list = λ u. serves (λ v G. ssm_secret_list-OnlyServes G u);
  get_secret =
      λ u n room public_room. serves (λ v G. ssm_secret_get-OnlyServes G u n room public_room);
  query = λ u o r limit offset. serves (λ v G. ssm_audit_log_query-OnlyServes G u o r limit offset);
  export = λ json redact. serves (λ v G. ssm_export-OnlyServes G json redact);
  version = serves (λ v G. ssm_db_version-OnlyServes G);
}
  where
    serves :
        {E A : Type 0} {m : Exec E A} → ((v : Vault) → IsGood e v → OnlyServes e v m) → Stays e P m
    serves h v p = Runs-weaken (h v (good v p)) (λ _ v' s. keep v v' p s) (λ _ v' s. keep v v' p s)

writing : {e : Env} → IsLawful e → IsSteady e → Writing e (IsGood e)
writing L S = record {
  register = ssm_user_register-Stays L S;
  authenticate = ssm_user_authenticate-Stays L S;
  delete_user = ssm_user_delete-Stays L S;
  change = ssm_user_change_password-Stays L S;
  rotate = ssm_kek_rotate-Stays L S;
  store = ssm_secret_store-Stays L S;
  delete_secret = ssm_secret_delete-Stays L S;
  migrate = ssm_db_migrate-Stays S;
  backup = λ d p k. Stays-Reads (λ v. ssm_backup_create-Reads L d p k);
}

-- The rows that secrets are made of.
pub record SameRows (t t' : Tables) : Type 0 where
  pub users : t'.users ≡ t.users
  pub keks : t'.keks ≡ t.keks
  pub secrets : t'.secrets ≡ t.secrets

SameRows-Served :
    {e : Env} {t : Tables} (v v' : Vault)
    → SameRows t v.tables
    → Served e v v'
    → SameRows t v'.tables
SameRows-Served v v' r h = record {
  users = ap (λ (u : Vault). u.tables.users) h.same ∙ r.users;
  keks = ap (λ (u : Vault). u.tables.keks) h.same ∙ r.keks;
  secrets = ap (λ (u : Vault). u.tables.secrets) h.same ∙ r.secrets;
}

get-not_restore : (b : Bool) (m : Method) → is_get m ≡ true → (b && is_post m) ≡ true → false ≡ true
get-not_restore true get h p = p
get-not_restore true post h p = h
get-not_restore true put h p = h
get-not_restore true delete h p = h
get-not_restore true other_method h p = h
get-not_restore false m h p = p

unless_terminated-keeps :
    (P : Vault → Type 0) (rest : World → World) (r : Result Outcome Reply × World)
    → ((w : World) → P w.vault → P (rest w).vault)
    → Post (λ _ v'. P v') (λ _ v'. P v') r
    → P (unless_terminated rest r).vault
unless_terminated-keeps P rest (value r, w) f h = f w h
unless_terminated-keeps P rest (fail (replied r), w) f h = f w h
unless_terminated-keeps P rest (fail terminated, w) f h = h

module _ {Value : Type 0} (json : JsonCpp Value) (disk : Disk) (api_key : Bytes) {e : Env} where
  -- In a vault with sound tables, a coherent cache and no open transaction: a GET, whatever its path
  -- and headers are and whatever is replied, leaves such a vault, with every user, every KEK and
  -- every secret as it was.
  pub request_handler-get :
      (v : Vault)
      → IsGood e v
      → (req : Request) → is_get req.method ≡ true
      → Runs e v
          (request_handler json disk api_key req)
          (λ _ v'. IsGood e v' × SameRows v.tables v'.tables)
          (λ _ v'. IsGood e v' × SameRows v.tables v'.tables)
  request_handler-get v G req h =
      request_handler-Stays {P = λ v'. IsGood e v' × SameRows v.tables v'.tables} json disk
        (reading (λ _ p. p.0) (λ u u' p s. (served p.0 s, SameRows-Served u u' p.1 s))) req
        (λ p. absurd (cc)) (λ p. absurd (cc (get-not_restore _ req.method h p))) api_key v
        (G, record { users = refl; keks = refl; secrets = refl })

  request_handler-IsGood :
      IsLawful e
      → IsSteady e
      → (req : Request) → is_restore req ≡ false
      → Stays e (IsGood e) (request_handler json disk api_key req)
  request_handler-IsGood L S req h =
      request_handler-Stays json disk (reading (λ _ G. G) (λ u u' G s. served G s)) req
        (λ _. writing L S) (λ p. absurd (cc)) api_key

  -- With lawful ciphers and where BEGIN and COMMIT are not refused: whatever requests arrive one
  -- after another, other than those that restore a backup, and whatever is replied, the vault keeps
  -- sound tables, a cache that agrees with them and no open transaction.
  pub serve-IsGood :
      IsLawful e
      → IsSteady e
      → (reqs : List Request) (w : World) → All (λ req. is_restore req ≡ false) reqs
      → IsGood e w.vault
      → IsGood e (serve json disk api_key reqs e w).vault
  unfolding serve
  serve-IsGood L S [] w h G = G
  serve-IsGood L S (req ∷ reqs) w h G =
      unless_terminated-keeps (IsGood e) (serve json disk api_key reqs e) _
        (λ w' k. serve-IsGood L S reqs w' h.1 k)
        ((request_handler-IsGood L S req h.0 w.vault G).at w.calls)
