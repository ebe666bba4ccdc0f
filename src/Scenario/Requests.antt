-- ===== src/Scenario/Requests.antt =====
-- The theorems on the HTTP server of src/cli/ssm_server.cc, applied to requests on the vault of the
-- scenario.
use mathlib.Core.Logic.{◌≢◌}
use mathlib.Core.Option.{some-injective}
use vaultine.Prelude.{
  ap, length, Bytes, codes, eqb, ◌≡◌, refl, true, false, none, some, [], ◌∷◌, arith, if◌then◌else◌,
}
use vaultine.Exec.Runs.{Runs}
use vaultine.Scenario.{toy, toy-IsLawful, toy-IsSteady, alice, password, vault, vault-IsGood}
use vaultine.Ssm.Done.{IsGood, Served}
use vaultine.Ssm.Handle.{Disk, no_tables}
use vaultine.Server.{JsonCpp, Method, get, post, delete, Request, check_api_key}
use vaultine.Server.Dispatch.{request_handler}
use vaultine.Server.Guard.{Says, public_reply, request_handler-unauthorized}
use vaultine.Server.Requests.{serve}
use vaultine.Server.Requests.Good.{SameRows, request_handler-get, serve-IsGood}
use vaultine.Server.Route.{RouteMatch, match_user_route}
use vaultine.Server.Dispatch.Secret.{on_secret, request_handler-secret}
use vaultine.Server.Route.RoundTrip.{join_parts, user_path, match_user_route-user_path}
use vaultine.Server.Secrets.{handle_secret_get_req}
use vaultine.Server.Secrets.Reveal.{Delivers, IsRefusal, handle_secret_get_req-Runs}

-- A reader that takes the body for the text of every member.
abbrev plain_json : JsonCpp Bytes
plain_json = record {
  null = [];
  parse = λ body. some (true, body);
  is_member = λ key value. some true;
  as_c_string = λ key value. some value;
  as_string = λ key value. some value;
  get_string = λ key value. some [];
}

abbrev disk : Disk
disk = record {
  sqlcipher = false;
  db_path = codes "vault.db";
  files = λ path. none;
  image = λ t. codes "file";
  load = λ bytes. some no_tables;
}

abbrev api_key : Bytes
api_key = codes "k3y"

abbrev request : Method → Bytes → Bytes → Bytes → Request
request method uri key body = record {
  method = method;
  uri = uri;
  header = λ name. if eqb name (codes "X-API-Key") then some key else none;
  body = body;
}

abbrev read_mail : Request
read_mail = request get (codes "/v1/users/alice/secrets/mail?x=1") api_key []

abbrev forget_alice : Request
forget_alice = request delete (codes "/v1/users/alice") api_key password

abbrev intruder : Request
intruder = request get (codes "/v1/users/alice/secrets/mail") (codes "guess") []

not_the_key : some (codes "guess") ≢ some api_key
not_the_key h = absurd (omega (arith, ap length (some-injective _ _ h)))

request_handler-unauthorized_example :
    Runs toy vault
      (request_handler plain_json disk api_key intruder)
      (λ r v'. (v' ≡ vault) × Says (public_reply intruder) r)
      (λ _ _. ⊥)
unfolding eqb
request_handler-unauthorized_example =
    request_handler-unauthorized vault plain_json disk api_key intruder refl (λ h. not_the_key h)

request_handler-get_example :
    Runs toy vault
      (request_handler plain_json disk api_key read_mail)
      (λ _ v'. IsGood toy v' × SameRows vault.tables v'.tables)
      (λ _ v'. IsGood toy v' × SameRows vault.tables v'.tables)
request_handler-get_example =
    request_handler-get plain_json disk api_key vault vault-IsGood read_mail refl

serve-IsGood_example :
    IsGood toy
      (serve plain_json disk api_key
        (read_mail ∷ forget_alice ∷ [])
        toy
        (record { calls = 0; vault = vault })).vault
unfolding eqb vaultine.Server.Route.path_only
serve-IsGood_example =
    serve-IsGood plain_json disk api_key toy-IsLawful toy-IsSteady (read_mail ∷ forget_alice ∷ [])
      (record { calls = 0; vault = vault }) (refl, (refl, tt)) vault-IsGood

handle_secret_get_req_example :
    Runs toy vault
      (handle_secret_get_req
        (record { username = alice; resource = codes "secrets/mail"; matched = true }))
      (λ r v'.
        Delivers vault-IsGood
          (record { username = alice; resource = codes "secrets/mail"; matched = true })
          r
        × Served toy vault v')
      (λ o v'. IsRefusal o × Served toy vault v')
handle_secret_get_req_example =
    handle_secret_get_req-Runs vault-IsGood
      (record { username = alice; resource = codes "secrets/mail"; matched = true })

match_user_route_example :
    match_user_route (user_path (codes "al") (codes "kek" ∷ codes "go" ∷ codes "x" ∷ [])) false
    ≡ record { username = codes "al"; resource = codes "kek/go"; matched = true }
match_user_route_example =
    match_user_route-user_path (codes "al") (codes "kek" ∷ codes "go" ∷ codes "x" ∷ [])
      ((omega arith, (omega arith, tt)), refl)
      (
        ((omega arith, (omega arith, (omega arith, tt))), refl),
        (((omega arith, (omega arith, tt)), refl), (((omega arith, tt), refl), tt)),
      )

request_handler-secret_example :
    request_handler plain_json disk api_key read_mail ≡ on_secret get alice (codes "mail")
unfolding check_api_key eqb vaultine.Server.Route.path_only join_parts
request_handler-secret_example =
    request_handler-secret plain_json disk read_mail api_key alice (codes "mail") [] refl
      ((omega arith, (omega arith, (omega arith, (omega arith, (omega arith, tt))))), refl)
      ((omega arith, (omega arith, (omega arith, (omega arith, tt)))), refl) tt refl
