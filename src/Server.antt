-- ===== src/Server.antt =====
-- src/cli/ssm_server.cc: requests and replies, and the helpers of the handlers. The children are the
-- routes, the handlers and the dispatch.
pub mod Route
pub mod Users
pub mod Secrets
pub mod Admin
pub mod Dispatch
pub mod Stays
pub mod Guard
pub mod Requests
use vaultine.Prelude.{
  ℕ, Bytes, codes, eqb, Bool, true, false, ◌==◌, Option, none, some, List, [], ◌∷◌, if◌then◌else◌,
}
use vaultine.World.{Status}
use vaultine.Exec.{Exec, pure, leave, deref, attempt, present, call, ◌>>=◌}
use vaultine.Crypto.{is_empty}
use vaultine.Ssm.{ssm_status_to_string}

-- enum evhttp_cmd_type, as far as it is told apart.
pub data Method : Type 0 where
  get post put delete other_method : Method

-- What libevent hands over: the header that it finds under a name, and the bytes of the body.
pub record Request : Type 0 where
  pub method : Method
  pub uri : Bytes
  pub header : Bytes → Option Bytes
  pub body : Bytes

-- The documents that are replied: an object of scalars, or an array of such; a body of another type;
-- the page of evhttp_send_error.
pub data Scalar : Type 0 where
  text : Bytes → Scalar
  number : ℕ → Scalar
  boolean : Bool → Scalar

abbrev pub Members : Type 0
Members = List (Bytes × Scalar)

pub data Content : Type 0 where
  object : Members → Content
  array : List Members → Content
  raw : Bytes → Bytes → Content
  page : Bytes → Content

pub record Reply : Type 0 where
  pub code : ℕ
  pub content : Content

-- How a handler is left early: with a reply, or by an exception of jsoncpp that nobody catches, which
-- ends the process.
pub data Outcome : Type 0 where
  replied : Reply → Outcome
  terminated : Outcome

-- jsoncpp: what its reader leaves and returns, isMember, body[key].asCString(),
-- body[key].asString() and body.get(key, "").asString(). `none` is an exception: the reader throws at
-- values nested too deep, isMember at what is no object, the others at what is no text.
pub record JsonCpp (Value : Type 0) : Type 0 where
  pub null : Value
  pub parse : Bytes → Option (Bool × Value)
  pub is_member : Bytes → Value → Option Bool
  pub as_c_string : Bytes → Value → Option Bytes
  pub as_string : Bytes → Value → Option Bytes
  pub get_string : Bytes → Value → Option Bytes

abbrev pub http_ok : ℕ
http_ok = 200

abbrev pub http_created : ℕ
http_created = 201

abbrev pub http_badrequest : ℕ
http_badrequest = 400

abbrev pub http_unauthorized : ℕ
http_unauthorized = 401

abbrev pub http_notfound : ℕ
http_notfound = 404

abbrev pub http_badmethod : ℕ
http_badmethod = 405

abbrev pub http_internal : ℕ
http_internal = 500

abbrev pub out_of_memory : Reply
out_of_memory = record { code = http_internal; content = page (codes "out of memory") }

-- A buffer for the body may be refused.
unfoldable pub reply_json : ℕ → Content → Exec Outcome Reply
reply_json code content = do
  buffer ← attempt call
  pure (if present buffer then record { code = code; content = content } else out_of_memory)

unfoldable pub reply_ok : Content → Exec Outcome Reply
reply_ok content = reply_json http_ok content

unfoldable pub reply_created : Content → Exec Outcome Reply
reply_created content = reply_json http_created content

abbrev pub member : Bytes → Scalar → Bytes × Scalar
member key value = (key, value)

unfoldable pub reply_error : ℕ → Bytes → Exec Outcome Reply
reply_error code msg = reply_json code (object (member (codes "error") (text msg) ∷ []))

unfoldable pub reply_status : ℕ → Bytes → Status → Exec Outcome Reply
reply_status code op st = reply_json code (
    object (
      member (codes "error") (text (ssm_status_to_string st))
      ∷ member (codes "operation") (text op)
      ∷ []))

-- A reply, then an early return.
unfoldable pub refuse_error : {A : Type 0} → ℕ → Bytes → Exec Outcome A
refuse_error code msg = do r ← reply_error code msg; leave (replied r)

unfoldable pub refuse_status : {A : Type 0} → ℕ → Bytes → Status → Exec Outcome A
refuse_status code op st = do r ← reply_status code op st; leave (replied r)

abbrev pub status_member : Bytes × Scalar
status_member = member (codes "status") (text (codes "OK"))

-- v["status"] = "OK"
abbrev pub status_ok : Content
status_ok = object (status_member ∷ [])

-- std::string::c_str(): a string ends at its first zero byte.
unfoldable pub c_str : Bytes → Bytes
c_str [] = []
c_str (c ∷ cs) = let rest = c_str cs in if c == 0 then [] else c ∷ rest

module _ {Value : Type 0} (json : JsonCpp Value) where
  unfoldable pub parse_body : Bytes → Option (Bool × Value)
  parse_body body = if is_empty body then some (true, json.null) else json.parse body

  -- isMember(a) && isMember(b) ..., where a false one spares the others.
  unfoldable pub has_members : List Bytes → Value → Option Bool
  has_members [] value = some true
  has_members (key ∷ keys) value = elim (json.is_member key value) [
    | none ↦ none
    | some false ↦ some false
    | some true ↦ has_members keys value
  ]

  -- `if (!parse_body(req, body) || !body.isMember(...)) { reply_error(...); return; }`
  unfoldable pub body_with : List Bytes → Bytes → Request → Exec Outcome Value
  body_with keys msg req = do
    parsed ← deref (parse_body req.body) terminated
    there ← deref (if parsed.0 then has_members keys parsed.1 else some false) terminated
    if there then pure parsed.1 else refuse_error http_badrequest msg

-- g_api_key == key, unless no key is set.
unfoldable pub check_api_key : Bytes → Request → Bool
check_api_key api_key req =
    if is_empty api_key
    then true
    else elim (req.header (codes "X-API-Key")) [ none ↦ false | some key ↦ eqb api_key key ]
