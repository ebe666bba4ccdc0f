-- ===== src/Server/Route.antt =====
-- src/cli/ssm_server.cc: match_user_route, and the path of a request.
pub mod RoundTrip
use vaultine.Prelude.{
  ℕ, Bytes, codes, eqb, Bool, true, false, not, ◌&&◌, ◌==◌, List, [], ◌∷◌, ◌++◌, drop, take, length,
  if◌then◌else◌,
}
use vaultine.Crypto.{is_empty}
use vaultine.Backup.{starts_with}

abbrev pub slash : ℕ
slash = 47

pub record RouteMatch : Type 0 where
  pub username : Bytes
  pub resource : Bytes
  pub matched : Bool

-- while (*uri == '/') ++uri;
unfoldable pub skip_slashes : Bytes → Bytes
skip_slashes [] = []
skip_slashes (c ∷ cs) = let rest = skip_slashes cs in if c == slash then rest else c ∷ cs

abbrev pub push_front : ℕ → List Bytes → List Bytes
push_front c [] = (c ∷ []) ∷ []
push_front c (part ∷ parts) = (c ∷ part) ∷ parts

-- The loop that splits by '/'. Nothing after the last slash is no part.
unfoldable pub split_slashes : Bytes → List Bytes
split_slashes [] = []
split_slashes (c ∷ cs) =
    let parts = split_slashes cs in if c == slash then [] ∷ parts else push_front c parts

abbrev pub no_route : RouteMatch
no_route = record { username = []; resource = []; matched = false }

-- parts[3], and "/" with parts[4].
abbrev pub resource_of : List Bytes → Bytes
resource_of [] = []
resource_of (r ∷ []) = r
resource_of (r ∷ s ∷ _) = r ++ (slash ∷ s)

-- `if (require_resource && m.resource.empty()) m.matched = false;`
abbrev pub requiring : Bool → RouteMatch → RouteMatch
requiring require_resource m =
    if require_resource && is_empty m.resource then record m { matched = false } else m

unfoldable pub match_parts : Bool → List Bytes → RouteMatch
match_parts require_resource (v1 ∷ users ∷ username ∷ rest) =
    if eqb v1 (codes "v1") && eqb users (codes "users")
    then requiring require_resource
        (record { username = username; resource = resource_of rest; matched = true })
    else no_route
match_parts require_resource _ = no_route

unfoldable pub match_user_route : Bytes → Bool → RouteMatch
match_user_route uri require_resource =
    match_parts require_resource (split_slashes (skip_slashes uri))

-- path_only.substr(0, path_only.find('?'))
unfoldable pub path_only : Bytes → Bytes
path_only [] = []
path_only (c ∷ cs) = let rest = path_only cs in if c == 63 then [] else c ∷ rest

-- `if (res.find("secrets/") == 0) secret_name = res.substr(8);`
unfoldable pub secret_name : Bytes → Bytes
secret_name resource = if starts_with (codes "secrets/") resource then drop 8 resource else []
