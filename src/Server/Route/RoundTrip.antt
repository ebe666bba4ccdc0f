-- ===== src/Server/Route/RoundTrip.antt =====
-- The routes of src/cli/ssm_server.cc read back what is written into a path.
use mathlib.Core.Logic.{◌≢◌}
use vaultine.Prelude.{
  ℕ, ◌≡◌, refl, ◌∙◌, ap, Bytes, codes, eqb, true, false, List, [], ◌∷◌, ◌++◌, All, drop, arith,
}
use vaultine.Crypto.{is_empty}
use vaultine.Server.Route.{
  slash, skip_slashes, split_slashes, resource_of, match_parts, match_user_route,
}

-- A part that a slash does not cut, and that is there.
abbrev pub IsPart : Bytes → Type 0
IsPart part = All (λ c. c ≢ slash) part × (is_empty part ≡ false)

-- "/" and a part, for each part.
unfoldable pub join_parts : List Bytes → Bytes
join_parts [] = []
join_parts (part ∷ parts) = slash ∷ (part ++ join_parts parts)

-- /v1/users/<username>/<part>/...
abbrev pub user_path : Bytes → List Bytes → Bytes
user_path username parts = join_parts (codes "v1" ∷ codes "users" ∷ username ∷ parts)

-- A part up to the end or the next slash.
split_part :
    (c : ℕ) (part : Bytes) (parts : List Bytes)
    → All (λ c. c ≢ slash) (c ∷ part)
    → split_slashes ((c ∷ part) ++ join_parts parts)
      ≡ (c ∷ part) ∷ split_slashes (drop 1 (join_parts parts))
unfolding split_slashes join_parts
split_part c [] [] h = ground arith
split_part c [] (p ∷ ps) h = ground arith
split_part c (d ∷ part) parts h = ground (arith, split_part d part parts h.1, h.0)

split-join :
    (parts : List Bytes) → All IsPart parts → split_slashes (drop 1 (join_parts parts)) ≡ parts
unfolding join_parts split_slashes
split-join [] h = refl
split-join ([] ∷ parts) h = cc h.0.1
split-join ((c ∷ part) ∷ parts) h =
    split_part c part parts h.0.0 ∙ ap (λ t. (c ∷ part) ∷ t) (split-join parts h.1)

module _ (username : Bytes) (parts : List Bytes) (u : IsPart username) (h : All IsPart parts) where
  split-user_path :
      split_slashes (skip_slashes (user_path username parts))
      ≡ codes "v1" ∷ codes "users" ∷ username ∷ parts
  unfolding skip_slashes join_parts
  split-user_path = split-join (codes "v1" ∷ codes "users" ∷ username ∷ parts) (
    ((omega arith, (omega arith, tt)), refl),
    (((omega arith, (omega arith, (omega arith, (omega arith, (omega arith, tt))))), refl), (u, h)),
  )

  -- Of the path /v1/users/<username>/<part>/..., whose parts have no slash and are not empty: the
  -- route of a user is found, with that username, and its resource is made of the first two of the
  -- parts, with a slash between, whatever parts follow.
  pub match_user_route-user_path :
      match_user_route (user_path username parts) false
      ≡ record { username = username; resource = resource_of parts; matched = true }
  unfolding match_user_route match_parts eqb
  match_user_route-user_path = ap (match_parts false) split-user_path

pub match_user_route-secrets :
    (username name : Bytes) (more : List Bytes)
    → IsPart username
    → IsPart name
    → All IsPart more
    → match_user_route (user_path username (codes "secrets" ∷ name ∷ more)) false
      ≡ record { username = username; resource = codes "secrets" ++ (slash ∷ name); matched = true }
match_user_route-secrets username name more u n h =
    match_user_route-user_path username (codes "secrets" ∷ name ∷ more) u (
      (
        (
          omega arith,
          (
            omega arith,
            (omega arith, (omega arith, (omega arith, (omega arith, (omega arith, tt))))),
          ),
        ),
        refl,
      ),
      (n, h),
    )
