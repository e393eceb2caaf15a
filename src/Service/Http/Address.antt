-- ===== src/Service/Http/Address.antt =====
-- apps/service/src/http.ts: who calls, from where, and on which route, read off the request before
-- anything is authenticated.
pub mod Hops
use crosscode.Prelude.{
  ℕ, Bool, not, ◌&&◌, ◌||◌, List, [], ◌∷◌, ◌++◌, Option, none, some, map, get_or, is_some, ◌==◌,
  if◌then◌else◌,
}
use crosscode.Prelude.Text.{Text, codes, same, truthy, to_lower, starts_with, trim}
use crosscode.Prelude.Dict.{member}
use crosscode.Paths.{split}
use crosscode.Git.{filter_truthy}
use crosscode.Service.Http.{Request, Options}

-- `l.at(-1)`
abbrev pub last : List Text → Option Text
last [] = none
last (s ∷ []) = some s
last (s ∷ t ∷ l) = last (t ∷ l)

abbrev pub is_comma : ℕ → Bool
is_comma c = c == b','

-- The entries of `x-forwarded-for`.
abbrev pub chain : Text → List Text
chain forwarded = filter_truthy (map trim (split is_comma forwarded))

unfoldable pub client_address : Request → Bool → Text
unfolding split trim filter_truthy
client_address request trust_proxy =
    let socket_address = get_or request.remote_address (codes "unknown") in
    if not trust_proxy
    then socket_address
    else get_or (last (chain (get_or request.forwarded_for []))) socket_address

-- `/^\/v1\/invites\/([^/]+)\/redeem$/` on the segments between slashes.
redeem_segments : List Text → Option Text
redeem_segments (root ∷ v1 ∷ invites ∷ code ∷ redeem ∷ []) =
    if same root []
      && same v1 (codes "v1")
      && same invites (codes "invites")
      && truthy (some code)
      && same redeem (codes "redeem")
    then some code
    else none
redeem_segments _ = none

unfoldable pub redeem_match : Text → Option Text
unfolding redeem_segments split
redeem_match pathname = redeem_segments (split (λ c. c == b'/') pathname)

abbrev known_routes : List Text
known_routes =
    codes "GET /healthz"
    ∷ codes "GET /v1/legal"
    ∷ codes "GET /v1/legal/acceptances"
    ∷ codes "POST /v1/legal/acceptances"
    ∷ codes "POST /v1/auth/github/device"
    ∷ codes "POST /v1/auth/github/device/token"
    ∷ codes "POST /v1/auth/github/device/bind"
    ∷ codes "POST /v1/projects"
    ∷ codes "POST /v1/invites"
    ∷ codes "POST /v1/replicas"
    ∷ codes "POST /v1/changes"
    ∷ codes "GET /v1/changes"
    ∷ []

unfoldable pub rate_limit_route : Text → Text → Text
unfolding redeem_match
rate_limit_route method pathname =
    let route = method ++ b' ' ∷ pathname in
    if same method (codes "POST") && is_some (redeem_match pathname)
    then codes "POST /v1/invites/:code/redeem"
    else if member route known_routes
    then route
    else codes "unknown"

-- The request's origin when it is on the allowlist.
unfoldable pub cors_origin_for : Request → List Text → Option Text
cors_origin_for request allowed_origins =
    if truthy request.origin && member (get_or request.origin []) allowed_origins
    then request.origin
    else none

-- `replace(/^\[|\]$/g, "")`
drop_bracket : Text → Text
drop_bracket [] = []
drop_bracket (c ∷ s) = if c == b'[' then s else c ∷ s

drop_last_bracket : Text → Text
drop_last_bracket [] = []
drop_last_bracket (c ∷ []) = if c == b']' then [] else c ∷ []
drop_last_bracket (c ∷ d ∷ s) = c ∷ drop_last_bracket (d ∷ s)

unfoldable pub is_loopback : Text → Bool
unfolding drop_bracket drop_last_bracket
is_loopback host =
    let normalized = drop_last_bracket (drop_bracket (map to_lower host)) in
    same normalized (codes "localhost")
    || same normalized (codes "::1")
    || starts_with normalized (codes "127.")

-- Whether `assertSafeServiceBinding` lets the binding be.
unfoldable pub assert_safe_service_binding : Text → Bool → Bool
unfolding is_loopback
assert_safe_service_binding host tls_enabled = is_loopback host || tls_enabled
