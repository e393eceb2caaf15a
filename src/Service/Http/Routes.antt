-- ===== src/Service/Http/Routes.antt =====
-- apps/service/src/http.ts: what the routes share: the identity, the quota, the body, the terms, and
-- the calls of the store.
pub mod Device
pub mod Rooms
pub mod Handle
pub mod Open
use crosscode.Prelude.{
  ℕ, Bool, true, false, not, List, [], ◌∷◌, ◌++◌, Option, none, some, get_or, is_some, length, ltb,
  min, if◌then◌else◌,
}
use crosscode.Prelude.Text.{Text, codes, same, starts_with}
use crosscode.Service.Devices.{Devices}
use crosscode.Service.Invites.{Reply, Tables}
use crosscode.Service.Replicas.{ReplicaRow}
use crosscode.Prelude.Dict.{Dict}
use crosscode.Service.Users.{GithubIdentity, SupabaseAccessClaims, upsert_user}
use crosscode.Service.Legal.{outstanding_documents, latest_accepted_versions}
use crosscode.Service.Limiter.{take}
use crosscode.Service.Http.{Service, Request, Options, Moment, Json, http}
use crosscode.Service.Http.Action.{
  Outcome, done, thrown, Action, of_reply, pure, throw, gets, put, settle, refuse_if, ◌>>=◌, ◌>>◌,
}
use crosscode.Service.Http.Body.{read_json}

-- A call of the limiter: whether the request may pass.
unfoldable pub allowed : Text → ℕ → ℕ → Action Bool
allowed key maximum now s =
    let (windows, pass) = take key maximum now s.windows in
    (done pass, record s { windows = windows })

-- An operation of the store on the tables of projects, members and invites, and on the replicas.
unfoldable pub on_tables : {A : Type 0} → (Tables → Reply A × Tables) → Action A
on_tables op s = let (r, tables) = op s.tables in (of_reply r, record s { tables = tables })

unfoldable pub on_replicas : {A : Type 0} → (Dict ReplicaRow → Reply A × Dict ReplicaRow) → Action A
on_replicas op s =
    let (r, replicas) = op s.replicas in (of_reply r, record s { replicas = replicas })

unfoldable pub on_devices : {A : Type 0} → (Devices → Devices × A) → Action A
on_devices op s = let (devices, a) = op s.devices in (done a, record s { devices = devices })

-- `authorization.slice(7)` behind "Bearer ".
after_bearer : Text → Text
after_bearer (b ∷ e ∷ a ∷ r ∷ e' ∷ r' ∷ space ∷ token) = token
after_bearer _ = []

unfoldable pub bearer_token : Option Text → Outcome Text
unfolding after_bearer
bearer_token none = thrown (http 401)
bearer_token (some authorization) =
    if starts_with authorization (codes "Bearer ")
    then done (after_bearer authorization)
    else thrown (http 401)

-- A failed verification is answered 401.
verified : Option SupabaseAccessClaims → Outcome SupabaseAccessClaims
verified none = thrown (http 401)
verified (some claims) = done claims

module _ (options : Options) (request : Request) (moment : Moment) where
  -- `options.chargeIdentity`
  unfoldable pub charge_identity : Text → Text → Action (Unit {0})
  charge_identity identity_key route = do
    let rate = if same route (codes "POST /v1/replicas") then 30 else 600
    pass ← allowed (codes "id:" ++ identity_key ++ b':' ∷ route) rate moment.now
    refuse_if (not pass) 429

  -- Who the verified token says is calling, before the quota is charged.
  unfoldable pub claims : Outcome SupabaseAccessClaims
  unfolding verified bearer_token
  claims = elim (bearer_token request.authorization) [
    | thrown e ↦ thrown e
    | done token ↦ verified (options.verify token)
  ]

  unfoldable pub authenticate : Text → Action SupabaseAccessClaims
  authenticate route = do
    caller ← settle claims
    charge_identity (codes "user:" ++ caller.user_id) route
    pure caller

  -- `readJson(request, Math.min(bodyLimit, n))`
  unfoldable pub body : ℕ → Action Json
  body n = settle (read_json options request (min options.body_limit_bytes n))

unfoldable pub require_accepted_terms : Text → Action (Unit {0})
require_accepted_terms user_id = do
  outstanding ← gets (λ s. outstanding_documents (latest_accepted_versions user_id s.acceptances))
  refuse_if (ltb 0 (length outstanding)) 403

github_field : (GithubIdentity → Text) → Option GithubIdentity → Option Text
github_field f none = none
github_field f (some github) = some (f github)

unfoldable pub upsert_caller : SupabaseAccessClaims → Action (Unit {0})
unfolding github_field
upsert_caller caller = put (λ s. record s {
  users =
      (upsert_user caller.user_id
        (record {
          github_id = github_field (λ g. g.id) caller.github;
          github_login = github_field (λ g. g.login) caller.github;
          email = caller.email;
        })
        s.users).1;
})
