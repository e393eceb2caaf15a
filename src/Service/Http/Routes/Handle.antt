-- ===== src/Service/Http/Routes/Handle.antt =====
-- apps/service/src/http.ts: `handleRequest`, and the handler around it that answers an error.
use crosscode.Prelude.{
  ℕ, Bool, not, ◌&&◌, ◌||◌, ◌∷◌, ◌++◌, Option, none, some, is_some, length, ltb, if◌then◌else◌,
}
use crosscode.Prelude.Text.{Text, codes, same, starts_with}
use crosscode.Service.Invites.{unauthorized, conflicting, failed}
use crosscode.Service.Legal.{current_legal_documents, required_documents}
use crosscode.Service.Users.{SupabaseAccessClaims}
use crosscode.Service.Http.{
  Service, Request, Options, Moment, Response, ServiceError, http, zod, store, unexpected,
  preflight, error, degraded, healthy, legal,
}
use crosscode.Service.Http.Action.{Outcome, done, thrown, Action, pure, throw, ◌>>=◌}
use crosscode.Service.Http.Address.{client_address, cors_origin_for, rate_limit_route, redeem_match}
use crosscode.Service.Http.Routes.{allowed, authenticate}
use crosscode.Service.Http.Routes.Device.{
  post_device, post_device_token, post_device_bind, post_acceptances, get_acceptances,
}
use crosscode.Service.Http.Routes.Rooms.{
  post_projects, post_redeem, post_invites, post_replicas, post_changes, get_changes,
}

abbrev pub is_route : Request → Text → Text → Bool
is_route request method pathname = same request.method method && same request.pathname pathname

abbrev device_ip_rate_per_minute : ℕ
device_ip_rate_per_minute = 120

abbrev ip_rate_per_minute : ℕ
ip_rate_per_minute = 3000

abbrev pub redeem_of : Request → Option Text
redeem_of request =
    if same request.method (codes "POST") then redeem_match request.pathname else none

module _ (options : Options) (request : Request) (moment : Moment) where
  -- The routes that no caller is named for: health and the first two of the device handshake.
  unfoldable pub open_route : Option (Action Response)
  open_route =
      if is_route request (codes "GET") (codes "/health")
        || is_route request (codes "GET") (codes "/healthz")
      then some (
          pure (
            if ltb 0 (length options.unreadable_tables)
            then degraded options.unreadable_tables
            else healthy))
      else if is_route request (codes "GET") (codes "/v1/legal")
      then some (pure (legal current_legal_documents required_documents))
      else if is_route request (codes "POST") (codes "/v1/auth/github/device")
      then some (post_device options request moment)
      else if is_route request (codes "POST") (codes "/v1/auth/github/device/token")
      then some (post_device_token options request moment)
      else none

  -- A route behind the redeem route, whose path has a segment that varies.
  unfoldable pub room_route : SupabaseAccessClaims → Action Response
  room_route caller =
      if is_route request (codes "POST") (codes "/v1/invites")
      then post_invites options request moment caller
      else if is_route request (codes "POST") (codes "/v1/replicas")
      then post_replicas options request moment caller
      else if is_route request (codes "POST") (codes "/v1/changes")
      then post_changes options request moment caller
      else if is_route request (codes "GET") (codes "/v1/changes")
      then get_changes options request moment caller
      else throw (http 404)

  unfoldable pub redeem_or_room : SupabaseAccessClaims → Option Text → Action Response
  redeem_or_room caller none = room_route caller
  redeem_or_room caller (some segment) = post_redeem options request moment caller segment

  unfoldable pub caller_route : SupabaseAccessClaims → Action Response
  caller_route caller =
      if is_route request (codes "POST") (codes "/v1/legal/acceptances")
      then post_acceptances options request moment caller
          (client_address request options.trust_proxy)
      else if is_route request (codes "GET") (codes "/v1/legal/acceptances")
      then get_acceptances caller
      else if is_route request (codes "POST") (codes "/v1/auth/github/device/bind")
      then post_device_bind options request moment caller
      else if is_route request (codes "POST") (codes "/v1/projects")
      then post_projects options request moment caller
      else redeem_or_room caller (redeem_of request)

  unfoldable pub dispatch : Text → Option (Action Response) → Action Response
  dispatch route (some answer) = answer
  dispatch route none = do caller ← authenticate options request moment route; caller_route caller

  unfoldable pub handle_request : Action Response
  handle_request =
      let route = rate_limit_route request.method request.pathname in
      let rate =
        if starts_with route (codes "POST /v1/auth/")
        then device_ip_rate_per_minute
        else ip_rate_per_minute in
      if same request.method (codes "OPTIONS")
      then pure (
          preflight
            (if is_some (cors_origin_for request options.allowed_origins) then 204 else 403))
      else do
        pass ←
            allowed (codes "ip:" ++ client_address request options.trust_proxy ++ b':' ∷ route) rate
              moment.now
        if not pass then pure (error 429) else dispatch route open_route

unfoldable pub status_for : ServiceError → ℕ
status_for (http status) = status
status_for zod = 400
status_for (store unauthorized) = 403
status_for (store conflicting) = 409
status_for (store failed) = 500
status_for unexpected = 500

answered : Outcome Response → Response
unfolding status_for
answered (done response) = response
answered (thrown e) = error (status_for e)

-- `createRequestHandler` and the listener of `createServiceServer`.
unfoldable pub serve : Options → Request → Moment → Service → Response × Service
unfolding answered
serve options request moment s =
    let (outcome, s') = handle_request options request moment s in (answered outcome, s')
