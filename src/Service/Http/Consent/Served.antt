-- ===== src/Service/Http/Consent/Served.antt =====
-- The consent behind the service over any run of requests of apps/service/src/http.ts.
use crosscode.Prelude.{
  Bool, true, false, not, ◌||◌, List, [], ◌∷◌, Option, none, some, any, if◌then◌else◌,
}
use crosscode.Prelude.Text.{Text, codes}
use crosscode.Prelude.Dict.{lookup}
use crosscode.Service.Invites.{is_member}
use crosscode.Service.Users.{SupabaseAccessClaims}
use crosscode.Service.Http.{Service, Request, Options, Moment, Response, http, error}
use crosscode.Service.Http.Action.{Outcome, done, thrown, Action}
use crosscode.Service.Http.Action.Meets.{Post, Meets-pure, Meets-throw, Meets-bind, Meets-either}
use crosscode.Service.Http.Routes.Handle.{
  is_route, redeem_of, open_route, room_route, redeem_or_room, caller_route, dispatch,
  handle_request, serve,
}
use crosscode.Service.Http.Consent.{IsConsented}
use crosscode.Service.Http.Consent.Steps.{
  Keeps, post_device-Keeps, post_device_token-Keeps, allowed-Keeps, authenticate-Keeps,
}
use crosscode.Service.Http.Consent.Requests.{
  itself, post_device_bind-Keeps, post_acceptances-Keeps, get_acceptances-Keeps,
  post_projects-Keeps, post_redeem-Keeps, post_invites-Keeps, post_replicas-Keeps,
  post_changes-Keeps, get_changes-Keeps,
}

-- A route, where there is one.
KeepsEach : Option (Action Response) → Type 0
KeepsEach none = Unit
KeepsEach (some m) = Keeps m

each :
    (test : Bool) (m : Action Response) (rest : Option (Action Response))
    → Keeps m
    → KeepsEach rest
    → KeepsEach (if test then some m else rest)
unfolding KeepsEach
each true m rest hm hrest = hm
each false m rest hm hrest = hrest

module _ (options : Options) (request : Request) (moment : Moment) where
  room_route-Keeps :
      (caller : SupabaseAccessClaims) → Keeps (room_route options request moment caller)
  unfolding room_route
  room_route-Keeps caller =
      Meets-either (is_route request (codes "POST") (codes "/v1/invites")) _ _
        (post_invites-Keeps options request moment caller)
        (Meets-either (is_route request (codes "POST") (codes "/v1/replicas")) _ _
          (post_replicas-Keeps options request moment caller)
          (Meets-either (is_route request (codes "POST") (codes "/v1/changes")) _ _
            (post_changes-Keeps options request moment caller)
            (Meets-either (is_route request (codes "GET") (codes "/v1/changes")) _ _
              (get_changes-Keeps options request moment caller) (Meets-throw (http 404) itself))))

  redeem_or_room-Keeps :
      (caller : SupabaseAccessClaims) (segment : Option Text)
      → Keeps (redeem_or_room options request moment caller segment)
  unfolding redeem_or_room
  redeem_or_room-Keeps caller none = room_route-Keeps caller
  redeem_or_room-Keeps caller (some segment) =
      post_redeem-Keeps options request moment caller segment

  caller_route-Keeps :
      (caller : SupabaseAccessClaims) → Keeps (caller_route options request moment caller)
  unfolding caller_route
  caller_route-Keeps caller =
      Meets-either (is_route request (codes "POST") (codes "/v1/legal/acceptances")) _ _
        (post_acceptances-Keeps options request moment caller _)
        (Meets-either (is_route request (codes "GET") (codes "/v1/legal/acceptances")) _ _
          (get_acceptances-Keeps caller)
          (Meets-either (is_route request (codes "POST") (codes "/v1/auth/github/device/bind")) _ _
            (post_device_bind-Keeps options request moment caller)
            (Meets-either (is_route request (codes "POST") (codes "/v1/projects")) _ _
              (post_projects-Keeps options request moment caller)
              (redeem_or_room-Keeps caller (redeem_of request)))))

  open_route-Keeps : KeepsEach (open_route options request moment)
  unfolding open_route KeepsEach
  open_route-Keeps =
      each
        (is_route request (codes "GET") (codes "/health")
          || is_route request (codes "GET") (codes "/healthz"))
        _ _ (Meets-pure _ itself)
        (each (is_route request (codes "GET") (codes "/v1/legal")) _ _ (Meets-pure _ itself) (
          each (is_route request (codes "POST") (codes "/v1/auth/github/device")) _ _
            (post_device-Keeps options request moment)
            (each (is_route request (codes "POST") (codes "/v1/auth/github/device/token")) _ _
              (post_device_token-Keeps options request moment) tt)))

  dispatch-Keeps :
      (route : Text) (answer : Option (Action Response))
      → KeepsEach answer
      → Keeps (dispatch options request moment route answer)
  unfolding dispatch KeepsEach
  dispatch-Keeps route (some answer) h = h
  dispatch-Keeps route none h =
      Meets-bind _ _ (authenticate-Keeps options request moment route)
        λ caller. caller_route-Keeps caller

  handle_request-Keeps : Keeps (handle_request options request moment)
  unfolding handle_request
  handle_request-Keeps = Meets-either _ _ _ (Meets-pure _ itself) (
      Meets-bind _ _ (allowed-Keeps _ _ _) λ pass.
        Meets-either (not pass) _ _ (Meets-pure (error 429) itself)
          (dispatch-Keeps _ _ open_route-Keeps))

of_Post :
    (r : Outcome Response) (s : Service) → Post IsConsented (λ _. IsConsented) r s → IsConsented s
of_Post (done a) s h = h
of_Post (thrown e) s h = h

serve-IsConsented :
    (options : Options) (request : Request) (moment : Moment) (s : Service)
    → IsConsented s
    → IsConsented (serve options request moment s).1
unfolding serve
serve-IsConsented options request moment s h =
    let (r, s') = handle_request options request moment s in
    of_Post r s' ((handle_request-Keeps options request moment).at s h)

-- A run of the service: requests one after another.
pub serve_all : Options → List (Request × Moment) → Service → Service
serve_all options [] s = s
serve_all options ((request, moment) ∷ rest) s =
    serve_all options rest (serve options request moment s).1

abbrev pub empty_service : Service
empty_service = record {
  windows = [];
  users = [];
  acceptances = [];
  tables = record { projects = []; members = []; invites = [] };
  replicas = [];
  devices = [];
  log = [];
  broadcasts = [];
}

-- After any run of requests from a consented service, every member has accepted the current terms
-- and privacy policy, every replica is a member's, and every change in the log is of a replica of its
-- project and branch and of a path that is not refused.
pub serve_all-IsConsented :
    (options : Options) (requests : List (Request × Moment)) (s : Service)
    → IsConsented s
    → IsConsented (serve_all options requests s)
unfolding serve_all
serve_all-IsConsented options [] s h = h
serve_all-IsConsented options ((request, moment) ∷ rest) s h =
    serve_all-IsConsented options rest (serve options request moment s).1
      (serve-IsConsented options request moment s h)

-- A service with empty tables is consented.
pub IsConsented-empty_service : IsConsented empty_service
unfolding is_member any lookup
IsConsented-empty_service = record {
  members_accepted = λ p u there. cc;
  replicas_members = λ id row there. cc;
  log_sent = tt;
}
