-- ===== src/Service/Http/Guards.antt =====
-- Requests of apps/service/src/http.ts that nobody verifiable makes.
use crosscode.Prelude.{
  ◌≡◌, refl, sym, ◌∙◌, Bool, true, false, not, ◌||◌, Option, none, some, if◌then◌else◌,
}
use crosscode.Prelude.Text.{Text, codes}
use crosscode.Prelude.Dict.{Dict}
use crosscode.Service.Limiter.{Window}
use crosscode.Service.Devices.{Devices}
use crosscode.Service.Http.{Service, Request, Options, Moment, Response, ServiceError, error}
use crosscode.Service.Http.Action.{Outcome, done, thrown, Action}
use crosscode.Service.Http.Action.Meets.{
  Meets, Post, Meets-pure, Meets-settle, Meets-bind, Meets-either,
}
use crosscode.Service.Http.Routes.{claims, authenticate}
use crosscode.Service.Http.Routes.Open.{allowed_Meets, post_device_Meets, post_device_token_Meets}
use crosscode.Service.Http.Routes.Handle.{is_route, open_route, dispatch, handle_request, serve}

-- The service but for the limiter's windows and the device codes.
pub record IsUntouched (before after : Service) : Type 0 where
  pub users : after.users ≡ before.users
  pub acceptances : after.acceptances ≡ before.acceptances
  pub tables : after.tables ≡ before.tables
  pub replicas : after.replicas ≡ before.replicas
  pub log : after.log ≡ before.log
  pub broadcasts : after.broadcasts ≡ before.broadcasts

same_rest :
    (before s s' : Service)
    → s'.users ≡ s.users
    → s'.acceptances ≡ s.acceptances
    → s'.tables ≡ s.tables
    → s'.replicas ≡ s.replicas
    → s'.log ≡ s.log
    → s'.broadcasts ≡ s.broadcasts
    → IsUntouched before s
    → IsUntouched before s'
same_rest before s s' u a t r l b h = record {
  users = u ∙ h.users;
  acceptances = a ∙ h.acceptances;
  tables = t ∙ h.tables;
  replicas = r ∙ h.replicas;
  log = l ∙ h.log;
  broadcasts = b ∙ h.broadcasts;
}

module _ (before : Service) (options : Options) (request : Request) (moment : Moment) where
  abbrev Spares : {A : Type 0} → Action A → Type 0
  Spares m = Meets (IsUntouched before) (IsUntouched before) m (λ _. IsUntouched before)

  windows_free :
      (s : Service) (windows : Dict Window)
      → IsUntouched before s
      → IsUntouched before (record s { windows = windows })
  windows_free s windows h = same_rest before s _ refl refl refl refl refl refl h

  devices_free :
      (s : Service) (devices : Devices)
      → IsUntouched before s
      → IsUntouched before (record s { devices = devices })
  devices_free s devices h = same_rest before s _ refl refl refl refl refl refl h

  SparesEach : Option (Action Response) → Type 0
  SparesEach none = Unit
  SparesEach (some m) = Spares m

  each :
      (test : Bool) (m : Action Response) (rest : Option (Action Response))
      → Spares m
      → SparesEach rest
      → SparesEach (if test then some m else rest)
  unfolding SparesEach
  each true m rest hm hrest = hm
  each false m rest hm hrest = hrest

  open_route-Spares : SparesEach (open_route options request moment)
  unfolding open_route SparesEach
  open_route-Spares =
      each
        (is_route request (codes "GET") (codes "/health")
          || is_route request (codes "GET") (codes "/healthz"))
        _ _ (Meets-pure _ (λ s h. h))
        (each (is_route request (codes "GET") (codes "/v1/legal")) _ _ (Meets-pure _ (λ s h. h)) (
          each (is_route request (codes "POST") (codes "/v1/auth/github/device")) _ _
            (post_device_Meets windows_free devices_free options request moment)
            (each (is_route request (codes "POST") (codes "/v1/auth/github/device/token")) _ _
              (post_device_token_Meets windows_free devices_free options request moment) tt)))

  module _ (e : ServiceError) (nobody : claims options request moment ≡ thrown e) where
    dispatch-Spares :
        (route : Text) (answer : Option (Action Response))
        → SparesEach answer
        → Spares (dispatch options request moment route answer)
    unfolding dispatch SparesEach authenticate
    dispatch-Spares route (some answer) h = h
    dispatch-Spares route none h =
        Meets-bind {Q = λ caller _. claims options request moment ≡ done caller} _ _
          (Meets-bind _ _ (Meets-settle (claims options request moment) (λ s h. h))
            λ caller. record { at = λ s h. absurd (cc (sym nobody ∙ h.1)) })
          λ caller. record { at = λ s done_so. absurd (cc (sym nobody ∙ done_so)) }

    handle_request-Spares : Spares (handle_request options request moment)
    unfolding handle_request
    handle_request-Spares = Meets-either _ _ _ (Meets-pure _ (λ s h. h)) (
        Meets-bind _ _ (allowed_Meets windows_free devices_free _ _ _) λ pass.
          Meets-either (not pass) _ _ (Meets-pure (error 429) (λ s h. h))
            (dispatch-Spares _ _ open_route-Spares))

of_Post :
    (before : Service) (r : Outcome Response) (s : Service)
    → Post (IsUntouched before) (λ _. IsUntouched before) r s
    → IsUntouched before s
of_Post before (done a) s h = h
of_Post before (thrown e) s h = h

-- A request without a token that verifies, to whatever route, leaves the users, the acceptances, the
-- projects, members and invites, the replicas, the change log and the broadcasts as they were.
pub serve-IsUntouched :
    (options : Options) (request : Request) (moment : Moment) (s : Service) (e : ServiceError)
    → claims options request moment ≡ thrown e
    → IsUntouched s (serve options request moment s).1
unfolding serve
serve-IsUntouched options request moment s e nobody =
    let (r, s') = handle_request options request moment s in
    of_Post s r s' (
      (handle_request-Spares s options request moment e nobody).at s (record {
        users = refl;
        acceptances = refl;
        tables = refl;
        replicas = refl;
        log = refl;
        broadcasts = refl;
      }))
