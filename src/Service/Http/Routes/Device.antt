-- ===== src/Service/Http/Routes/Device.antt =====
-- apps/service/src/http.ts: the routes by which a terminal signs in, and those of the record of assent.
use crosscode.Prelude.{
  ℕ, Bool, true, false, not, List, [], ◌∷◌, ◌++◌, Option, none, some, is_some, if◌then◌else◌,
}
use crosscode.Prelude.Text.{Text, codes}
use crosscode.Service.Devices.{
  DeviceSession, DeviceBindResult, DeviceClaimResult, unknown, expired, consumed, already_bound,
  bound, pending, complete, Drawn, start_device_code, bind_device_code, claim_device_code,
}
use crosscode.Service.Users.{SupabaseAccessClaims}
use crosscode.Service.UserCodes.{normalize_user_code}
use crosscode.Service.Legal.{
  LegalDocument, AcceptanceSurface, AcceptanceRow, Versions, legal_documents, required_documents,
  is_current_version, record_acceptances, outstanding_documents, latest_accepted_versions,
  current_legal_documents,
}
use crosscode.Service.Http.{
  Request, Options, Moment, Response, http, unexpected, started, poll_pending, poll_complete,
  device_bound, acceptance_recorded, acceptances,
}
use crosscode.Service.Http.Action.{Action, pure, throw, gets, put, settle, refuse_if, ◌>>=◌, ◌>>◌}
use crosscode.Service.Http.Schemas.{
  BindRequest, device_poll_request, device_bind_request, acceptance_request,
}
use crosscode.Service.Http.Routes.{allowed, on_devices, bearer_token, body, require_accepted_terms}

abbrev device_code_ttl_seconds : ℕ
device_code_ttl_seconds = 900

abbrev device_code_rate_per_minute : ℕ
device_code_rate_per_minute = 30

unfoldable pub answer_started : Option Drawn → Action Response
answer_started none = throw unexpected
answer_started (some drawn) = pure (started drawn)

-- Each refusal has its own status.
unfoldable pub answer_claim : DeviceClaimResult → Action Response
answer_claim unknown = throw (http 404)
answer_claim expired = throw (http 410)
answer_claim consumed = throw (http 409)
answer_claim pending = pure poll_pending
answer_claim (complete session) = pure (poll_complete session)

unfoldable pub answer_bind : DeviceBindResult → Action Response
answer_bind unknown = throw (http 404)
answer_bind expired = throw (http 410)
answer_bind consumed = throw (http 409)
answer_bind already_bound = throw (http 409)
answer_bind bound = pure device_bound

-- The session that a terminal collects: the token is the one that was just verified.
session_of : SupabaseAccessClaims → BindRequest → Text → DeviceSession
session_of caller bind token = record {
  access_token = token;
  refresh_token = bind.refresh_token;
  expires_at = caller.expires_at;
  github_token = bind.github_token;
}

unfoldable pub or_400 : Option Text → Action Text
or_400 none = throw (http 400)
or_400 (some code) = pure code

is_missing : Versions → LegalDocument → Bool
is_missing documents document = not (is_some (documents document))

is_stale : LegalDocument → Option Text → Bool
is_stale document none = false
is_stale document (some version) = not (is_current_version document version)

any_document : (LegalDocument → Bool) → List LegalDocument → Bool
any_document test [] = false
any_document test (document ∷ documents) =
    let rest = any_document test documents in if test document then true else rest

row_of : Text → AcceptanceSurface → Text → ℕ → LegalDocument → Option Text → List AcceptanceRow
row_of user_id surface ip now document none = []
row_of user_id surface ip now document (some version) =
    record {
      user_id = user_id;
      document = document;
      version = version;
      surface = surface;
      ip = ip;
      accepted_at = now;
    }
    ∷ []

pub rows_for :
    Text → AcceptanceSurface → Text → ℕ → Versions → List LegalDocument → List AcceptanceRow
unfolding row_of
rows_for user_id surface ip now documents [] = []
rows_for user_id surface ip now documents (document ∷ rest) =
    row_of user_id surface ip now document (documents document)
    ++ rows_for user_id surface ip now documents rest

module _ (options : Options) (request : Request) (moment : Moment) where
  -- POST /v1/auth/github/device
  unfoldable pub post_device : Action Response
  unfolding answer_started
  post_device = do
    drawn ← on_devices (
        start_device_code options.hash_device_code moment.device_codes device_code_ttl_seconds
          moment.now)
    answer_started drawn

  -- POST /v1/auth/github/device/token
  unfoldable pub post_device_token : Action Response
  unfolding answer_claim
  post_device_token = do
    device_code ← settle (device_poll_request (← body options request moment 4096))
    pass ←
        allowed (codes "device:" ++ options.hash_device_code device_code)
          device_code_rate_per_minute moment.now
    refuse_if (not pass) 429
    claimed ← on_devices (claim_device_code options.hash_device_code device_code moment.now)
    answer_claim claimed

  -- POST /v1/auth/github/device/bind
  unfoldable pub post_device_bind : SupabaseAccessClaims → Action Response
  unfolding answer_bind session_of or_400
  post_device_bind caller = do
    bind ← settle (device_bind_request (← body options request moment 16384))
    refuse_if (not (is_some caller.github)) 403
    user_code ← or_400 (normalize_user_code bind.user_code)
    require_accepted_terms caller.user_id
    token ← settle (bearer_token request.authorization)
    result ←
        on_devices
          (bind_device_code user_code caller.user_id (session_of caller bind token) moment.now)
    answer_bind result

  -- POST /v1/legal/acceptances
  unfoldable pub post_acceptances : SupabaseAccessClaims → Text → Action Response
  unfolding any_document is_missing is_stale rows_for
  post_acceptances caller remote = do
    (surface, documents) ← settle (acceptance_request (← body options request moment 4096))
    refuse_if (any_document (is_missing documents) required_documents) 400
    refuse_if (any_document (λ d. is_stale d (documents d)) legal_documents) 409
    let rows = rows_for caller.user_id surface remote moment.now documents legal_documents
    put (λ s. record s { acceptances = record_acceptances rows s.acceptances })
    pure (acceptance_recorded documents (outstanding_documents documents))

-- GET /v1/legal/acceptances
unfoldable pub get_acceptances : SupabaseAccessClaims → Action Response
get_acceptances caller = do
  accepted ← gets (λ s. latest_accepted_versions caller.user_id s.acceptances)
  pure (acceptances accepted (outstanding_documents accepted) current_legal_documents)
