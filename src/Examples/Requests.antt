-- ===== src/Examples/Requests.antt =====
-- Requests to the service, its limiter and its codes.
use crosscode.Prelude.{
  ◌≤◌, ◌≡◌, refl, true, false, not, ◌&&◌, List, [], ◌∷◌, ◌++◌, none, some, map, arith, take, drop,
  length, any, is_some, leb,
}
use crosscode.Prelude.Text.{
  Text, codes, same, same_opt, truthy, trim, is_space, to_lower, starts_with,
}
use crosscode.Prelude.Dict.{lookup, member}
use crosscode.Service.Invites.{conflicting}
use crosscode.Paths.{split}
use crosscode.Protocol.{FileVersion, delete, utf8}
use crosscode.Service.Limiter
use crosscode.Service.Limiter.{Window, window_ms, max_windows, next_window, make_room}
use crosscode.Service.Limiter.Bounds
use crosscode.Service.Limiter.Bounds.{passed, passed-le, take-IsBounded}
use crosscode.Service.Legal.{signup, legal_versions, current_legal_documents}
use crosscode.Service.UserCodes.{
  generate_invite_code, generate_user_code, normalize_user_code, to_upper, code_char,
}
use crosscode.Service.UserCodes.Spelling.{normalize-generate_user_code}
use crosscode.Service.Users.{upsert_user, SupabaseAccessClaims}
use crosscode.Service.Http.{
  Request, Options, Moment, Json, publish_body, project_body, replica_body, acceptance_body,
  other_body, http, store,
}
use crosscode.Service.Http.Action.{done, thrown}
use crosscode.Service.Http.Action.Meets.{Post}
use crosscode.Service.Http.Address.{
  is_comma, client_address, cors_origin_for, redeem_match, rate_limit_route, is_loopback,
  assert_safe_service_binding,
}
use crosscode.Service.Http.Address.Hops.{client_address_unforgeable}
use crosscode.Service.Http.Body.{media_type, declares_too_large, number, integer_param, read_json}
use crosscode.Service.Http.Body.Limits.{concat, read_json-bounded}
use crosscode.Service.Http.Routes.{claims, bearer_token}
use crosscode.Service.Http.Routes.Handle.{status_for, serve}
use crosscode.Service.Http.Routes.Rooms.{post_changes}
use crosscode.Service.Http.Consent.{IsConsented}
use crosscode.Service.Http.Consent.Served.{
  serve_all, empty_service, serve_all-IsConsented, IsConsented-empty_service,
}
use crosscode.Service.Http.Guards.{IsUntouched, serve-IsUntouched}
use crosscode.Service.Http.Publish.{IsQuiet, IsPublished, post_changes_outcome}

abbrev user : Text
user = codes "00000000-0000-0000-0000-000000000001"

abbrev project_id : Text
project_id = codes "00000000-0000-0000-0000-000000000002"

abbrev replica_id : Text
replica_id = codes "00000000-0000-0000-0000-000000000003"

abbrev caller : SupabaseAccessClaims
caller = record { user_id = user; email = none; github = none; expires_at = codes "t" }

abbrev removal : FileVersion
removal = record {
  path = codes "a.txt";
  op = delete;
  base_hash = some (codes "1");
  content_hash = none;
  content = none;
  patch = none;
  encoding = utf8;
  mode = none;
  renamed_from = none;
}

-- Each body is one letter.
abbrev parse_json : Text → Json
parse_json [] = other_body
parse_json (c ∷ s) = elim (leb c b'a') [
  | true ↦ acceptance_body signup legal_versions
  | false ↦ elim (leb c b'b') [
    | true ↦ project_body (codes "n") (codes "o/r")
    | false ↦ elim (leb c b'c') [
      | true ↦ replica_body project_id (codes "main")
      | false ↦ publish_body project_id (codes "main") replica_id (removal ∷ [])
    ]
  ]
]

abbrev options : Options
options = record {
  trust_proxy = true;
  allowed_origins = [];
  body_limit_bytes = 1048576;
  verify = λ token. some caller;
  check_repo_access = λ token repo. some true;
  parse_json = λ s. some (parse_json s);
  decode_uri_component = λ s. some s;
  hash_device_code = λ s. s;
  unreadable_tables = [];
}

abbrev request_to : Text → Text → Request
request_to pathname body = record {
  method = codes "POST";
  pathname = pathname;
  origin = none;
  authorization = some (codes "Bearer t");
  github_token = none;
  remote_address = some (codes "10.0.0.1");
  forwarded_for = some (codes "1.2.3.4, 5.6.7.8");
  content_type = some (codes "application/json; charset=utf-8");
  content_length = some (codes "1");
  chunks = body ∷ [];
  query = [];
}

abbrev moment : Moment
moment = record {
  now = 1000;
  created_at = codes "t";
  project_id = project_id;
  replica_id = replica_id;
  device_codes = [];
  invite_codes = [];
}

abbrev requests : List (Request × Moment)
requests =
    (request_to (codes "/v1/legal/acceptances") (codes "a"), moment)
    ∷ (request_to (codes "/v1/projects") (codes "b"), moment)
    ∷ (request_to (codes "/v1/replicas") (codes "c"), moment)
    ∷ (request_to (codes "/v1/changes") (codes "d"), moment)
    ∷ []

serve_all-IsConsented_example : IsConsented (serve_all options requests empty_service)
serve_all-IsConsented_example =
    serve_all-IsConsented options requests empty_service IsConsented-empty_service

abbrev publish_request : Request
publish_request = request_to (codes "/v1/changes") (codes "d")

post_changes_outcome_example :
    Post
      (IsQuiet empty_service)
      (λ answer after.
        IsPublished options publish_request empty_service after user (codes "t") answer)
      (post_changes options publish_request moment caller empty_service).0
      (post_changes options publish_request moment caller empty_service).1
post_changes_outcome_example =
    post_changes_outcome options publish_request moment caller empty_service

abbrev anonymous : Request
anonymous = record publish_request { authorization = none }

nobody : claims options anonymous moment ≡ thrown (http 401)
unfolding claims bearer_token
nobody = refl

serve-IsUntouched_example :
    IsUntouched empty_service (serve options anonymous moment empty_service).1
serve-IsUntouched_example =
    serve-IsUntouched options anonymous moment empty_service (http 401) nobody

one_hop : any is_comma (codes " 5.6.7.8") ≡ false
unfolding any
one_hop = refl

hop_there : truthy (some (trim (codes " 5.6.7.8"))) ≡ true
unfolding truthy trim is_space
hop_there = refl

client_address_unforgeable_example : client_address publish_request true ≡ trim (codes " 5.6.7.8")
client_address_unforgeable_example =
    client_address_unforgeable publish_request (codes "1.2.3.4") (codes " 5.6.7.8") refl one_hop
      hop_there

body_read :
    read_json options publish_request 16
    ≡ done (publish_body project_id (codes "main") replica_id (removal ∷ []))
unfolding read_json media_type declares_too_large number same_opt same trim is_space split to_lower
    truthy any
body_read = refl

read_json-bounded_example :
    (length (concat publish_request.chunks) ≤ 16)
    × (options.parse_json (concat publish_request.chunks)
        ≡ some (publish_body project_id (codes "main") replica_id (removal ∷ [])))
    × (same_opt (media_type publish_request.content_type) (some (codes "application/json")) ≡ true)
    × (declares_too_large 16 publish_request.content_length ≡ false)
read_json-bounded_example =
    read_json-bounded options publish_request 16
      (publish_body project_id (codes "main") replica_id (removal ∷ [])) body_read

abbrev key : Text
key = codes "ip:5.6.7.8"

abbrev again : Bounds.Request
again = record { key = key; maximum = 1; time = 2000 }

abbrev other : Bounds.Request
other = record { key = codes "ip:1.1.1.1"; maximum = 1; time = 1500 }

fresh_key : next_window 1000 (lookup key []) ≡ record { started_at = 1000; count = 1 }
unfolding next_window lookup
fresh_key = refl

room_left :
    (not (is_some (lookup {V = Window} key []))
      && leb max_windows (length (make_room 1000 (lookup key []) [])))
    ≡ false
unfolding make_room lookup
room_left = refl

passed-le_example :
    passed key (record { key = key; maximum = 1; time = 1000 } ∷ other ∷ again ∷ []) [] ≤ 1
passed-le_example =
    passed-le key 1 1000 (other ∷ again ∷ []) [] fresh_key room_left
      ((omega arith, λ _. refl), ((omega arith, λ _. refl), tt))

take-IsBounded_example : length (Limiter.take key 1 1000 []).0 ≤ max_windows
take-IsBounded_example = take-IsBounded key 1 1000 [] (omega arith)

abbrev random : Text
random = 0 ∷ 31 ∷ 2 ∷ 3 ∷ 4 ∷ 5 ∷ 6 ∷ 255 ∷ []

typed_first : map to_upper (codes "abCd") ≡ take 4 (map code_char random)
unfolding code_char
typed_first = refl

typed_second : map to_upper (codes "efgR") ≡ drop 4 (map code_char random)
unfolding code_char
typed_second = refl

normalize-generate_user_code_example :
    (normalize_user_code (codes "abCd" ++ b'-' ∷ codes "efgR") ≡ some (generate_user_code random))
    × (normalize_user_code (codes "abCd" ++ codes "efgR") ≡ some (generate_user_code random))
normalize-generate_user_code_example =
    normalize-generate_user_code random (codes "abCd") (codes "efgR") refl typed_first typed_second

invite_code : generate_invite_code random ≡ codes "CC-ABCD-EFGR"
unfolding generate_invite_code code_char
invite_code = refl

published_documents : length current_legal_documents ≡ 2
unfolding current_legal_documents
published_documents = refl

local_host : assert_safe_service_binding (codes "[::1]") false ≡ true
unfolding assert_safe_service_binding is_loopback same starts_with to_lower
local_host = refl

all_hosts : assert_safe_service_binding (codes "0.0.0.0") false ≡ false
unfolding assert_safe_service_binding is_loopback same starts_with to_lower
all_hosts = refl

no_origin : cors_origin_for (record publish_request { origin = some (codes "https://e") }) [] ≡ none
unfolding cors_origin_for truthy member same
no_origin = refl

redeem_route :
    rate_limit_route (codes "POST") (codes "/v1/invites/CC-1/redeem")
    ≡ codes "POST /v1/invites/:code/redeem"
unfolding rate_limit_route redeem_match same split truthy
redeem_route = refl

unknown_route : rate_limit_route (codes "GET") (codes "/health") ≡ codes "unknown"
unfolding rate_limit_route redeem_match same split truthy member
unknown_route = refl

since_param :
    integer_param
      (record publish_request { query = (codes "since", codes "42") ∷ [] })
      (codes "since")
    ≡ done (some 42)
unfolding integer_param lookup same truthy any number
since_param = refl

upserted :
    (upsert_user user (record { github_id = none; github_login = none; email = none }) []).0 ≡ true
unfolding upsert_user lookup
upserted = refl

refused_status : status_for (store conflicting) ≡ 409
unfolding status_for
refused_status = refl
