-- ===== src/Service/Http/Schemas.antt =====
-- packages/protocol/src/sync.ts and apps/service/src/http.ts: what the schemas of the routes accept of
-- a body that has their shape.
use crosscode.Prelude.{
  ℕ, Bool, true, false, not, ◌&&◌, ◌||◌, List, [], ◌∷◌, Option, none, some, any, get_or, length,
  leb, ◌==◌,
}
use crosscode.Prelude.Text.{Text, truthy}
use crosscode.Paths.{split}
use crosscode.Protocol.{FileVersion, file_version_schema}
use crosscode.Service.Legal.{AcceptanceSurface, Versions, terms, privacy, dpa}
use crosscode.Service.Http.{
  Json, publish_body, project_body, invite_body, replica_body, poll_body, bind_body,
  acceptance_body, zod,
}
use crosscode.Service.Http.Action.{Outcome, done, thrown}

-- `z.string().min(1)` and `z.string().min(1).max(n)`
abbrev some_text : Text → Bool
some_text s = truthy (some s)

abbrev up_to : ℕ → Text → Bool
up_to n s = some_text s && leb (length s) n

-- `schema.parse` of a value that has the shape.
abbrev checked : {A : Type 0} → Bool → A → Outcome A
checked true a = done a
checked false a = thrown zod

pub record PublishRequest : Type 0 where
  pub project_id : Text
  pub branch : Text
  pub replica_id : Text
  pub versions : List FileVersion

abbrev pub publish_is_valid : PublishRequest → Bool
publish_is_valid r =
    some_text r.project_id
    && some_text r.branch
    && some_text r.replica_id
    && leb 1 (length r.versions)
    && leb (length r.versions) 500
    && not (any (λ version. not (file_version_schema version)) r.versions)

unfoldable pub publish_changes_request : Json → Outcome PublishRequest
publish_changes_request (publish_body project_id branch replica_id versions) =
    let r : PublishRequest = record {
      project_id = project_id;
      branch = branch;
      replica_id = replica_id;
      versions = versions;
    } in
    checked (publish_is_valid r) r
publish_changes_request _ = thrown zod

-- `/^[\w.-]+\/[\w.-]+$/`
is_repo_char : ℕ → Bool
is_repo_char c =
    (leb b'a' c && leb c b'z')
    || (leb b'A' c && leb c b'Z')
    || (leb b'0' c && leb c b'9')
    || (c == b'_')
    || (c == b'.')
    || (c == b'-')

is_repo_part : Text → Bool
unfolding is_repo_char
is_repo_part s = some_text s && not (any (λ c. not (is_repo_char c)) s)

repo_parts : List Text → Bool
repo_parts (owner ∷ name ∷ []) = is_repo_part owner && is_repo_part name
repo_parts _ = false

unfoldable pub is_repo : Text → Bool
unfolding repo_parts is_repo_part split
is_repo s = repo_parts (split (λ c. c == b'/') s)

unfoldable pub create_project_request : Json → Outcome (Text × Text)
unfolding is_repo
create_project_request (project_body name repo) =
    checked (up_to 200 name && is_repo repo) (name, repo)
create_project_request _ = thrown zod

unfoldable pub create_invite_request : Json → Outcome (Text × ℕ)
create_invite_request (invite_body project_id expires_in_hours) =
    let hours = get_or expires_in_hours 168 in
    checked (some_text project_id && leb 1 hours && leb hours 720) (project_id, hours)
create_invite_request _ = thrown zod

unfoldable pub register_replica_request : Json → Outcome (Text × Text)
register_replica_request (replica_body project_id branch) =
    checked (some_text project_id && some_text branch) (project_id, branch)
register_replica_request _ = thrown zod

unfoldable pub device_poll_request : Json → Outcome Text
device_poll_request (poll_body device_code) = checked (up_to 512 device_code) device_code
device_poll_request _ = thrown zod

pub record BindRequest : Type 0 where
  pub user_code : Text
  pub refresh_token : Text
  pub github_token : Option Text

abbrev opt_up_to : ℕ → Option Text → Bool
opt_up_to n none = true
opt_up_to n (some s) = up_to n s

unfoldable pub device_bind_request : Json → Outcome BindRequest
device_bind_request (bind_body user_code refresh_token github_token) =
    checked (up_to 32 user_code && up_to 4096 refresh_token && opt_up_to 4096 github_token)
      (record { user_code = user_code; refresh_token = refresh_token; github_token = github_token })
device_bind_request _ = thrown zod

unfoldable pub acceptance_request : Json → Outcome (AcceptanceSurface × Versions)
acceptance_request (acceptance_body surface documents) =
    checked
      (opt_up_to 64 (documents terms)
        && opt_up_to 64 (documents privacy)
        && opt_up_to 64 (documents dpa))
      (surface, documents)
acceptance_request _ = thrown zod

pub record ListQuery : Type 0 where
  pub project_id : Text
  pub branch : Text
  pub since : ℕ
  pub limit : ℕ

unfoldable pub list_changes_query :
    Option Text → Option Text → Option ℕ → Option ℕ → Outcome ListQuery
list_changes_query project_id branch since limit =
    let n = get_or limit 200 in
    checked (truthy project_id && truthy branch && leb 1 n && leb n 500) (record {
      project_id = get_or project_id [];
      branch = get_or branch [];
      since = get_or since 0;
      limit = n;
    })
