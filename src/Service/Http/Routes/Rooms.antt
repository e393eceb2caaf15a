-- ===== src/Service/Http/Routes/Rooms.antt =====
-- apps/service/src/http.ts: the routes of projects, invites, replicas and changes.
use crosscode.Prelude.{
  Bool, not, List, [], ◌∷◌, ◌++◌, Option, none, some, any, get_or, is_some, leb, ◌==◌,
  if◌then◌else◌,
}
use crosscode.Prelude.Text.{Text, codes, same, truthy}
use crosscode.Prelude.Dict.{lookup}
use crosscode.Paths.{split}
use crosscode.Core.Redact.{redact_path}
use crosscode.Protocol.{Change}
use crosscode.Service.Changes.{Room, publish_changes, list_changes, last_sequence}
use crosscode.Service.Invites.{
  StoredInvite, create_project, require_membership, create_invite, find_invite, redeem_invite,
}
use crosscode.Service.Replicas.{register_replica, touch_replica}
use crosscode.Service.Users.{SupabaseAccessClaims}
use crosscode.Service.Http.{
  Request, Options, Moment, Response, http, unexpected, project, redeemed, invite, replica,
  published, changes,
}
use crosscode.Service.Http.Action.{
  Action, pure, throw, gets, put, settle, reply, refuse_if, ◌>>=◌, ◌>>◌,
}
use crosscode.Service.Http.Address.{last}
use crosscode.Service.Http.Body.{read_json, integer_param}
use crosscode.Service.Http.Schemas.{
  PublishRequest, publish_changes_request, create_project_request, create_invite_request,
  register_replica_request, list_changes_query,
}
use crosscode.Service.Http.Routes.{
  on_tables, on_replicas, body, require_accepted_terms, upsert_caller,
}

-- `options.store.requireMembership`, for its refusal.
unfoldable pub membership_of : Text → Text → Action (Unit {0})
membership_of project_id user_id = do
  r ← gets (λ s. require_membership s.tables project_id user_id)
  _ ← reply r
  pure tt

clone_command_for : Text → Text
unfolding split
clone_command_for repo =
    let directory = get_or (last (split (λ c. c == b'/') repo)) repo in
    codes "git clone git@github.com:" ++ repo ++ codes ".git && cd " ++ directory

unfoldable pub or_404 : Option StoredInvite → Action StoredInvite
or_404 none = throw (http 404)
or_404 (some offered) = pure offered

unfoldable pub or_403 : Option Text → Action Text
or_403 none = throw (http 403)
or_403 (some token) = if truthy (some token) then pure token else throw (http 403)

-- A check that fails is answered 500, one that denies 403.
unfoldable pub checked : Option Bool → Action (Unit {0})
checked none = throw unexpected
checked (some access) = refuse_if (not access) 403

unfoldable pub decoded : Option Text → Action Text
decoded none = throw unexpected
decoded (some code) = pure code

-- `options.store.publishChanges` and then `gateway.broadcastChanges`.
unfoldable pub append : PublishRequest → Text → Action (List Change)
append r created_at = do
  let room : Room = record { project_id = r.project_id; branch = r.branch }
  appended ← gets (λ s. (publish_changes s.log room r.replica_id created_at r.versions).1)
  put (λ s. record s { log = (publish_changes s.log room r.replica_id created_at r.versions).0 })
  pure appended

unfoldable pub broadcast : PublishRequest → List Change → Action (Unit {0})
broadcast r appended = put (λ s. record s {
  broadcasts =
      s.broadcasts
      ++ record {
        room = record { project_id = r.project_id; branch = r.branch };
        changes = appended;
        exclude_replica_id = r.replica_id;
      }
        ∷ [];
})

module _ (options : Options) (request : Request) (moment : Moment) where
  -- POST /v1/projects
  unfoldable pub post_projects : SupabaseAccessClaims → Action Response
  post_projects caller = do
    (name, repo) ← settle (create_project_request (← body options request moment 16384))
    require_accepted_terms caller.user_id
    upsert_caller caller
    id ← on_tables (
        create_project moment.project_id caller.user_id
          (record { name = name; repo = repo; created_by = caller.user_id }))
    pure (project id name repo)

  -- POST /v1/invites/:code/redeem
  unfoldable pub post_redeem : SupabaseAccessClaims → Text → Action Response
  unfolding clone_command_for or_404 or_403 checked decoded
  post_redeem caller segment = do
    code ← decoded (options.decode_uri_component segment)
    require_accepted_terms caller.user_id
    found ← gets (λ s. find_invite code s.tables)
    offered ← or_404 found
    refuse_if (is_some offered.redeemed_at) 409
    refuse_if (leb offered.expires_at moment.now) 409
    github_token ← or_403 request.github_token
    checked (options.check_repo_access github_token offered.repo)
    upsert_caller caller
    (project_id, repo) ← on_tables (redeem_invite code caller.user_id moment.now)
    pure (redeemed project_id repo (clone_command_for repo))

  -- POST /v1/invites
  unfoldable pub post_invites : SupabaseAccessClaims → Action Response
  post_invites caller = do
    (project_id, hours) ← settle (create_invite_request (← body options request moment 16384))
    created ←
        on_tables (create_invite project_id caller.user_id hours moment.invite_codes moment.now)
    pure (invite created)

  -- POST /v1/replicas
  unfoldable pub post_replicas : SupabaseAccessClaims → Action Response
  post_replicas caller = do
    (project_id, branch) ← settle (register_replica_request (← body options request moment 16384))
    require_accepted_terms caller.user_id
    membership_of project_id caller.user_id
    (id, cursor) ←
        on_replicas (register_replica moment.replica_id project_id caller.user_id branch moment.now)
    pure (replica id cursor)

  -- POST /v1/changes
  unfoldable pub post_changes : SupabaseAccessClaims → Action Response
  unfolding append broadcast
  post_changes caller = do
    json ← settle (read_json options request options.body_limit_bytes)
    r ← settle (publish_changes_request json)
    membership_of r.project_id caller.user_id
    branch ← on_replicas (touch_replica r.project_id caller.user_id r.replica_id moment.now)
    refuse_if (not (same branch r.branch)) 409
    refuse_if (any (λ version. redact_path version.path) r.versions) 400
    appended ← append r moment.created_at
    broadcast r appended
    pure (published (last_sequence 0 appended))

  -- GET /v1/changes
  unfoldable pub get_changes : SupabaseAccessClaims → Action Response
  get_changes caller = do
    since ← settle (integer_param request (codes "since"))
    limit ← settle (integer_param request (codes "limit"))
    query ← settle (
        list_changes_query (lookup (codes "projectId") request.query)
          (lookup (codes "branch") request.query) since limit)
    membership_of query.project_id caller.user_id
    page ← gets (λ s.
        list_changes s.log (record { project_id = query.project_id; branch = query.branch })
          query.since query.limit)
    pure (changes page)
