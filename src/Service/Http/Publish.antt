-- ===== src/Service/Http/Publish.antt =====
-- What a publish by apps/service/src/http.ts comes to.
use crosscode.Prelude.{ℕ, ◌≡◌, refl, ◌∙◌, true, false, not, [], ◌∷◌, ◌++◌, some, arith, any}
use crosscode.Prelude.Text.{Text, same, same_iff}
use crosscode.Prelude.Dict.{lookup}
use crosscode.Core.Redact.{redact_path}
use crosscode.Service.Changes.{Room, publish_changes, last_sequence}
use crosscode.Service.Invites.{Reply, ok, refused, is_member}
use crosscode.Service.Invites.Admits.{require_membership-is_member}
use crosscode.Service.Replicas.{ReplicaRow, touch_replica}
use crosscode.Service.Replicas.Touch.{touch_replica_sound}
use crosscode.Service.Users.{SupabaseAccessClaims}
use crosscode.Service.Http.{Json, Service, Request, Options, Moment, Response, published}
use crosscode.Service.Http.Action.{done, of_reply, pure, put, gets, ◌>>=◌}
use crosscode.Service.Http.Action.Meets.{
  Meets, Post, Meets-pure, Meets-bind, Meets-gets, Meets-known, Meets-settle, Meets-reply,
  Meets-refuse,
}
use crosscode.Service.Http.Schemas.{PublishRequest, publish_changes_request}
use crosscode.Service.Http.Body.{read_json}
use crosscode.Service.Http.Routes.{on_replicas}
use crosscode.Service.Http.Routes.Rooms.{membership_of, append, broadcast, post_changes}

abbrev pub room_of : PublishRequest → Room
room_of r = record { project_id = r.project_id; branch = r.branch }

-- Whom the service lets publish the request: a member, as a replica that is the member's, in that
-- project and on that branch; and only paths that may leave the machine.
pub record MayPublish (s : Service) (user_id : Text) (r : PublishRequest) : Type 0 where
  pub is_of_project : is_member s.tables.members r.project_id user_id ≡ true
  pub row : ReplicaRow
  pub is_registered : lookup r.replica_id s.replicas ≡ some row
  pub in_project : row.project_id ≡ r.project_id
  pub of_user : row.user_id ≡ user_id
  pub on_branch : row.branch ≡ r.branch
  pub allowed_paths : any (λ version. redact_path version.path) r.versions ≡ false

-- The log and the broadcasts of the service, before and after.
pub record IsQuiet (before after : Service) : Type 0 where
  pub log : after.log ≡ before.log
  pub broadcasts : after.broadcasts ≡ before.broadcasts

pub record IsPublished (options : Options) (request : Request) (before after : Service)
    (user_id at : Text) (answer : Response) : Type 0 where
  -- What the body of the request holds, where it is JSON of the request's schema.
  pub json : Json
  pub read : read_json options request options.body_limit_bytes ≡ done json
  pub r : PublishRequest
  pub asked : publish_changes_request json ≡ done r
  pub may : MayPublish after user_id r
  pub log : after.log ≡ (publish_changes before.log (room_of r) r.replica_id at r.versions).0
  pub broadcasts :
      after.broadcasts
      ≡ before.broadcasts
        ++ record {
          room = room_of r;
          changes = (publish_changes before.log (room_of r) r.replica_id at r.versions).1;
          exclude_replica_id = r.replica_id;
        }
          ∷ []
  pub cursor :
      answer
      ≡ published
          (last_sequence 0 (publish_changes before.log (room_of r) r.replica_id at r.versions).1)

module _ (before : Service) where
  abbrev Quiet : Service → Type 0
  Quiet s = IsQuiet before s

  membership_Meets :
      (project_id user_id : Text)
      → Meets Quiet Quiet
          (membership_of project_id user_id)
          (λ _ s. Quiet s × (is_member s.tables.members project_id user_id ≡ true))
  unfolding membership_of
  membership_Meets project_id user_id = Meets-bind _ _ (Meets-gets _) λ r.
      Meets-bind _ _ (Meets-reply r (λ s h. h.0)) λ m.
        Meets-pure tt
          λ s h. (h.0.0, require_membership-is_member s.tables project_id user_id m (h.0.1 ∙ h.1))

  -- What is known once the replica has been touched and all tests are passed.
  abbrev Touched : Text → PublishRequest → Text → Service → Type 0
  Touched user_id r branch s =
      Quiet s
      × (is_member s.tables.members r.project_id user_id ≡ true)
      × ((row : ReplicaRow) × (lookup r.replica_id s.replicas ≡ some row)
          × (row.project_id ≡ r.project_id)
          × (row.user_id ≡ user_id)
          × (row.branch ≡ branch))

  Touched-Post :
      (user_id : Text) (r : PublishRequest) (answer : Reply Text) (s : Service)
      → Quiet s
      → is_member s.tables.members r.project_id user_id ≡ true
      → ((branch : Text)
          → answer ≡ ok branch
          → (row : ReplicaRow) × (lookup r.replica_id s.replicas ≡ some row)
            × (row.project_id ≡ r.project_id)
            × (row.user_id ≡ user_id)
            × (row.branch ≡ branch))
      → Post Quiet (Touched user_id r) (of_reply answer) s
  Touched-Post user_id r (ok branch) s quiet of f = (quiet, of, f branch refl)
  Touched-Post user_id r (refused e) s quiet of f = quiet

  touch_Meets :
      (user_id : Text) (r : PublishRequest) (now : ℕ)
      → Meets Quiet
          (λ s. Quiet s × (is_member s.tables.members r.project_id user_id ≡ true))
          (on_replicas (touch_replica r.project_id user_id r.replica_id now))
          (Touched user_id r)
  unfolding on_replicas
  touch_Meets user_id r now = record {
    at = λ s h.
        Touched-Post user_id r (touch_replica r.project_id user_id r.replica_id now s.replicas).0
          (record s {
            replicas = (touch_replica r.project_id user_id r.replica_id now s.replicas).1;
          })
          (record { log = h.0.log; broadcasts = h.0.broadcasts }) h.1
          (λ branch e.
            touch_replica_sound r.project_id user_id r.replica_id branch now s.replicas e);
  }

  tail_Meets :
      (options : Options) (request : Request) (json : Json) (user_id at branch : Text)
      (r : PublishRequest)
      → read_json options request options.body_limit_bytes ≡ done json
      → publish_changes_request json ≡ done r
      → Meets Quiet
          (λ s.
            (Touched user_id r branch s × (not (same branch r.branch) ≡ false))
            × (any (λ version. redact_path version.path) r.versions ≡ false))
          (append r at >>= λ appended.
            broadcast r appended >>= λ _. pure (published (last_sequence 0 appended)))
          (λ answer s. IsPublished options request before s user_id at answer)
  unfolding append broadcast put gets pure ◌>>=◌
  tail_Meets options request json user_id at branch r read asked = record {
    at = λ s h.
        let (quiet, of, (row, there, p, u, b)) = h.0.0 in
        let it : branch ≡ r.branch = (same_iff branch r.branch).0 (ground (arith, h.0.1)) in
        record {
          json = json;
          read = read;
          r = r;
          asked = asked;
          may = record {
            is_of_project = of;
            row = row;
            is_registered = there;
            in_project = p;
            of_user = u;
            on_branch = b ∙ it;
            allowed_paths = h.1;
          };
          log = rw quiet.log refl;
          broadcasts = rw (quiet.broadcasts, quiet.log) refl;
          cursor = rw quiet.log refl;
        };
  }

-- A publish that is answered has a body that is read as a publish request, and the caller's
-- membership, replica and branch behind it, denies no path, appends to the log exactly the versions
-- of that request as the store numbers them, hands
-- exactly those changes to the gateway with the sender to leave out, and answers with the last
-- sequence. A publish that throws leaves the log and the broadcasts as they were.
pub post_changes_outcome :
    (options : Options) (request : Request) (moment : Moment) (caller : SupabaseAccessClaims)
    (s : Service)
    → Post
        (IsQuiet s)
        (λ answer after.
          IsPublished options request s after caller.user_id moment.created_at answer)
        (post_changes options request moment caller s).0
        (post_changes options request moment caller s).1
unfolding post_changes
post_changes_outcome options request moment caller s =
    (Meets-bind _ _ (Meets-settle (read_json options request options.body_limit_bytes) (λ s h. h))
        λ json. Meets-known _ λ read.
          Meets-bind _ _ (Meets-settle (publish_changes_request json) (λ s h. h)) λ r.
            Meets-known _ λ asked.
              Meets-bind _ _ (membership_Meets s r.project_id caller.user_id) λ _.
                Meets-bind _ _ (touch_Meets s caller.user_id r moment.now) λ branch.
                  Meets-bind _ _ (Meets-refuse _ 409 (λ s h. h.0)) λ _.
                    Meets-bind _ _ (Meets-refuse _ 400 (λ s h. h.0.0)) λ _.
                      tail_Meets s options request json caller.user_id moment.created_at branch r
                        read asked).at
      s (record { log = refl; broadcasts = refl })
