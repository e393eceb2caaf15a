-- ===== src/Service/Invites.antt =====
-- apps/service/src/store.ts: projects, their members, and the invites by which members join. A table
-- is a dictionary by its primary key, or, for the members, a list of rows.
pub mod Redeem
pub mod Admits
use crosscode.Prelude.{
  ℕ, ◌+◌, ◌*◌, Bool, true, false, not, ◌&&◌, List, [], ◌∷◌, ◌++◌, Option, none, some, any, leb,
  is_some, length, ◌||◌, ◌==◌, if◌then◌else◌,
}
use crosscode.Prelude.Text.{Text, same, to_lower}
use crosscode.Prelude.Dict.{Dict, lookup, insert}
use crosscode.Paths.{split}
use crosscode.Service.Rows.{find}

pub data ProjectRole : Type 0 where
  owner member : ProjectRole

pub record ProjectMembership : Type 0 where
  pub project_id : Text
  pub user_id : Text
  pub role : ProjectRole
  pub repo : Text

-- The two classes of error that the store throws, and what else may come back from the database.
pub data StoreError : Type 0 where
  unauthorized conflicting failed : StoreError

pub data Reply {ℓ} (A : Type ℓ) : Type ℓ where
  ok : A → Reply A
  refused : StoreError → Reply A

pub record ProjectRow : Type 0 where
  pub name : Text
  pub repo : Text
  pub created_by : Text

pub record MemberRow : Type 0 where
  pub project_id : Text
  pub user_id : Text
  pub role : ProjectRole

pub record InviteRow : Type 0 where
  pub project_id : Text
  pub code : Text
  pub created_by : Text
  pub expires_at : ℕ
  pub redeemed_at : Option ℕ
  pub redeemed_by : Option Text

pub record Tables : Type 0 where
  pub projects : Dict ProjectRow
  pub members : List MemberRow
  pub invites : Dict InviteRow

-- `code`, `projectId`, `repo`, `expiresAt` and `redeemedAt`
pub record StoredInvite : Type 0 where
  pub code : Text
  pub project_id : Text
  pub repo : Text
  pub expires_at : ℕ
  pub redeemed_at : Option ℕ

abbrev is_row_of : Text → Text → MemberRow → Bool
is_row_of project_id user_id row = same row.project_id project_id && same row.user_id user_id

unfoldable pub is_member : List MemberRow → Text → Text → Bool
is_member members project_id user_id = any (is_row_of project_id user_id) members

-- The project and its owner in one transaction.
unfoldable pub create_project : Text → Text → ProjectRow → Tables → Reply Text × Tables
create_project id user_id project t =
    if is_some (lookup id t.projects) then (refused failed, t) else (
      ok id,
      record t {
        projects = insert id project t.projects;
        members = t.members ++ record { project_id = id; user_id = user_id; role = owner } ∷ [];
      },
    )

role_of : List MemberRow → Text → Text → Option ProjectRole
role_of [] project_id user_id = none
role_of (row ∷ rows) project_id user_id =
    let rest = role_of rows project_id user_id in
    if is_row_of project_id user_id row then some row.role else rest

-- `UUID_PATTERN.test`
is_hex : ℕ → Bool
is_hex c = (leb b'0' c && leb c b'9') || (leb b'a' (to_lower c) && leb (to_lower c) b'f')

are_groups : List Text → List ℕ → Bool
unfolding is_hex
are_groups [] [] = true
are_groups (group ∷ groups) (n ∷ ns) =
    (length group == n) && not (any (λ c. not (is_hex c)) group) && are_groups groups ns
are_groups _ _ = false

unfoldable pub is_uuid : Text → Bool
unfolding are_groups
is_uuid s = are_groups (split (λ c. c == b'-') s) (8 ∷ 4 ∷ 4 ∷ 4 ∷ 12 ∷ [])

membership : Option ProjectRole → Option ProjectRow → Text → Text → Reply ProjectMembership
membership none project project_id user_id = refused unauthorized
membership (some role) none project_id user_id = refused unauthorized
membership (some role) (some project) project_id user_id =
    ok (record { project_id = project_id; user_id = user_id; role = role; repo = project.repo })

unfoldable pub require_membership : Tables → Text → Text → Reply ProjectMembership
unfolding membership role_of is_uuid
require_membership t project_id user_id =
    if not (is_uuid project_id)
    then refused unauthorized
    else membership (role_of t.members project_id user_id) (lookup project_id t.projects) project_id
        user_id

-- The random values of one attempt: the row's id and the code.
pub record DrawnInvite : Type 0 where
  pub id : Text
  pub code : Text

abbrev pub has_code : Text → InviteRow → Bool
has_code code row = same row.code code

-- The attempts, of which the caller makes five.
insert_invite : List DrawnInvite → Text → InviteRow → Tables → Reply StoredInvite × Tables
insert_invite [] repo row t = (refused failed, t)
insert_invite (drawn ∷ rest) repo row t =
    let again = insert_invite rest repo row t in
    if is_some (lookup drawn.id t.invites) || is_some (find (has_code drawn.code) t.invites)
    then again
    else (
      ok (record {
        code = drawn.code;
        project_id = row.project_id;
        repo = repo;
        expires_at = row.expires_at;
        redeemed_at = none;
      }),
      record t { invites = insert drawn.id (record row { code = drawn.code }) t.invites },
    )

invite_as : Reply ProjectMembership → List DrawnInvite → ℕ → Tables → Reply StoredInvite × Tables
unfolding insert_invite
invite_as (refused e) draws expires_at t = (refused e, t)
invite_as (ok m) draws expires_at t = elim m.role [
  | member ↦ (refused unauthorized, t)
  | owner ↦
      insert_invite draws m.repo
        (record {
          project_id = m.project_id;
          code = [];
          created_by = m.user_id;
          expires_at = expires_at;
          redeemed_at = none;
          redeemed_by = none;
        })
        t
]

unfoldable pub create_invite :
    Text → Text → ℕ → List DrawnInvite → ℕ → Tables → Reply StoredInvite × Tables
unfolding invite_as
create_invite project_id user_id expires_in_hours draws now t =
    invite_as (require_membership t project_id user_id) draws (now + expires_in_hours * 3600000) t

-- `JOIN projects p ON p.id = i.project_id WHERE i.code = $1`: an invite's project is there, by the
-- foreign key.
joined : Tables → Option (Text × InviteRow) → Option (Text × (InviteRow × ProjectRow))
joined t none = none
joined t (some (id, row)) = elim (lookup row.project_id t.projects) [
  | none ↦ none
  | some project ↦ some (id, (row, project))
]

unfoldable pub find_invite : Text → Tables → Option StoredInvite
unfolding joined
find_invite code t = elim (joined t (find (has_code code) t.invites)) [
  | none ↦ none
  | some (id, (row, project)) ↦ some (record {
    code = code;
    project_id = row.project_id;
    repo = project.repo;
    expires_at = row.expires_at;
    redeemed_at = row.redeemed_at;
  })
]

-- `ON CONFLICT (project_id, user_id) DO NOTHING`
add_member : Text → Text → List MemberRow → List MemberRow
unfolding is_member
add_member project_id user_id members =
    if is_member members project_id user_id
    then members
    else members ++ record { project_id = project_id; user_id = user_id; role = member } ∷ []

redeem_row :
    Text → ℕ → Tables → Option (Text × (InviteRow × ProjectRow)) → Reply (Text × Text) × Tables
unfolding add_member
redeem_row user_id now t none = (refused unauthorized, t)
redeem_row user_id now t (some (id, (row, project))) =
    if is_some row.redeemed_at
    then (refused conflicting, t)
    else if leb row.expires_at now
    then (refused conflicting, t)
    else (
      ok (row.project_id, project.repo),
      record t {
        members = add_member row.project_id user_id t.members;
        invites =
            insert id (record row { redeemed_at = some now; redeemed_by = some user_id }) t.invites;
      },
    )

unfoldable pub redeem_invite : Text → Text → ℕ → Tables → Reply (Text × Text) × Tables
unfolding joined redeem_row
redeem_invite code user_id now t =
    redeem_row user_id now t (joined t (find (has_code code) t.invites))
