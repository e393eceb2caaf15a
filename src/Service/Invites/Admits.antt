-- ===== src/Service/Invites/Admits.antt =====
-- Who becomes a member by each operation on the tables of apps/service/src/store.ts.
use crosscode.Prelude.{
  ℕ, ◌+◌, ◌*◌, ◌⊎◌, ◌≡◌, refl, true, List, [], ◌∷◌, Option, none, some, arith, any, any-append,
  is_some, Bool-cases, inl, inr,
}
use crosscode.Prelude.Text.{Text, same_iff}
use crosscode.Prelude.Dict.{lookup}
use crosscode.Service.Invites.{
  Reply, ok, refused, ProjectRole, ProjectMembership, ProjectRow, MemberRow, InviteRow, Tables,
  is_member, is_row_of, role_of, membership, is_uuid, require_membership, create_project,
  insert_invite, invite_as, create_invite, DrawnInvite, redeem_invite,
}
use crosscode.Service.Invites.Redeem.{joins, redeem_invite-members}

-- An operation on the tables by which nobody but the user becomes a member, and nobody leaves.
pub record Admits {A : Type 0} (user_id : Text) (op : Tables → Reply A × Tables) : Type 0 where
  pub stays :
      (t : Tables) (p u : Text)
      → is_member t.members p u ≡ true
      → is_member (op t).1.members p u ≡ true
  pub enters :
      (t : Tables) (p u : Text)
      → is_member (op t).1.members p u ≡ true
      → (is_member t.members p u ≡ true) ⊎ (user_id ≡ u)

pub create_project-Admits :
    (id user_id : Text) (project : ProjectRow) → Admits user_id (create_project id user_id project)
unfolding create_project is_member any
create_project-Admits id user_id project = record {
  stays = λ t p u h. elim (Bool-cases (is_some (lookup id t.projects))) [
    | inl taken ↦ rw taken h
    | inr free ↦ rw (free, any-append) (ground (arith, h))
  ];
  enters = λ t p u. elim (Bool-cases (is_some (lookup id t.projects))) [
    | inl taken ↦ rw taken (λ h. inl h)
    | inr free ↦
        rw (free, any-append)
          λ h. elim (Bool-cases (any (is_row_of p u) t.members)) [
            | inl there ↦ inl there
            | inr new ↦ inr ((same_iff user_id u).0 (ground (arith, h, new)))
          ]
  ];
}

joined_user :
    (r : Reply (Text × Text)) (user_id p u : Text) → joins r user_id p u ≡ true → user_id ≡ u
joined_user (refused e) user_id p u h = cc
joined_user (ok (project_id, repo)) user_id p u h = (same_iff user_id u).0 (ground (arith, h))

pub redeem_invite-Admits :
    (code user_id : Text) (now : ℕ) → Admits user_id (redeem_invite code user_id now)
redeem_invite-Admits code user_id now = record {
  stays = λ t p u h. rw redeem_invite-members (ground (arith, h));
  enters = λ t p u. rw redeem_invite-members λ h. elim (Bool-cases (is_member t.members p u)) [
    | inl there ↦ inl there
    | inr new ↦
        inr (joined_user (redeem_invite code user_id now t).0 user_id p u (ground (arith, h, new)))
  ];
}

insert_invite-members :
    (draws : List DrawnInvite) (repo : Text) (row : InviteRow) (t : Tables)
    → (insert_invite draws repo row t).1.members ≡ t.members
unfolding insert_invite
insert_invite-members [] repo row t = refl
insert_invite-members (drawn ∷ rest) repo row t =
    ground (arith, insert_invite-members rest repo row t)

invite_as-members :
    (r : Reply ProjectMembership) (draws : List DrawnInvite) (expires_at : ℕ) (t : Tables)
    → (invite_as r draws expires_at t).1.members ≡ t.members
unfolding invite_as
invite_as-members (refused e) draws expires_at t = refl
invite_as-members (ok m) draws expires_at t = grind (arith, insert_invite-members)

-- An invite makes nobody a member.
pub create_invite-members :
    (project_id user_id : Text) (hours : ℕ) (draws : List DrawnInvite) (now : ℕ) (t : Tables)
    → (create_invite project_id user_id hours draws now t).1.members ≡ t.members
unfolding create_invite
create_invite-members project_id user_id hours draws now t =
    invite_as-members (require_membership t project_id user_id) draws (now + hours * 3600000) t

role_of-is_member :
    (members : List MemberRow) (project_id user_id : Text)
    → is_some (role_of members project_id user_id) ≡ true
    → is_member members project_id user_id ≡ true
unfolding role_of is_member any
role_of-is_member [] project_id user_id h = cc
role_of-is_member (row ∷ rows) project_id user_id h =
    ground (arith, h, role_of-is_member rows project_id user_id)

membership_some :
    (role : Option ProjectRole) (project : Option ProjectRow) (p u : Text) (m : ProjectMembership)
    → membership role project p u ≡ ok m
    → is_some role ≡ true
unfolding membership
membership_some none project p u m h = cc
membership_some (some role) project p u m h = refl

-- Whom the store lets pass is a member.
pub require_membership-is_member :
    (t : Tables) (project_id user_id : Text) (m : ProjectMembership)
    → require_membership t project_id user_id ≡ ok m
    → is_member t.members project_id user_id ≡ true
unfolding require_membership
require_membership-is_member t project_id user_id m h = elim (Bool-cases (is_uuid project_id)) [
  | inr invalid ↦ cc (rw invalid at h)
  | inl valid ↦ role_of-is_member t.members project_id user_id (
      membership_some (role_of t.members project_id user_id) (lookup project_id t.projects)
        project_id user_id m (rw valid at h))
]
