-- ===== src/Service/Invites/Redeem.antt =====
-- `redeemInvite` of apps/service/src/store.ts: who becomes a member, and how often an invite serves.
use crosscode.Prelude.{
  ℕ, ◌≡◌, refl, ◌∙◌, ap, Bool, true, false, ◌&&◌, ◌||◌, List, Option, none, some, arith, any,
  any-append, leb, is_some, Bool-cases, Option-cases, inl, inr,
}
use crosscode.Prelude.Text.{Text, same, same_iff}
use crosscode.Prelude.Dict.{lookup, insert}
use crosscode.Service.Rows.{find}
use crosscode.Service.Rows.Search.{find_sound, find-insert}
use crosscode.Service.Invites.{
  ProjectRow, MemberRow, InviteRow, Tables, Reply, ok, refused, conflicting, is_member, has_code,
  joined, add_member, redeem_row, redeem_invite,
}

-- The membership that a reply gives.
abbrev pub joins : Reply (Text × Text) → Text → Text → Text → Bool
joins (refused e) user_id p u = false
joins (ok (project_id, repo)) user_id p u = same project_id p && same user_id u

abbrev pub accepted : Reply (Text × Text) → Bool
accepted (refused e) = false
accepted (ok given) = true

is_member-add_member :
    (project_id user_id p u : Text) (members : List MemberRow)
    → is_member (add_member project_id user_id members) p u
      ≡ (is_member members p u || (same project_id p && same user_id u))
unfolding is_member add_member any
is_member-add_member project_id user_id p u members =
    elim (Bool-cases (is_member members project_id user_id)) [
      | inr f ↦ rw (f, any-append) (ground arith)
      | inl t ↦ rw t (elim (Bool-cases (same project_id p && same user_id u)) [
        | inr other ↦ ground (arith, other)
        | inl self ↦
            let same_project = (same_iff project_id p).0 (ground (arith, self)) in
            let same_user = (same_iff user_id u).0 (ground (arith, self)) in
            ground (arith, self, rw (same_project, same_user) at t)
      ])
    ]

redeem_row-members :
    (user_id : Text) (now : ℕ) (t : Tables) (o : Option (Text × (InviteRow × ProjectRow)))
    (p u : Text)
    → is_member (redeem_row user_id now t o).1.members p u
      ≡ (is_member t.members p u || joins (redeem_row user_id now t o).0 user_id p u)
unfolding redeem_row
redeem_row-members user_id now t none p u = ground arith
redeem_row-members user_id now t (some (id, (row, project))) p u =
    elim (Bool-cases (is_some row.redeemed_at)) [
      | inl used ↦ rw used (ground arith)
      | inr used ↦ rw used (elim (Bool-cases (leb row.expires_at now)) [
        | inl late ↦ rw late (ground arith)
        | inr late ↦ rw late (is_member-add_member row.project_id user_id p u t.members)
      ])
    ]

-- After a redemption, whatever it answered, the members are those from before and, if it was
-- accepted, the caller in the project that it answered with.
pub redeem_invite-members :
    (code user_id : Text) (now : ℕ) (t : Tables) (p u : Text)
    → is_member (redeem_invite code user_id now t).1.members p u
      ≡ (is_member t.members p u || joins (redeem_invite code user_id now t).0 user_id p u)
unfolding redeem_invite
redeem_invite-members code user_id now t p u =
    redeem_row-members user_id now t (joined t (find (has_code code) t.invites)) p u

second_refused :
    (code other : Text) (later : ℕ) (t : Tables) (members : List MemberRow) (id : Text)
    (row row' : InviteRow) (project : ProjectRow)
    → find (has_code code) t.invites ≡ some (id, row)
    → row'.code ≡ row.code
    → is_some row'.redeemed_at ≡ true
    → lookup row'.project_id t.projects ≡ some project
    → (redeem_invite code other later
        (record t { members = members; invites = insert id row' t.invites })).0
      ≡ refused conflicting
unfolding redeem_invite redeem_row joined
second_refused code other later t members id row row' project hit same_code used there =
    let passes : has_code code row' ≡ true =
      rw same_code (find_sound (has_code code) t.invites hit).1 in
    rw (
      find-insert (has_code code) t.invites id row row' hit passes,
      joined,
      there,
      redeem_row,
      used,
    )

again_refused :
    (code user_id other : Text) (now later : ℕ) (t : Tables) (found : Option (Text × InviteRow))
    → find (has_code code) t.invites ≡ found
    → accepted (redeem_row user_id now t (joined t found)).0 ≡ true
    → (redeem_invite code other later (redeem_row user_id now t (joined t found)).1).0
      ≡ refused conflicting
unfolding redeem_invite redeem_row joined
again_refused code user_id other now later t none hit h = cc
again_refused code user_id other now later t (some (id, row)) hit h =
    elim (Option-cases (lookup row.project_id t.projects)) [
      | inl gone ↦ cc (rw (gone, joined) at h)
      | inr (project, there) ↦ elim (Bool-cases (is_some row.redeemed_at)) [
        | inl used ↦ cc (rw (there, joined, redeem_row, used) at h)
        | inr used ↦ elim (Bool-cases (leb row.expires_at now)) [
          | inl late ↦ cc (rw (there, joined, redeem_row, used, late) at h)
          | inr late ↦
              let row' = record row { redeemed_at = some now; redeemed_by = some user_id } in
              let members = add_member row.project_id user_id t.members in
              let first : (redeem_row user_id now t (joined t (some (id, row)))).1
                  ≡ record t { members = members; invites = insert id row' t.invites } =
                rw (there, joined, redeem_row, used, late) refl in
              ap (λ u. (redeem_invite code other later u).0) first
              ∙ second_refused code other later t members id row row' project hit refl refl there
        ]
      ]
    ]

-- Once a redemption of a code has been accepted, the next redemption of that code is refused as a
-- conflict, whoever makes it and whenever.
pub redeem_invite-once :
    (code user_id other : Text) (now later : ℕ) (t : Tables)
    → accepted (redeem_invite code user_id now t).0 ≡ true
    → (redeem_invite code other later (redeem_invite code user_id now t).1).0 ≡ refused conflicting
unfolding redeem_invite
redeem_invite-once code user_id other now later t h =
    again_refused code user_id other now later t (find (has_code code) t.invites) refl h
