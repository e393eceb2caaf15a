-- ===== src/Service/Replicas/Touch.antt =====
-- What the operations on replicas of apps/service/src/store.ts keep of the table.
use crosscode.Prelude.{
  ℕ, ◌⊎◌, ◌≡◌, refl, ◌∙◌, ◌&&◌, Option, none, some, arith, Bool-cases, Option-cases, inl, inr,
}
use crosscode.Prelude.Text.{Text, same, same_iff, same_refl}
use crosscode.Prelude.Dict.{Dict, lookup, lookup-insert}
use crosscode.Service.Invites.{ok, is_uuid}
use crosscode.Service.Replicas.{ReplicaRow, register_replica, touch_row, touch_replica}

-- A row as it was, but for the time that the replica was last seen at.
abbrev pub IsSeen : Option ReplicaRow → Option ReplicaRow → Type 0
IsSeen before after =
    (before ≡ after)
    ⊎ ((row : ReplicaRow) × (at : ℕ) × (before ≡ some row)
        × (after ≡ some (record row { last_seen_at = at })))

touch_row-IsSeen :
    (project_id user_id id : Text) (now : ℕ) (table : Dict ReplicaRow) (found : Option ReplicaRow)
    (j : Text)
    → lookup id table ≡ found
    → IsSeen (lookup j table) (lookup j (touch_row project_id user_id id now table found).1)
unfolding touch_row
touch_row-IsSeen project_id user_id id now table none j h = inl refl
touch_row-IsSeen project_id user_id id now table (some row) j h =
    elim (Bool-cases (same row.project_id project_id && same row.user_id user_id)) [
      | inr no_match ↦ rw no_match (inl refl)
      | inl own ↦ rw own (elim (Bool-cases (same id j)) [
        | inr other ↦ inl (rw (lookup-insert, other))
        | inl it ↦
            let same_id : id ≡ j = (same_iff id j).0 it in
            inr (row, now, rw same_id at h, rw (lookup-insert, it))
      ])
    ]

-- A touch leaves every row as it was, but for a time.
pub touch_replica-IsSeen :
    (project_id user_id id : Text) (now : ℕ) (table : Dict ReplicaRow) (j : Text)
    → IsSeen (lookup j table) (lookup j (touch_replica project_id user_id id now table).1)
unfolding touch_replica
touch_replica-IsSeen project_id user_id id now table j = elim (Bool-cases (is_uuid id)) [
  | inr invalid ↦ rw invalid (inl refl)
  | inl valid ↦ rw valid (touch_row-IsSeen project_id user_id id now table (lookup id table) j refl)
]

touch_row_sound :
    (project_id user_id id branch : Text) (now : ℕ) (table : Dict ReplicaRow)
    (found : Option ReplicaRow)
    → lookup id table ≡ found
    → (touch_row project_id user_id id now table found).0 ≡ ok branch
    → (row : ReplicaRow) × (lookup id (touch_row project_id user_id id now table found).1
        ≡ some row)
      × (row.project_id ≡ project_id)
      × (row.user_id ≡ user_id)
      × (row.branch ≡ branch)
unfolding touch_row
touch_row_sound project_id user_id id branch now table none e h = cc
touch_row_sound project_id user_id id branch now table (some row) e h =
    elim (Bool-cases (same row.project_id project_id && same row.user_id user_id)) [
      | inr no_match ↦ cc (rw no_match at h)
      | inl own ↦ (
        record row { last_seen_at = now },
        rw own (lookup-insert id id _ table ∙ rw (same_refl id)),
        (same_iff row.project_id project_id).0 (ground (arith, own)),
        (same_iff row.user_id user_id).0 (ground (arith, own)),
        cc (rw own at h),
      )
    ]

-- A replica that is touched is the caller's, in the project and on the branch that is answered.
pub touch_replica_sound :
    (project_id user_id id branch : Text) (now : ℕ) (table : Dict ReplicaRow)
    → (touch_replica project_id user_id id now table).0 ≡ ok branch
    → (row : ReplicaRow) × (lookup id (touch_replica project_id user_id id now table).1 ≡ some row)
      × (row.project_id ≡ project_id)
      × (row.user_id ≡ user_id)
      × (row.branch ≡ branch)
unfolding touch_replica
touch_replica_sound project_id user_id id branch now table h = elim (Bool-cases (is_uuid id)) [
  | inr invalid ↦ cc (rw invalid at h)
  | inl valid ↦ rw valid (
      touch_row_sound project_id user_id id branch now table (lookup id table) refl (rw valid at h))
]

-- A registration adds the caller's row where the id is free, and else changes nothing.
pub register_replica-rows :
    (id project_id user_id branch : Text) (now : ℕ) (table : Dict ReplicaRow) (j : Text)
    → (lookup j (register_replica id project_id user_id branch now table).1 ≡ lookup j table)
      ⊎ ((lookup j table ≡ none)
          × (lookup j (register_replica id project_id user_id branch now table).1
              ≡ some (record {
                project_id = project_id;
                user_id = user_id;
                branch = branch;
                last_seen_at = now;
              })))
unfolding register_replica
register_replica-rows id project_id user_id branch now table j =
    elim (Option-cases (lookup id table)) [
      | inr (row, taken) ↦ rw taken (inl refl)
      | inl free ↦ rw free (elim (Bool-cases (same id j)) [
        | inr other ↦ inl (rw (lookup-insert, other))
        | inl it ↦
            let same_id : id ≡ j = (same_iff id j).0 it in
            inr (rw same_id at free, rw (lookup-insert, it))
      ])
    ]
