-- ===== src/Service/Http/Consent/Store.antt =====
-- What each change of the store keeps of the consent behind it.
use crosscode.Prelude.{
  ℕ, ◌⊎◌, ◌≡◌, ◌∙◌, true, false, List, Option, none, some, any, All, All-append, All-both,
  All-weaken, inl, inr,
}
use crosscode.Prelude.Text.{Text, same_refl}
use crosscode.Prelude.Dict.{Dict, lookup}
use crosscode.Core.Redact.{redact_path}
use crosscode.Protocol.{FileVersion, Change}
use crosscode.Service.Changes.{Room, publish_changes}
use crosscode.Service.Changes.Sequence.{
  IsFrom, publish_changes_sender, publish_changes-append, publish_changes-versions,
}
use crosscode.Service.Invites.{Reply, Tables, MemberRow, is_member}
use crosscode.Service.Invites.Admits.{Admits}
use crosscode.Service.Replicas.{ReplicaRow, register_replica}
use crosscode.Service.Replicas.Touch.{IsSeen, register_replica-rows}
use crosscode.Service.Legal.{AcceptanceRow, record_acceptances}
use crosscode.Service.Legal.Accepted.{has_accepted, has_accepted-append}
use crosscode.Service.Http.{Service}
use crosscode.Service.Http.Consent.{sent_by, IsSent, IsConsented}

-- Members by an operation that admits the user, who has accepted.
pub tables-IsConsented :
    {A : Type 0} (user_id : Text) (op : Tables → Reply A × Tables) (s : Service)
    → Admits user_id op
    → IsConsented s
    → has_accepted user_id s.acceptances ≡ true
    → IsConsented (record s { tables = (op s.tables).1 })
tables-IsConsented user_id op s admits h accepted = record {
  members_accepted = λ p u there. elim (admits.enters s.tables p u there) [
    | inl before ↦ h.members_accepted p u before
    | inr self ↦ rw self at accepted
  ];
  replicas_members = λ id row there.
      admits.stays s.tables row.project_id row.user_id (h.replicas_members id row there);
  log_sent = h.log_sent;
}

-- Tables with the same members.
pub members-IsConsented :
    (s : Service) (t : Tables)
    → t.members ≡ s.tables.members
    → IsConsented s
    → IsConsented (record s { tables = t })
members-IsConsented s t e h = record {
  members_accepted = λ p u there. h.members_accepted p u (rw e at there);
  replicas_members = λ id row there. rw e (h.replicas_members id row there);
  log_sent = h.log_sent;
}

pub acceptances-IsConsented :
    (rows : List AcceptanceRow) (s : Service)
    → IsConsented s
    → IsConsented (record s { acceptances = record_acceptances rows s.acceptances })
unfolding record_acceptances
acceptances-IsConsented rows s h = record {
  members_accepted =
      λ p u there. has_accepted-append u s.acceptances rows (h.members_accepted p u there);
  replicas_members = h.replicas_members;
  log_sent = h.log_sent;
}

seen_sent :
    (before after : Option ReplicaRow) (change : Change)
    → IsSeen before after
    → sent_by before change ≡ true
    → sent_by after change ≡ true
unfolding sent_by
seen_sent before after change (inl e) h = rw e at h
seen_sent before after change (inr (row, at, was, is)) h = rw is (rw was at h)

seen_row :
    (members : List MemberRow) (before after : Option ReplicaRow) (row : ReplicaRow)
    → IsSeen before after
    → ((r : ReplicaRow) → before ≡ some r → is_member members r.project_id r.user_id ≡ true)
    → after ≡ some row
    → is_member members row.project_id row.user_id ≡ true
seen_row members before after row (inl e) h there = h row (e ∙ there)
seen_row members before after row (inr (r, at, was, is)) h there =
    let it : row ≡ record r { last_seen_at = at } = cc in rw it (h r was)

pub touched-IsConsented :
    (replicas : Dict ReplicaRow) (s : Service)
    → ((j : Text) → IsSeen (lookup j s.replicas) (lookup j replicas))
    → IsConsented s
    → IsConsented (record s { replicas = replicas })
touched-IsConsented replicas s seen h = record {
  members_accepted = h.members_accepted;
  replicas_members = λ id row there.
      seen_row s.tables.members (lookup id s.replicas) (lookup id replicas) row (seen id)
        (λ r before. h.replicas_members id r before) there;
  log_sent =
      All-weaken (IsSent s.replicas) (IsSent replicas) s.log
        (λ change sent. (
          seen_sent (lookup change.replica_id s.replicas) (lookup change.replica_id replicas) change
              (seen change.replica_id) sent.0,
          sent.1,
        ))
        h.log_sent;
}

new_row :
    (members : List MemberRow) (before after : Option ReplicaRow) (row added : ReplicaRow)
    → (after ≡ before) ⊎ ((before ≡ none) × (after ≡ some added))
    → ((r : ReplicaRow) → before ≡ some r → is_member members r.project_id r.user_id ≡ true)
    → is_member members added.project_id added.user_id ≡ true
    → after ≡ some row
    → is_member members row.project_id row.user_id ≡ true
new_row members before after row added (inl e) h own there = h row cc
new_row members before after row added (inr (was, is)) h own there =
    let it : row ≡ added = cc in rw it own

new_sent :
    (before after : Option ReplicaRow) (added : ReplicaRow) (change : Change)
    → (after ≡ before) ⊎ ((before ≡ none) × (after ≡ some added))
    → sent_by before change ≡ true
    → sent_by after change ≡ true
unfolding sent_by
new_sent before after added change (inl e) h = rw e h
new_sent before after added change (inr (was, is)) h = cc (rw was at h)

-- A replica that is registered for a member.
pub registered-IsConsented :
    (id project_id user_id branch : Text) (now : ℕ) (s : Service)
    → IsConsented s
    → is_member s.tables.members project_id user_id ≡ true
    → IsConsented
        (record s { replicas = (register_replica id project_id user_id branch now s.replicas).1 })
registered-IsConsented id project_id user_id branch now s h own =
    let rows = register_replica-rows id project_id user_id branch now s.replicas in
    let added : ReplicaRow = record {
      project_id = project_id;
      user_id = user_id;
      branch = branch;
      last_seen_at = now;
    } in
    let after = (register_replica id project_id user_id branch now s.replicas).1 in
    record {
      members_accepted = h.members_accepted;
      replicas_members = λ j row there.
          new_row s.tables.members (lookup j s.replicas) (lookup j after) row added (rows j)
            (λ r before. h.replicas_members j r before) own there;
      log_sent =
          All-weaken (IsSent s.replicas) (IsSent after) s.log
            (λ change sent. (
              new_sent (lookup change.replica_id s.replicas) (lookup change.replica_id after) added
                  change (rows change.replica_id) sent.0,
              sent.1,
            ))
            h.log_sent;
    }

from_sent :
    (replicas : Dict ReplicaRow) (room : Room) (replica_id : Text) (row : ReplicaRow)
    (change : Change)
    → lookup replica_id replicas ≡ some row
    → row.project_id ≡ room.project_id
    → row.branch ≡ room.branch
    → IsFrom room replica_id change
    → sent_by (lookup change.replica_id replicas) change ≡ true
unfolding sent_by
from_sent replicas room replica_id row change there p b (r, cp, cb) =
    rw (r, there, p, b, cp, cb, same_refl room.project_id, same_refl room.branch)

IsSent-All :
    (room : Room) (replica_id at : Text) (versions : List FileVersion) (row : ReplicaRow)
    (s : Service)
    → lookup replica_id s.replicas ≡ some row
    → row.project_id ≡ room.project_id
    → row.branch ≡ room.branch
    → any (λ version. redact_path version.path) versions ≡ false
    → All (IsSent s.replicas) (publish_changes s.log room replica_id at versions).1
IsSent-All room replica_id at versions row s there p b allowed =
    All-both (λ change. sent_by (lookup change.replica_id s.replicas) change ≡ true)
      (λ change. redact_path change.version.path ≡ false)
      (publish_changes s.log room replica_id at versions).1
      (All-weaken (IsFrom room replica_id)
        (λ change. sent_by (lookup change.replica_id s.replicas) change ≡ true)
        (publish_changes s.log room replica_id at versions).1
        (λ change from. from_sent s.replicas room replica_id row change there p b from)
        (publish_changes_sender s.log room replica_id at versions))
      (publish_changes-versions (λ version. redact_path version.path) s.log room replica_id at
        versions allowed)

-- Changes of paths that may leave the machine, appended for a registered replica.
pub appended-IsConsented :
    (room : Room) (replica_id at : Text) (versions : List FileVersion) (row : ReplicaRow)
    (s : Service)
    → IsConsented s
    → lookup replica_id s.replicas ≡ some row
    → row.project_id ≡ room.project_id
    → row.branch ≡ room.branch
    → any (λ version. redact_path version.path) versions ≡ false
    → IsConsented (record s { log = (publish_changes s.log room replica_id at versions).0 })
appended-IsConsented room replica_id at versions row s h there p b allowed = record {
  members_accepted = h.members_accepted;
  replicas_members = h.replicas_members;
  log_sent = rw publish_changes-append (
      All-append (IsSent s.replicas) s.log (publish_changes s.log room replica_id at versions).1
        h.log_sent (IsSent-All room replica_id at versions row s there p b allowed));
}
