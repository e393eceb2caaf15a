-- ===== src/Service/Http/Consent.antt =====
-- Who is behind what the service of apps/service/src/http.ts keeps: members that have accepted the
-- terms, replicas of members, and changes of replicas.
pub mod Store
pub mod Steps
pub mod Requests
pub mod Served
use crosscode.Prelude.{◌≡◌, Bool, true, false, ◌&&◌, Option, none, some, All}
use crosscode.Prelude.Text.{Text, same}
use crosscode.Prelude.Dict.{Dict, lookup}
use crosscode.Core.Redact.{redact_path}
use crosscode.Protocol.{Change}
use crosscode.Service.Invites.{is_member}
use crosscode.Service.Replicas.{ReplicaRow}
use crosscode.Service.Legal.Accepted.{has_accepted}
use crosscode.Service.Http.{Service}

-- The replica that sent the change is registered, to the room of the change.
pub sent_by : Option ReplicaRow → Change → Bool
sent_by none change = false
sent_by (some row) change = same row.project_id change.project_id && same row.branch change.branch

-- Such a change, of a path that may leave the machine.
abbrev pub IsSent : Dict ReplicaRow → Change → Type 0
IsSent replicas change =
    (sent_by (lookup change.replica_id replicas) change ≡ true)
    × (redact_path change.version.path ≡ false)

pub record IsConsented (s : Service) : Type 0 where
  pub members_accepted :
      (p u : Text) → is_member s.tables.members p u ≡ true → has_accepted u s.acceptances ≡ true
  pub replicas_members :
      (id : Text) (row : ReplicaRow)
      → lookup id s.replicas ≡ some row
      → is_member s.tables.members row.project_id row.user_id ≡ true
  pub log_sent : All (IsSent s.replicas) s.log
