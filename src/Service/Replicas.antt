-- ===== src/Service/Replicas.antt =====
-- apps/service/src/store.ts: the replicas, a table by its primary key.
pub mod Touch
use crosscode.Prelude.{ℕ, Bool, not, ◌&&◌, Option, none, some, is_some, if◌then◌else◌}
use crosscode.Prelude.Text.{Text, same}
use crosscode.Prelude.Dict.{Dict, lookup, insert}
use crosscode.Service.Invites.{Reply, ok, refused, unauthorized, failed, is_uuid}

pub record ReplicaRow : Type 0 where
  pub project_id : Text
  pub user_id : Text
  pub branch : Text
  pub last_seen_at : ℕ

-- The random id is an argument; the primary key refuses one that is taken.
unfoldable pub register_replica :
    Text → Text → Text → Text → ℕ → Dict ReplicaRow → Reply (Text × ℕ) × Dict ReplicaRow
register_replica id project_id user_id branch now table =
    if is_some (lookup id table) then (refused failed, table) else (
      ok (id, 0),
      insert id
          (record {
            project_id = project_id;
            user_id = user_id;
            branch = branch;
            last_seen_at = now;
          })
          table,
    )

-- `WHERE id = $1 AND project_id = $2 AND user_id = $3`
touch_row :
    Text → Text → Text → ℕ → Dict ReplicaRow → Option ReplicaRow → Reply Text × Dict ReplicaRow
touch_row project_id user_id id now table none = (refused unauthorized, table)
touch_row project_id user_id id now table (some row) =
    if same row.project_id project_id && same row.user_id user_id
    then (ok row.branch, insert id (record row { last_seen_at = now }) table)
    else (refused unauthorized, table)

unfoldable pub touch_replica :
    Text → Text → Text → ℕ → Dict ReplicaRow → Reply Text × Dict ReplicaRow
unfolding touch_row is_uuid
touch_replica project_id user_id id now table =
    if not (is_uuid id)
    then (refused unauthorized, table)
    else touch_row project_id user_id id now table (lookup id table)
