-- ===== src/Service/Changes.antt =====
-- apps/service/src/store.ts: the change log, which is the table `file_versions`. A statement of SQL
-- is the search or the insertion that it asks for, and a transaction is one function of the table.
pub mod Sequence
pub mod Pages
pub mod Behind
use crosscode.Prelude.{
  ℕ, ◌+◌, ◌-◌, Bool, not, ◌&&◌, List, [], ◌∷◌, ◌++◌, Option, none, some, ltb, leb, take, is_some,
  if◌then◌else◌,
}
use crosscode.Prelude.Text.{Text, same}
use crosscode.Protocol.{FileVersion, Change}

abbrev pub history_retention_days : ℕ
history_retention_days = 7

pub record Room : Type 0 where
  pub project_id : Text
  pub branch : Text

pub data ChangePage : Type 0 where
  page : (changes : List Change) → (cursor : ℕ) → ChangePage
  cursor_too_old : (resync_from retention_days : ℕ) → ChangePage

-- `WHERE project_id = $1 AND branch = $2`
unfoldable pub in_room : Room → Change → Bool
in_room room row = same row.project_id room.project_id && same row.branch room.branch

unfoldable pub rows_of : Room → List Change → List Change
unfolding in_room
rows_of room [] = []
rows_of room (row ∷ rows) =
    let rest = rows_of room rows in if in_room room row then row ∷ rest else rest

-- `coalesce(max(sequence), 0)`
head_sequence : List Change → ℕ
head_sequence [] = 0
head_sequence (row ∷ rows) =
    let rest = head_sequence rows in if ltb rest row.sequence then row.sequence else rest

-- `min(sequence)`
smaller : ℕ → Option ℕ → ℕ
smaller n none = n
smaller n (some m) = if ltb n m then n else m

oldest_sequence : List Change → Option ℕ
unfolding smaller
oldest_sequence [] = none
oldest_sequence (row ∷ rows) = some (smaller row.sequence (oldest_sequence rows))

-- The rows of one batch; the time is that of the transaction.
pub assign : Room → Text → Text → ℕ → List FileVersion → List Change
assign room replica_id created_at sequence [] = []
assign room replica_id created_at sequence (version ∷ versions) =
    record {
      sequence = sequence + 1;
      project_id = room.project_id;
      branch = room.branch;
      replica_id = replica_id;
      created_at = created_at;
      version = version;
    }
    ∷ assign room replica_id created_at (sequence + 1) versions

-- The table after the batch, and the batch. The lock on the room orders the calls for it.
unfoldable pub publish_changes :
    List Change → Room → Text → Text → List FileVersion → List Change × List Change
unfolding head_sequence assign
publish_changes table room replica_id created_at versions =
    let changes = assign room replica_id created_at (head_sequence (rows_of room table)) versions in
    (table ++ changes, changes)

-- `sequence > $3 ORDER BY sequence ASC`
unfoldable pub after : ℕ → List Change → List Change
after since [] = []
after since (row ∷ rows) =
    let rest = after since rows in if ltb since row.sequence then row ∷ rest else rest

insert_by_sequence : Change → List Change → List Change
insert_by_sequence row [] = row ∷ []
insert_by_sequence row (first ∷ rows) =
    let rest = insert_by_sequence row rows in
    if leb row.sequence first.sequence then row ∷ first ∷ rows else first ∷ rest

order_by_sequence : List Change → List Change
unfolding insert_by_sequence
order_by_sequence [] = []
order_by_sequence (row ∷ rows) = insert_by_sequence row (order_by_sequence rows)

-- `changes.at(-1)?.sequence ?? since`
pub last_sequence : ℕ → List Change → ℕ
last_sequence since [] = since
last_sequence since (row ∷ rows) = last_sequence row.sequence rows

abbrev servable_from : Option ℕ → ℕ
servable_from none = 0
servable_from (some oldest) = oldest - 1

unfoldable pub list_changes : List Change → Room → (since limit : ℕ) → ChangePage
unfolding oldest_sequence order_by_sequence last_sequence after
list_changes table room since limit =
    let rows = rows_of room table in
    let oldest = oldest_sequence rows in
    let changes = take limit (order_by_sequence (after since rows)) in
    if ltb 0 since && ltb since (servable_from oldest)
    then cursor_too_old (servable_from oldest) history_retention_days
    else if ltb 0 since && not (is_some oldest)
    then cursor_too_old 0 history_retention_days
    else page changes (last_sequence since changes)
