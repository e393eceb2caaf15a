-- ===== src/Service/Changes/Sequence.antt =====
-- The change log of apps/service/src/store.ts: the sequences of a room.
use crosscode.Prelude.{
  ◌&&◌, false, ℕ, ◌⊎◌, ◌+◌, ◌<◌, ◌≡◌, refl, ap, ◌∙◌, true, List, [], ◌∷◌, ◌++◌, arith, length, Bool,
  any, All,
}
use crosscode.Prelude.Text.{same, Text, same_refl}
use crosscode.Protocol.{FileVersion, Change}
use crosscode.Service.Changes.{Room, in_room, rows_of, head_sequence, assign, publish_changes}

-- The rows have the sequences `n + 1`, `n + 2` and so on: retention has deleted those up to `n`.
unfoldable pub Follows : ℕ → List Change → Type 0
Follows n [] = Unit
Follows n (row ∷ rows) = (row.sequence ≡ n + 1) × Follows (n + 1) rows

in_room_self :
    (room : Room) (row : Change)
    → row.project_id ≡ room.project_id
    → row.branch ≡ room.branch
    → in_room room row ≡ true
unfolding in_room
in_room_self room row p b = rw (p, b, same_refl room.project_id, same_refl room.branch)

pub rows_of-append :
    (room : Room) (a b : List Change) → rows_of room (a ++ b) ≡ (rows_of room a ++ rows_of room b)
unfolding rows_of
rows_of-append room [] b = refl
rows_of-append room (row ∷ a) b = ground (arith, rows_of-append room a b)

pub rows_of-assign :
    (room : Room) (replica at : Text) (n : ℕ) (versions : List FileVersion)
    → rows_of room (assign room replica at n versions) ≡ assign room replica at n versions
unfolding rows_of assign in_room
rows_of-assign room replica at n [] = refl
rows_of-assign room replica at n (v ∷ versions) = rw (
  same_refl room.project_id,
  same_refl room.branch,
  rows_of-assign room replica at (n + 1) versions,
)

pub Follows-assign :
    (room : Room) (replica at : Text) (n : ℕ) (versions : List FileVersion)
    → Follows n (assign room replica at n versions)
unfolding Follows assign
Follows-assign room replica at n [] = tt
Follows-assign room replica at n (v ∷ versions) =
    (refl, Follows-assign room replica at (n + 1) versions)

head_sequence-Follows :
    (n : ℕ) (row : Change) (rows : List Change)
    → Follows n (row ∷ rows)
    → head_sequence (row ∷ rows) ≡ n + length (row ∷ rows)
unfolding Follows head_sequence
head_sequence-Follows n row [] (h, t) = ground arith
head_sequence-Follows n row (next ∷ rows) (h, t) =
    ground (arith, h, head_sequence-Follows (n + 1) next rows t)

Follows-append :
    (n : ℕ) (a b : List Change) → Follows n a → Follows (n + length a) b → Follows n (a ++ b)
unfolding Follows
Follows-append n [] b ha hb = let same_start : n + 0 ≡ n = omega arith in rw (← same_start) hb
Follows-append n (row ∷ a) b (h, t) hb =
    let shift : (n + 1) + length a ≡ n + length (row ∷ a) = omega arith in
    (h, Follows-append (n + 1) a b t (rw shift hb))

head_of_log :
    (n : ℕ) (rows : List Change)
    → Follows n rows
    → (n ≡ 0) ⊎ (0 < length rows)
    → head_sequence rows ≡ n + length rows
unfolding head_sequence
head_of_log n [] h nonempty = ground (arith, nonempty)
head_of_log n (row ∷ rows) h nonempty = head_sequence-Follows n row rows h

-- Where the log of a room has no gaps and has not been emptied by retention, a publish leaves it
-- without gaps, and adds to it just the returned changes, whose sequences go on from its last.
pub publish_changes-Follows :
    (table : List Change) (room : Room) (replica_id created_at : Text) (versions : List FileVersion)
    (n : ℕ)
    → Follows n (rows_of room table)
    → (n ≡ 0) ⊎ (0 < length (rows_of room table))
    → Follows n (rows_of room (publish_changes table room replica_id created_at versions).0)
      × (rows_of room (publish_changes table room replica_id created_at versions).0
          ≡ (rows_of room table ++ (publish_changes table room replica_id created_at versions).1))
      × Follows
          (n + length (rows_of room table))
          (publish_changes table room replica_id created_at versions).1
unfolding publish_changes
publish_changes-Follows table room replica at versions n h nonempty =
    let rows = rows_of room table in
    let head = head_of_log n rows h nonempty in
    let changes = assign room replica at (head_sequence rows) versions in
    let split =
      rows_of-append room table changes
      ∙ ap (λ l. rows ++ l) (rows_of-assign room replica at (head_sequence rows) versions) in
    let next : Follows (n + length rows) changes =
      rw (← head) (Follows-assign room replica at (head_sequence rows) versions) in
    (rw split (Follows-append n rows changes h next), split, next)

append_nil : (rows : List Change) → (rows ++ []) ≡ rows
append_nil [] = refl
append_nil (row ∷ rows) = ap (λ l. row ∷ l) (append_nil rows)

rows_of-assign_other :
    (room other : Room) (replica at : Text) (n : ℕ) (versions : List FileVersion)
    → (same room.project_id other.project_id && same room.branch other.branch) ≡ false
    → rows_of other (assign room replica at n versions) ≡ []
unfolding rows_of assign in_room
rows_of-assign_other room other replica at n [] apart = refl
rows_of-assign_other room other replica at n (v ∷ versions) apart =
    rw (apart, rows_of-assign_other room other replica at (n + 1) versions apart)

-- A publish to one room leaves the log of every room of another project or branch as it was.
pub publish_changes-other_rooms :
    (table : List Change) (room other : Room) (replica_id created_at : Text)
    (versions : List FileVersion)
    → (same room.project_id other.project_id && same room.branch other.branch) ≡ false
    → rows_of other (publish_changes table room replica_id created_at versions).0
      ≡ rows_of other table
unfolding publish_changes
publish_changes-other_rooms table room other replica at versions apart =
    let n = head_sequence (rows_of room table) in
    rows_of-append other table (assign room replica at n versions)
    ∙ rw (rows_of-assign_other room other replica at n versions apart)
        (append_nil (rows_of other table))

assign-versions :
    (test : FileVersion → Bool) (room : Room) (replica at : Text) (n : ℕ)
    (versions : List FileVersion)
    → any test versions ≡ false
    → All (λ change. test change.version ≡ false) (assign room replica at n versions)
unfolding assign any
assign-versions test room replica at n [] h = tt
assign-versions test room replica at n (v ∷ versions) h =
    (ground (arith, h), assign-versions test room replica at (n + 1) versions (ground (arith, h)))

-- What every version passes, every change that is published for it passes.
pub publish_changes-versions :
    (test : FileVersion → Bool) (table : List Change) (room : Room) (replica at : Text)
    (versions : List FileVersion)
    → any test versions ≡ false
    → All (λ change. test change.version ≡ false) (publish_changes table room replica at versions).1
unfolding publish_changes
publish_changes-versions test table room replica at versions h =
    assign-versions test room replica at (head_sequence (rows_of room table)) versions h

-- Who sent a change, and to which room.
abbrev pub IsFrom : Room → Text → Change → Type 0
IsFrom room replica_id change =
    (change.replica_id ≡ replica_id)
    × (change.project_id ≡ room.project_id)
    × (change.branch ≡ room.branch)

assign_sender :
    (room : Room) (replica at : Text) (n : ℕ) (versions : List FileVersion)
    → All (IsFrom room replica) (assign room replica at n versions)
unfolding assign
assign_sender room replica at n [] = tt
assign_sender room replica at n (v ∷ versions) =
    ((refl, refl, refl), assign_sender room replica at (n + 1) versions)

pub publish_changes_sender :
    (table : List Change) (room : Room) (replica at : Text) (versions : List FileVersion)
    → All (IsFrom room replica) (publish_changes table room replica at versions).1
unfolding publish_changes
publish_changes_sender table room replica at versions =
    assign_sender room replica at (head_sequence (rows_of room table)) versions

pub publish_changes-append :
    (table : List Change) (room : Room) (replica at : Text) (versions : List FileVersion)
    → (publish_changes table room replica at versions).0
      ≡ table ++ (publish_changes table room replica at versions).1
unfolding publish_changes
publish_changes-append table room replica at versions = refl
