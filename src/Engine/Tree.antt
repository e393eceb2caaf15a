-- ===== src/Engine/Tree.antt =====
-- The working tree as `SyncEngine` reads and writes it, and who touched a file.
pub mod Files
use crosscode.Prelude.{
  ℕ, Bool, true, false, List, [], ◌∷◌, ◌++◌, Option, none, some, take, ◌==◌, if◌then◌else◌,
}
use crosscode.Prelude.Text.{Text, codes, same_opt}
use crosscode.Prelude.Dict.{lookup, insert, erase, to_set}
use crosscode.Paths.{split}
use crosscode.Protocol.{FileMode, regular, executable}
use crosscode.Host.{Host, Bytes}
use crosscode.Git.{tracked_paths}
use crosscode.Engine.State.{Engine}

module _ (host : Host) where
  open host use {World}

  unfoldable pub refresh_tracked : Engine World → Engine World
  refresh_tracked e = record e { tracked = to_set [] (tracked_paths host e.world) }

  abbrev pub read : Engine World → Text → Option Bytes
  read e path = host.read_file e.world path

  unfoldable pub disk_hash : Engine World → Text → Option Text
  disk_hash e path = elim (read e path) [
    | none ↦ none
    | some content ↦ some (host.hash_object content)
  ]

  unfoldable pub mode_of : Engine World → Text → FileMode
  mode_of e path = if host.has_execute_bit e.world path then executable else regular

  unfoldable pub set_mode : Engine World → Text → FileMode → Engine World
  unfolding disk_hash
  set_mode e path mode =
      let changed = record e { world = host.change_mode e.world path mode } in
      record changed { self_writes = insert path (disk_hash changed path) e.self_writes }

  -- `.name.1234abcd.crosscode` beside the file.
  unfoldable pub temporary_name : World → Text → Text
  temporary_name w path = host.join_path (host.directory_name path) (
      codes "."
      ++ (host.base_name path
          ++ (codes "." ++ (take 8 (host.random_uuid w) ++ codes ".crosscode"))))

  -- The file is written beside its place and renamed into it.
  unfoldable pub place_file : World → Text → Bytes → FileMode → World
  unfolding temporary_name
  place_file w path content mode =
      let made = host.make_directory w (host.directory_name path) in
      let temporary = temporary_name made path in
      host.rename_file (host.write_file (host.after_uuid made) temporary content mode) temporary
        path

  unfoldable pub write_synced : Engine World → Text → Bytes → FileMode → Engine World
  write_synced e path content mode = record e {
    world = place_file e.world path content mode;
    self_writes = insert path (some (host.hash_object content)) e.self_writes;
  }

  unfoldable pub remove_synced : Engine World → Text → Engine World
  remove_synced e path = record e {
    world = host.remove_file e.world path;
    self_writes = insert path none e.self_writes;
  }

  -- `this.selfWrites.get(path) === disk`: a path that is not in the map is equal to nothing.
  is_own_write : Option (Option Text) → Option Text → Bool
  is_own_write none disk = false
  is_own_write (some hash) disk = same_opt hash disk

  unfoldable pub mark_user_edit : Engine World → Text → ℕ → Engine World
  mark_user_edit e path at = record e { last_edit = insert path at e.last_edit }

  -- Whether the change that the watcher saw was the user's.
  unfoldable pub observe_change : Engine World → Text → Engine World × Bool
  unfolding is_own_write disk_hash
  observe_change e path =
      if is_own_write (lookup path e.self_writes) (disk_hash e path) then (e, false) else (
        record e {
          self_writes = erase path e.self_writes;
          last_edit = insert path (host.now e.world) e.last_edit;
        },
        true,
      )

  -- A symlink among the parents, from the root down; the first that is missing ends the walk.
  walk_parents : Text → List Text → World → Bool
  walk_parents current [] w = false
  walk_parents current (name ∷ []) w = false
  walk_parents current (part ∷ (next ∷ rest)) w =
      let deeper = walk_parents (host.join_path current part) (next ∷ rest) w in
      elim (host.is_symbolic_link w (host.join_path current part)) [
        | none ↦ false
        | some link ↦ if link then true else deeper
      ]

  unfoldable pub escapes_root : Engine World → Text → Bool
  unfolding walk_parents split
  escapes_root e path = walk_parents [] (split (λ c. c == b'/') path) e.world
