-- ===== src/Engine/Conflict.antt =====
-- Recording a conflict, and the two ways out of one.
pub mod Frozen
use crosscode.Prelude.{
  ◌+◌, Bool, true, false, not, ◌||◌, Option, none, some, get_or, or_else, if◌then◌else◌,
}
use crosscode.Prelude.Text.{Text, truthy}
use crosscode.Prelude.Dict.{lookup, insert, erase, add, delete}
use crosscode.Protocol.{FileVersion, FileMode, Conflict, modify, utf8}
use crosscode.Host.{Host, Bytes}
use crosscode.Merge.{is_binary}
use crosscode.Shadow
use crosscode.Shadow.{TreeEntry}
use crosscode.Engine.State.{Engine, ApplyResult, file_mode, mode_text}
use crosscode.Engine.State
use crosscode.Engine.Tree.{mode_of, write_synced}

module _ (host : Host) where
  open host use {World}

  abbrev is_unpresentable : Option Bytes → Bool
  is_unpresentable none = false
  is_unpresentable (some side) = is_binary (some side) || not (host.is_utf8 side)

  abbrev side_text : Bool → Option Bytes → Option Text
  side_text binary none = none
  side_text binary (some side) = if binary then none else some (host.decode side utf8)

  abbrev when_truthy : Option Text → Option Text
  when_truthy s = if truthy s then s else none

  unfoldable pub conflict_of :
      World
      → Text
      → Option Bytes
      → Option Bytes
      → Option Bytes
      → Option Text
      → Option Text
      → Conflict
  conflict_of w path ours theirs ancestor peer renamed_from =
      let binary = is_unpresentable ours || is_unpresentable theirs || is_unpresentable ancestor in
      record {
        id = host.random_uuid w;
        path = path;
        detected_at = host.timestamp w;
        ours = side_text binary ours;
        theirs = side_text binary theirs;
        ancestor = side_text binary ancestor;
        binary = binary;
        renamed_from = when_truthy renamed_from;
        peer = when_truthy peer;
      }

  -- The base that the resolution will claim: the bytes of the other side, which are stored.
  abbrev stored_base : World → Option Bytes → Option Text × World
  stored_base w none = (none, w)
  stored_base w (some theirs) = (some (host.hash_object theirs), host.store_object w theirs)

  unfoldable pub raise_conflict :
      Engine World
      → Text
      → Option Bytes
      → Option Bytes
      → Option Bytes
      → Option Text
      → Option Text
      → Option FileMode
      → Engine World × ApplyResult
  unfolding conflict_of
  raise_conflict e path ours theirs ancestor peer renamed_from mode =
      let c = conflict_of e.world path ours theirs ancestor peer renamed_from in
      let (base, world) = stored_base (host.after_uuid e.world) theirs in
      (
        record e {
          pending_conflicts = insert c.id c e.pending_conflicts;
          conflict_base = insert c.id base e.conflict_base;
          conflict_mode = elim mode [
            | none ↦ e.conflict_mode
            | some m ↦ insert c.id m e.conflict_mode
          ];
          quarantine = add path e.quarantine;
          deferrals = erase path e.deferrals;
          stats = record e.stats { conflicts = e.stats.conflicts + 1 };
          world = world;
        },
        record { path = path; outcome = State.conflict; conflict = some c },
      )

  -- What both ways out forget.
  abbrev forget : Engine World → Text → Text → Engine World
  forget e id path = record e {
    pending_conflicts = erase id e.pending_conflicts;
    conflict_base = erase id e.conflict_base;
    conflict_mode = erase id e.conflict_mode;
    quarantine = delete path e.quarantine;
  }

  abbrev entry_mode : Option TreeEntry → Option Text
  entry_mode none = none
  entry_mode (some entry) = some entry.mode

  -- A base of `null` is replaced like one that is not there.
  abbrev flatten : Option (Option Text) → Option Text
  flatten none = none
  flatten (some base) = base

  resolution_mode : Engine World → Text → Text → FileMode
  resolution_mode e id path =
      get_or
        (or_else (lookup id e.conflict_mode) (file_mode (entry_mode (Shadow.entry e.shadow path))))
        (mode_of host e path)

  abbrev resolution : Text → Text → Option Text → Text → FileMode → FileVersion
  resolution path content base hash mode = record {
    path = path;
    op = modify;
    base_hash = base;
    content_hash = some hash;
    content = some content;
    patch = none;
    encoding = utf8;
    mode = some mode;
    renamed_from = none;
  }

  unfoldable pub resolve_conflict : Engine World → Text → Text → Engine World × Option FileVersion
  unfolding resolution_mode
  resolve_conflict e id content = elim (lookup id e.pending_conflicts) [
    | none ↦ (e, none)
    | some c ↦
        let bytes = host.encode content utf8 in
        let mode = resolution_mode e id c.path in
        let base = or_else (flatten (lookup id e.conflict_base)) (Shadow.get e.shadow c.path) in
        let hash = host.hash_object bytes in
        let stored = record e { world = host.store_object e.world bytes } in
        let written = write_synced host stored c.path bytes mode in
        let agreed = record written {
          shadow = Shadow.set written.shadow c.path hash (mode_text mode);
        } in
        (forget agreed id c.path, some (resolution c.path content base hash mode))
  ]

  unfoldable pub dismiss_conflict : Engine World → Text → Engine World × Bool
  dismiss_conflict e id = elim (lookup id e.pending_conflicts) [
    | none ↦ (e, false)
    | some c ↦ (forget e id c.path, true)
  ]
