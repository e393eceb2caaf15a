-- ===== src/Engine/Apply.antt =====
-- `receive` of engine.ts: the apply rule for one incoming version. Runs for one path do not overlap
-- (the chain of `serialize`), so each is one function of the engine's state.
pub mod Effect
pub mod Content
pub mod Now
pub mod Receive
pub mod Frozen
use crosscode.Prelude.{
  ℕ, ◌+◌, Bool, true, false, not, ◌&&◌, ◌||◌, List, [], ◌∷◌, Option, none, some, is_some, get_or,
  or_else, if◌then◌else◌,
}
use crosscode.Prelude.Text.{Text, same_opt, truthy}
use crosscode.Prelude.Dict.{lookup, insert, member}
use crosscode.Protocol.{FileVersion, FileOp, FileMode, modify, delete, same_mode}
use crosscode.Host.{Host, Bytes}
use crosscode.Git.{read_blob}
use crosscode.Merge.{is_binary, MergeResult, clean, unclean, merge_file, apply_patch}
use crosscode.Shadow
use crosscode.Engine.State.{
  Engine, ApplyResult, Deferred, EngineStats, result, is_receivable, is_hot, mode_text, write,
  merge, noop, deferred, quarantined, catchup, rejected,
}
use crosscode.Engine.State
use crosscode.Engine.Tree.{
  read, disk_hash, mode_of, set_mode, write_synced, remove_synced, escapes_root,
}
use crosscode.Engine.Conflict.{raise_conflict}

pub record ReceiveOptions : Type 0 where
  pub peer : Option Text
  pub allow_catchup : Option Bool

module _ (host : Host) where
  open host use {World}

  abbrev count : Engine World → (EngineStats → EngineStats) → Engine World
  count e f = record e { stats = f e.stats }

  abbrev write_counted : EngineStats → EngineStats
  write_counted s = record s { writes = s.writes + 1 }

  abbrev noop_counted : EngineStats → EngineStats
  noop_counted s = record s { noops = s.noops + 1 }

  abbrev catchup_counted : EngineStats → EngineStats
  catchup_counted s = record s { catchups = s.catchups + 1 }

  -- `await this.contentOf(version, base)`: `base ?? readBlob(version.baseHash)` is the ancestor.
  verified : FileVersion → Option Bytes → Option Bytes
  verified version none = none
  verified version (some rebuilt) =
      if same_opt (some (host.hash_object rebuilt)) version.content_hash then some rebuilt else none

  replayed : FileVersion → Text → Option Bytes → Option Bytes
  unfolding verified
  replayed version patch none = none
  replayed version patch (some ancestor) = verified version (apply_patch host ancestor patch)

  sent_bytes : Engine World → FileVersion → Option Bytes → Option Bytes
  unfolding replayed
  sent_bytes e version base = elim version.content [
    | some text ↦ some (host.encode text version.encoding)
    | none ↦ elim version.patch [
      | none ↦ none
      | some patch ↦
          replayed version patch (or_else base (read_blob host e.world version.base_hash))
    ]
  ]

  unfoldable pub content_of : Engine World → FileVersion → Option Bytes → Option Bytes
  unfolding sent_bytes
  content_of e version base = elim version.op [ delete ↦ none | modify ↦ sent_bytes e version base ]

  abbrev surface :
      Engine World
      → FileVersion
      → ReceiveOptions
      → Option Bytes
      → Option Bytes
      → Option Bytes
      → Engine World × ApplyResult
  surface e version options ours theirs ancestor =
      raise_conflict host e version.path ours theirs ancestor options.peer version.renamed_from
        version.mode

  abbrev allows_catchup : ReceiveOptions → Bool
  allows_catchup options = get_or options.allow_catchup true

  -- Content that does not hash to what the sender said.
  pub mangled : FileVersion → Bool
  mangled version = elim version.content [
    | none ↦ false
    | some text ↦ not (
        same_opt (some (host.hash_object (host.encode text version.encoding))) version.content_hash)
  ]

  -- The copy here is the agreed state, and the sender built on it.
  abbrev built_on_agreed : FileVersion → Option Text → Option Text → Bool
  built_on_agreed version local agreed = same_opt local agreed && same_opt version.base_hash agreed

  apply_delete :
      Engine World
      → FileVersion
      → Option Text
      → Option Text
      → Option Bytes
      → ReceiveOptions
      → Engine World × ApplyResult
  apply_delete e version local agreed base options =
      let removed = remove_synced host e version.path in
      let settled = record removed { shadow = Shadow.remove removed.shadow version.path } in
      if built_on_agreed version local agreed
      then (
        count settled (λ s. record s { deletes = s.deletes + 1 }),
        result version.path State.delete,
      )
      else surface e version options (read host e version.path) none base

  -- Bytes are written, and the shadow takes the sender's hash.
  settle_write :
      Engine World
      → FileVersion
      → Bytes
      → FileMode
      → (EngineStats → EngineStats)
      → State.ApplyOutcome
      → Engine World × ApplyResult
  settle_write e version content mode counted outcome =
      let written = write_synced host e version.path content mode in
      let hash = get_or version.content_hash [] in
      let settled = record written {
        shadow = Shadow.set written.shadow version.path hash (mode_text mode);
      } in
      (count settled counted, result version.path outcome)

  apply_merge :
      Engine World
      → FileVersion
      → Bytes
      → Bytes
      → Bytes
      → FileMode
      → ReceiveOptions
      → MergeResult
      → Engine World × ApplyResult
  unfolding settle_write
  apply_merge e version ours base theirs mode options (clean content) =
      settle_write e version content mode (λ s. record s { merges = s.merges + 1 }) merge
  apply_merge e version ours base theirs mode options (unclean refused) =
      surface e version options (some ours) (some theirs) (some base)

  -- The disk and the sender have gone different ways: what is on disk, and what both started from.
  apply_edited :
      Engine World
      → FileVersion
      → Bytes
      → Option Bytes
      → Bytes
      → FileMode
      → ReceiveOptions
      → Engine World × ApplyResult
  unfolding apply_merge
  apply_edited e version ours none theirs mode options =
      surface e version options (some ours) (some theirs) none
  apply_edited e version ours (some base) theirs mode options =
      if is_binary (some ours) || is_binary (some theirs) || is_binary (some base)
      then surface e version options (some ours) (some theirs) (some base)
      else apply_merge e version ours base theirs mode options (merge_file host ours base theirs)

  apply_diverged :
      Engine World
      → FileVersion
      → Option Text
      → Option Bytes
      → Bytes
      → FileMode
      → ReceiveOptions
      → Engine World × ApplyResult
  unfolding apply_edited
  apply_diverged e version none base theirs mode options =
      surface e version options none (some theirs) base
  apply_diverged e version (some local) base theirs mode options =
      apply_edited e version (get_or (read host e version.path) []) base theirs mode options

  apply_modify :
      Engine World
      → FileVersion
      → Option Text
      → Option Text
      → Option Bytes
      → ReceiveOptions
      → Option Bytes
      → Engine World × ApplyResult
  unfolding settle_write apply_diverged
  apply_modify e version local agreed base options none =
      if allows_catchup options
      then (count e catchup_counted, result version.path catchup)
      else surface e version options (read host e version.path) none base
  apply_modify e version local agreed base options (some theirs) =
      let stored = record e { world = host.store_object e.world theirs } in
      let mode = get_or version.mode (mode_of host stored version.path) in
      if built_on_agreed version local agreed
      then settle_write stored version theirs mode write_counted write
      else apply_diverged stored version local base theirs mode options

  -- The base is here, or the sender had none.
  apply_op :
      Engine World
      → FileVersion
      → Option Text
      → Option Text
      → Option Bytes
      → ReceiveOptions
      → FileOp
      → Engine World × ApplyResult
  unfolding apply_delete apply_modify
  apply_op e version local agreed base options delete =
      apply_delete e version local agreed base options
  apply_op e version local agreed base options modify =
      apply_modify e version local agreed base options (content_of e version base)

  apply_based :
      Engine World
      → FileVersion
      → Option Text
      → Option Text
      → Option Bytes
      → ReceiveOptions
      → Engine World × ApplyResult
  unfolding apply_op
  apply_based e version local agreed base options =
      apply_op e version local agreed base options version.op

  apply_unbased : Engine World → FileVersion → ReceiveOptions → Engine World × ApplyResult
  apply_unbased e version options =
      if allows_catchup options
      then (count e catchup_counted, result version.path catchup)
      else surface e version options (read host e version.path) (content_of e version none) none

  unfoldable pub apply_now :
      Engine World
      → FileVersion
      → Option Text
      → Option Text
      → ReceiveOptions
      → Engine World × ApplyResult
  unfolding mangled apply_based apply_unbased
  apply_now e version local agreed options =
      if escapes_root host e version.path
      then (e, result version.path rejected)
      else if mangled version
      then (e, result version.path rejected)
      else let base = read_blob host e.world version.base_hash in
        if truthy version.base_hash && not (is_some base)
        then apply_unbased e version options
        else apply_based e version local agreed base options

  -- The bytes are here already: at most the mode is written.
  same_content : Engine World → FileVersion → Option Text → Option Text → Engine World × ApplyResult
  same_content e version local agreed = (
    count
        (if same_opt agreed local then e else record e {
          shadow =
              Shadow.set e.shadow version.path (get_or local [])
                (mode_text (mode_of host e version.path));
        })
        noop_counted,
    result version.path noop,
  )

  same_bytes :
      Engine World
      → FileVersion
      → Option Text
      → Option Text
      → Option FileMode
      → Engine World × ApplyResult
  unfolding same_content
  same_bytes e version local agreed none = same_content e version local agreed
  same_bytes e version local agreed (some mode) =
      let changed = set_mode host e version.path mode in
      if not (same_mode mode (mode_of host e version.path))
        && not (member version.path e.quarantine)
      then (
        count
            (record changed {
              shadow = Shadow.set changed.shadow version.path (get_or local []) (mode_text mode);
            })
            write_counted,
        result version.path write,
      )
      else same_content e version local agreed

  already_gone : Engine World → FileVersion → Option Text → Engine World × ApplyResult
  already_gone e version agreed = (
    count (if is_some agreed then record e { shadow = Shadow.remove e.shadow version.path } else e)
        noop_counted,
    result version.path noop,
  )

  abbrev attempts_after : Option Deferred → ℕ
  attempts_after none = 1
  attempts_after (some existing) = existing.attempts + 1

  abbrev deferral : Engine World → FileVersion → ReceiveOptions → Deferred
  deferral e version options = record {
    version = version;
    peer = options.peer;
    attempts = attempts_after (lookup version.path e.deferrals);
  }

  defer : Engine World → FileVersion → ReceiveOptions → Engine World × ApplyResult
  defer e version options = (
    count (record e { deferrals = insert version.path (deferral e version options) e.deferrals })
        (λ s. record s { deferrals = s.deferrals + 1 }),
    result version.path deferred,
  )

  abbrev is_modify : FileOp → Bool
  is_modify modify = true
  is_modify delete = false

  unfoldable pub receive_now :
      Engine World → FileVersion → ReceiveOptions → Engine World × ApplyResult
  unfolding same_bytes already_gone defer
  receive_now e version options =
      let local = disk_hash host e version.path in
      let agreed = Shadow.get e.shadow version.path in
      if not (is_receivable e version.path)
      then (e, result version.path rejected)
      else if is_modify version.op && same_opt version.content_hash local
      then same_bytes e version local agreed version.mode
      else if not (is_modify version.op) && not (is_some local)
      then already_gone e version agreed
      else if member version.path e.quarantine
      then (e, result version.path quarantined)
      else if is_hot host e version.path
      then defer e version options
      else apply_now e version local agreed options
