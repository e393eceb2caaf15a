-- ===== src/Daemon/Checkout.antt =====
-- apps/daemon/src/sync-daemon.ts: what the daemon publishes of its checkout, the pause, and what it
-- does as git moves. What git and the service answer at a moment is an argument. Announcements of
-- presence, and the notices that peers' commits call for, are not modelled.
pub mod Pause
pub mod Head
use crosscode.Prelude.{
  Bool, true, false, not, ◌&&◌, List, [], ◌∷◌, Option, none, some, if◌then◌else◌, ℕ, ◌==◌,
}
use crosscode.Prelude.Text.{Text, same, same_opt}
use crosscode.Prelude.Dict.{add}
use crosscode.Protocol.{FileVersion, Change}
use crosscode.Host.{Host}
use crosscode.Engine.{Engine}
use crosscode.Engine.Tree.{refresh_tracked}
use crosscode.Engine.Publish.{publish, publish_all}
use crosscode.Engine.Conflict.{resolve_conflict}
use crosscode.Engine.Head.{reset_to_head, rebase_onto_head}
use crosscode.Daemon.{Link, Daemon, State, is_paused, send, publish_and_send, apply_with, catch_up}

-- What a look at git and a registration answer.
pub record Observation : Type 0 where
  pub in_operation : Bool
  pub branch : Text
  pub head : Option Text
  pub registered : Option (Text × ℕ)

pub record Checkout (W N : Type 0) : Type 0 where
  pub daemon : Daemon W N
  pub dirty : List Text
  pub head : Option Text

module _ (host : Host) (link : Link) where
  abbrev pub Sync : Type 0
  Sync = Checkout host.World link.Net

  -- What the watcher reports of a file that the user has changed.
  unfoldable pub mark_dirty : Text → Sync → Sync
  mark_dirty path c = record c { dirty = add path c.dirty }

  rebased : Sync → Engine host.World × Bool → Sync × Bool
  rebased c (e, threw) = (record c { daemon = record c.daemon { engine = e } }, threw)

  -- Whether it threw.
  unfoldable pub track_head : Observation → Sync → Sync × Bool
  unfolding rebased
  track_head o c =
      if same_opt o.head c.head
      then (c, false)
      else rebased (record c { head = o.head }) (rebase_onto_head host c.daemon.engine c.head)

  publish_paths : List Text → Sync × Bool → Sync × Bool
  publish_paths paths (c, true) = (c, true)
  publish_paths paths (c, false) = (
    record c {
      daemon = publish_and_send host link c.daemon (publish host c.daemon.engine paths);
      dirty = [];
    },
    false,
  )

  publish_tracked : Sync × Bool → Sync × Bool
  publish_tracked (c, true) = (c, true)
  publish_tracked (c, false) = (
    record c {
      daemon = publish_and_send host link c.daemon (publish_all host c.daemon.engine);
      dirty = [];
    },
    false,
  )

  abbrev nothing_dirty : List Text → Bool
  nothing_dirty [] = true
  nothing_dirty (path ∷ paths) = false

  unfoldable pub publish_dirty : Observation → Sync → Sync × Bool
  unfolding publish_paths
  publish_dirty o c =
      if is_paused c.daemon
      then (c, false)
      else if nothing_dirty c.dirty
      then (c, false)
      else publish_paths c.dirty (track_head o c)

  unfoldable pub publish_checkout : Observation → Sync → Sync × Bool
  unfolding publish_tracked
  publish_checkout o c = if is_paused c.daemon then (c, false) else publish_tracked (track_head o c)

  -- The changes that were held, in order, until one throws.
  unfoldable pub apply_held : List Change → State host link → State host link × Bool
  apply_held [] d = (d, false)
  apply_held (change ∷ held) d =
      let (d', threw) = apply_with host link (catch_up host link) d change in
      let rest = apply_held held d' in if threw then (d', true) else rest

  resumed : Observation → Sync → State host link × Bool → Sync × Bool
  resumed o c (d, true) = (record c { daemon = d }, true)
  resumed o c (d, false) = publish_checkout o (record c { daemon = d })

  unfoldable pub resume : Observation → Sync → Sync × Bool
  unfolding resumed
  resume o c =
      if is_paused c.daemon
      then (c, false)
      else resumed o c (
          apply_held c.daemon.held
            (record c.daemon { engine = refresh_tracked host c.daemon.engine; held = [] }))

  unfoldable pub set_paused : Observation → Bool → Sync → Sync × Bool
  set_paused o paused c =
      let c' : Sync = record c { daemon = record c.daemon { user_paused = paused } } in
      if c.daemon.user_paused && not paused then resume o c' else (c', false)

  -- A registration that fails is tried again later.
  start_stream : Option (Text × ℕ) → State host link → State host link
  start_stream none d = record d { failed = true }
  start_stream (some (id, cursor)) d =
      let cursor' = if d.cursor == 0 then cursor else d.cursor in
      record d { replica_id = id; cursor = cursor'; persisted = some (d.branch, cursor') }

  switched : Observation → Sync → Engine host.World × Bool → Sync × Bool
  unfolding start_stream
  switched o c (e, true) = (record c { daemon = record c.daemon { engine = e } }, true)
  switched o c (e, false) = publish_checkout o (record c {
    head = o.head;
    daemon =
        start_stream o.registered
          (record c.daemon { engine = e; held = []; cursor = 0; replica_id = [] });
  })

  stayed : Observation → Bool → Sync × Bool → Sync × Bool
  stayed o was_busy (c, true) = (c, true)
  stayed o was_busy (c, false) = if was_busy && not o.in_operation then resume o c else (c, false)

  unfoldable pub observe_git : Observation → Sync → Sync × Bool
  unfolding switched stayed
  observe_git o c =
      let c' : Sync = record c { daemon = record c.daemon { in_operation = o.in_operation } } in
      if not (same o.branch c.daemon.branch)
      then switched o (record c' { daemon = record c'.daemon { branch = o.branch } })
          (reset_to_head host c.daemon.engine)
      else stayed o c.daemon.in_operation (track_head o c')

  send_resolved : State host link → Engine host.World × Option FileVersion → State host link × Bool
  send_resolved d (e, none) = (record d { engine = e }, false)
  send_resolved d (e, some version) =
      (send host link (record d { engine = e }) (version ∷ []), true)

  -- Whether there was such a conflict.
  unfoldable pub resolve : Text → Text → State host link → State host link × Bool
  unfolding send_resolved
  resolve id content d = send_resolved d (resolve_conflict host d.engine id content)
