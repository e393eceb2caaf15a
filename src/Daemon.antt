-- ===== src/Daemon.antt =====
-- apps/daemon/src/sync-daemon.ts: how changes from the service reach the engine, and what moves the
-- cursor. A task of `enqueue` is one function. Presence and the stream's sockets are not modelled.
pub mod Cursor
pub mod Skip
pub mod Checkout
pub mod Client
use crosscode.Prelude.{
  ℕ, zero, suc, Bool, true, false, not, ◌||◌, List, [], ◌∷◌, ◌++◌, map, Option, none, some, ltb,
  if◌then◌else◌,
}
use crosscode.Prelude.Text.{Text, same}
use crosscode.Prelude.Dict.{to_set}
use crosscode.Protocol.{FileVersion, Change}
use crosscode.Host.{Host}
use crosscode.Engine.{Engine, ApplyResult, ApplyOutcome}
use crosscode.Engine
use crosscode.Engine.Tree.{refresh_tracked}
use crosscode.Engine.Publish.{publish, publish_all}
use crosscode.Engine.Apply.{ReceiveOptions, receive_now}
use crosscode.Engine.Deferral.{retry_deferred}
use crosscode.Service.Changes.{ChangePage, page, cursor_too_old}

-- `SyncServiceClient`: the two requests, which the network may fail.
pub record Link : Type 1 where
  pub Net : Type 0
  pub changes : Net → ℕ → Option ChangePage × Net
  pub publish : Net → List FileVersion → Option (Unit {0}) × Net

pub record Daemon (W N : Type 0) : Type 0 where
  pub engine : Engine W
  pub net : N
  pub replica_id : Text
  pub branch : Text
  pub cursor : ℕ
  -- Branch and cursor as `writeSyncState` wrote them.
  pub persisted : Option (Text × ℕ)
  pub held : List Change
  pub draining : Bool
  pub user_paused : Bool
  pub in_operation : Bool
  pub failed : Bool

-- `Math.max(a, b)`
abbrev pub later : ℕ → ℕ → ℕ
later a b = if ltb a b then b else a

module _ {W N : Type 0} where
  unfoldable pub is_paused : Daemon W N → Bool
  is_paused d = d.user_paused || d.in_operation

  unfoldable pub advance : Daemon W N → ℕ → Daemon W N
  advance d sequence = record d { cursor = later d.cursor sequence }

  abbrev persist : Daemon W N → Daemon W N
  persist d = record d { persisted = some (d.branch, d.cursor) }

abbrev is_merge : ApplyOutcome → Bool
is_merge Engine.merge = true
is_merge _ = false

abbrev pub is_catchup : ApplyOutcome → Bool
is_catchup Engine.catchup = true
is_catchup _ = false

abbrev merged_paths : List ApplyResult → List Text
merged_paths [] = []
merged_paths (r ∷ rs) = if is_merge r.outcome then r.path ∷ merged_paths rs else merged_paths rs

abbrev result_path : ApplyResult → Text
result_path r = r.path

module _ (host : Host) (link : Link) where
  abbrev pub State : Type 0
  State = Daemon host.World link.Net

  sent : State → Option (Unit {0}) × link.Net → State
  sent d (none, net) = record d { net = net; failed = true }
  sent d (some _, net) = persist (record d { net = net })

  pub send : State → List FileVersion → State
  unfolding sent
  send d [] = d
  send d (version ∷ versions) = sent d (link.publish d.net (version ∷ versions))

  abbrev publish_and_send : State → Engine host.World × List FileVersion → State
  publish_and_send d (e, versions) = send (record d { engine = e }) versions

  -- The end of `apply`: a merge is published once, and the cursor passes the change.
  pub settle : Change → State → ApplyResult → State
  unfolding send
  settle change d r =
      let published =
        if is_merge r.outcome
        then publish_and_send d (publish host d.engine (change.version.path ∷ []))
        else d in
      persist (advance published change.sequence)

  settle_received : Change → State → Engine host.World × ApplyResult → State
  unfolding settle
  settle_received change d (e, r) = settle change (record d { engine = e }) r

  abbrev pub receive_options : Change → Option Bool → ReceiveOptions
  receive_options change allow = record { peer = some change.replica_id; allow_catchup = allow }

  -- The second attempt, which may not ask to catch up, unless the catch-up threw.
  retry : Change → State × Bool → State × Bool
  unfolding settle_received
  retry change (d, true) = (d, true)
  retry change (d, false) = (
    settle_received change d
        (receive_now host d.engine change.version (receive_options change (some false))),
    false,
  )

  attempt : (State → State × Bool) → Change → State → Engine host.World × ApplyResult → State × Bool
  unfolding retry
  attempt catch_up change d (e, r) =
      let caught_up = catch_up (record d { engine = e }) in
      if is_catchup r.outcome
      then retry change caught_up
      else (settle change (record d { engine = e }) r, false)

  unfoldable pub apply_with : (State → State × Bool) → State → Change → State × Bool
  unfolding attempt
  apply_with catch_up d change =
      attempt catch_up change d
        (receive_now host d.engine change.version (receive_options change none))

  -- `catchUp` in a drain: the flag is set, so it does nothing.
  abbrev catch_up_within : State → State × Bool
  catch_up_within d = (d, false)

  is_skipped : State → Change → Bool
  is_skipped d change = same change.replica_id d.replica_id || not (same change.branch d.branch)

  -- The changes of one page, in order, and whether one threw.
  pub walk : State → List Change → State × Bool
  unfolding is_skipped
  walk d [] = (d, false)
  walk d (change ∷ rest) =
      let (applied, threw) = apply_with catch_up_within d change in
      let after_apply = walk applied rest in
      let after_skip = walk (advance d change.sequence) rest in
      let after_nothing = walk d rest in
      if not (ltb 0 change.sequence)
      then after_nothing
      else if is_skipped d change
      then after_skip
      else if threw
      then (applied, true)
      else after_apply

  -- Retention has passed the cursor: take the one that can be served, and publish everything.
  resynchronize : State → ℕ → State
  resynchronize d resync_from =
      let moved = persist (record d { cursor = resync_from }) in
      publish_and_send moved (publish_all host (refresh_tracked host moved.engine))

  abbrev is_empty : List Change → Bool
  is_empty [] = true
  is_empty (change ∷ changes) = false

  drain_changes : ℕ → State → State × Bool
  unfolding resynchronize
  drain_changes zero d = (persist d, false)
  drain_changes (suc pages) d =
      let (answer, net) = link.changes d.net d.cursor in
      elim answer [
        | none ↦ (record d { net = net }, true)
        | some (cursor_too_old resync_from days) ↦
            (resynchronize (record d { net = net }) resync_from, false)
        | some (page changes cursor) ↦
            let (walked, threw) = walk (record d { net = net }) changes in
            let next = advance walked cursor in
            let rest = drain_changes pages next in
            if threw
            then (walked, true)
            else if is_empty changes
            then (persist next, false)
            else rest
      ]

  abbrev drained : State × Bool → State × Bool
  drained (d, threw) = (record d { draining = false }, threw)

  unfoldable pub catch_up : State → State × Bool
  unfolding drain_changes
  catch_up d =
      if d.draining then (d, false) else drained (drain_changes 100 (record d { draining = true }))

  unfoldable pub receive : State → Change → State × Bool
  receive d change =
      if same change.replica_id d.replica_id
      then (advance d change.sequence, false)
      else if not (same change.branch d.branch)
      then (d, false)
      else if is_paused d
      then (record d { held = d.held ++ change ∷ [] }, false)
      else apply_with catch_up d change

  retried : State → Engine host.World × Option (List ApplyResult) → State
  retried d (e, none) = record d { engine = e; failed = true }
  retried d (e, some []) = record d { engine = e }
  retried d (e, some (r ∷ rs)) =
      publish_and_send (record d { engine = e })
        (publish host e (to_set [] (merged_paths (r ∷ rs) ++ map result_path (r ∷ rs))))

  pub retry_deferred_changes : State → State
  unfolding retried
  retry_deferred_changes d = if is_paused d then d else retried d (retry_deferred host d.engine)
