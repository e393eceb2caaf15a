-- ===== src/Engine/Deferral.antt =====
-- `retryDeferred` of engine.ts: what waits behind a hot file is applied when the file has cooled, or
-- when it has waited its number of rounds, with the bytes on disk backed up first.
pub mod Frozen
use crosscode.Prelude.{
  ℕ, ◌+◌, Bool, true, false, not, List, [], ◌∷◌, ◌++◌, Option, none, some, ltb, length,
  if◌then◌else◌,
}
use crosscode.Prelude.Text.{Text}
use crosscode.Prelude.Dict.{Dict, insert, erase, member}
use crosscode.Host.{Host}
use crosscode.Shadow
use crosscode.Shadow.{Attempt}
use crosscode.Engine.State.{Engine, ApplyResult, Deferred, is_hot, mode_text}
use crosscode.Engine.Tree.{read, disk_hash, mode_of}
use crosscode.Engine.Apply.{apply_now}

module _ (host : Host) where
  open host use {World}

  -- `this.backup.set(path, …)` for the bytes that the apply may overwrite, if there are any.
  unfoldable pub back_up : Engine World → Text → Engine World
  back_up e path = elim (read host e path) [
    | none ↦ e
    | some current ↦ record e {
      world = host.store_object e.world current;
      backup =
          Shadow.set e.backup path (host.hash_object current) (mode_text (mode_of host e path));
    }
  ]

  -- The rounds are over: back up, flush, and forget the edit. The flag says that the flush threw.
  unfoldable pub force : Engine World → Text → Engine World × Bool
  unfolding back_up
  force e path =
      let saved = back_up e path in
      let flushed = Shadow.flush host saved.backup saved.world in
      let kept = record saved { backup = flushed.tree; world = flushed.world } in
      if flushed.threw then (kept, true) else (
        record kept {
          last_edit = erase path kept.last_edit;
          stats = record kept.stats { forced = kept.stats.forced + 1 };
        },
        false,
      )

  unfoldable pub apply_deferred : Engine World → Text → Deferred → Engine World × ApplyResult
  apply_deferred e path entry =
      let released = record e { deferrals = erase path e.deferrals } in
      apply_now host released entry.version (disk_hash host released path)
        (Shadow.get released.shadow path) (record { peer = entry.peer; allow_catchup = none })

  -- What one entry comes to: nothing yet, a result, or a throw.
  pub data Retry : Type 0 where
    waited : Engine World → Retry
    applied : Engine World → ApplyResult → Retry
    threw : Engine World → Retry

  abbrev as_applied : Engine World × ApplyResult → Retry
  as_applied (e, r) = applied e r

  abbrev apply_forced : Engine World × Bool → Text → Deferred → Retry
  apply_forced (e, true) path entry = threw e
  apply_forced (e, false) path entry = as_applied (apply_deferred e path entry)

  abbrev wait_again : Engine World → Text → Deferred → Engine World
  wait_again e path entry = record e {
    deferrals = insert path (record entry { attempts = entry.attempts + 1 }) e.deferrals;
    stats = record e.stats { deferrals = e.stats.deferrals + 1 };
  }

  unfoldable pub retry_path : Engine World → Text → Deferred → Retry
  unfolding force apply_deferred
  retry_path e path entry =
      if member path e.quarantine
      then waited (record e { deferrals = erase path e.deferrals })
      else if not (is_hot host e path)
      then as_applied (apply_deferred e path entry)
      else if ltb entry.attempts e.options.max_deferrals
      then waited (wait_again e path entry)
      else apply_forced (force e path) path entry

  -- The results in order, or nothing once an entry has thrown.
  unfoldable pub retry_entries :
      Engine World → Dict Deferred → List ApplyResult → Engine World × Option (List ApplyResult)
  retry_entries e [] results = (e, some results)
  retry_entries e ((path, entry) ∷ rest) results = elim (retry_path e path entry) [
    | waited e' ↦ retry_entries e' rest results
    | applied e' r ↦ retry_entries e' rest (results ++ r ∷ [])
    | threw e' ↦ (e', none)
  ]

  unfoldable pub retry_deferred : Engine World → Engine World × Option (List ApplyResult)
  unfolding retry_entries
  retry_deferred e = retry_entries e e.deferrals []

  abbrev pub deferred_count : Engine World → ℕ
  deferred_count e = length e.deferrals
