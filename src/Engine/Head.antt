-- ===== src/Engine/Head.antt =====
-- What a branch switch and a move of HEAD do to an engine, how one is opened, and its flush.
use crosscode.Prelude.{Bool, true, false, [], Option, some, if◌then◌else◌}
use crosscode.Prelude.Text.{Text, codes}
use crosscode.Host.{Host}
use crosscode.Git.{Git, ◌>>=◌}
use crosscode.Shadow
use crosscode.Shadow.{ShadowTree, Attempt}
use crosscode.Engine.State.{Engine, EngineOptions}
use crosscode.Engine.Tree.{refresh_tracked}

abbrev pub shadow_ref : Text
shadow_ref = codes "refs/crosscode/shadow"

abbrev pub backup_ref : Text
backup_ref = codes "refs/crosscode/backup"

module _ (host : Host) where
  open host use {World}

  abbrev fresh_engine : EngineOptions → ShadowTree → ShadowTree → World → Engine World
  fresh_engine options shadow backup w = record {
    options = options;
    shadow = shadow;
    backup = backup;
    last_edit = [];
    self_writes = [];
    quarantine = [];
    pending_conflicts = [];
    conflict_base = [];
    conflict_mode = [];
    deferrals = [];
    tracked = [];
    stats = record {
      writes = 0;
      merges = 0;
      deletes = 0;
      noops = 0;
      conflicts = 0;
      deferrals = 0;
      forced = 0;
      catchups = 0;
      published = 0;
    };
    world = w;
  }

  unfoldable pub open_engine : EngineOptions → Git World (Engine World)
  open_engine options = do
    shadow ← Shadow.open_tree host shadow_ref
    backup ← Shadow.open_tree host backup_ref
    (λ w. (some (refresh_tracked host (fresh_engine options shadow backup w)), w))

  -- The engine after a step of its shadow, and whether that threw.
  abbrev after_shadow : Engine World → Attempt World → Engine World
  after_shadow e attempt = record e { shadow = attempt.tree; world = attempt.world }

  unfoldable pub reset_to_head : Engine World → Engine World × Bool
  reset_to_head e =
      let attempt = Shadow.reset_to host e.shadow (codes "HEAD") e.world in
      if attempt.threw then (after_shadow e attempt, true) else (
        refresh_tracked host (record (after_shadow e attempt) {
          deferrals = [];
          quarantine = [];
          pending_conflicts = [];
          conflict_base = [];
          conflict_mode = [];
          last_edit = [];
          self_writes = [];
        }),
        false,
      )

  unfoldable pub rebase_onto_head : Engine World → Option Text → Engine World × Bool
  rebase_onto_head e previous =
      let attempt = Shadow.rebase_onto host e.shadow previous (codes "HEAD") e.world in
      if attempt.threw
      then (after_shadow e attempt, true)
      else (refresh_tracked host (after_shadow e attempt), false)

  -- The backup is not flushed if the shadow's flush throws.
  unfoldable pub flush : Engine World → Engine World × Bool
  flush e =
      let attempt = Shadow.flush host e.shadow e.world in
      let flushed = after_shadow e attempt in
      let second = Shadow.flush host flushed.backup flushed.world in
      if attempt.threw
      then (flushed, true)
      else (record flushed { backup = second.tree; world = second.world }, second.threw)

  abbrev pub shadow_dirty : Engine World → Bool
  shadow_dirty e = Shadow.is_dirty e.shadow

  abbrev pub shadow_hash : Engine World → Text → Option Text
  shadow_hash e path = Shadow.get e.shadow path
