-- ===== src/Engine/State.antt =====
-- The fields of `SyncEngine` and the questions about them that read nothing else.
use crosscode.Prelude.{
  ℕ, ◌+◌, ◌*◌, Bool, false, not, ◌&&◌, ◌||◌, List, [], ◌∷◌, Option, none, some, is_some, ltb,
  if◌then◌else◌,
}
use crosscode.Prelude.Text.{Text, codes, same}
use crosscode.Prelude.Dict.{Dict, lookup, has, member}
use crosscode.Paths.{is_safe_relative_path, is_denied}
use crosscode.Protocol.{FileVersion, FileMode, regular, executable, Conflict}
use crosscode.Shadow
use crosscode.Shadow.{ShadowTree}
use crosscode.Host.{Host}

abbrev pub hot_window_ms : ℕ
hot_window_ms = 10000

abbrev pub max_deferrals : ℕ
max_deferrals = 20

abbrev pub patch_threshold_bytes : ℕ
patch_threshold_bytes = 16 * 1024

pub data ApplyOutcome : Type 0 where
  write merge delete conflict noop deferred quarantined catchup rejected : ApplyOutcome

pub record ApplyResult : Type 0 where
  pub path : Text
  pub outcome : ApplyOutcome
  pub conflict : Option Conflict

abbrev pub result : Text → ApplyOutcome → ApplyResult
result path outcome = record { path = path; outcome = outcome; conflict = none }

abbrev pub mode_text : FileMode → Text
mode_text regular = codes "100644"
mode_text executable = codes "100755"

-- Other modes of a tree, a symlink's or a submodule's, are no opinion.
unfoldable pub file_mode : Option Text → Option FileMode
file_mode none = none
file_mode (some mode) =
    if same mode (codes "100755")
    then some executable
    else if same mode (codes "100644")
    then some regular
    else none

pub record EngineStats : Type 0 where
  pub writes : ℕ
  pub merges : ℕ
  pub deletes : ℕ
  pub noops : ℕ
  pub conflicts : ℕ
  pub deferrals : ℕ
  pub forced : ℕ
  pub catchups : ℕ
  pub published : ℕ

pub record Deferred : Type 0 where
  pub version : FileVersion
  pub peer : Option Text
  pub attempts : ℕ

pub record EngineOptions : Type 0 where
  pub hot_window_ms : ℕ
  pub max_deferrals : ℕ
  pub patch_threshold_bytes : ℕ

abbrev pub default_options : EngineOptions
default_options = record {
  hot_window_ms = hot_window_ms;
  max_deferrals = max_deferrals;
  patch_threshold_bytes = patch_threshold_bytes;
}

-- The engine and the world around it, as the only thing that it changes there is its checkout.
pub record Engine (W : Type 0) : Type 0 where
  pub options : EngineOptions
  pub shadow : ShadowTree
  pub backup : ShadowTree
  pub last_edit : Dict ℕ
  pub self_writes : Dict (Option Text)
  pub quarantine : List Text
  pub pending_conflicts : Dict Conflict
  pub conflict_base : Dict (Option Text)
  pub conflict_mode : Dict FileMode
  pub deferrals : Dict Deferred
  pub tracked : List Text
  pub stats : EngineStats
  pub world : W

-- `[...map.values()]`
unfoldable pub values {ℓ} : {V : Type ℓ} → Dict V → List V
values [] = []
values ((key, v) ∷ rest) = v ∷ values rest

module _ {W : Type 0} where
  unfoldable pub is_watchable : Engine W → Text → Bool
  is_watchable e path =
      if not (is_safe_relative_path path) || is_denied path
      then false
      else member path e.tracked || is_some (Shadow.get e.shadow path)

  unfoldable pub is_publishable : Engine W → Text → Bool
  unfolding is_watchable
  is_publishable e path =
      is_watchable e path && not (member path e.quarantine) && not (has path e.deferrals)

  unfoldable pub is_receivable : Engine W → Text → Bool
  is_receivable e path = is_safe_relative_path path && not (is_denied path)

module _ (host : Host) where
  open host use {World}

  -- `now() - at < hotWindowMs`, also where the clock has gone back.
  unfoldable pub is_hot : Engine World → Text → Bool
  is_hot e path = elim (lookup path e.last_edit) [
    | none ↦ false
    | some at ↦ ltb (host.now e.world) (at + e.options.hot_window_ms)
  ]

  -- `conflicts()`
  unfoldable pub conflicts : Engine World → List Conflict
  unfolding values
  conflicts e = values e.pending_conflicts
