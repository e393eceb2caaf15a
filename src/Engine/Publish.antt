-- ===== src/Engine/Publish.antt =====
-- `publish` of engine.ts: every path whose disk differs from the shadow, as sync units.
pub mod Path
pub mod Once
pub mod Schema
pub mod Frozen
use crosscode.Prelude.{
  ℕ, ◌+◌, Bool, true, false, not, ◌&&◌, ◌||◌, List, [], ◌∷◌, ◌++◌, map, Option, none, some, is_some,
  ltb, length, ◌==◌, if◌then◌else◌,
}
use crosscode.Prelude.Text.{Text, same, same_opt, truthy}
use crosscode.Prelude.Dict.{Dict, lookup, insert, to_set}
use crosscode.Protocol.{FileVersion, FileMode, modify, delete, utf8, base64, Encoding}
use crosscode.Host.{Host, Bytes}
use crosscode.Git.{read_blob}
use crosscode.Merge.{is_binary, make_patch}
use crosscode.Shadow
use crosscode.Shadow.{TreeEntry}
use crosscode.Engine.State.{Engine, is_publishable, mode_text}
use crosscode.Engine.Tree.{read, mode_of, refresh_tracked}

-- `[...paths].sort()`: by code units.
text_le : Text → Text → Bool
text_le [] t = true
text_le (c ∷ s) [] = false
text_le (c ∷ s) (d ∷ t) = ltb c d || ((c == d) && text_le s t)

insert_sorted : Text → List Text → List Text
unfolding text_le
insert_sorted s [] = s ∷ []
insert_sorted s (t ∷ l) = if text_le s t then s ∷ t ∷ l else t ∷ insert_sorted s l

sort : List Text → List Text
unfolding insert_sorted
sort [] = []
sort (s ∷ l) = insert_sorted s (sort l)

-- What one path adds to the batch, and whether the path is new to the shadow.
pub data SyncUnit : Type 0 where
  silent : SyncUnit
  sent : FileVersion → (created : Bool) → SyncUnit

abbrev pub delete_version : Text → Option Text → FileVersion
delete_version path agreed = record {
  path = path;
  op = delete;
  base_hash = agreed;
  content_hash = none;
  content = none;
  patch = none;
  encoding = utf8;
  mode = none;
  renamed_from = none;
}

-- `mode === entry?.mode`
same_entry_mode : FileMode → Option TreeEntry → Bool
same_entry_mode mode none = false
same_entry_mode mode (some entry) = same (mode_text mode) entry.mode

module _ (host : Host) where
  open host use {World}

  abbrev pub full_version : Text → Bytes → Text → Option Text → FileMode → Bool → FileVersion
  full_version path content local agreed mode binary =
      let encoding : Encoding = if binary then base64 else utf8 in
      record {
        path = path;
        op = modify;
        base_hash = agreed;
        content_hash = some local;
        content = some (host.decode content encoding);
        patch = none;
        encoding = encoding;
        mode = some mode;
        renamed_from = none;
      }

  abbrev pub patch_version : Text → Text → Text → Option Text → FileMode → FileVersion
  patch_version path patch local agreed mode = record {
    path = path;
    op = modify;
    base_hash = agreed;
    content_hash = some local;
    content = none;
    patch = some patch;
    encoding = utf8;
    mode = some mode;
    renamed_from = none;
  }

  -- A patch that is shorter than the content, where one may be sent.
  short_patch : ℕ → Bool → Option Bytes → Bytes → Option Text
  short_patch threshold binary none content = none
  short_patch threshold binary (some base) content =
      if not binary && ltb threshold (length content)
      then elim (make_patch host base content) [
        | none ↦ none
        | some patch ↦
            if ltb (length (host.encode patch utf8)) (length content) then some patch else none
      ]
      else none

  unfoldable pub modify_version :
      Engine World → Text → Bytes → Text → Option Text → FileMode → FileVersion
  unfolding short_patch
  modify_version e path content local agreed mode =
      let base = read_blob host e.world agreed in
      let binary = is_binary (some content) || is_binary base || not (host.is_utf8 content) in
      elim (short_patch e.options.patch_threshold_bytes binary base content) [
        | some patch ↦ patch_version path patch local agreed mode
        | none ↦ full_version path content local agreed mode binary
      ]

  -- The path is gone from the disk.
  publish_missing : Engine World → Text → Option Text → Engine World × SyncUnit
  publish_missing e path agreed =
      if is_some agreed
      then (
        record e { shadow = Shadow.remove e.shadow path },
        sent (delete_version path agreed) false,
      )
      else (e, silent)

  publish_present : Engine World → Text → Bytes → Option TreeEntry → Engine World × SyncUnit
  publish_present e path content entry =
      let local = host.hash_object content in
      let stored = record e { world = host.store_object e.world content } in
      let agreed = Shadow.hash_of entry in
      let mode = mode_of host stored path in
      if same_opt (some local) agreed && same_entry_mode mode entry then (stored, silent) else (
        record stored { shadow = Shadow.set stored.shadow path local (mode_text mode) },
        sent (modify_version stored path content local agreed mode) (not (is_some agreed)),
      )

  unfoldable pub publish_path : Engine World → Text → Engine World × SyncUnit
  unfolding publish_missing publish_present modify_version same_entry_mode
  publish_path e path =
      if is_publishable e path
      then elim (read host e path) [
        | none ↦ publish_missing e path (Shadow.get e.shadow path)
        | some content ↦ publish_present e path content (Shadow.entry e.shadow path)
      ]
      else (e, silent)

  -- The batch so far: the versions, which of them are new, and the paths of deleted content.
  pub record Batch : Type 0 where
    pub engine : Engine World
    pub versions : List (FileVersion × Bool)
    pub deleted_base : Dict Text

  remember_delete : FileVersion → Option Text → Dict Text → Dict Text
  remember_delete version none paths = paths
  remember_delete version (some agreed) paths = elim version.op [
    | modify ↦ paths
    | delete ↦ if truthy (some agreed) then insert agreed version.path paths else paths
  ]

  add_unit : Batch → Engine World × SyncUnit → Batch
  unfolding remember_delete
  add_unit b (e, silent) = record b { engine = e }
  add_unit b (e, sent version created) = record {
    engine = e;
    versions = b.versions ++ (version, created) ∷ [];
    deleted_base = remember_delete version version.base_hash b.deleted_base;
  }

  unfoldable pub publish_paths : Batch → List Text → Batch
  unfolding add_unit
  publish_paths b [] = b
  publish_paths b (path ∷ rest) = publish_paths (add_unit b (publish_path b.engine path)) rest

  -- A new path with the content of a deleted one names it.
  abbrev renamed : Dict Text → FileVersion → Option Text
  renamed deleted_base version = elim version.content_hash [
    | none ↦ none
    | some hash ↦ if truthy (some hash) then lookup hash deleted_base else none
  ]

  unfoldable pub link_rename : Dict Text → FileVersion × Bool → FileVersion
  link_rename deleted_base (version, created) =
      let from = renamed deleted_base version in
      if created && truthy from then record version { renamed_from = from } else version

  unfoldable pub publish : Engine World → List Text → Engine World × List FileVersion
  unfolding publish_paths link_rename sort
  publish e paths =
      let b =
        publish_paths (record { engine = e; versions = []; deleted_base = [] })
          (sort (to_set [] paths)) in
      let versions = map (link_rename b.deleted_base) b.versions in
      let published = record b.engine.stats {
        published = b.engine.stats.published + length versions;
      } in
      (record b.engine { stats = published }, versions)

  unfoldable pub publish_all : Engine World → Engine World × List FileVersion
  publish_all e =
      let fresh = refresh_tracked host e in
      publish fresh (fresh.tracked ++ Shadow.paths fresh.shadow)
