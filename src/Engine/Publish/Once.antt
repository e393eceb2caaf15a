-- ===== src/Engine/Publish/Once.antt =====
-- What `publish` of packages/sync/src/engine.ts has sent, it does not send again.
use crosscode.Prelude.{◌≡◌, ◌⊎◌, refl, ◌∙◌, true, List, [], ◌∷◌, All, map, length, ◌+◌, inl, inr}
use crosscode.Prelude.Text.{Text, same, same_refl}
use crosscode.Prelude.Dict.{to_set}
use crosscode.Host.{Host}
use crosscode.Host.Laws.{FileLaws}
use crosscode.Engine.State.{Engine, EngineStats, is_publishable}
use crosscode.Engine.Tree.{mode_of}
use crosscode.Engine.Publish.{
  SyncUnit, silent, sent, publish_path, Batch, add_unit, publish_paths, publish, sort, link_rename,
}
use crosscode.Engine.Publish.Path.{IsSettled, settled_silent, IsSettled-publish_path}

module _ (host : Host) (laws : FileLaws host) where
  open host use {World}

  engine-add_unit :
      (b : Batch host) (u : Engine World × SyncUnit) → (add_unit host b u).engine ≡ u.0
  unfolding add_unit
  engine-add_unit b (e, silent) = refl
  engine-add_unit b (e, sent version created) = refl

  versions-add_silent :
      (b : Batch host) (u : Engine World × SyncUnit)
      → u.1 ≡ silent
      → (add_unit host b u).versions ≡ b.versions
  unfolding add_unit
  versions-add_silent b (e, silent) h = refl
  versions-add_silent b (e, sent version created) h = cc

  IsSettled-add_unit :
      (b : Batch host) (path q : Text)
      → (same path q ≡ true) ⊎ IsSettled host laws b.engine q
      → IsSettled host laws (add_unit host b (publish_path host b.engine path)).engine q
  IsSettled-add_unit b path q h =
      rw (engine-add_unit b (publish_path host b.engine path))
        (IsSettled-publish_path host laws b.engine path q h)

  -- A loop keeps what is settled, and settles its paths.
  IsSettled-publish_paths :
      (b : Batch host) (l : List Text) (q : Text)
      → IsSettled host laws b.engine q
      → IsSettled host laws (publish_paths host b l).engine q
  unfolding publish_paths
  IsSettled-publish_paths b [] q h = h
  IsSettled-publish_paths b (path ∷ l) q h =
      IsSettled-publish_paths (add_unit host b (publish_path host b.engine path)) l q
        (IsSettled-add_unit b path q (inr h))

  All-publish_paths :
      (b : Batch host) (l : List Text) → All (IsSettled host laws (publish_paths host b l).engine) l
  unfolding publish_paths
  All-publish_paths b [] = tt
  All-publish_paths b (path ∷ l) = (
    IsSettled-publish_paths (add_unit host b (publish_path host b.engine path)) l path
        (IsSettled-add_unit b path path (inl (same_refl path))),
    All-publish_paths (add_unit host b (publish_path host b.engine path)) l,
  )

  All-add_unit :
      (b : Batch host) (path : Text) (l : List Text)
      → All (IsSettled host laws b.engine) l
      → All (IsSettled host laws (add_unit host b (publish_path host b.engine path)).engine) l
  All-add_unit b path [] h = tt
  All-add_unit b path (q ∷ l) h = (IsSettled-add_unit b path q (inr h.0), All-add_unit b path l h.1)

  versions-publish_paths :
      (b : Batch host) (l : List Text)
      → All (IsSettled host laws b.engine) l
      → (publish_paths host b l).versions ≡ b.versions
  unfolding publish_paths
  versions-publish_paths b [] h = refl
  versions-publish_paths b (path ∷ l) h =
      versions-publish_paths (add_unit host b (publish_path host b.engine path)) l
        (All-add_unit b path l h.1)
      ∙ versions-add_silent b (publish_path host b.engine path)
          (settled_silent host laws b.engine path h.0)

  IsSettled-stats :
      (e : Engine World) (s : EngineStats) (q : Text)
      → IsSettled host laws e q
      → IsSettled host laws (record e { stats = s }) q
  unfolding mode_of is_publishable
  IsSettled-stats e s q h = h

  All-stats :
      (e : Engine World) (s : EngineStats) (l : List Text)
      → All (IsSettled host laws e) l
      → All (IsSettled host laws (record e { stats = s })) l
  All-stats e s [] h = tt
  All-stats e s (q ∷ l) h = (IsSettled-stats e s q h.0, All-stats e s l h.1)

  abbrev start : Engine World → Batch host
  start e = record { engine = e; versions = []; deleted_base = [] }

  publish_settled :
      (e : Engine World) (paths : List Text)
      → All (IsSettled host laws e) (sort (to_set [] paths))
      → (publish host e paths).1 ≡ []
  unfolding publish
  publish_settled e paths h = rw (versions-publish_paths (start e) (sort (to_set [] paths)) h)

  All-publish :
      (e : Engine World) (paths : List Text)
      → All (IsSettled host laws (publish host e paths).0) (sort (to_set [] paths))
  unfolding publish
  All-publish e paths =
      let l = sort (to_set [] paths) in
      let b = publish_paths host (start e) l in
      All-stats b.engine
        (record b.engine.stats {
          published =
              b.engine.stats.published + length (map (link_rename host b.deleted_base) b.versions);
        })
        l (All-publish_paths (start e) l)

  -- A publish of the same paths right after a publish, in any state, sends nothing.
  pub publish_twice :
      (e : Engine World) (paths : List Text) → (publish host (publish host e paths).0 paths).1 ≡ []
  publish_twice e paths = publish_settled (publish host e paths).0 paths (All-publish e paths)
