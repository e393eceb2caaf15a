-- ===== src/Engine/Publish/Frozen.antt =====
-- Publishing in packages/sync/src/engine.ts leaves the conflicts and the quarantine.
use crosscode.Prelude.{
  ◌++◌, ◌≡◌, refl, ap, ◌∙◌, true, false, ◌&&◌, List, [], ◌∷◌, Option, some, is_some, Bool-cases,
  Option-cases, inl, inr, arith,
}
use crosscode.Prelude.Text.{Text, same_opt}
use crosscode.Prelude.Dict.{to_set, member}
use crosscode.Host.{Host, Bytes}
use crosscode.Shadow
use crosscode.Shadow.{TreeEntry}
use crosscode.Engine.State.{Engine, is_publishable}
use crosscode.Engine.Tree.{read, mode_of, refresh_tracked}
use crosscode.Engine.Conflict.Frozen.{SameConflicts}
use crosscode.Engine.Publish.{
  SyncUnit, silent, sent, Batch, add_unit, same_entry_mode, publish_missing, publish_present,
  publish_path, publish_paths, publish, publish_all, sort,
}

unpublishable :
    {W : Type 0} (e : Engine W) (path : Text)
    → member path e.quarantine ≡ true
    → is_publishable e path ≡ false
unfolding is_publishable
unpublishable e path caught = ground (arith, caught)

module _ (host : Host) where
  open host use {World}

  missing-SameConflicts :
      (e : Engine World) (path : Text) (agreed : Option Text)
      → SameConflicts host e (publish_missing host e path agreed).0
  unfolding publish_missing
  missing-SameConflicts e path agreed = elim (Bool-cases (is_some agreed)) [
    | inl t ↦ rw t (refl, refl, refl)
    | inr f ↦ rw f (refl, refl, refl)
  ]

  present-SameConflicts :
      (e : Engine World) (path : Text) (content : Bytes) (entry : Option TreeEntry)
      → SameConflicts host e (publish_present host e path content entry).0
  unfolding publish_present
  present-SameConflicts e path content entry =
      let stored : Engine World = record e { world = host.store_object e.world content } in
      elim (Bool-cases (
        same_opt (some (host.hash_object content)) (Shadow.hash_of entry)
        && same_entry_mode (mode_of host stored path) entry)) [
          | inl t ↦ rw t (refl, refl, refl)
          | inr f ↦ rw f (refl, refl, refl)
        ]

  path-SameConflicts :
      (e : Engine World) (path : Text) → SameConflicts host e (publish_path host e path).0
  unfolding publish_path
  path-SameConflicts e path = elim (Bool-cases (is_publishable e path)) [
    | inr f ↦ rw f (refl, refl, refl)
    | inl t ↦ elim (Option-cases (read host e path)) [
      | inl gone ↦ rw (t, gone) (missing-SameConflicts e path (Shadow.get e.shadow path))
      | inr (content, here) ↦
          rw (t, here) (present-SameConflicts e path content (Shadow.entry e.shadow path))
    ]
  ]

  unit-SameConflicts :
      (b : Batch host) (r : Engine World × SyncUnit) → (add_unit host b r).engine ≡ r.0
  unfolding add_unit
  unit-SameConflicts b (e, silent) = refl
  unit-SameConflicts b (e, sent version created) = refl

  paths-SameConflicts :
      (b : Batch host) (paths : List Text)
      → SameConflicts host b.engine (publish_paths host b paths).engine
  unfolding publish_paths
  paths-SameConflicts b [] = (refl, refl, refl)
  paths-SameConflicts b (path ∷ paths) =
      let one = path-SameConflicts b.engine path in
      let first = add_unit host b (publish_path host b.engine path) in
      let same = unit-SameConflicts b (publish_path host b.engine path) in
      let rest = paths-SameConflicts first paths in
      (
        rest.0 ∙ ap (λ (d : Engine World). d.pending_conflicts) same ∙ one.0,
        rest.1 ∙ ap (λ (d : Engine World). d.quarantine) same ∙ one.1,
        rest.2 ∙ ap (λ (d : Engine World). d.deferrals) same ∙ one.2,
      )

  pub publish-SameConflicts :
      (e : Engine World) (paths : List Text) → SameConflicts host e (publish host e paths).0
  unfolding publish
  publish-SameConflicts e paths =
      paths-SameConflicts (record { engine = e; versions = []; deleted_base = [] })
        (sort (to_set [] paths))

  pub publish_all-SameConflicts : (e : Engine World) → SameConflicts host e (publish_all host e).0
  unfolding publish_all refresh_tracked
  publish_all-SameConflicts e =
      let fresh = refresh_tracked host e in
      publish-SameConflicts fresh (fresh.tracked ++ Shadow.paths fresh.shadow)

  -- A quarantined path is not published.
  pub publish_path-quarantined :
      (e : Engine World) (path : Text)
      → member path e.quarantine ≡ true
      → publish_path host e path ≡ (e, silent)
  unfolding publish_path
  publish_path-quarantined e path caught = rw (unpublishable e path caught) refl
