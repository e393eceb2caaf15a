-- ===== src/Engine/Frozen.antt =====
-- A conflict in packages/sync/src/engine.ts freezes its file, whatever the engine is asked to do.
use crosscode.Prelude.{
  ℕ, ◌≡◌, refl, Bool, true, not, ◌||◌, List, [], Option, some, Bool-cases, inl, inr, arith,
}
use crosscode.Prelude.Text.{Text, codes}
use crosscode.Prelude.Dict.{lookup, lookup-nil, member}
use crosscode.Protocol.{FileVersion, Conflict}
use crosscode.Host.{Host}
use crosscode.Host.Laws.{FileLaws}
use crosscode.Shadow
use crosscode.Engine.State.{Engine, is_receivable, is_hot}
use crosscode.Engine.Tree.{refresh_tracked, mark_user_edit, observe_change}
use crosscode.Engine.Publish.{silent, publish_path, publish, publish_all}
use crosscode.Engine.Publish.Frozen.{
  publish-SameConflicts, publish_all-SameConflicts, publish_path-quarantined,
}
use crosscode.Engine.Conflict.{resolve_conflict, dismiss_conflict}
use crosscode.Engine.Conflict.Frozen.{
  IsFrozen, Holds, SameConflicts, SameConflicts-Holds, resolve_conflict-Holds,
  dismiss_conflict-Holds,
}
use crosscode.Engine.Apply.{ReceiveOptions, receive_now}
use crosscode.Engine.Apply.Effect.{SameFiles}
use crosscode.Engine.Apply.Receive.{receive_now-guards}
use crosscode.Engine.Apply.Frozen.{receive_now-Holds}
use crosscode.Engine.Deferral.{retry_deferred}
use crosscode.Engine.Deferral.Frozen.{retry_deferred-Holds}
use crosscode.Engine.Head.{reset_to_head, rebase_onto_head, flush}

among_guards : (a b c : Bool) → b ≡ true → (a || b || c) ≡ true
among_guards a b c h = ground (arith, h)

none_frozen : {quarantine : List Text} → IsFrozen [] quarantine
none_frozen = record {
  frozen = λ id c e. absurd (let s = rw (lookup-nil id) at e in cc);
  single = λ id other c d e f same_path. absurd (let s = rw (lookup-nil id) at e in cc);
}

module _ (host : Host) where
  open host use {World}

  -- A call of the engine.
  pub data Call : Engine World → Engine World → Type 0 where
    receives :
        (e : Engine World) (v : FileVersion) (options : ReceiveOptions)
        → Call e (receive_now host e v options).0
    publishes : (e : Engine World) (paths : List Text) → Call e (publish host e paths).0
    publishes_all : (e : Engine World) → Call e (publish_all host e).0
    resolves :
        (e : Engine World) (id content : Text) → Call e (resolve_conflict host e id content).0
    dismisses : (e : Engine World) (id : Text) → Call e (dismiss_conflict host e id).0
    retries : (e : Engine World) → Call e (retry_deferred host e).0
    resets : (e : Engine World) → Call e (reset_to_head host e).0
    rebases :
        (e : Engine World) (previous : Option Text) → Call e (rebase_onto_head host e previous).0
    flushes : (e : Engine World) → Call e (flush host e).0
    refreshes : (e : Engine World) → Call e (refresh_tracked host e)
    marks : (e : Engine World) (path : Text) (at : ℕ) → Call e (mark_user_edit host e path at)
    observes : (e : Engine World) (path : Text) → Call e (observe_change host e path).0
    -- The checkout and the clock change by themselves.
    turns : (e : Engine World) (w : World) → Call e (record e { world = w })

  pub data Reach (e : Engine World) : Engine World → Type 0 where
    here : Reach e e
    later : {d f : Engine World} → Reach e d → Call d f → Reach e f

  reset-Holds : (e : Engine World) → Holds e → Holds (reset_to_head host e).0
  unfolding reset_to_head refresh_tracked
  reset-Holds e inv =
      elim (Bool-cases (Shadow.reset_to host e.shadow (codes "HEAD") e.world).threw) [
        | inl t ↦ rw t (record { conflicts = inv.conflicts; deferrals = inv.deferrals })
        | inr f ↦ rw f (record { conflicts = none_frozen; deferrals = tt })
      ]

  rebase-SameConflicts :
      (e : Engine World) (previous : Option Text)
      → SameConflicts host e (rebase_onto_head host e previous).0
  unfolding rebase_onto_head refresh_tracked
  rebase-SameConflicts e previous =
      elim (Bool-cases (Shadow.rebase_onto host e.shadow previous (codes "HEAD") e.world).threw) [
        | inl t ↦ rw t (refl, refl, refl)
        | inr f ↦ rw f (refl, refl, refl)
      ]

  flush-SameConflicts : (e : Engine World) → SameConflicts host e (flush host e).0
  unfolding flush
  flush-SameConflicts e = elim (Bool-cases (Shadow.flush host e.shadow e.world).threw) [
    | inl t ↦ rw t (refl, refl, refl)
    | inr f ↦ rw f (refl, refl, refl)
  ]

  observe-SameConflicts :
      (e : Engine World) (path : Text) → SameConflicts host e (observe_change host e path).0
  unfolding observe_change
  observe-SameConflicts e path = ground arith

  Call-Holds : {d e : Engine World} → Call d e → Holds d → Holds e
  unfolding refresh_tracked mark_user_edit
  Call-Holds (receives e v options) inv = receive_now-Holds host e v options inv
  Call-Holds (publishes e paths) inv =
      SameConflicts-Holds host e (publish host e paths).0 (publish-SameConflicts host e paths) inv
  Call-Holds (publishes_all e) inv =
      SameConflicts-Holds host e (publish_all host e).0 (publish_all-SameConflicts host e) inv
  Call-Holds (resolves e id content) inv = resolve_conflict-Holds host e id content inv
  Call-Holds (dismisses e id) inv = dismiss_conflict-Holds host e id inv
  Call-Holds (retries e) inv = retry_deferred-Holds host e inv
  Call-Holds (resets e) inv = reset-Holds e inv
  Call-Holds (rebases e previous) inv =
      SameConflicts-Holds host e (rebase_onto_head host e previous).0
        (rebase-SameConflicts e previous) inv
  Call-Holds (flushes e) inv =
      SameConflicts-Holds host e (flush host e).0 (flush-SameConflicts e) inv
  Call-Holds (refreshes e) inv = record { conflicts = inv.conflicts; deferrals = inv.deferrals }
  Call-Holds (marks e path at) inv = record { conflicts = inv.conflicts; deferrals = inv.deferrals }
  Call-Holds (observes e path) inv =
      SameConflicts-Holds host e (observe_change host e path).0 (observe-SameConflicts e path) inv
  Call-Holds (turns e w) inv = record { conflicts = inv.conflicts; deferrals = inv.deferrals }

  Reach-Holds : {d e : Engine World} → Reach d e → Holds d → Holds e
  Reach-Holds here inv = inv
  Reach-Holds (later r call) inv = Call-Holds call (Reach-Holds r inv)

  -- Where no call of git or of the file system fails: whatever an engine that began without conflicts
  -- and deferrals has been asked to do, in whatever order and whatever else has changed in the checkout,
  -- while a path has a conflict, receiving any version of it leaves the content of every file, a publish
  -- is silent about it, and it has no other conflict.
  pub conflict-freezes :
      (laws : FileLaws host) (d e : Engine World) (id other : Text) (c f : Conflict)
      (v : FileVersion) (options : ReceiveOptions)
      → d.pending_conflicts ≡ []
      → d.deferrals ≡ []
      → Reach d e
      → lookup id e.pending_conflicts ≡ some c
      → lookup other e.pending_conflicts ≡ some f
      → v.path ≡ c.path
      → v.path ≡ f.path
      → SameFiles host laws e (receive_now host e v options).0
        × (publish_path host e v.path ≡ (e, silent))
        × (id ≡ other)
  conflict-freezes laws d e id other c f v options none_pending none_deferred reach held held_too
        same_path same_too =
      let begun : Holds d = record {
        conflicts = rw none_pending none_frozen;
        deferrals = rw none_deferred tt;
      } in
      let inv = Reach-Holds reach begun in
      let caught : member v.path e.quarantine ≡ true =
        rw same_path (inv.conflicts.frozen id c held) in
      (
        receive_now-guards host laws e v options (
            among_guards (not (is_receivable e v.path)) (member v.path e.quarantine)
              (is_hot host e v.path) caught),
        publish_path-quarantined host e v.path caught,
        inv.conflicts.single id other c f held held_too (cc),
      )
