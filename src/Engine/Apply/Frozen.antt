-- ===== src/Engine/Apply/Frozen.antt =====
-- What the apply rule of packages/sync/src/engine.ts does to the conflicts and the quarantine.
use crosscode.Prelude.{
  ◌+◌, [], refl, Bool, true, false, not, ◌&&◌, ◌||◌, Option, none, some, is_some, get_or,
  Bool-cases, inl, inr, if◌then◌else◌,
}
use crosscode.Prelude.Text.{Text, same_opt, truthy}
use crosscode.Prelude.Dict.{member}
use crosscode.Protocol.{FileVersion, FileOp, FileMode, modify, delete, same_mode}
use crosscode.Host.{Host, Bytes}
use crosscode.Git.{read_blob}
use crosscode.Merge.{is_binary, MergeResult, clean, unclean, merge_file}
use crosscode.Shadow
use crosscode.Engine.State.{
  Engine, ApplyResult, EngineStats, result, is_receivable, is_hot, catchup, rejected, quarantined,
  noop, mode_text,
}
use crosscode.Engine.State
use crosscode.Engine.Tree.{
  read, disk_hash, mode_of, set_mode, write_synced, remove_synced, escapes_root,
}
use crosscode.Engine.Conflict.Frozen.{
  Holds, IsKeyed-insert, SameConflicts, SameConflicts-Holds, Outcome, same_conflicts, raises,
  raise_conflict-Outcome, Outcome-Holds,
}
use crosscode.Engine.Apply.{
  ReceiveOptions, surface, allows_catchup, mangled, built_on_agreed, apply_delete, settle_write,
  apply_merge, apply_edited, apply_diverged, apply_modify, apply_op, apply_based, apply_unbased,
  apply_now, content_of, same_content, same_bytes, already_gone, deferral, defer, is_modify,
  receive_now, count, catchup_counted, write_counted,
}

module _ (host : Host) (e : Engine host.World) (v : FileVersion) (options : ReceiveOptions) where
  abbrev Fine : Engine host.World × ApplyResult → Type 0
  Fine r = Outcome host v.path e r.0

  either :
      (b : Bool) (x y : Engine host.World × ApplyResult)
      → Fine x
      → Fine y
      → Fine (if b then x else y)
  either true x y hx hy = hx
  either false x y hx hy = hy

  surfaced :
      (ours theirs ancestor : Option Bytes) → Fine (surface host e v options ours theirs ancestor)
  surfaced ours theirs ancestor =
      raise_conflict-Outcome host e v.path ours theirs ancestor options.peer v.renamed_from v.mode

  delete-Fine :
      (local agreed : Option Text) (base : Option Bytes)
      → Fine (apply_delete host e v local agreed base options)
  unfolding apply_delete remove_synced
  delete-Fine local agreed base = elim (Bool-cases (built_on_agreed host v local agreed)) [
    | inl t ↦ rw t (same_conflicts refl refl refl)
    | inr f ↦ rw f (surfaced (read host e v.path) none base)
  ]

  settled :
      (content : Bytes) (mode : FileMode) (counted : EngineStats → EngineStats)
      (outcome : State.ApplyOutcome)
      → Fine (settle_write host e v content mode counted outcome)
  unfolding settle_write write_synced
  settled content mode counted outcome = same_conflicts refl refl refl

  merge-Fine :
      (ours base theirs : Bytes) (mode : FileMode) (r : MergeResult)
      → Fine (apply_merge host e v ours base theirs mode options r)
  unfolding apply_merge
  merge-Fine ours base theirs mode (clean content) =
      settled content mode (λ s. record s { merges = s.merges + 1 }) State.merge
  merge-Fine ours base theirs mode (unclean refused) =
      surfaced (some ours) (some theirs) (some base)

  edited-Fine :
      (ours : Bytes) (base : Option Bytes) (theirs : Bytes) (mode : FileMode)
      → Fine (apply_edited host e v ours base theirs mode options)
  unfolding apply_edited
  edited-Fine ours none theirs mode = surfaced (some ours) (some theirs) none
  edited-Fine ours (some base) theirs mode =
      either (is_binary (some ours) || is_binary (some theirs) || is_binary (some base))
        (surface host e v options (some ours) (some theirs) (some base))
        (apply_merge host e v ours base theirs mode options (merge_file host ours base theirs))
        (surfaced (some ours) (some theirs) (some base))
        (merge-Fine ours base theirs mode (merge_file host ours base theirs))

  diverged-Fine :
      (local : Option Text) (base : Option Bytes) (theirs : Bytes) (mode : FileMode)
      → Fine (apply_diverged host e v local base theirs mode options)
  unfolding apply_diverged
  diverged-Fine none base theirs mode = surfaced none (some theirs) base
  diverged-Fine (some local) base theirs mode =
      edited-Fine (get_or (read host e v.path) []) base theirs mode

-- Storing an object changes neither.
stored-Outcome :
    (host : Host) (path : Text) (e e' : Engine host.World) (w : host.World)
    → Outcome host path (record e { world = w }) e'
    → Outcome host path e e'
stored-Outcome host path e e' w (same_conflicts p q r) = same_conflicts p q r
stored-Outcome host path e e' w (raises id c is_path p q r) = raises id c is_path p q r

module _ (host : Host) (e : Engine host.World) (v : FileVersion) (options : ReceiveOptions) where
  modify-Fine :
      (local agreed : Option Text) (base theirs : Option Bytes)
      → Fine host e v options (apply_modify host e v local agreed base options theirs)
  unfolding apply_modify
  modify-Fine local agreed base none =
      either host e v options (allows_catchup host options)
        (count host e (catchup_counted host), result v.path catchup)
        (surface host e v options (read host e v.path) none base) (same_conflicts refl refl refl)
        (surfaced host e v options (read host e v.path) none base)
  modify-Fine local agreed base (some theirs) =
      let w = host.store_object e.world theirs in
      let stored : Engine host.World = record e { world = w } in
      let mode = get_or v.mode (mode_of host stored v.path) in
      let wrote = settle_write host stored v theirs mode (write_counted host) State.write in
      let parted = apply_diverged host stored v local base theirs mode options in
      either host e v options (built_on_agreed host v local agreed) wrote parted
        (stored-Outcome host v.path e wrote.0 w
          (settled host stored v options theirs mode (write_counted host) State.write))
        (stored-Outcome host v.path e parted.0 w
          (diverged-Fine host stored v options local base theirs mode))

  op-Fine :
      (local agreed : Option Text) (base : Option Bytes) (op : FileOp)
      → Fine host e v options (apply_op host e v local agreed base options op)
  unfolding apply_op
  op-Fine local agreed base delete = delete-Fine host e v options local agreed base
  op-Fine local agreed base modify = modify-Fine local agreed base (content_of host e v base)

  unbased-Fine : Fine host e v options (apply_unbased host e v options)
  unfolding apply_unbased
  unbased-Fine =
      either host e v options (allows_catchup host options)
        (count host e (catchup_counted host), result v.path catchup)
        (surface host e v options (read host e v.path) (content_of host e v none) none)
        (same_conflicts refl refl refl)
        (surfaced host e v options (read host e v.path) (content_of host e v none) none)

  pub apply_now-Outcome :
      (local agreed : Option Text)
      → Outcome host v.path e (apply_now host e v local agreed options).0
  unfolding apply_now apply_based
  apply_now-Outcome local agreed =
      let refused : Engine host.World × ApplyResult = (e, result v.path rejected) in
      let base = read_blob host e.world v.base_hash in
      let unbased = apply_unbased host e v options in
      let based = apply_op host e v local agreed base options v.op in
      let known = if truthy v.base_hash && not (is_some base) then unbased else based in
      let whole = if mangled host v then refused else known in
      either host e v options (escapes_root host e v.path) refused whole
        (same_conflicts refl refl refl)
        (either host e v options (mangled host v) refused known (same_conflicts refl refl refl) (
          either host e v options (truthy v.base_hash && not (is_some base)) unbased based
            unbased-Fine (op-Fine local agreed base v.op)))

  same_content-SameConflicts :
      (local agreed : Option Text) → SameConflicts host e (same_content host e v local agreed).0
  unfolding same_content
  same_content-SameConflicts local agreed = elim (Bool-cases (same_opt agreed local)) [
    | inl t ↦ rw t (refl, refl, refl)
    | inr f ↦ rw f (refl, refl, refl)
  ]

  same_bytes-SameConflicts :
      (local agreed : Option Text) (m : Option FileMode)
      → SameConflicts host e (same_bytes host e v local agreed m).0
  unfolding same_bytes set_mode
  same_bytes-SameConflicts local agreed none = same_content-SameConflicts local agreed
  same_bytes-SameConflicts local agreed (some m) =
      elim (Bool-cases
        (not (same_mode m (mode_of host e v.path)) && not (member v.path e.quarantine))) [
          | inl t ↦ rw t (refl, refl, refl)
          | inr f ↦ rw f (same_content-SameConflicts local agreed)
        ]

  already_gone-SameConflicts :
      (agreed : Option Text) → SameConflicts host e (already_gone host e v agreed).0
  unfolding already_gone
  already_gone-SameConflicts agreed = elim (Bool-cases (is_some agreed)) [
    | inl t ↦ rw t (refl, refl, refl)
    | inr f ↦ rw f (refl, refl, refl)
  ]

  -- Where a path is quarantined, no conflict is raised for it.
  pub receive_now-Holds : Holds e → Holds (receive_now host e v options).0
  unfolding receive_now defer
  receive_now-Holds inv =
      let local = disk_hash host e v.path in
      let agreed = Shadow.get e.shadow v.path in
      elim (Bool-cases (not (is_receivable e v.path))) [
        | inl t ↦ rw t inv
        | inr f ↦ rw f (elim (Bool-cases (is_modify host v.op && same_opt v.content_hash local)) [
          | inl t ↦ rw t (
              SameConflicts-Holds host e (same_bytes host e v local agreed v.mode).0
                (same_bytes-SameConflicts local agreed v.mode) inv)
          | inr f ↦ rw f (elim (Bool-cases (not (is_modify host v.op) && not (is_some local))) [
            | inl t ↦ rw t (
                SameConflicts-Holds host e (already_gone host e v agreed).0
                  (already_gone-SameConflicts agreed) inv)
            | inr f ↦ rw f (elim (Bool-cases (member v.path e.quarantine)) [
              | inl t ↦ rw t inv
              | inr apart ↦ rw apart (elim (Bool-cases (is_hot host e v.path)) [
                | inl t ↦ rw t (record {
                  conflicts = inv.conflicts;
                  deferrals =
                      IsKeyed-insert v.path (deferral host e v options) e.deferrals refl
                        inv.deferrals;
                })
                | inr f ↦ rw f (
                    Outcome-Holds host v.path e (apply_now host e v local agreed options).0
                      (apply_now-Outcome local agreed) apart inv)
              ])
            ])
          ])
        ])
      ]
