-- ===== src/Engine/Apply/Now.antt =====
-- `applyNow` of packages/sync/src/engine.ts, branch by branch.
use crosscode.Prelude.{
  [], ap, ◌≡◌, refl, ◌∙◌, true, false, not, ◌&&◌, ◌||◌, Option, none, some, arith, if◌then◌else◌,
  is_some, get_or, Bool-cases, Option-cases, inl, inr,
}
use crosscode.Prelude.Text.{same_refl, Text, same, same_opt_iff, truthy}
use crosscode.Protocol.{FileVersion, FileMode, FileOp, modify, delete}
use crosscode.Host.{Host, Bytes}
use crosscode.Host.Laws.{FileLaws}
use crosscode.Git.{read_blob}
use crosscode.Merge.{MergeResult, clean, unclean, merge_file, is_binary}
use crosscode.Shadow
use crosscode.Engine.State.{Engine, EngineStats, ApplyOutcome, write}
use crosscode.Engine.Tree.{
  read, disk_hash, write_synced, remove_synced, place_file, mode_of, escapes_root,
}
use crosscode.Engine.Tree.Files.{temporary, read-place_file}
use crosscode.Engine.Conflict.{raise_conflict}
use crosscode.Engine.Apply.{
  ReceiveOptions, built_on_agreed, allows_catchup, surface, mangled, content_of, apply_delete,
  apply_merge, apply_edited, apply_diverged, apply_modify, apply_op, apply_based, apply_unbased,
  apply_now, is_modify,
}
use crosscode.Shadow.Overlay.{entry-set, entry-remove}
use crosscode.Engine.Apply.{write_counted, settle_write}
use crosscode.Engine.State.{mode_text}
use crosscode.Engine.Tree.Files.{mode_of-executes, execute-place_file, temporary}
use crosscode.Engine.Apply.Effect.{
  SameFiles, IsUnused, BuiltHere, AgreedOn, Effect, kept, replaced, removed, merged,
}
use crosscode.Engine.Apply.Content.{content_hash_of}

module _ (host : Host) (laws : FileLaws host) where
  open host use {World}

  surface-SameFiles :
      (e : Engine World) (v : FileVersion) (options : ReceiveOptions)
      (ours theirs ancestor : Option Bytes)
      → SameFiles host laws e (surface host e v options ours theirs ancestor).0
  unfolding raise_conflict
  surface-SameFiles e v options ours none ancestor q = laws.quiet_uuid.0 e.world q
  surface-SameFiles e v options ours (some theirs) ancestor q =
      (laws.quiet_store theirs).0 (host.after_uuid e.world) q ∙ laws.quiet_uuid.0 e.world q

  -- After a write the path is agreed on, so that a publish passes it over.
  written-AgreedOn :
      (e : Engine World) (v : FileVersion) (content : Bytes) (mode : FileMode)
      (counted : EngineStats → EngineStats) (outcome : ApplyOutcome)
      → v.content_hash ≡ some (host.hash_object content)
      → host.read_file e.world (temporary host laws e.world v.path) ≡ none
      → AgreedOn host laws (settle_write host e v content mode counted outcome).0 v.path content
  unfolding settle_write write_synced
  written-AgreedOn e v content mode counted outcome hashed unused =
      let after = (settle_write host e v content mode counted outcome).0 in
      let here =
        mode_of-executes host laws after v.path mode
          (execute-place_file host laws e.world v.path content mode unused) in
      entry-set e.shadow v.path v.path (get_or v.content_hash []) (mode_text mode)
      ∙ rw (same_refl v.path) (cc (ap (λ o. get_or o []) hashed, here))

  -- A file placed in the world after the sender's bytes were stored, seen from before.
  placed :
      (e stored : Engine World) (path q : Text) (content : Bytes) (mode : FileMode)
      → SameFiles host laws e stored
      → host.read_file (place_file host stored.world path content mode) q ≡ (
          if same path q
          then some content
          else if same (temporary host laws stored.world path) q
          then none
          else read host e q)
  placed e stored path q content mode same_files =
      rw (← same_files q) (read-place_file host laws stored.world path q content mode)

  surface-kept :
      (e stored : Engine World) (v : FileVersion) (options : ReceiveOptions)
      (ours theirs ancestor : Option Bytes)
      → SameFiles host laws e stored
      → Effect host laws e v (surface host stored v options ours theirs ancestor)
  surface-kept e stored v options ours theirs ancestor same_files =
      kept λ q. surface-SameFiles stored v options ours theirs ancestor q ∙ same_files q

  module _ (e stored : Engine World) (v : FileVersion) (options : ReceiveOptions) (mode : FileMode)
      (same_files : SameFiles host laws e stored) where
    merge-Effect :
        (ours base theirs : Bytes) (m : MergeResult)
        → v.op ≡ modify
        → read host e v.path ≡ some ours
        → read_blob host e.world v.base_hash ≡ some base
        → v.content_hash ≡ some (host.hash_object theirs)
        → merge_file host ours base theirs ≡ m
        → Effect host laws e v (apply_merge host stored v ours base theirs mode options m)
    unfolding apply_merge write_synced
    merge-Effect ours base theirs (clean content) is_modify here based hashed is_clean =
        merged ours base theirs content stored.world is_modify here based hashed is_clean
          (λ q. placed e stored v.path q content mode same_files) refl
    merge-Effect ours base theirs (unclean refused) is_modify here based hashed is_clean =
        surface-kept e stored v options (some ours) (some theirs) (some base) same_files

    edited-Effect :
        (ours : Bytes) (base : Option Bytes) (theirs : Bytes)
        → v.op ≡ modify
        → read host e v.path ≡ some ours
        → read_blob host e.world v.base_hash ≡ base
        → v.content_hash ≡ some (host.hash_object theirs)
        → Effect host laws e v (apply_edited host stored v ours base theirs mode options)
    unfolding apply_edited
    edited-Effect ours none theirs is_modify here based hashed =
        surface-kept e stored v options (some ours) (some theirs) none same_files
    edited-Effect ours (some base) theirs is_modify here based hashed =
        elim (Bool-cases
          (is_binary (some ours) || is_binary (some theirs) || is_binary (some base))) [
            | inl b ↦
                rw b
                  (surface-kept e stored v options (some ours) (some theirs) (some base) same_files)
            | inr b ↦ rw b (
                merge-Effect ours base theirs (merge_file host ours base theirs) is_modify here
                  based hashed refl)
          ]

    diverged-Effect :
        (base : Option Bytes) (theirs : Bytes)
        → v.op ≡ modify
        → read_blob host e.world v.base_hash ≡ base
        → v.content_hash ≡ some (host.hash_object theirs)
        → Effect host laws e v
            (apply_diverged host stored v (disk_hash host e v.path) base theirs mode options)
    unfolding apply_diverged disk_hash
    diverged-Effect base theirs is_modify based hashed = elim (Option-cases (read host e v.path)) [
      | inl gone ↦
          rw (gone, apply_diverged)
            (surface-kept e stored v options none (some theirs) base same_files)
      | inr (ours, there) ↦
          rw (there, apply_diverged, same_files v.path, there)
            (edited-Effect ours base theirs is_modify there based hashed)
    ]

  module _ (e : Engine World) (v : FileVersion) (options : ReceiveOptions)
      (unused : IsUnused host laws e v.path) where
    built_here :
        built_on_agreed host v (disk_hash host e v.path) (Shadow.get e.shadow v.path) ≡ true
        → BuiltHere host laws e v
    built_here h = ground (
      arith,
      same_opt_iff (disk_hash host e v.path) (Shadow.get e.shadow v.path),
      same_opt_iff v.base_hash (Shadow.get e.shadow v.path),
    )

    modify-Effect :
        (base theirs : Option Bytes)
        → v.op ≡ modify
        → read_blob host e.world v.base_hash ≡ base
        → ((b : Bytes) → theirs ≡ some b → v.content_hash ≡ some (host.hash_object b))
        → Effect host laws e v (
            apply_modify host e v
              (disk_hash host e v.path)
              (Shadow.get e.shadow v.path)
              base
              options
              theirs)
    unfolding apply_modify write_synced
    modify-Effect base none is_modify based hashed =
        elim (Bool-cases (allows_catchup host options)) [
          | inl t ↦ rw t (kept λ q. refl)
          | inr f ↦ rw f (surface-kept e e v options (read host e v.path) none base (λ q. refl))
        ]
    modify-Effect base (some theirs) is_modify based hashed =
        let stored = record e { world = host.store_object e.world theirs } in
        let mode = get_or v.mode (mode_of host stored v.path) in
        let same_files : SameFiles host laws e stored =
          λ q. (laws.quiet_store theirs).0 e.world q in
        elim (Bool-cases
          (built_on_agreed host v (disk_hash host e v.path) (Shadow.get e.shadow v.path))) [
            | inl t ↦ rw t (
                replaced theirs stored.world is_modify (built_here t) (hashed theirs refl)
                  (λ q. placed e stored v.path q theirs mode same_files)
                  (written-AgreedOn stored v theirs mode (write_counted host) write
                    (hashed theirs refl) (unused theirs))
                  refl)
            | inr f ↦ rw f (
                diverged-Effect e stored v options mode same_files base theirs is_modify based
                  (hashed theirs refl))
          ]

    delete-Effect :
        (base : Option Bytes)
        → v.op ≡ delete
        → Effect host laws e v (
            apply_delete host e v
              (disk_hash host e v.path)
              (Shadow.get e.shadow v.path)
              base
              options)
    unfolding apply_delete remove_synced
    delete-Effect base is_delete =
        elim (Bool-cases
          (built_on_agreed host v (disk_hash host e v.path) (Shadow.get e.shadow v.path))) [
            | inl t ↦ rw t (
                removed is_delete (built_here t) (λ q. laws.read-remove e.world v.path q)
                  (entry-remove e.shadow v.path v.path ∙ rw (same_refl v.path)) refl)
            | inr f ↦ rw f (surface-kept e e v options (read host e v.path) none base (λ q. refl))
          ]

    unbased-Effect : Effect host laws e v (apply_unbased host e v options)
    unfolding apply_unbased
    unbased-Effect = elim (Bool-cases (allows_catchup host options)) [
      | inl t ↦ rw t (kept λ q. refl)
      | inr f ↦ rw f (
          surface-kept e e v options (read host e v.path) (content_of host e v none) none
            (λ q. refl))
    ]

    op-Effect :
        (base : Option Bytes) (op : FileOp)
        → v.op ≡ op
        → mangled host v ≡ false
        → read_blob host e.world v.base_hash ≡ base
        → Effect host laws e v (
            apply_op host e v
              (disk_hash host e v.path)
              (Shadow.get e.shadow v.path)
              base
              options
              op)
    unfolding apply_op
    op-Effect base delete is_delete whole based = delete-Effect base is_delete
    op-Effect base modify is_modify whole based =
        modify-Effect base (content_of host e v base) is_modify based
          (λ b h. content_hash_of host e v base whole h)

    based-Effect :
        (base : Option Bytes)
        → mangled host v ≡ false
        → read_blob host e.world v.base_hash ≡ base
        → Effect host laws e v (
            apply_based host e v
              (disk_hash host e v.path)
              (Shadow.get e.shadow v.path)
              base
              options)
    unfolding apply_based
    based-Effect base whole based = op-Effect base v.op refl whole based

    -- What applying does, in the state that it is applied in: the files stay; or the sender's bytes
    -- replace, or its delete removes, a file that was the agreed state that the sender built on; or a
    -- clean merge of the bytes on disk with the sender's, from the sender's base, is written.
    pub apply_now-Effect :
        Effect host laws e v
          (apply_now host e v (disk_hash host e v.path) (Shadow.get e.shadow v.path) options)
    unfolding apply_now
    apply_now-Effect = elim (Bool-cases (escapes_root host e v.path)) [
      | inl t ↦ rw t (kept λ q. refl)
      | inr f ↦ rw f (elim (Bool-cases (mangled host v)) [
        | inl t ↦ rw t (kept λ q. refl)
        | inr whole ↦
            rw whole
              (elim (Bool-cases
                (truthy v.base_hash && not (is_some (read_blob host e.world v.base_hash)))) [
                  | inl t ↦ rw t unbased-Effect
                  | inr t ↦ rw t (based-Effect (read_blob host e.world v.base_hash) whole refl)
                ])
      ])
    ]
