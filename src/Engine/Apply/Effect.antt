-- ===== src/Engine/Apply/Effect.antt =====
-- What applying a version of packages/sync/src/engine.ts may do to the files of the checkout.
use crosscode.Prelude.{◌≡◌, ◌⊎◌, refl, none, some, if◌then◌else◌, inl, inr}
use crosscode.Prelude.Text.{Text, same}
use crosscode.Protocol.{FileVersion, FileOp, modify, delete}
use crosscode.Host.{Host, Bytes}
use crosscode.Host.Laws.{FileLaws}
use crosscode.Git.{read_blob}
use crosscode.Merge.{clean, merge_file}
use crosscode.Shadow
use crosscode.Engine.State.{
  Engine, EngineStats, ApplyResult, ApplyOutcome, write, merge, is_receivable, is_hot,
}
use crosscode.Engine.State
use crosscode.Engine.Tree.{read, disk_hash, mode_of}
use crosscode.Engine.Tree.Files.{temporary}
use crosscode.Engine.State.{mode_text}

pub op_cases : (op : FileOp) → (op ≡ modify) ⊎ (op ≡ delete)
op_cases modify = inl refl
op_cases delete = inr refl

module _ (host : Host) (laws : FileLaws host) where
  open host use {World}

  abbrev pub SameFiles : Engine World → Engine World → Type 0
  SameFiles e e' = (q : Text) → read host e' q ≡ read host e q

  -- The temporary name that a write of the path would take is free, after any bytes have been stored.
  abbrev pub IsUnused : Engine World → Text → Type 0
  IsUnused e path =
      (b : Bytes)
      → host.read_file (host.store_object e.world b)
          (temporary host laws (host.store_object e.world b) path)
        ≡ none

  -- One file has new content; the temporary name beside it is free again.
  abbrev pub Wrote : Engine World → Text → Bytes → World → Engine World → Type 0
  Wrote e path content w e' =
      (q : Text)
      → read host e' q ≡ (
          if same path q
          then some content
          else if same (temporary host laws w path) q
          then none
          else read host e q)

  abbrev pub Removed : Engine World → Text → Engine World → Type 0
  Removed e path e' = (q : Text) → read host e' q ≡ (if same path q then none else read host e q)

  -- The file here is the agreed state, and the sender built on that state.
  abbrev pub BuiltHere : Engine World → FileVersion → Type 0
  BuiltHere e v =
      (disk_hash host e v.path ≡ Shadow.get e.shadow v.path)
      × (v.base_hash ≡ Shadow.get e.shadow v.path)

  -- The shadow has these bytes and the mode of the file.
  abbrev pub AgreedOn : Engine World → Text → Bytes → Type 0
  AgreedOn e path content =
      Shadow.entry e.shadow path
      ≡ some (record { mode = mode_text (mode_of host e path); hash = host.hash_object content })

  pub data Effect (e : Engine World) (v : FileVersion) (out : Engine World × ApplyResult)
      : Type 0 where
    kept : SameFiles e out.0 → Effect e v out
    replaced :
        (content : Bytes) (w : World)
        → v.op ≡ modify
        → BuiltHere e v
        → v.content_hash ≡ some (host.hash_object content)
        → Wrote e v.path content w out.0
        → AgreedOn out.0 v.path content
        → out.1.outcome ≡ write
        → Effect e v out
    removed :
        v.op ≡ delete
        → BuiltHere e v
        → Removed e v.path out.0
        → Shadow.entry out.0.shadow v.path ≡ none
        → out.1.outcome ≡ State.delete
        → Effect e v out
    merged :
        (ours base theirs content : Bytes) (w : World)
        → v.op ≡ modify
        → read host e v.path ≡ some ours
        → read_blob host e.world v.base_hash ≡ some base
        → v.content_hash ≡ some (host.hash_object theirs)
        → merge_file host ours base theirs ≡ clean content
        → Wrote e v.path content w out.0
        → out.1.outcome ≡ merge
        → Effect e v out
