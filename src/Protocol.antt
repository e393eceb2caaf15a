-- ===== src/Protocol.antt =====
-- packages/protocol/src/sync.ts: the shapes on the wire and what their schemas accept.
use crosscode.Prelude.{
  ℕ, Bool, true, false, not, ◌&&◌, ◌||◌, Option, none, some, is_some, if◌then◌else◌,
}
use crosscode.Prelude.Text.{Text, truthy}

pub data FileOp : Type 0 where
  modify delete : FileOp

pub data Encoding : Type 0 where
  utf8 base64 : Encoding

-- "100644" and "100755".
pub data FileMode : Type 0 where
  regular executable : FileMode

unfoldable pub same_mode : FileMode → FileMode → Bool
same_mode regular regular = true
same_mode executable executable = true
same_mode _ _ = false

pub record FileVersion : Type 0 where
  pub path : Text
  pub op : FileOp
  pub base_hash : Option Text
  pub content_hash : Option Text
  pub content : Option Text
  pub patch : Option Text
  pub encoding : Encoding
  pub mode : Option FileMode
  pub renamed_from : Option Text

-- `z.string().min(1)`, and the same nullable or optional.
abbrev non_empty : Text → Bool
non_empty s = truthy (some s)

abbrev non_empty_opt : Option Text → Bool
non_empty_opt none = true
non_empty_opt (some s) = non_empty s

-- The refinement of `fileVersionSchema`, by the operation.
unfoldable pub refined : FileVersion → FileOp → Bool
refined version delete =
    not (is_some version.content || is_some version.patch)
    && not (is_some version.content_hash)
    && not (is_some version.mode)
refined version modify =
    (if is_some version.content then not (is_some version.patch) else is_some version.patch)
    && is_some version.content_hash
    && not (is_some version.patch && not (is_some version.base_hash))

unfoldable pub file_version_schema : FileVersion → Bool
unfolding refined
file_version_schema version =
    non_empty version.path
    && non_empty_opt version.base_hash
    && non_empty_opt version.content_hash
    && non_empty_opt version.renamed_from
    && refined version version.op

-- A file version as the service stored it.
pub record Change : Type 0 where
  pub sequence : ℕ
  pub project_id : Text
  pub branch : Text
  pub replica_id : Text
  pub created_at : Text
  pub version : FileVersion

pub record Conflict : Type 0 where
  pub id : Text
  pub path : Text
  pub detected_at : Text
  pub ours : Option Text
  pub theirs : Option Text
  pub ancestor : Option Text
  pub binary : Bool
  pub renamed_from : Option Text
  pub peer : Option Text
