-- ===== src/Merge.antt =====
-- packages/sync/src/merge.ts.
use crosscode.Prelude.{
  ℕ, Bool, true, false, Option, none, some, any, take, ltb, ◌==◌, if◌then◌else◌,
}
use crosscode.Prelude.Text.{Text}
use crosscode.Protocol.{utf8}
use crosscode.Host.{Host, Bytes}

-- A NUL byte in the first 8000.
unfoldable pub is_binary : Option Bytes → Bool
is_binary none = false
is_binary (some content) = any (λ c. c == 0) (take 8000 content)

pub data MergeResult : Type 0 where
  clean : Bytes → MergeResult
  unclean : (refused : Bool) → MergeResult

abbrev merge_result : ℕ × Bytes → MergeResult
merge_result (status, stdout) =
    if ltb 127 status then unclean true else if status == 0 then clean stdout else unclean false

module _ (host : Host) where
  unfoldable pub merge_file : Bytes → Bytes → Bytes → MergeResult
  merge_file ours base theirs = merge_result (host.merge_file ours base theirs)

  -- `--no-index` exits 1 when the files differ.
  unfoldable pub make_patch : Bytes → Bytes → Option Text
  make_patch base next =
      let (status, stdout) = host.diff base next in
      if status == 1 then some (host.decode stdout utf8) else none

  unfoldable pub apply_patch : Bytes → Text → Option Bytes
  apply_patch base patch =
      let (status, content) = host.apply base patch in if status == 0 then some content else none
