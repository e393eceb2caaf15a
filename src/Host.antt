-- ===== src/Host.antt =====
-- What the sync engine calls and does not implement: the file system of the checkout, the `git`
-- program, the encodings of `node:buffer`, the clock and the random identifiers. Paths are relative
-- to the root of the checkout.
pub mod Laws
pub mod Memory
use crosscode.Prelude.{ℕ, ◌≡◌, ◌≢◌, Bool, true, false, Option, none, some, List, if◌then◌else◌}
use crosscode.Prelude.Text.{Text, same, truthy}
use crosscode.Protocol.{Encoding, utf8, base64, FileMode}

abbrev pub Bytes : Type 0
Bytes = List ℕ

pub record Host : Type 1 where
  pub World : Type 0
  -- Another type of `git`: the index file that `GIT_INDEX_FILE` names.
  pub Index : Type 0
  -- `readFile` with ENOENT and EISDIR as `none`, `stat`, `lstat`, and the calls that write.
  pub read_file : World → Text → Option Bytes
  pub has_execute_bit : World → Text → Bool
  pub is_symbolic_link : World → Text → Option Bool
  pub make_directory : World → Text → World
  pub write_file : World → Text → Bytes → FileMode → World
  pub rename_file : World → Text → Text → World
  pub remove_file : World → Text → World
  pub change_mode : World → Text → FileMode → World
  -- `mkdtemp` under the system's directory for temporary files.
  pub make_temporary : World → Option Text × World
  -- `join`, `dirname` and `basename`.
  pub join_path : Text → Text → Text
  pub directory_name : Text → Text
  pub base_name : Text → Text
  -- `git hash-object`, with and without `-w`, and `git cat-file blob`.
  pub hash_object : Bytes → Text
  pub store_object : World → Bytes → World
  pub cat_file : World → Text → Option Bytes
  -- `git merge-file -p`, `git diff --no-index` and `git apply`: exit status and what they wrote.
  pub merge_file : Bytes → Bytes → Bytes → ℕ × Bytes
  pub diff : Bytes → Bytes → ℕ × Bytes
  pub apply : Bytes → Text → ℕ × Bytes
  -- Commands on trees and refs: the trimmed output, or nothing on a failure.
  pub ls_files : World → Text
  pub ls_tree : World → Text → Option Text
  pub rev_parse : World → Text → Option Text
  pub read_tree : World → Text → Option Index × World
  pub update_index : Index → Text → World → Option Index × World
  pub write_tree : Index → World → Option Text × World
  pub commit_tree : Text → Option Text → Text → World → Option Text × World
  pub update_ref : Text → Text → Option Text → World → Option (Unit {0}) × World
  -- `node:buffer`.
  pub is_utf8 : Bytes → Bool
  pub decode : Bytes → Encoding → Text
  pub encode : Text → Encoding → Bytes
  -- `Date.now()`, `new Date().toISOString()` and `randomUUID()`.
  pub now : World → ℕ
  pub timestamp : World → Text
  pub random_uuid : World → Text
  pub after_uuid : World → World
