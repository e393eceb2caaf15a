-- ===== src/Cli/JsonFile.antt =====
-- apps/cli/src/json-file.ts: a configuration file that belongs to the user is read, merged, and
-- written only where the merge changed something.
pub mod Atomic
use crosscode.Prelude.{Bool, true, false, List, [], ◌++◌, Option, none, some, get_or, if◌then◌else◌}
use crosscode.Prelude.Text.{Text, codes, same}
use crosscode.Cli.Json.{Json, Members, object, end}

-- What `readFile` does: a file that is not there is told from one that cannot be read.
pub data Read : Type 0 where
  found : Text → Read
  missing : Read
  unreadable : Read

-- `node:fs`, `node:path`, `JSON` and the number of the process. A call that changes files says
-- whether it threw.
pub record System : Type 1 where
  pub World : Type 0
  pub read_file : World → Text → Read
  pub make_directory : World → Text → Bool × World
  pub write_file : World → Text → Text → Bool × World
  pub rename_file : World → Text → Text → Bool × World
  pub remove_file : World → Text → World
  pub directory_name : Text → Text
  pub join_path : Text → List Text → Text
  pub parse : Text → Option Json
  pub stringify : Json → Text
  pub pretty : Json → Text
  pub process_id : Text

pub data Thrown : Type 0 where
  unparseable : Thrown
  failed : Thrown

pub data Result (A : Type 0) : Type 0 where
  returned : A → Result A
  threw : Thrown → Result A

unfoldable pub as_object : Option Json → Result (Option Members)
as_object (some (object m)) = returned (some m)
as_object _ = threw unparseable

module _ (system : System) where
  open system use {World}

  unfoldable pub contents_object : Read → Result (Option Members)
  unfolding as_object
  contents_object (found contents) = as_object (system.parse contents)
  contents_object missing = returned none
  contents_object unreadable = threw failed

  unfoldable pub read_json_object : World → Text → Result (Option Members)
  unfolding contents_object
  read_json_object w path = contents_object (system.read_file w path)

  unfoldable pub temporary_name : Text → Text
  temporary_name path = path ++ (codes ".crosscode-" ++ (system.process_id ++ codes ".tmp"))

  -- Whether it threw, where no mode is asked for.
  unfoldable pub write_file_atomic : World → Text → Text → Bool × World
  write_file_atomic w path contents =
      let temporary = temporary_name path in
      let (unwritten, written) = system.write_file w temporary contents in
      let (unmoved, moved) = system.rename_file written temporary path in
      if unwritten
      then (true, system.remove_file written temporary)
      else if unmoved
      then (true, system.remove_file moved temporary)
      else (false, moved)

  -- The text of an object in a file.
  unfoldable pub text_of : Members → Text
  text_of m = system.pretty (object m) ++ codes "\n"

  unfoldable pub write_json_object_if_changed :
      World → Text → Option Members → Members → Result Bool × World
  unfolding write_file_atomic
  write_json_object_if_changed w path existing merged =
      let (undirected, made) = system.make_directory w (system.directory_name path) in
      let (unwritten, written) = write_file_atomic made path (text_of merged) in
      if same (system.stringify (object merged)) (system.stringify (object (get_or existing end)))
      then (returned false, w)
      else if undirected
      then (threw failed, made)
      else if unwritten
      then (threw failed, written)
      else (returned true, written)
