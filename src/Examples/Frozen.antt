-- ===== src/Examples/Frozen.antt =====
-- An engine that has raised a conflict.
use crosscode.Prelude.{◌≡◌, refl, false, [], ◌∷◌, none, some, any}
use crosscode.Prelude.Text.{Text, codes, same, same_opt, to_lower, starts_with, truthy}
use crosscode.Paths.{is_safe_relative_path, split, is_forbidden_part, is_denied}
use crosscode.Core.Redact.{redact_path}
use crosscode.Core.Regex.{test, one_of}
use crosscode.Git.{read_blob}
use crosscode.Merge.{is_binary, merge_file}
use crosscode.Prelude.Dict.{lookup, member, add, insert, erase}
use crosscode.Protocol.{Conflict}
use crosscode.Host.Memory.{memory, memory_files, Disk}
use crosscode.Engine.{Engine, is_receivable, is_hot}
use crosscode.Engine.Apply.{receive_now, apply_now, content_of}
use crosscode.Engine.Apply.Effect.{SameFiles}
use crosscode.Engine.Tree.{disk_hash, mode_of, escapes_root}
use crosscode.Engine.Conflict.{conflict_of, raise_conflict}
use crosscode.Engine.Publish.{publish_path, silent}
use crosscode.Engine.Frozen.{here, later, receives, conflict-freezes}
use crosscode.Examples.Files.{edited, version, options}

abbrev conflicted : Engine Disk
conflicted = (receive_now memory edited version options).0

abbrev identifier : Text
identifier = 0 ∷ []

abbrev raised : Conflict
raised = record {
  id = identifier;
  path = version.path;
  detected_at = [];
  ours = some (codes "y");
  theirs = some (codes "z");
  ancestor = some (codes "x");
  binary = false;
  renamed_from = none;
  peer = some (codes "peer");
}

found : lookup identifier conflicted.pending_conflicts ≡ some raised
unfolding receive_now lookup is_receivable is_safe_relative_path any split is_forbidden_part same
    to_lower is_denied redact_path test one_of starts_with same_opt disk_hash member is_hot
    apply_now content_of escapes_root read_blob truthy conflict_of raise_conflict is_binary
    merge_file mode_of add insert erase
found = refl

conflict-freezes_example :
    SameFiles memory memory_files conflicted (receive_now memory conflicted version options).0
    × (publish_path memory conflicted version.path ≡ (conflicted, silent))
    × (identifier ≡ identifier)
conflict-freezes_example =
    conflict-freezes memory memory_files edited conflicted identifier identifier raised raised
      version options refl refl (later here (receives edited version options)) found found refl refl
