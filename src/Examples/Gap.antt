-- ===== src/Examples/Gap.antt =====
-- A change that the daemon cannot take while the service does not answer, and the next one.
use crosscode.Prelude.{◌≡◌, refl, none, true, false, [], ◌∷◌, some, arith, Among, any}
use crosscode.Prelude.Text.{codes, same, same_opt, to_lower, starts_with, truthy}
use crosscode.Prelude.Dict.{lookup, member}
use crosscode.Paths.{is_safe_relative_path, split, is_forbidden_part, is_denied}
use crosscode.Core.Redact.{redact_path}
use crosscode.Core.Regex.{test, one_of}
use crosscode.Git.{read_blob}
use crosscode.Engine.{is_receivable, is_hot}
use crosscode.Engine.Tree.{disk_hash, escapes_root}
use crosscode.Protocol.{Change}
use crosscode.Host.Memory.{memory, Disk}
use crosscode.Service.Changes.{Room, page, list_changes, rows_of, in_room, after}
use crosscode.Engine.Apply.{receive_now, apply_now}
use crosscode.Daemon.{
  Daemon, is_paused, is_catchup, receive, receive_options, catch_up, apply_with, advance,
}
use crosscode.Daemon.Skip.{gap_filled, thrown_change_is_skipped}
use crosscode.Examples.Files.{version, no_link, daemon}

abbrev idle : Daemon Disk (Unit {0})
idle = record daemon { draining = false }

abbrev first : Change
first = record {
  sequence = 7;
  project_id = codes "p";
  branch = codes "main";
  replica_id = codes "peer";
  created_at = codes "t";
  version = record version { base_hash = some (codes "#q") };
}

abbrev second : Change
second = record first {
  sequence = 8;
  version = record version { content_hash = some (codes "#x") };
}

abbrev missed : Daemon Disk (Unit {0})
missed = (gap_filled memory no_link idle first).0

abbrev passed : Daemon Disk (Unit {0})
passed = (receive memory no_link missed second).0

abbrev room : Room
room = record { project_id = codes "p"; branch = codes "main" }

-- The first throws, the second is taken, and nothing is left behind the cursor.
runs :
    (same first.replica_id idle.replica_id ≡ false)
    × (same first.branch idle.branch ≡ true)
    × (is_paused idle ≡ false)
    × (is_catchup
          (receive_now memory idle.engine first.version
            (receive_options memory no_link first none)).1.outcome
        ≡ true)
    × ((gap_filled memory no_link idle first).1 ≡ true)
    × (is_paused missed ≡ false)
    × (same second.branch missed.branch ≡ true)
    × ((receive memory no_link missed second).1 ≡ false)
    × (list_changes (first ∷ second ∷ []) room passed.cursor 200 ≡ page [] 8)
unfolding receive apply_with catch_up receive_now same same_opt is_receivable disk_hash member
    is_hot lookup list_changes rows_of in_room after is_paused is_safe_relative_path any split
    is_forbidden_part to_lower is_denied redact_path test one_of starts_with apply_now escapes_root
    truthy read_blob advance
runs = (refl, refl, refl, refl, refl, refl, refl, refl, refl)

thrown_change_is_skipped_example :
    (receive memory no_link idle first ≡ (missed, true)) × ¬ Among first []
thrown_change_is_skipped_example =
    thrown_change_is_skipped memory no_link idle first second (first ∷ second ∷ []) room 200 [] 8
      runs.0 runs.1 runs.2 runs.3 runs.4 runs.5 runs.6 runs.7 (omega arith) runs.8
