-- ===== src/Examples/Files.antt =====
-- A checkout with one tracked file, on the host in memory.
use crosscode.Prelude.{
  ℕ, ◌+◌, List, length, ◌≡◌, refl, true, false, not, ◌||◌, [], ◌∷◌, ◌++◌, Option, none, some, arith,
  All, any, if◌then◌else◌,
}
use crosscode.Prelude.Text.{Text, codes, same, same_refl, same_opt, truthy}
use crosscode.Prelude.Dict.{add, lookup, member}
use crosscode.Protocol.{FileVersion, Change, modify, utf8, regular}
use crosscode.Daemon.{is_paused, catch_up}
use crosscode.Daemon.Checkout.{
  Checkout, Observation, mark_dirty, track_head, set_paused, observe_git, resolve,
}
use crosscode.Daemon.Checkout.Head.{track_head_twice}
use crosscode.Daemon.Checkout.Pause.{
  awaited, receive_all, Sleeps, paused_as, pause_holds, catch_up_ignores_pause,
}
use crosscode.Engine.Conflict.{resolve_conflict}
use crosscode.Host.Memory.{memory, full_disk, memory_files, memory_objects, Disk}
use crosscode.Core.Regex.{test, one_of}
use crosscode.Core.Redact.{redact_path}
use crosscode.Core.Nested.{redact_path-nested}
use crosscode.Shadow.{TreeEntry, ShadowTree, entry, get, hash_of, is_dirty, flush, rebase_trees}
use crosscode.Shadow.Overlay.{Shows}
use crosscode.Shadow.Rebase.{rebase_trees-follows}
use crosscode.Engine.{Engine, default_options, is_receivable, is_hot}
use crosscode.Service.Changes.Sequence.{Follows}
use crosscode.Daemon.{Link, Daemon, walk}
use crosscode.Daemon.Cursor.{walk-Follows}
use crosscode.Engine.Tree.{temporary_name}
use crosscode.Engine.Publish.{publish}
use crosscode.Engine.Publish.Once.{publish_twice}
use crosscode.Engine.Publish.Schema.{IsSendable, IsHashed, publish-Sendable}
use crosscode.Engine.Apply.{ReceiveOptions, receive_now}
use crosscode.Engine.Apply.Effect.{IsUnused, Effect, SameFiles}
use crosscode.Engine.Apply.Receive.{receive_now-Effect, receive_now-guards}

abbrev pub file : Text
file = codes "a.txt"

abbrev pub agreed : TreeEntry
agreed = record { mode = codes "100644"; hash = codes "#x" }

abbrev pub disk : Disk
disk = record {
  files = (file, (codes "x", regular)) ∷ [];
  objects = codes "x" ∷ [];
  clock = 20000;
  serial = 0;
}

abbrev pub no_tree : ShadowTree
no_tree = record { ref = codes "refs/crosscode/backup"; entries = []; pending = [] }

abbrev pub tree : ShadowTree
tree = record {
  ref = codes "refs/crosscode/shadow";
  entries = (file, agreed) ∷ [];
  pending = (file, some agreed) ∷ [];
}

abbrev pub engine : Engine Disk
engine = record {
  options = default_options;
  shadow = tree;
  backup = no_tree;
  last_edit = [];
  self_writes = [];
  quarantine = [];
  pending_conflicts = [];
  conflict_base = [];
  conflict_mode = [];
  deferrals = [];
  tracked = file ∷ [];
  stats = record {
    writes = 0;
    merges = 0;
    deletes = 0;
    noops = 0;
    conflicts = 0;
    deferrals = 0;
    forced = 0;
    catchups = 0;
    published = 0;
  };
  world = disk;
}

-- The file was edited since it was agreed on.
abbrev pub edited : Engine Disk
edited = record engine { world = record disk { files = (file, (codes "y", regular)) ∷ [] } }

abbrev pub version : FileVersion
version = record {
  path = file;
  op = modify;
  base_hash = some (codes "#x");
  content_hash = some (codes "#z");
  content = some (codes "z");
  patch = none;
  encoding = utf8;
  mode = none;
  renamed_from = none;
}

abbrev pub options : ReceiveOptions
options = record { peer = some (codes "peer"); allow_catchup = none }

abbrev nothing : Text → Option TreeEntry
nothing path = none

tree_Shows : Shows nothing tree
unfolding lookup
tree_Shows q = ground arith

engine_IsHashed : IsHashed engine
unfolding lookup truthy
engine_IsHashed q x h = ground arith

redacted : redact_path (codes ".env") ≡ true
unfolding redact_path any test one_of
redacted = refl

redact_path-nested_example : redact_path (codes "app" ++ (b'/' ∷ codes ".env")) ≡ true
redact_path-nested_example = redact_path-nested (codes "app") (codes ".env") redacted

unused : IsUnused memory memory_files engine version.path
unfolding add lookup same temporary_name
unused b = refl

receive_now-Effect_example :
    Effect memory memory_files engine version (receive_now memory engine version options)
receive_now-Effect_example = receive_now-Effect memory memory_files engine version options unused

quarantined :
    (not (is_receivable (record engine { quarantine = file ∷ [] }) file)
      || member file (file ∷ [])
      || is_hot memory (record engine { quarantine = file ∷ [] }) file)
    ≡ true
unfolding member
quarantined = ground (arith, same_refl file)

receive_now-guards_example :
    SameFiles memory memory_files engine
      (receive_now memory (record engine { quarantine = file ∷ [] }) version options).0
receive_now-guards_example =
    receive_now-guards memory memory_files (record engine { quarantine = file ∷ [] }) version
      options quarantined

publish_twice_example : (publish memory (publish memory edited (file ∷ [])).0 (file ∷ [])).1 ≡ []
publish_twice_example = publish_twice memory memory_files edited (file ∷ [])

publish-Sendable_example :
    All IsSendable (publish memory edited (file ∷ [])).1
    × IsHashed (publish memory edited (file ∷ [])).0
publish-Sendable_example =
    publish-Sendable memory memory_objects memory_files edited (file ∷ []) engine_IsHashed

loses_batch : is_dirty (flush full_disk tree disk).tree ≡ false
unfolding flush
loses_batch = refl

rebase_trees-follows_example :
    (entry (rebase_trees ((file, agreed) ∷ []) [] tree) file ≡ (
      if same_opt (get tree file) (hash_of (lookup file ((file, agreed) ∷ [])))
      then lookup file []
      else entry tree file))
    × Shows nothing (rebase_trees ((file, agreed) ∷ []) [] tree)
rebase_trees-follows_example =
    rebase_trees-follows ((file, agreed) ∷ []) [] tree nothing file tree_Shows

-- A network that takes every publish and has no page.
abbrev pub no_link : Link
no_link = record {
  Net = Unit {0};
  changes = λ net cursor. (none, net);
  publish = λ net versions. (some tt, net);
}

abbrev pub daemon : Daemon Disk (Unit {0})
daemon = record {
  engine = engine;
  net = tt;
  replica_id = codes "me";
  branch = codes "main";
  cursor = 6;
  persisted = none;
  held = [];
  draining = true;
  user_paused = false;
  in_operation = false;
  failed = false;
}

abbrev change : Text → ℕ → Change
change replica_id sequence = record {
  sequence = sequence;
  project_id = codes "p";
  branch = codes "main";
  replica_id = replica_id;
  created_at = codes "t";
  version = version;
}

abbrev changes : List Change
changes = change (codes "me") 7 ∷ change (codes "peer") 8 ∷ []

changes-Follows : Follows 6 changes
unfolding Follows
changes-Follows = (refl, (refl, tt))

walk-Follows_example :
    ((walk memory no_link daemon changes).0.cursor ≡ 6 + length changes)
    × ((walk memory no_link daemon changes).1 ≡ false)
walk-Follows_example = walk-Follows memory no_link daemon changes changes-Follows

abbrev checkout : Checkout Disk (Unit {0})
checkout = record { daemon = daemon; dirty = file ∷ []; head = none }

abbrev looks : Observation
looks = record {
  in_operation = false;
  branch = codes "other";
  head = some (codes "c1");
  registered = none;
}

track_head_twice_example :
    track_head memory no_link looks (track_head memory no_link looks checkout).0
    ≡ ((track_head memory no_link looks checkout).0, false)
track_head_twice_example = track_head_twice memory no_link looks checkout

abbrev after_switch : Checkout Disk (Unit {0})
after_switch = (observe_git memory no_link looks checkout).0

abbrev paused : Checkout Disk (Unit {0})
paused = record checkout { daemon = record daemon { user_paused = true } }

is_held : is_paused paused.daemon ≡ true
unfolding is_paused
is_held = refl

abbrev incoming : Change
incoming = record {
  sequence = 9;
  project_id = codes "p";
  branch = daemon.branch;
  replica_id = codes "peer";
  created_at = codes "t";
  version = version;
}

abbrev after_stream : Daemon Disk (Unit {0})
after_stream = receive_all memory no_link paused.daemon (incoming ∷ incoming ∷ [])

pause_holds_example :
    (after_stream.engine ≡ daemon.engine)
    × (after_stream.net ≡ daemon.net)
    × (after_stream.held
        ≡ daemon.held ++ awaited daemon.replica_id daemon.branch (incoming ∷ incoming ∷ []))
    × Sleeps memory no_link looks (record paused { daemon = after_stream })
pause_holds_example = pause_holds memory no_link looks paused (incoming ∷ incoming ∷ []) is_held

catch_up_ignores_pause_example :
    catch_up memory no_link (paused_as memory no_link true false daemon) ≡ (
      paused_as memory no_link true false (catch_up memory no_link daemon).0,
      (catch_up memory no_link daemon).1,
    )
catch_up_ignores_pause_example = catch_up_ignores_pause memory no_link daemon true false

marked : (mark_dirty memory no_link (codes "b.txt") checkout).dirty ≡ (file ∷ codes "b.txt" ∷ [])
unfolding mark_dirty add member same
marked = refl

unpaused : (set_paused memory no_link looks true checkout).1 ≡ false
unfolding set_paused
unpaused = refl

no_conflict : (resolve memory no_link (codes "none") [] daemon).1 ≡ false
unfolding resolve resolve_conflict lookup
no_conflict = refl
