-- ===== src/Examples/Push.antt =====
-- A gateway with a few connections.
use crosscode.Prelude.{
  ℕ, ◌≡◌, refl, true, false, List, [], ◌∷◌, ◌++◌, none, some, map, arith, any, length, inr,
  if◌then◌else◌,
}
use crosscode.Prelude.Text.{Text, codes, same}
use crosscode.Prelude.Dict.{lookup, insert, erase}
use crosscode.Protocol.{FileVersion, Change, delete, utf8}
use crosscode.Service.Changes.{Room, rows_of, in_room}
use crosscode.Service.Changes.Sequence.{Follows}
use crosscode.Service.Gateway.{
  change, Socket, Gateway, PresenceEntry, queue, deliver, broadcast_changes, publish_presence,
  release, heartbeat, expiry_delay,
}
use crosscode.Service.Gateway.Subscribe.{
  Subscribe, register, replay_pages, abandon, fresh_connection,
}
use crosscode.Service.Gateway.Delivery.{receives, Distinct, queue_all, broadcast_changes_reaches}
use crosscode.Service.Gateway.Presence.{frames, IsNamed, frames-IsNamed}
use crosscode.Service.Gateway.Replay.{same_logs, unseen, replay_pages-ends}
use crosscode.Service.Gateway.Stale.{abandon-deliver}

abbrev room : Room
room = record { project_id = codes "p"; branch = codes "m" }

abbrev version : FileVersion
version = record {
  path = codes "a.txt";
  op = delete;
  base_hash = some (codes "1");
  content_hash = none;
  content = none;
  patch = none;
  encoding = utf8;
  mode = none;
  renamed_from = none;
}

abbrev row : ℕ → Change
row sequence = record {
  sequence = sequence;
  project_id = codes "p";
  branch = codes "m";
  replica_id = codes "r";
  created_at = codes "t";
  version = version;
}

abbrev log : List Change
log = row 3 ∷ row 4 ∷ row 5 ∷ []

abbrev socket : Socket
socket = record { is_open = true; buffered_amount = 0; sent = []; close_code = none }

log-Follows : Follows 2 (rows_of room log)
unfolding Follows rows_of in_room same
log-Follows = (refl, (refl, (refl, tt)))

length-log : length (rows_of room log) ≡ 3
unfolding rows_of in_room same
length-log = refl

length-unseen : length (unseen 2 room 3 log) ≡ 2
unfolding rows_of in_room same
length-unseen = refl

replay_pages-ends_example :
    ((replay_pages (same_logs 1 log) room 3 socket).0.sent
      ≡ socket.sent ++ map (λ c. change c) (unseen 2 room 3 log))
    × ((replay_pages (same_logs 1 log) room 3 socket).1 ≡ true)
replay_pages-ends_example =
    replay_pages-ends room log 2 3 1 socket log-Follows (omega arith)
      (inr (ground (arith, length-log))) refl (ground (arith, length-unseen))

abbrev asks : Text → Subscribe
asks replica_id = record {
  project_id = codes "p";
  branch = codes "m";
  replica_id = replica_id;
  since = 0;
}

abbrev nobody : Gateway
nobody = record {
  rooms = [];
  registries = λ i. [];
  connections = λ i. fresh_connection (codes "u") (asks (codes "none")) 0 0 socket;
}

abbrev joins : Text → ℕ → ℕ → Gateway → Gateway × ℕ
joins replica_id fresh id g = register (codes "u") (asks replica_id) 0 4194304 socket fresh id g

-- The same replica subscribes as 1 and then as 2, 2 goes, another replica subscribes as 3 to a new
-- registry, and only then the replay of 1 fails.
abbrev two : Gateway
two = (joins (codes "a") 0 2 (joins (codes "a") 0 1 nobody).0).0

abbrev three : Gateway
three = (joins (codes "b") 1 3 (release 2 two)).0

emptied : three.registries 0 ≡ []
unfolding register release publish_presence queue lookup insert erase same
emptied = refl

still_there : lookup (three.connections 3).room three.rooms ≡ some 1
unfolding register release publish_presence queue lookup insert erase same
still_there = refl

same_room : (three.connections 3).room ≡ (three.connections 1).room
unfolding register release publish_presence queue lookup insert erase same
same_room = refl

abandon-deliver_example :
    (deliver
      (abandon 1 0 three)
      (three.connections 1).room
      (change (row 6))
      (codes "r")).connections
    ≡ three.connections
abandon-deliver_example = abandon-deliver three 1 0 (change (row 6)) (codes "r") emptied

abbrev both : Gateway
both = (joins (codes "b") 0 2 (joins (codes "a") 0 1 nobody).0).0

both_there : lookup (codes "p m") both.rooms ≡ some 0
unfolding register lookup insert same
both_there = refl

both-Distinct : Distinct (both.registries 0)
unfolding Distinct any register lookup insert same
both-Distinct = (refl, (refl, tt))

broadcast_changes_reaches_example :
    (broadcast_changes both (codes "p m") (row 6 ∷ row 7 ∷ []) (codes "a")).connections 2 ≡ (
      if receives (codes "a") 2 (both.registries 0)
      then queue_all (row 6 ∷ row 7 ∷ []) (both.connections 2)
      else both.connections 2)
broadcast_changes_reaches_example =
    broadcast_changes_reaches both (codes "p m") (row 6 ∷ row 7 ∷ []) (codes "a") 0 2 both_there
      both-Distinct

abbrev announced : PresenceEntry
announced = record {
  replica_id = codes "a";
  actor = codes "somebody else";
  branch = codes "other";
  paths = codes "a.txt" ∷ [];
  head = some (codes "c0ffee");
}

frames-IsNamed_example :
    IsNamed
      (both.connections 1).presence
      (frames 120 ((1000, announced ∷ []) ∷ []) (both.connections 1)).presence
frames-IsNamed_example = frames-IsNamed 120 ((1000, announced ∷ []) ∷ []) (both.connections 1)

timer : expiry_delay 5000 1000 ≡ 4000
unfolding expiry_delay
timer = refl

dead :
    (heartbeat
      ((codes "a", 1) ∷ [])
      (heartbeat ((codes "a", 1) ∷ []) both.connections)
      1).socket.is_open
    ≡ false
unfolding heartbeat register lookup insert same
dead = refl
