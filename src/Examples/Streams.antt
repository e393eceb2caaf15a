-- ===== src/Examples/Streams.antt =====
-- A subscriber to whom a change is broadcast between its replay and what follows.
use crosscode.Prelude.{
  ℕ, ◌≡◌, refl, ◌⊎◌, true, false, List, [], ◌∷◌, none, some, arith, length, Among, inl, inr,
}
use crosscode.Prelude.Text.{codes, same}
use crosscode.Protocol.{FileVersion, Change, delete, utf8}
use crosscode.Service.Changes.{Room, rows_of, in_room, list_changes, publish_changes, after}
use crosscode.Service.Changes.Sequence.{Follows}
use crosscode.Service.Gateway.{change, send, queue}
use crosscode.Service.Gateway.Subscribe.{Subscribe, fresh_connection, send_changes, flush}
use crosscode.Service.Gateway.Live.{
  Stream, Reach, here, later, publish, announce, read, commit, read_page, hear,
}
use crosscode.Service.Gateway.Live.Complete.{no_change_is_lost}

abbrev room : Room
room = record { project_id = codes "p"; branch = codes "m" }

abbrev version : FileVersion
version = record {
  path = codes "a.txt";
  op = delete;
  base_hash = some (codes "1");
  content_hash = none;
  content = none;
  patch = none;
  encoding = utf8;
  mode = none;
  renamed_from = none;
}

abbrev row : ℕ → Change
row sequence = record {
  sequence = sequence;
  project_id = codes "p";
  branch = codes "m";
  replica_id = codes "r";
  created_at = codes "t";
  version = version;
}

abbrev log : List Change
log = row 3 ∷ row 4 ∷ []

abbrev request : Subscribe
request = record { project_id = codes "p"; branch = codes "m"; replica_id = codes "s"; since = 3 }

abbrev joined : Stream
joined = record {
  log = log;
  unannounced = [];
  cursor = 3;
  is_registered = true;
  connection =
      fresh_connection (codes "u") request 0 10
        (record { is_open = true; buffered_amount = 0; sent = []; close_code = none });
}

abbrev published : Stream
published = commit room (codes "r") (codes "t") (version ∷ []) (read_page room joined)

abbrev announced : Stream
announced = record published {
  unannounced = [];
  connection = hear published.is_registered (row 5) published.connection;
}

log-Follows : Follows 2 (rows_of room log)
unfolding Follows rows_of in_room same
log-Follows = (refl, (refl, tt))

length-log : length (rows_of room log) ≡ 2
unfolding rows_of in_room same
length-log = refl

to_announce : published.unannounced ≡ row 5 ∷ []
unfolding commit read_page list_changes publish_changes rows_of in_room same send_changes send after
to_announce = refl

reach : Reach room joined announced
reach =
    later
      (later (later here (read joined [] refl))
        (publish (read_page room joined) (codes "r") (codes "t") (version ∷ [])))
      (announce published [] (row 5) [] to_announce)

still_there : announced.is_registered ≡ true
unfolding commit read_page list_changes publish_changes rows_of in_room same send_changes send after
    hear queue flush
still_there = refl

is_open : announced.connection.socket.is_open ≡ true
unfolding commit read_page list_changes publish_changes rows_of in_room same send_changes send after
    hear queue flush
is_open = refl

is_over : announced.connection.pending ≡ none
unfolding commit read_page list_changes publish_changes rows_of in_room same send_changes send after
    hear queue flush
is_over = refl

among : Among (row 5) (rows_of room announced.log)
unfolding commit read_page list_changes publish_changes rows_of in_room same send_changes send after
among = inr (inr (inl refl))

not_own : same (row 5).replica_id joined.connection.replica_id ≡ false
unfolding same
not_own = refl

no_change_is_lost_example :
    Among (change (row 5)) announced.connection.socket.sent ⊎ Among (row 5) announced.unannounced
no_change_is_lost_example =
    no_change_is_lost room 2 (row 5) joined announced refl log-Follows (omega arith)
      (inr (omega (arith, length-log))) reach still_there is_open is_over among (omega arith)
      not_own
