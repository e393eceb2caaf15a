-- ===== src/Service/Gateway/Live.antt =====
-- apps/service/src/ws.ts with post_changes of http.ts, as one subscriber sees them: between two reads
-- of its replay others commit changes, broadcast them, and report presence. A step is what runs
-- without a wait. Retention deletes no row meanwhile.
pub mod Received
pub mod Pages
pub mod Steps
pub mod Complete
use crosscode.Prelude.{
  ℕ, ◌≡◌, Bool, true, false, not, ◌&&◌, ◌||◌, List, [], ◌∷◌, ◌++◌, none, some, get_or, length, ltb,
  if◌then◌else◌,
}
use crosscode.Prelude.Text.{Text, codes, same}
use crosscode.Protocol.{FileVersion, Change}
use crosscode.Service.Changes.{
  Room, ChangePage, page, cursor_too_old, publish_changes, list_changes,
}
use crosscode.Service.Gateway.{
  Message, change, presence, error, PresenceEntry, Socket, Connection, send, terminate, close,
  queue,
}
use crosscode.Service.Gateway.Subscribe.{send_changes, replay_limit, flush}

-- What is committed, what of it has yet to be broadcast, where the replay stands, and the subscriber.
pub record Stream : Type 0 where
  pub log : List Change
  pub unannounced : List Change
  pub cursor : ℕ
  pub connection : Connection
  -- Whether the registry of the room, where there is one, has this connection.
  pub is_registered : Bool

-- `finally`
pub finish_replay : Connection → Connection
unfolding flush
finish_replay c = flush (get_or c.pending []) (record c { pending = none })

pub replayed : ChangePage → Stream → Stream
unfolding finish_replay
replayed (page changes next) s =
    let c : Connection = record s.connection {
      socket = send_changes changes s.connection.socket;
    } in
    if ltb (length changes) replay_limit
    then record s { connection = finish_replay c }
    else record s { cursor = next; connection = c }
replayed (cursor_too_old resync_from days) s = record s {
  connection = finish_replay (record s.connection {
    socket = close 1008 (send (error (codes "cursor-too-old")) s.connection.socket);
  });
}

-- One round of the loop of `replay`.
unfoldable pub read_page : Room → Stream → Stream
unfolding replayed
read_page room s = replayed (list_changes s.log room s.cursor replay_limit) s

-- A transaction of another request.
unfoldable pub commit : Room → Text → Text → List FileVersion → Stream → Stream
commit room replica_id created_at versions s =
    let (log, changes) = publish_changes s.log room replica_id created_at versions in
    record s { log = log; unannounced = s.unannounced ++ changes }

unfoldable pub commit_elsewhere : Room → Text → Text → List FileVersion → Stream → Stream
commit_elsewhere other replica_id created_at versions s = record s {
  log = (publish_changes s.log other replica_id created_at versions).0;
}

-- `deliver` of one change, at this connection: it is found in the registry or not.
unfoldable pub hear : Bool → Change → Connection → Connection
hear registered c connection =
    if not registered || same c.replica_id connection.replica_id
    then connection
    else queue (change c) connection

-- Two requests may broadcast in another order than they have committed in.
pub data Step (room : Room) : Stream → Stream → Type 0 where
  publish :
      (s : Stream) (replica_id created_at : Text) (versions : List FileVersion)
      → Step room s (commit room replica_id created_at versions s)
  publish_elsewhere :
      (s : Stream) (other : Room) (replica_id created_at : Text) (versions : List FileVersion)
      → (same other.project_id room.project_id && same other.branch room.branch) ≡ false
      → Step room s (commit_elsewhere other replica_id created_at versions s)
  announce :
      (s : Stream) (before : List Change) (c : Change) (behind : List Change)
      → s.unannounced ≡ before ++ c ∷ behind
      → Step room s (record s {
        unannounced = before ++ behind;
        connection = hear s.is_registered c s.connection;
      })
  read :
      (s : Stream) (buffered : List Message)
      → s.connection.pending ≡ some buffered
      → Step room s (read_page room s)
  tell :
      (s : Stream) (peers : List PresenceEntry)
      → Step room s (record s { connection = queue (presence peers) s.connection })
  written :
      (s : Stream) (amount : ℕ)
      → Step room s (record s {
        connection = record s.connection {
          socket = record s.connection.socket { buffered_amount = amount };
        };
      })
  gone :
      (s : Stream)
      → Step room s
          (record s { connection = record s.connection { socket = terminate s.connection.socket } })
  -- A later connection of the replica has taken the place of this one, or another handshake that
  -- failed has deleted the room.
  unregister : (s : Stream) → Step room s (record s { is_registered = false })

-- What follows from a registration.
pub data Reach (room : Room) (s : Stream) : Stream → Type 0 where
  here : Reach room s s
  later : {t u : Stream} → Reach room s t → Step room t u → Reach room s u
