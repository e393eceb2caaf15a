-- ===== src/Service/Gateway.antt =====
-- apps/service/src/ws.ts: the live push to the subscribers of a room. The objects that the gateway
-- shares, its registries and its connections, are numbered. How much of a socket is unwritten is the
-- runtime's to say.
pub mod Subscribe
pub mod Delivery
pub mod Replay
pub mod Presence
pub mod Stale
pub mod Live
use crosscode.Prelude.{
  ℕ, ◌+◌, ◌-◌, ◌*◌, Bool, true, false, not, ◌&&◌, List, [], ◌∷◌, ◌++◌, Option, none, some, min, ltb,
  leb, ◌==◌, if◌then◌else◌,
}
use crosscode.Prelude.Text.{Text, codes, same}
use crosscode.Prelude.Dict.{Dict, lookup, insert, erase}
use crosscode.Protocol.{Change}
use crosscode.Service.Changes.{Room}

pub record PresenceEntry : Type 0 where
  pub replica_id : Text
  pub actor : Text
  pub branch : Text
  pub paths : List Text
  pub head : Option Text

-- `WsSyncServerMessage`
pub data Message : Type 0 where
  change : Change → Message
  presence : List PresenceEntry → Message
  error : Text → Message

-- Terminated or closed, a socket is open no more.
pub record Socket : Type 0 where
  pub is_open : Bool
  pub buffered_amount : ℕ
  pub sent : List Message
  pub close_code : Option ℕ

pub record Connection : Type 0 where
  pub socket : Socket
  pub room : Text
  pub replica_id : Text
  pub presence : PresenceEntry
  pub is_alive : Bool
  pub max_buffered_bytes : ℕ
  pub started_at : ℕ
  pub count : ℕ
  pub pending : Option (List Message)

-- `Map<string, Map<string, Connection>>`
pub record Gateway : Type 0 where
  pub rooms : Dict ℕ
  pub registries : ℕ → Dict ℕ
  pub connections : ℕ → Connection

abbrev pub max_message_bytes : ℕ
max_message_bytes = 1048576

abbrev pub max_buffered_bytes : ℕ
max_buffered_bytes = 4 * max_message_bytes

abbrev pub presence_rate_per_minute : ℕ
presence_rate_per_minute = 120

abbrev pub rate_window_ms : ℕ
rate_window_ms = 60000

abbrev max_timeout_ms : ℕ
max_timeout_ms = 2147483647

-- `${projectId} ${branch}`
abbrev pub room_key : Room → Text
room_key room = room.project_id ++ b' ' ∷ room.branch

-- An object replaced by its next state.
abbrev pub write : {A : Type 0} → ℕ → A → (ℕ → A) → ℕ → A
write i a f j = if i == j then a else f j

-- `send`
unfoldable pub send : Message → Socket → Socket
send message socket =
    if socket.is_open then record socket { sent = socket.sent ++ message ∷ [] } else socket

-- `socket.terminate()` and `socket.close(code)`
abbrev pub terminate : Socket → Socket
terminate socket = record socket { is_open = false }

abbrev pub close : ℕ → Socket → Socket
close code socket = record socket { is_open = false; close_code = some code }

pub queue_on : Message → Connection → Option (List Message) → Connection
queue_on message c (some pending) = record c { pending = some (pending ++ message ∷ []) }
queue_on message c none =
    if ltb c.max_buffered_bytes c.socket.buffered_amount
    then record c { socket = terminate c.socket }
    else record c { socket = send message c.socket }

unfoldable pub queue : Message → Connection → Connection
unfolding queue_on
queue message c = queue_on message c c.pending

-- The loop of `deliver` over a registry.
unfoldable pub deliver_to : Message → Text → Dict ℕ → (ℕ → Connection) → ℕ → Connection
unfolding queue
deliver_to message exclude [] connections = connections
deliver_to message exclude ((replica_id, id) ∷ registry) connections =
    deliver_to message exclude registry (
      if same replica_id exclude
      then connections
      else write id (queue message (connections id)) connections)

deliver_in : Gateway → Message → Text → Option ℕ → Gateway
deliver_in g message exclude none = g
deliver_in g message exclude (some registry) = record g {
  connections = deliver_to message exclude (g.registries registry) g.connections;
}

unfoldable pub deliver : Gateway → Text → Message → Text → Gateway
unfolding deliver_in
deliver g room message exclude = deliver_in g message exclude (lookup room g.rooms)

unfoldable pub broadcast_changes : Gateway → Text → List Change → Text → Gateway
broadcast_changes g room [] exclude = g
broadcast_changes g room (c ∷ changes) exclude =
    broadcast_changes (deliver g room (change c) exclude) room changes exclude

-- Who else is in the room.
peers_of : Text → Dict ℕ → (ℕ → Connection) → List PresenceEntry
peers_of replica_id [] connections = []
peers_of replica_id ((other, id) ∷ registry) connections =
    let rest = peers_of replica_id registry connections in
    if same (connections id).replica_id replica_id then rest else (connections id).presence ∷ rest

publish_to : Dict ℕ → Dict ℕ → (ℕ → Connection) → ℕ → Connection
unfolding peers_of queue
publish_to all [] connections = connections
publish_to all ((replica_id, id) ∷ registry) connections =
    publish_to all registry (
      write id (queue (presence (peers_of replica_id all connections)) (connections id))
        connections)

publish_in : Gateway → Option ℕ → Gateway
unfolding publish_to
publish_in g none = g
publish_in g (some registry) = record g {
  connections = publish_to (g.registries registry) (g.registries registry) g.connections;
}

unfoldable pub publish_presence : Gateway → Text → Gateway
unfolding publish_in
publish_presence g room = publish_in g (lookup room g.rooms)

-- The connection after it, and whether the frame may be fanned out.
unfoldable pub take_presence_frame : ℕ → ℕ → Connection → Connection × Bool
take_presence_frame maximum now c =
    let over = leb (c.started_at + rate_window_ms) now in
    let count = (if over then 0 else c.count) + 1 in
    (record c { started_at = if over then now else c.started_at; count = count }, leb count maximum)

find_own : Text → List PresenceEntry → Option PresenceEntry
find_own replica_id [] = none
find_own replica_id (peer ∷ peers) =
    let rest = find_own replica_id peers in
    if same peer.replica_id replica_id then some peer else rest

reported : ℕ → ℕ → Connection → Option PresenceEntry → Connection × Bool
unfolding take_presence_frame
reported maximum now c none = (c, false)
reported maximum now c (some own) =
    let (c', pass) = take_presence_frame maximum now c in
    if pass
    then (record c' { presence = record c'.presence { paths = own.paths } }, true)
    else (c', false)

-- A presence frame of a client, and whether the room is told.
unfoldable pub presence_frame : ℕ → ℕ → List PresenceEntry → Connection → Connection × Bool
unfolding find_own reported
presence_frame maximum now peers c = reported maximum now c (find_own c.replica_id peers)

unfoldable pub on_presence : ℕ → ℕ → List PresenceEntry → ℕ → Gateway → Gateway
on_presence maximum now peers id g =
    let (c, told) = presence_frame maximum now peers (g.connections id) in
    let g' : Gateway = record g { connections = write id c g.connections } in
    if told then publish_presence g' c.room else g'

is_empty : Dict ℕ → Bool
is_empty [] = true
is_empty (entry ∷ registry) = false

abbrev pub is_at : ℕ → Option ℕ → Bool
is_at id none = false
is_at id (some other) = other == id

release_in : ℕ → Gateway → Option ℕ → Gateway
unfolding is_empty
release_in id g none = g
release_in id g (some registry) =
    let gone = g.connections id in
    let left = erase gone.replica_id (g.registries registry) in
    let g' : Gateway = record g { registries = write registry left g.registries } in
    if not (is_at id (lookup gone.replica_id (g.registries registry)))
    then g
    else if is_empty left
    then record g' { rooms = erase gone.room g.rooms }
    else publish_presence g' gone.room

-- `release(rooms, gone)`
unfoldable pub release : ℕ → Gateway → Gateway
unfolding release_in
release id g = release_in id g (lookup (g.connections id).room g.rooms)

-- One round of the heartbeat over a registry.
heartbeat_on : Connection → Connection
heartbeat_on c =
    if not c.is_alive
    then record c { socket = terminate c.socket }
    else record c { is_alive = false }

unfoldable pub heartbeat : Dict ℕ → (ℕ → Connection) → ℕ → Connection
unfolding heartbeat_on
heartbeat [] connections = connections
heartbeat ((replica_id, id) ∷ registry) connections =
    heartbeat registry (write id (heartbeat_on (connections id)) connections)

-- The delay of the timer that closes a stream when its token runs out.
unfoldable pub expiry_delay : (expires_at_ms now : ℕ) → ℕ
expiry_delay expires_at_ms now = min (expires_at_ms - now) max_timeout_ms
