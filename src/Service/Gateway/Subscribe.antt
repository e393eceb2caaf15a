-- ===== src/Service/Gateway/Subscribe.antt =====
-- apps/service/src/ws.ts: the handshake of a subscriber. A page of the replay reads the log as it then
-- is: the logs that the pages read are an argument, one for each page.
use crosscode.Prelude.{
  ℕ, Bool, true, false, List, [], ◌∷◌, Option, none, some, get_or, length, ltb, if◌then◌else◌,
}
use crosscode.Prelude.Text.{Text, codes, same}
use crosscode.Prelude.Dict.{Dict, lookup, insert, erase}
use crosscode.Protocol.{Change}
use crosscode.Service.Changes.{Room, page, cursor_too_old, list_changes}
use crosscode.Service.Invites.{
  Reply, ok, refused, failed, ProjectMembership, Tables, require_membership,
}
use crosscode.Service.Replicas.{ReplicaRow, touch_replica}
use crosscode.Service.Gateway.{
  Message, change, error, Socket, Connection, Gateway, write, send, terminate, close, queue,
  publish_presence, room_key, is_empty, is_at,
}

-- What a subscribe frame asks for.
pub record Subscribe : Type 0 where
  pub project_id : Text
  pub branch : Text
  pub replica_id : Text
  pub since : ℕ

abbrev pub room_asked : Subscribe → Room
room_asked request = record { project_id = request.project_id; branch = request.branch }

same_branch : Text → Reply Text → Reply Text
same_branch branch (refused e) = refused e
same_branch branch (ok registered) =
    if same registered branch then ok registered else refused failed

admitted :
    Reply ProjectMembership → Text → Subscribe → ℕ → Dict ReplicaRow → Reply Text × Dict ReplicaRow
unfolding same_branch
admitted (refused e) user_id request now replicas = (refused e, replicas)
admitted (ok m) user_id request now replicas =
    let (r, replicas') = touch_replica request.project_id user_id request.replica_id now replicas in
    (same_branch request.branch r, replicas')

-- The proof that the replica is this user's, in this project, on this branch.
unfoldable pub admit :
    Tables → Text → Subscribe → ℕ → Dict ReplicaRow → Reply Text × Dict ReplicaRow
unfolding admitted
admit t user_id request now replicas =
    admitted (require_membership t request.project_id user_id) user_id request now replicas

abbrev pub fresh_connection : Text → Subscribe → ℕ → ℕ → Socket → Connection
fresh_connection user_id request now max_buffered socket = record {
  socket = socket;
  room = room_key (room_asked request);
  replica_id = request.replica_id;
  presence = record {
    replica_id = request.replica_id;
    actor = user_id;
    branch = request.branch;
    paths = [];
    head = none;
  };
  is_alive = true;
  max_buffered_bytes = max_buffered;
  started_at = now;
  count = 0;
  pending = some [];
}

-- The registry of the room, made where there is none.
registry_of : Text → ℕ → Gateway → Gateway × ℕ
registry_of room fresh g = elim (lookup room g.rooms) [
  | some registry ↦ (g, registry)
  | none ↦ (
    record g { rooms = insert room fresh g.rooms; registries = write fresh [] g.registries },
    fresh,
  )
]

-- `registry.get(request.replicaId)?.socket.terminate()`
unseated : Option ℕ → (ℕ → Connection) → ℕ → Connection
unseated none connections = connections
unseated (some old) connections =
    write old (record (connections old) { socket = terminate (connections old).socket }) connections

seat : Text → ℕ → Connection → Gateway × ℕ → Gateway × ℕ
unfolding unseated
seat replica_id id c (g, registry) =
    let entries = g.registries registry in
    (
      record g {
        registries = write registry (insert replica_id id entries) g.registries;
        connections = write id c (unseated (lookup replica_id entries) g.connections);
      },
      registry,
    )

-- The registration, with the registry that the handshake goes on with. The numbers of the new
-- connection and of a new registry are arguments.
unfoldable pub register : Text → Subscribe → ℕ → ℕ → Socket → (fresh id : ℕ) → Gateway → Gateway × ℕ
unfolding registry_of seat
register user_id request now max_buffered socket fresh id g =
    seat request.replica_id id (fresh_connection user_id request now max_buffered socket)
      (registry_of (room_key (room_asked request)) fresh g)

unfoldable pub send_changes : List Change → Socket → Socket
send_changes [] socket = socket
send_changes (c ∷ changes) socket = send_changes changes (send (change c) socket)

abbrev pub replay_limit : ℕ
replay_limit = 500

-- The loop of `replay`: the socket, and whether the loop has ended by the last of the pages.
unfoldable pub replay_pages : List (List Change) → Room → ℕ → Socket → Socket × Bool
unfolding send_changes
replay_pages [] room cursor socket = (socket, false)
replay_pages (log ∷ logs) room cursor socket = elim (list_changes log room cursor replay_limit) [
  | page changes next ↦
      let socket' = send_changes changes socket in
      if ltb (length changes) replay_limit
      then (socket', true)
      else replay_pages logs room next socket'
  | cursor_too_old resync_from days ↦
      (close 1008 (send (error (codes "cursor-too-old")) socket), true)
]

-- The buffered messages go through `queue`.
unfoldable pub flush : List Message → Connection → Connection
flush [] c = c
flush (message ∷ pending) c = flush pending (queue message c)

-- `replay`, whose `finally` drains what arrived meanwhile.
unfoldable pub replay : List (List Change) → Room → ℕ → Connection → Connection
unfolding flush
replay logs room since c =
    flush (get_or c.pending [])
      (record c { socket = (replay_pages logs room since c.socket).0; pending = none })

-- The handshake that ends well.
unfoldable pub establish : ℕ → Gateway → Gateway
establish id g = publish_presence g (g.connections id).room

-- The `catch` around the replay, with the registry from the registration.
unfoldable pub abandon : ℕ → ℕ → Gateway → Gateway
unfolding is_empty
abandon id registry g =
    let c = g.connections id in
    let entries = g.registries registry in
    let left =
      if is_at id (lookup c.replica_id entries) then erase c.replica_id entries else entries in
    let g' : Gateway = record g { registries = write registry left g.registries } in
    if is_empty left then record g' { rooms = erase c.room g.rooms } else g'
