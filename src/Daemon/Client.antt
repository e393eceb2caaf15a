-- ===== src/Daemon/Client.antt =====
-- apps/daemon/src/sync-service-client.ts: the stream that is kept open, and the polls that stand in for
-- it. Sockets and timers are numbered; a function is what runs without a wait, and the rest of an
-- `async` function after its wait is a function of its own. The requests are `Link` of Daemon.
pub mod Backoff
pub mod Recovery
pub mod Polls
use crosscode.Prelude.{
  ℕ, ◌+◌, ◌-◌, ◌*◌, ◌/◌, ◌<◌, ◌≡◌, Bool, true, false, not, ◌&&◌, ◌||◌, List, [], ◌∷◌, ◌++◌, Option,
  none, some, is_some, min, ◌==◌, Among, if◌then◌else◌,
}
use crosscode.Prelude.Text.{Text}
use crosscode.Service.Gateway.{write, is_at}

abbrev pub initial_backoff_ms : ℕ
initial_backoff_ms = 500

abbrev pub max_backoff_ms : ℕ
max_backoff_ms = 15000

-- `socket.readyState`
pub data ReadyState : Type 0 where
  connecting : ReadyState
  opened : ReadyState
  closing : ReadyState
  closed : ReadyState

pub record WebSocket : Type 0 where
  pub ready_state : ReadyState
  pub awaiting_pong : Bool

-- `reconnects` and `polls` are the timers that are due to fire, `connects` and `ticks` count the calls
-- that wait for an authorization and for a poll. `delays` are those that `setTimeout` was given, the
-- last one first; the draw of `Math.random()` for a timer is its number in `random` over `parts`.
pub record Client : Type 0 where
  pub replica_id : Option Text
  pub has_poll : Bool
  pub stopped : Bool
  pub backoff_ms : ℕ
  pub socket : Option ℕ
  pub sockets : ℕ → WebSocket
  pub fresh : ℕ
  pub connects : ℕ
  pub reconnect_timer : Option ℕ
  pub reconnects : List ℕ
  pub delays : List ℕ
  pub random : ℕ → ℕ
  pub parts : ℕ
  pub poll_timer : Option ℕ
  pub polls : List ℕ
  pub ticks : ℕ
  pub poll_active : Bool
  pub polling : Bool
  pub reported_poll_failure : Bool

abbrev pub is_opened : ReadyState → Bool
is_opened opened = true
is_opened _ = false

abbrev pub is_connecting : ReadyState → Bool
is_connecting connecting = true
is_connecting _ = false

abbrev pub is_closed : ReadyState → Bool
is_closed closed = true
is_closed _ = false

streaming_on : (ℕ → WebSocket) → Option ℕ → Bool
streaming_on sockets none = false
streaming_on sockets (some i) = is_opened (sockets i).ready_state

-- `get streaming()`
unfoldable pub streaming : Client → Bool
unfolding streaming_on
streaming c = streaming_on c.sockets c.socket

-- `get connected()`
unfoldable pub connected : Client → Bool
connected c = streaming c || c.polling

-- `clearTimeout`
unfoldable pub clear_timeout : Option ℕ → List ℕ → List ℕ
clear_timeout none timers = timers
clear_timeout (some id) [] = []
clear_timeout (some id) (timer ∷ timers) =
    let rest = clear_timeout (some id) timers in if timer == id then timers else timer ∷ rest

unfoldable pub stop_polling : Client → Client
stop_polling c = record c {
  polls = clear_timeout c.poll_timer c.polls;
  poll_timer = none;
  poll_active = false;
  polling = false;
}

-- `tick`, until its poll
unfoldable pub tick : Client → Client
unfolding stop_polling
tick c =
    let c' : Client = record c { poll_timer = none } in
    if c.stopped || streaming c then stop_polling c' else record c' { ticks = c.ticks + 1 }

unfoldable pub start_polling : Client → Client
unfolding tick
start_polling c =
    if c.poll_active || c.stopped || not c.has_poll
    then c
    else tick (record c { poll_active = true })

-- `tick` after its poll, which has succeeded or not
unfoldable pub tick_done : Bool → Client → Client
unfolding stop_polling
tick_done success c =
    let polled : Client = record c {
      ticks = c.ticks - 1;
      polling = success;
      reported_poll_failure = not success;
    } in
    if c.stopped || streaming c
    then stop_polling polled
    else record polled { poll_timer = some c.fresh; polls = c.fresh ∷ c.polls; fresh = c.fresh + 1 }

unfoldable pub poll_fires : ℕ → Client → Client
unfolding tick clear_timeout
poll_fires timer c = tick (record c { polls = clear_timeout (some timer) c.polls })

-- `connect`, until the authorization
unfoldable pub connect : Client → Client
connect c =
    if c.stopped || not (is_some c.replica_id) then c else record c { connects = c.connects + 1 }

-- `connect` after it
unfoldable pub authorized : Client → Client
authorized c =
    let c' : Client = record c { connects = c.connects - 1 } in
    if c.stopped then c' else record c' {
      socket = some c.fresh;
      sockets =
          write c.fresh (record { ready_state = connecting; awaiting_pong = false }) c.sockets;
      fresh = c.fresh + 1;
    }

unfoldable pub start : Bool → Client → Client
unfolding connect
start has_poll c = connect (record c { has_poll = has_poll; stopped = false })

-- `socket.close()` and `socket.terminate()`
abbrev shut : WebSocket → WebSocket
shut socket =
    if is_closed socket.ready_state then socket else record socket { ready_state = closing }

closing_one : Option ℕ → (ℕ → WebSocket) → ℕ → WebSocket
closing_one none sockets = sockets
closing_one (some i) sockets = write i (shut (sockets i)) sockets

unfoldable pub stop : Client → Client
unfolding closing_one clear_timeout
stop c = record c {
  stopped = true;
  reconnects = clear_timeout c.reconnect_timer c.reconnects;
  polls = clear_timeout c.poll_timer c.polls;
  polling = false;
  socket = none;
  sockets = closing_one c.socket c.sockets;
}

-- The delay of a reconnect, in whole milliseconds; `Math.random()` is `random / parts`.
unfoldable pub reconnect_delay : (backoff_ms random parts : ℕ) → ℕ
reconnect_delay backoff_ms random parts = backoff_ms * (10 * parts - 3 * random) / (10 * parts)

unfoldable pub schedule_reconnect : Client → Client
schedule_reconnect c = if c.stopped then c else record c {
  backoff_ms = min (c.backoff_ms * 2) max_backoff_ms;
  reconnect_timer = some c.fresh;
  reconnects = c.fresh ∷ c.reconnects;
  delays = reconnect_delay c.backoff_ms (c.random c.fresh) c.parts ∷ c.delays;
  fresh = c.fresh + 1;
}

unfoldable pub reconnect_fires : ℕ → Client → Client
unfolding connect clear_timeout
reconnect_fires timer c =
    connect (record c { reconnects = clear_timeout (some timer) c.reconnects })

-- The handlers of one socket.
unfoldable pub on_open : ℕ → Client → Client
unfolding stop_polling
on_open i c = stop_polling (record c {
  sockets = write i (record (c.sockets i) { ready_state = opened }) c.sockets;
  backoff_ms = initial_backoff_ms;
})

-- `on_close`, before the reconnect is scheduled
abbrev pub gone : ℕ → Client → Client
gone i c = record c {
  sockets = write i (record (c.sockets i) { ready_state = closed }) c.sockets;
  socket = if is_at i c.socket then none else c.socket;
}

unfoldable pub on_close : ℕ → Client → Client
unfolding schedule_reconnect start_polling
on_close i c = start_polling (schedule_reconnect (gone i c))

unfoldable pub on_error : ℕ → Client → Client
on_error i c = record c { sockets = write i (shut (c.sockets i)) c.sockets }

unfoldable pub on_pong : ℕ → Client → Client
on_pong i c = record c {
  sockets = write i (record (c.sockets i) { awaiting_pong = false }) c.sockets;
}

unfoldable pub handshake_times_out : ℕ → Client → Client
handshake_times_out i c =
    if is_connecting (c.sockets i).ready_state
    then record c { sockets = write i (shut (c.sockets i)) c.sockets }
    else c

unfoldable pub heartbeat : ℕ → Client → Client
heartbeat i c =
    if not (is_opened (c.sockets i).ready_state)
    then c
    else if (c.sockets i).awaiting_pong
    then record c { sockets = write i (shut (c.sockets i)) c.sockets }
    else record c { sockets = write i (record (c.sockets i) { awaiting_pong = true }) c.sockets }

-- What timers, polls, authorizations and sockets do.
pub data Event : Client → Client → Type 0 where
  authorizes : (c : Client) → 0 < c.connects → Event c (authorized c)
  opens : (c : Client) (i : ℕ) → (c.sockets i).ready_state ≡ connecting → Event c (on_open i c)
  closes :
      (c : Client) (i : ℕ) → is_closed (c.sockets i).ready_state ≡ false → Event c (on_close i c)
  fails : (c : Client) (i : ℕ) → Event c (on_error i c)
  answers : (c : Client) (i : ℕ) → Event c (on_pong i c)
  times_out : (c : Client) (i : ℕ) → Event c (handshake_times_out i c)
  beats : (c : Client) (i : ℕ) → Event c (heartbeat i c)
  retries : (c : Client) (timer : ℕ) → Among timer c.reconnects → Event c (reconnect_fires timer c)
  polls_again : (c : Client) (timer : ℕ) → Among timer c.polls → Event c (poll_fires timer c)
  polled : (c : Client) (success : Bool) → 0 < c.ticks → Event c (tick_done success c)

-- Events alone.
pub data Run : Client → Client → Type 0 where
  quiet : (c : Client) → Run c c
  then_event : {c d e : Client} → Event c d → Run d e → Run c e

-- Events, and what the daemon calls.
pub data Reach (c : Client) : Client → Type 0 where
  here : Reach c c
  happens : {d e : Client} → Reach c d → Event d e → Reach c e
  starts : {d : Client} → Reach c d → (has_poll : Bool) → Reach c (start has_poll d)
  stops : {d : Client} → Reach c d → Reach c (stop d)
