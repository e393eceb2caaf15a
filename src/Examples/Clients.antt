-- ===== src/Examples/Clients.antt =====
-- A client whose first connection is lost.
use crosscode.Prelude.{◌≡◌, refl, true, false, [], ◌∷◌, none, some, arith, All}
use crosscode.Prelude.Text.{codes}
use crosscode.Daemon.Client.{
  initial_backoff_ms, closed, Client, streaming, connected, authorized, start, stop, on_open,
  on_close, reconnect_delay, reconnect_fires, schedule_reconnect, authorizes, opens, closes, Run,
  Reach, here, happens, starts,
}
use crosscode.Daemon.Client.Recovery.{Recovers, recovers}
use crosscode.Daemon.Client.Polls
use crosscode.Daemon.Client.Polls.{Flaps, steady, flaps, regained, polls_pile_up}
use crosscode.Daemon.Client.Backoff.{IsPaced, reconnect_delay_bounds}

abbrev client : Client
client = record {
  replica_id = some (codes "r");
  has_poll = false;
  stopped = false;
  backoff_ms = initial_backoff_ms;
  socket = none;
  sockets = λ i. record { ready_state = closed; awaiting_pong = false };
  fresh = 0;
  connects = 0;
  reconnect_timer = none;
  reconnects = [];
  delays = [];
  random = λ timer. 1;
  parts = 2;
  poll_timer = none;
  polls = [];
  ticks = 0;
  poll_active = false;
  polling = false;
  reported_poll_failure = false;
}

abbrev begun : Client
begun = start true client

abbrev lost : Client
lost = on_close 0 (on_open 0 (authorized begun))

reach : Reach begun lost
unfolding start authorized on_open
reach =
    happens
      (happens (happens here (authorizes begun (omega arith))) (opens (authorized begun) 0 refl))
      (closes (on_open 0 (authorized begun)) 0 refl)

from_client : Reach client lost
unfolding start authorized on_open
from_client =
    happens
      (happens (happens (starts here true) (authorizes begun (omega arith)))
        (opens (authorized begun) 0 refl))
      (closes (on_open 0 (authorized begun)) 0 refl)

lost_on : lost.stopped ≡ false
unfolding start authorized on_open on_close streaming
lost_on = refl

recovers_example : Recovers lost
recovers_example = recovers client lost true refl reach lost_on

reconnect_delay_bounds_example : All IsPaced lost.delays
reconnect_delay_bounds_example =
    reconnect_delay_bounds client lost refl refl (λ timer. omega arith) from_client

-- The one timer, with a draw of a half.
lost_delays : lost.delays ≡ 425 ∷ []
unfolding start authorized on_open on_close schedule_reconnect reconnect_delay streaming
lost_delays = refl

abbrev flapped : Client
flapped = regained (authorized begun).fresh (Polls.lost 0 (authorized begun))

twice : Flaps (authorized begun) 2 (regained flapped.fresh (Polls.lost 2 flapped))
unfolding start authorized on_open on_close reconnect_fires schedule_reconnect streaming
twice = flaps 2 (flaps 0 steady refl refl) refl refl

polls_pile_up_example :
    ((regained flapped.fresh (Polls.lost 2 flapped)).ticks ≡ 2)
    × Run begun (regained flapped.fresh (Polls.lost 2 flapped))
    × ((e : Client) × Flaps (authorized begun) 3 e)
polls_pile_up_example =
    polls_pile_up client (regained flapped.fresh (Polls.lost 2 flapped)) 2 refl refl twice

-- Between two connections the client polls, and is in touch once a poll has succeeded.
lost_polls : lost.ticks ≡ 1
unfolding start authorized on_open on_close streaming
lost_polls = refl

stopped_is_apart : connected (stop lost) ≡ false
unfolding start stop connected streaming
stopped_is_apart = refl
