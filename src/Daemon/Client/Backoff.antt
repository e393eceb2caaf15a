-- ===== src/Daemon/Client/Backoff.antt =====
-- How long a client of apps/daemon/src/sync-service-client.ts waits before it connects again.
use crosscode.Prelude.{
  ℕ, min, ◌+◌, ◌*◌, ◌≤◌, ◌<◌, ◌≡◌, Bool, true, false, not, ◌||◌, is_some, none, some, Bool-cases,
  inl, inr, arith, All, [], ◌∷◌, if◌then◌else◌,
}
use native.Mathlib.Nat.{mul_comm, div-le_of_le-mul, mul-le-mul_left}
use crosscode.Daemon.Client.{
  initial_backoff_ms, max_backoff_ms, Client, streaming, stop_polling, tick, start_polling,
  tick_done, poll_fires, connect, authorized, start, stop, clear_timeout, reconnect_delay,
  schedule_reconnect, reconnect_fires, gone, on_open, on_close, on_error, on_pong,
  handshake_times_out, heartbeat, is_connecting, is_opened, Event, authorizes, opens, closes, fails,
  answers, times_out, beats, retries, polls_again, polled, Reach, here, happens, starts, stops,
}

IsBounded : ℕ → Type 0
IsBounded backoff_ms = (initial_backoff_ms ≤ backoff_ms) × (backoff_ms ≤ max_backoff_ms)

-- A delay that spreads the reconnects and keeps nobody waiting.
abbrev pub IsPaced : ℕ → Type 0
IsPaced delay = (350 ≤ delay) × (delay ≤ max_backoff_ms)

-- The backoff is in its range, the draws are below 1, and every timer was set to a paced delay.
abbrev Paces : Client → Type 0
Paces c = IsBounded c.backoff_ms × ((timer : ℕ) → c.random timer < c.parts) × All IsPaced c.delays

starts-IsBounded : IsBounded initial_backoff_ms
unfolding IsBounded
starts-IsBounded = omega arith

either : (b : Bool) (c d : Client) → Paces c → Paces d → Paces (if b then c else d)
either true c d hc hd = hc
either false c d hc hd = hd

tick-Paces : (c : Client) → Paces c → Paces (tick c)
unfolding tick stop_polling
tick-Paces c h =
    either (c.stopped || streaming c) (stop_polling (record c { poll_timer = none }))
      (record c { poll_timer = none; ticks = c.ticks + 1 }) h h

delay_low :
    (b random parts : ℕ)
    → initial_backoff_ms ≤ b
    → random < parts
    → 350 ≤ reconnect_delay b random parts
unfolding reconnect_delay
delay_low b random parts h lt = grind arith

delay_high : (b random parts : ℕ) → 0 < parts → reconnect_delay b random parts ≤ b
unfolding reconnect_delay
delay_high b random parts lt =
    div-le_of_le-mul (10 * parts) (rw (mul_comm (10 * parts) b) (mul-le-mul_left b (omega arith)))

paced :
    (b random parts : ℕ) → IsBounded b → random < parts → IsPaced (reconnect_delay b random parts)
unfolding IsBounded
paced b random parts bounded lt = (
  delay_low b random parts bounded.0 lt,
  omega (arith, delay_high b random parts (omega arith), bounded.1),
)

doubled : (b : ℕ) → IsBounded b → IsBounded (min (b * 2) max_backoff_ms)
unfolding IsBounded
doubled b h = (omega (arith, h.0), omega arith)

schedule-Paces : (c : Client) → Paces c → Paces (schedule_reconnect c)
unfolding schedule_reconnect
schedule-Paces c (bounded, draws, waits) =
    either c.stopped c
      (record c {
        backoff_ms = min (c.backoff_ms * 2) max_backoff_ms;
        reconnect_timer = some c.fresh;
        reconnects = c.fresh ∷ c.reconnects;
        delays = reconnect_delay c.backoff_ms (c.random c.fresh) c.parts ∷ c.delays;
        fresh = c.fresh + 1;
      })
      (bounded, draws, waits)
      (
        doubled c.backoff_ms bounded,
        draws,
        (paced c.backoff_ms (c.random c.fresh) c.parts bounded (draws c.fresh), waits),
      )

polling-Paces : (c : Client) → Paces c → Paces (start_polling c)
unfolding start_polling
polling-Paces c h =
    either (c.poll_active || c.stopped || not c.has_poll) c (tick (record c { poll_active = true }))
      h (tick-Paces (record c { poll_active = true }) h)

connect-Paces : (c : Client) → Paces c → Paces (connect c)
unfolding connect
connect-Paces c h =
    either (c.stopped || not (is_some c.replica_id)) c (record c { connects = c.connects + 1 }) h h

authorized-Paces : (c : Client) → Paces c → Paces (authorized c)
unfolding authorized
authorized-Paces c h = elim (Bool-cases c.stopped) [ inl e ↦ rw e h | inr e ↦ rw e h ]

times_out-Paces : (i : ℕ) (c : Client) → Paces c → Paces (handshake_times_out i c)
unfolding handshake_times_out
times_out-Paces i c h = elim (Bool-cases (is_connecting (c.sockets i).ready_state)) [
  | inl e ↦ rw e h
  | inr e ↦ rw e h
]

heartbeat-Paces : (i : ℕ) (c : Client) → Paces c → Paces (heartbeat i c)
unfolding heartbeat
heartbeat-Paces i c h = elim (Bool-cases (is_opened (c.sockets i).ready_state)) [
  | inr e ↦ rw e h
  | inl e ↦ elim (Bool-cases (c.sockets i).awaiting_pong) [
    | inl a ↦ rw (e, a) h
    | inr a ↦ rw (e, a) h
  ]
]

tick_done-Paces : (success : Bool) (c : Client) → Paces c → Paces (tick_done success c)
unfolding tick_done stop_polling
tick_done-Paces success c h = elim (Bool-cases (c.stopped || streaming c)) [
  | inl e ↦ rw e h
  | inr e ↦ rw e h
]

Event-Paces : {c d : Client} → Event c d → Paces c → Paces d
unfolding on_open on_close on_error on_pong reconnect_fires poll_fires stop_polling
Event-Paces (authorizes c waits) h = authorized-Paces c h
Event-Paces (opens c i e) h = (starts-IsBounded, h.1, h.2)
Event-Paces (closes c i e) h =
    polling-Paces (schedule_reconnect (gone i c)) (schedule-Paces (gone i c) h)
Event-Paces (fails c i) h = h
Event-Paces (answers c i) h = h
Event-Paces (times_out c i) h = times_out-Paces i c h
Event-Paces (beats c i) h = heartbeat-Paces i c h
Event-Paces (retries c timer due) h =
    connect-Paces (record c { reconnects = clear_timeout (some timer) c.reconnects }) h
Event-Paces (polls_again c timer due) h =
    tick-Paces (record c { polls = clear_timeout (some timer) c.polls }) h
Event-Paces (polled c success waits) h = tick_done-Paces success c h

Reach-Paces : {c d : Client} → Reach c d → Paces c → Paces d
unfolding start stop
Reach-Paces here h = h
Reach-Paces (happens r event) h = Event-Paces event (Reach-Paces r h)
Reach-Paces (starts {d} r has_poll) h =
    connect-Paces (record d { has_poll = has_poll; stopped = false }) (Reach-Paces r h)
Reach-Paces (stops r) h = Reach-Paces r h

-- Whatever has happened to a client that began with the first backoff and no timer, every timer that
-- it has set to connect again was set to at least 350 milliseconds and at most 15 seconds, for all
-- random numbers below 1.
pub reconnect_delay_bounds :
    (c d : Client)
    → c.backoff_ms ≡ initial_backoff_ms
    → c.delays ≡ []
    → ((timer : ℕ) → c.random timer < c.parts)
    → Reach c d
    → All IsPaced d.delays
reconnect_delay_bounds c d fresh none_set draws reach =
    (Reach-Paces reach (rw fresh starts-IsBounded, draws, rw none_set tt)).2
