-- ===== src/Daemon/Client/Recovery/Alive.antt =====
-- A client of apps/daemon/src/sync-service-client.ts that is not stopped always has something due: an
-- authorization, a timer, or a socket that is not closed.
use crosscode.Prelude.{
  ℕ, ◌<◌, ◌≡◌, refl, ◌⊎◌, inl, inr, Bool, true, false, not, ◌||◌, List, Option, some, is_some,
  length, ◌==◌, Bool-cases, arith, if◌then◌else◌,
}
use crosscode.Prelude.Text.{Text}
use crosscode.Service.Gateway.{write}
use crosscode.Daemon.Client.{
  connecting, opened, WebSocket, Client, is_closed, is_opened, is_connecting, streaming,
  stop_polling, tick, start_polling, tick_done, poll_fires, connect, authorized, start, shut, stop,
  clear_timeout, schedule_reconnect, gone, reconnect_fires, on_open, on_close, on_error, on_pong,
  handshake_times_out, heartbeat, Event, authorizes, opens, closes, fails, answers, times_out,
  beats, retries, polls_again, polled, Reach, here, happens, starts, stops,
}

-- What polling leaves alone.
pub record Core : Type 0 where
  pub replica_id : Option Text
  pub stopped : Bool
  pub socket : Option ℕ
  pub sockets : ℕ → WebSocket
  pub connects : ℕ
  pub reconnects : List ℕ

unfoldable pub core : Client → Core
core c = record {
  replica_id = c.replica_id;
  stopped = c.stopped;
  socket = c.socket;
  sockets = c.sockets;
  connects = c.connects;
  reconnects = c.reconnects;
}

-- An attempt waits, a timer is due, or the socket is not yet closed.
unfoldable pub IsAlive : Core → Type 0
IsAlive c =
    (0 < c.connects)
    ⊎ ((0 < length c.reconnects)
        ⊎ ((i : ℕ) × (c.socket ≡ some i) × (is_closed (c.sockets i).ready_state ≡ false)))

pub record Inv (c : Core) : Type 0 where
  pub registered : is_some c.replica_id ≡ true
  pub alive : c.stopped ≡ false → IsAlive c

core-stop_polling : (c : Client) → core (stop_polling c) ≡ core c
unfolding core stop_polling
core-stop_polling c = refl

core-tick : (c : Client) → core (tick c) ≡ core c
unfolding core tick
core-tick c = elim (Bool-cases (c.stopped || streaming c)) [
  | inl over ↦ rw over refl
  | inr on ↦ rw on refl
]

pub core-start_polling : (c : Client) → core (start_polling c) ≡ core c
unfolding start_polling core
core-start_polling c = elim (Bool-cases (c.poll_active || c.stopped || not c.has_poll)) [
  | inl no_need ↦ rw no_need refl
  | inr needed ↦ rw needed (core-tick (record c { poll_active = true }))
]

core-tick_done : (success : Bool) (c : Client) → core (tick_done success c) ≡ core c
unfolding core tick_done
core-tick_done success c = elim (Bool-cases (c.stopped || streaming c)) [
  | inl over ↦ rw over refl
  | inr on ↦ rw on refl
]

open_elsewhere :
    (sockets : ℕ → WebSocket) (i k : ℕ) (s : WebSocket)
    → (is_closed (sockets i).ready_state ≡ false → is_closed s.ready_state ≡ false)
    → is_closed (sockets k).ready_state ≡ false
    → is_closed (write i s sockets k).ready_state ≡ false
open_elsewhere sockets i k s keeps h = elim (Bool-cases (i == k)) [
  | inl e ↦ rw e (keeps (let i_is_k : i ≡ k = ground (arith, e) in rw i_is_k h))
  | inr f ↦ rw f h
]

shut_keeps :
    (s : WebSocket) → is_closed s.ready_state ≡ false → is_closed (shut s).ready_state ≡ false
shut_keeps s h = rw h refl

-- A change of one socket that does not close it.
write-Inv :
    (c : Client) (i : ℕ) (s : WebSocket)
    → (is_closed (c.sockets i).ready_state ≡ false → is_closed s.ready_state ≡ false)
    → Inv (core c)
    → Inv (core (record c { sockets = write i s c.sockets }))
unfolding core IsAlive
write-Inv c i s keeps inv = record {
  registered = inv.registered;
  alive = λ h. elim (inv.alive h) [
    | inl waits ↦ inl waits
    | inr (inl due) ↦ inr (inl due)
    | inr (inr (k, e, o)) ↦ inr (inr (k, e, open_elsewhere c.sockets i k s keeps o))
  ];
}

pub connect-Inv : (c : Client) → is_some c.replica_id ≡ true → Inv (core (connect c))
unfolding core connect IsAlive
connect-Inv c r = elim (Bool-cases c.stopped) [
  | inl over ↦ rw over (record { registered = r; alive = λ h. cc })
  | inr on ↦ rw (on, r) (record { registered = r; alive = λ h. inl (omega arith) })
]

pub write_self : (sockets : ℕ → WebSocket) (i : ℕ) (s : WebSocket) → write i s sockets i ≡ s
write_self sockets i s = let e : (i == i) ≡ true = ground arith in rw e refl

authorized-Inv : (c : Client) → Inv (core c) → Inv (core (authorized c))
unfolding core authorized IsAlive
authorized-Inv c inv = elim (Bool-cases c.stopped) [
  | inl over ↦ rw over (record { registered = inv.registered; alive = λ h. cc })
  | inr on ↦ rw on (record {
    registered = inv.registered;
    alive = λ h. inr (
        inr (
          c.fresh,
          refl,
          rw
              (write_self c.sockets c.fresh
                (record { ready_state = connecting; awaiting_pong = false }))
              refl,
        ));
  })
]

scheduled-Inv : (c : Client) → is_some c.replica_id ≡ true → Inv (core (schedule_reconnect c))
unfolding core schedule_reconnect IsAlive
scheduled-Inv c r = elim (Bool-cases c.stopped) [
  | inl over ↦ rw over (record { registered = r; alive = λ h. cc })
  | inr on ↦ rw on (record { registered = r; alive = λ h. inr (inl (omega arith)) })
]

on_close-Inv : (i : ℕ) (c : Client) → Inv (core c) → Inv (core (on_close i c))
unfolding on_close core
on_close-Inv i c inv =
    rw (core-start_polling (schedule_reconnect (gone i c)))
      (scheduled-Inv (gone i c) inv.registered)

shut-Inv :
    (c : Client) (i : ℕ)
    → Inv (core c)
    → Inv (core (record c { sockets = write i (shut (c.sockets i)) c.sockets }))
shut-Inv c i inv = write-Inv c i (shut (c.sockets i)) (shut_keeps (c.sockets i)) inv

choose-Inv :
    (b : Bool) (c d : Client) → Inv (core c) → Inv (core d) → Inv (core (if b then c else d))
choose-Inv true c d hc hd = hc
choose-Inv false c d hc hd = hd

times_out-Inv : (i : ℕ) (c : Client) → Inv (core c) → Inv (core (handshake_times_out i c))
unfolding handshake_times_out
times_out-Inv i c inv =
    choose-Inv (is_connecting (c.sockets i).ready_state)
      (record c { sockets = write i (shut (c.sockets i)) c.sockets }) c (shut-Inv c i inv) inv

heartbeat-Inv : (i : ℕ) (c : Client) → Inv (core c) → Inv (core (heartbeat i c))
unfolding heartbeat
heartbeat-Inv i c inv =
    let lost : Client = record c { sockets = write i (shut (c.sockets i)) c.sockets } in
    let pinged : Client = record c {
      sockets = write i (record (c.sockets i) { awaiting_pong = true }) c.sockets;
    } in
    choose-Inv (not (is_opened (c.sockets i).ready_state)) c
      (if (c.sockets i).awaiting_pong then lost else pinged) inv
      (choose-Inv (c.sockets i).awaiting_pong lost pinged (shut-Inv c i inv)
        (write-Inv c i (record (c.sockets i) { awaiting_pong = true }) (λ h. h) inv))

Event-Inv : {c d : Client} → Event c d → Inv (core c) → Inv (core d)
unfolding core on_open on_error on_pong poll_fires reconnect_fires
Event-Inv (authorizes c waits) inv = authorized-Inv c inv
Event-Inv (opens c i e) inv =
    write-Inv c i (record (c.sockets i) { ready_state = opened }) (λ h. refl) inv
Event-Inv (closes c i e) inv = on_close-Inv i c inv
Event-Inv (fails c i) inv = shut-Inv c i inv
Event-Inv (answers c i) inv =
    write-Inv c i (record (c.sockets i) { awaiting_pong = false }) (λ h. h) inv
Event-Inv (times_out c i) inv = times_out-Inv i c inv
Event-Inv (beats c i) inv = heartbeat-Inv i c inv
Event-Inv (retries c timer due) inv =
    connect-Inv (record c { reconnects = clear_timeout (some timer) c.reconnects }) inv.registered
Event-Inv (polls_again c timer due) inv =
    rw (core-tick (record c { polls = clear_timeout (some timer) c.polls })) inv
Event-Inv (polled c success waits) inv = rw (core-tick_done success c) inv

pub Reach-Inv : {c d : Client} → Reach c d → Inv (core c) → Inv (core d)
unfolding core start stop
Reach-Inv here inv = inv
Reach-Inv (happens r event) inv = Event-Inv event (Reach-Inv r inv)
Reach-Inv (starts {d} r has_poll) inv =
    connect-Inv (record d { has_poll = has_poll; stopped = false }) (Reach-Inv r inv).registered
Reach-Inv (stops r) inv = record { registered = (Reach-Inv r inv).registered; alive = λ h. cc }
