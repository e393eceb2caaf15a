-- ===== src/Daemon/Client/Recovery.antt =====
-- Whatever happens to the stream of apps/daemon/src/sync-service-client.ts, it can come back.
pub mod Alive
use crosscode.Prelude.{
  ℕ, ◌<◌, ◌≤◌, ◌≡◌, refl, ap, ◌∙◌, ◌⊎◌, inl, inr, Bool, true, false, not, ◌||◌, List, [], ◌∷◌,
  Option, some, is_some, length, ◌==◌, Among, Bool-cases, arith, if◌then◌else◌,
}
use crosscode.Prelude.Text.{Text}
use crosscode.Service.Gateway.{write}
use crosscode.Daemon.Client.{
  ReadyState, connecting, opened, closing, closed, WebSocket, Client, is_closed, is_opened,
  is_connecting, streaming, stop_polling, tick, start_polling, tick_done, poll_fires, connect,
  authorized, start, shut, stop, clear_timeout, schedule_reconnect, gone, reconnect_fires, on_open,
  on_close, on_error, on_pong, handshake_times_out, heartbeat, Event, authorizes, opens, closes,
  fails, answers, times_out, beats, retries, polls_again, polled, Reach, here, happens, starts,
  stops,
}
use crosscode.Daemon.Client.Recovery.Alive.{
  Core, core, IsAlive, Inv, core-start_polling, connect-Inv, write_self, Reach-Inv,
}

-- What a client does by itself while no socket before the number `n` ever answers: its own deadlines
-- and timers, the close of a socket that it has shut, and the later sockets that the service accepts.
pub data Unaided (n : ℕ) : Client → Client → Type 0 where
  done : (c : Client) → Unaided n c c
  is_authorized :
      {d : Client} (c : Client) → 0 < c.connects → Unaided n (authorized c) d → Unaided n c d
  is_accepted :
      {d : Client} (c : Client) (i : ℕ)
      → n ≤ i
      → (c.sockets i).ready_state ≡ connecting
      → Unaided n (on_open i c) d
      → Unaided n c d
  is_shut :
      {d : Client} (c : Client) (i : ℕ)
      → (c.sockets i).ready_state ≡ closing
      → Unaided n (on_close i c) d
      → Unaided n c d
  gives_up :
      {d : Client} (c : Client) (i : ℕ) → Unaided n (handshake_times_out i c) d → Unaided n c d
  pings : {d : Client} (c : Client) (i : ℕ) → Unaided n (heartbeat i c) d → Unaided n c d
  tries_again :
      {d : Client} (c : Client) (timer : ℕ)
      → Among timer c.reconnects
      → Unaided n (reconnect_fires timer c) d
      → Unaided n c d

-- Streaming on a socket that is later than all there were.
abbrev RecoversFrom : ℕ → Client → Type 0
RecoversFrom n c =
    (d : Client) × (i : ℕ) × Unaided n c d × (d.socket ≡ some i) × (n ≤ i) × (streaming d ≡ true)

abbrev pub Recovers : Client → Type 0
Recovers c = RecoversFrom c.fresh c

from_authorization :
    (n : ℕ) (c : Client) → n ≤ c.fresh → 0 < c.connects → c.stopped ≡ false → RecoversFrom n c
from_authorization n c le waits on =
    let next = authorized c in
    let current : next.socket ≡ some c.fresh = unfold authorized in rw on refl in
    let waiting : (next.sockets c.fresh).ready_state ≡ connecting =
      unfold authorized in
      rw
        (
          on,
          write_self c.sockets c.fresh (record { ready_state = connecting; awaiting_pong = false }),
        )
        refl in
    (
      on_open c.fresh next,
      c.fresh,
      is_authorized c waits (is_accepted next c.fresh le waiting (done (on_open c.fresh next))),
      unfold on_open stop_polling in current,
      le,
      unfold streaming on_open stop_polling in
          rw
            (
              current,
              write_self next.sockets c.fresh
                  (record (next.sockets c.fresh) { ready_state = opened }),
            )
            refl,
    )

due : (timers : List ℕ) → 0 < length timers → (timer : ℕ) × Among timer timers
due [] h = elim h [ ]
due (timer ∷ timers) h = (timer, inl refl)

from_timer :
    (n : ℕ) (c : Client)
    → n ≤ c.fresh
    → 0 < length c.reconnects
    → c.stopped ≡ false
    → is_some c.replica_id ≡ true
    → RecoversFrom n c
from_timer n c le waits on r =
    let (timer, m) = due c.reconnects waits in
    let (d, i, run, at_last, later, open_again) =
      from_authorization n (reconnect_fires timer c) (unfold reconnect_fires in rw (on, r) le)
        (unfold reconnect_fires in rw (on, r) (omega arith))
        (unfold reconnect_fires in rw (on, r) refl) in
    (d, i, tries_again c timer m run, at_last, later, open_again)

schedule_reconnect_due :
    (c : Client)
    → c.stopped ≡ false
    → ((schedule_reconnect c).reconnects ≡ c.fresh ∷ c.reconnects)
      × ((schedule_reconnect c).stopped ≡ false)
      × ((schedule_reconnect c).replica_id ≡ c.replica_id)
unfolding schedule_reconnect
schedule_reconnect_due c on = (rw on refl, rw on refl, rw on refl)

reconnects-on_close :
    (i : ℕ) (c : Client)
    → c.stopped ≡ false
    → ((on_close i c).reconnects ≡ c.fresh ∷ c.reconnects)
      × ((on_close i c).stopped ≡ false)
      × ((on_close i c).replica_id ≡ c.replica_id)
unfolding on_close core
reconnects-on_close i c on =
    let (a, b, d) = schedule_reconnect_due (gone i c) on in
    let same_core = core-start_polling (schedule_reconnect (gone i c)) in
    (
      ap (λ (k : Core). k.reconnects) same_core ∙ a,
      ap (λ (k : Core). k.stopped) same_core ∙ b,
      ap (λ (k : Core). k.replica_id) same_core ∙ d,
    )

fresh-start_polling : (c : Client) → (start_polling c).fresh ≡ c.fresh
unfolding start_polling tick stop_polling
fresh-start_polling c = ground arith

fresh-on_close : (i : ℕ) (c : Client) → c.stopped ≡ false → c.fresh ≤ (on_close i c).fresh
unfolding on_close
fresh-on_close i c on =
    rw (fresh-start_polling (schedule_reconnect (gone i c)))
      (unfold schedule_reconnect in rw on (omega arith))

-- A socket that the client has shut is closed, however silent its peer.
from_closing :
    (n i : ℕ) (c : Client)
    → n ≤ c.fresh
    → (c.sockets i).ready_state ≡ closing
    → c.stopped ≡ false
    → is_some c.replica_id ≡ true
    → RecoversFrom n c
from_closing n i c le e on r =
    let (a, b, d) = reconnects-on_close i c on in
    let lt = fresh-on_close i c on in
    let (k, j, run, at_last, later, open_again) =
      from_timer n (on_close i c) (omega (arith, le, lt)) (rw a (omega arith)) b (rw d r) in
    (k, j, is_shut c i e run, at_last, later, open_again)

from_connecting :
    (n i : ℕ) (c : Client)
    → n ≤ c.fresh
    → (c.sockets i).ready_state ≡ connecting
    → c.stopped ≡ false
    → is_some c.replica_id ≡ true
    → RecoversFrom n c
from_connecting n i c le e on r =
    let next = handshake_times_out i c in
    let (k, j, run, at_last, later, open_again) =
      from_closing n i next (unfold handshake_times_out in rw e le)
        (unfold handshake_times_out in
          rw (e, write_self c.sockets i (record (c.sockets i) { ready_state = closing })) refl)
        (unfold handshake_times_out in rw e on) (unfold handshake_times_out in rw e r) in
    (k, j, gives_up c i run, at_last, later, open_again)

-- An open socket whose last ping is unanswered is shut at the next beat.
from_silence :
    (n i : ℕ) (c : Client)
    → n ≤ c.fresh
    → (c.sockets i).ready_state ≡ opened
    → (c.sockets i).awaiting_pong ≡ true
    → c.stopped ≡ false
    → is_some c.replica_id ≡ true
    → RecoversFrom n c
from_silence n i c le e waits on r =
    let next = heartbeat i c in
    let (k, j, run, at_last, later, open_again) =
      from_closing n i next (unfold heartbeat in rw (e, waits) le)
        (unfold heartbeat in
          rw
            (
              e,
              waits,
              write_self c.sockets i (record { ready_state = closing; awaiting_pong = true }),
            )
            refl)
        (unfold heartbeat in rw (e, waits) on) (unfold heartbeat in rw (e, waits) r) in
    (k, j, pings c i run, at_last, later, open_again)

from_open :
    (n i : ℕ) (c : Client)
    → n ≤ c.fresh
    → (c.sockets i).ready_state ≡ opened
    → c.stopped ≡ false
    → is_some c.replica_id ≡ true
    → RecoversFrom n c
from_open n i c le e on r = elim (Bool-cases (c.sockets i).awaiting_pong) [
  | inl waits ↦ from_silence n i c le e waits on r
  | inr idle ↦
      let next = heartbeat i c in
      let (k, j, run, at_last, later, open_again) =
        from_silence n i next (unfold heartbeat in rw (e, idle) le)
          (unfold heartbeat in
            rw
              (
                e,
                idle,
                write_self c.sockets i (record { ready_state = opened; awaiting_pong = true }),
              )
              refl)
          (unfold heartbeat in
            rw
              (
                e,
                idle,
                write_self c.sockets i (record { ready_state = opened; awaiting_pong = true }),
              )
              refl)
          (unfold heartbeat in rw (e, idle) on) (unfold heartbeat in rw (e, idle) r) in
      (k, j, pings c i run, at_last, later, open_again)
]

from_state :
    (c : Client) (i : ℕ) (s : ReadyState)
    → (c.sockets i).ready_state ≡ s
    → is_closed s ≡ false
    → c.stopped ≡ false
    → is_some c.replica_id ≡ true
    → Recovers c
from_state c i connecting h o on r = from_connecting c.fresh i c (omega arith) h on r
from_state c i opened h o on r = from_open c.fresh i c (omega arith) h on r
from_state c i closing h o on r = from_closing c.fresh i c (omega arith) h on r
from_state c i closed h o on r = cc

-- However often a client that has its replica is stopped and started after its first start, and
-- whatever its sockets have come to: whenever it is not stopped, and even if no socket that it has
-- made so far ever answers again, its own deadlines and timers bring it to a later socket, and where
-- the service accepts that one, it is streaming on it.
pub recovers :
    (c d : Client) (has_poll : Bool)
    → is_some c.replica_id ≡ true
    → Reach (start has_poll c) d
    → d.stopped ≡ false
    → Recovers d
unfolding core IsAlive start
recovers c d has_poll r reach on =
    let begun = connect-Inv (record c { has_poll = has_poll; stopped = false }) r in
    let inv = Reach-Inv reach begun in
    elim (inv.alive on) [
      | inl waits ↦ from_authorization d.fresh d (omega arith) waits on
      | inr (inl waits) ↦ from_timer d.fresh d (omega arith) waits on inv.registered
      | inr (inr (i, e, o)) ↦ from_state d i (d.sockets i).ready_state refl o on inv.registered
    ]
