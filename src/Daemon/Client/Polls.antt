-- ===== src/Daemon/Client/Polls.antt =====
-- The polls of apps/daemon/src/sync-service-client.ts can overlap.
use crosscode.Prelude.{
  ℕ, zero, suc, ◌+◌, ◌<◌, ◌≡◌, refl, ◌∙◌, inl, true, false, ◌∷◌, none, some, is_some, ◌==◌, Among,
  arith,
}
use crosscode.Service.Gateway.{write}
use crosscode.Daemon.Client.{
  connecting, opened, Client, streaming, stop_polling, tick, start_polling, authorized, start,
  is_closed, schedule_reconnect, reconnect_fires, on_open, on_close, authorizes, opens, gone,
  closes, retries, Run, quiet, then_event,
}

-- Not stopped, with a socket that is connecting, and `n` polls on their way.
record IsConnecting (n i : ℕ) (c : Client) : Type 0 where
  on : c.stopped ≡ false
  falls_back : c.has_poll ≡ true
  registered : is_some c.replica_id ≡ true
  current : c.socket ≡ some i
  waiting : (c.sockets i).ready_state ≡ connecting
  polling : c.ticks ≡ n

write_self : {A : Type 0} (i : ℕ) (a : A) (f : ℕ → A) → write i a f i ≡ a
write_self i a f = let e : (i == i) ≡ true = ground arith in rw e refl

-- The socket opens and is lost again.
record IsLost (n timer : ℕ) (c : Client) : Type 0 where
  on : c.stopped ≡ false
  falls_back : c.has_poll ≡ true
  registered : is_some c.replica_id ≡ true
  scheduled : Among timer c.reconnects
  polling : c.ticks ≡ n

abbrev pub lost : ℕ → Client → Client
lost i c = on_close i (on_open i c)

tick_counts :
    (c : Client)
    → c.stopped ≡ false
    → c.socket ≡ none
    → ((tick c).ticks ≡ c.ticks + 1)
      × ((tick c).stopped ≡ false)
      × ((tick c).has_poll ≡ c.has_poll)
      × ((tick c).replica_id ≡ c.replica_id)
      × ((tick c).reconnects ≡ c.reconnects)
unfolding tick streaming
tick_counts c on no_socket = rw (on, no_socket) (refl, refl, refl, refl, refl)

no_socket : (i : ℕ) (c : Client) → c.socket ≡ some i → (gone i c).socket ≡ none
no_socket i c e = let same : (i == i) ≡ true = ground arith in rw (e, same) refl

scheduled :
    (c : Client)
    → c.stopped ≡ false
    → ((schedule_reconnect c).reconnects ≡ c.fresh ∷ c.reconnects)
      × ((schedule_reconnect c).stopped ≡ false)
      × ((schedule_reconnect c).has_poll ≡ c.has_poll)
      × ((schedule_reconnect c).replica_id ≡ c.replica_id)
      × ((schedule_reconnect c).socket ≡ c.socket)
      × ((schedule_reconnect c).ticks ≡ c.ticks)
      × ((schedule_reconnect c).poll_active ≡ c.poll_active)
unfolding schedule_reconnect
scheduled c on = rw on (refl, refl, refl, refl, refl, refl, refl)

polls_begin :
    (c : Client)
    → c.poll_active ≡ false
    → c.stopped ≡ false
    → c.has_poll ≡ true
    → start_polling c ≡ tick (record c { poll_active = true })
unfolding start_polling
polls_begin c idle on falls_back = rw (idle, on, falls_back) refl

loses : (n i : ℕ) (c : Client) → IsConnecting n i c → IsLost (suc n) c.fresh (lost i c)
unfolding on_close on_open stop_polling
loses n i c h =
    let o = on_open i c in
    let g = gone i o in
    let (r, on, falls_back, registered, socket, ticks, active) = scheduled g h.on in
    let k = record (schedule_reconnect g) { poll_active = true } in
    let starts = polls_begin (schedule_reconnect g) active on (falls_back ∙ h.falls_back) in
    let (more, still_on, still_falls_back, still_registered, due) =
      tick_counts k on (socket ∙ no_socket i o h.current) in
    rw starts (record {
      on = still_on;
      falls_back = still_falls_back ∙ falls_back ∙ h.falls_back;
      registered = rw (still_registered, registered) h.registered;
      scheduled = rw (due, r) (inl refl);
      polling = more ∙ rw (ticks, h.polling) (omega arith);
    })

abbrev pub regained : ℕ → Client → Client
regained timer c = authorized (reconnect_fires timer c)

fires :
    (timer : ℕ) (c : Client)
    → c.stopped ≡ false
    → is_some c.replica_id ≡ true
    → 0 < (reconnect_fires timer c).connects
unfolding reconnect_fires
fires timer c on registered = rw (on, registered) (omega arith)

connects :
    (n : ℕ) (c : Client)
    → c.stopped ≡ false
    → c.has_poll ≡ true
    → is_some c.replica_id ≡ true
    → c.ticks ≡ n
    → IsConnecting n c.fresh (authorized c)
unfolding authorized
connects n c on falls_back registered polling = rw on (record {
  on = refl;
  falls_back = falls_back;
  registered = registered;
  current = refl;
  waiting =
      rw (write_self c.fresh (record { ready_state = connecting; awaiting_pong = false }) c.sockets)
        refl;
  polling = polling;
})

fired_keeps :
    (timer : ℕ) (c : Client)
    → c.stopped ≡ false
    → is_some c.replica_id ≡ true
    → ((reconnect_fires timer c).stopped ≡ false)
      × ((reconnect_fires timer c).has_poll ≡ c.has_poll)
      × ((reconnect_fires timer c).replica_id ≡ c.replica_id)
      × ((reconnect_fires timer c).ticks ≡ c.ticks)
unfolding reconnect_fires
fired_keeps timer c on registered = rw (on, registered) (refl, refl, refl, refl)

regains :
    (n timer : ℕ) (c : Client)
    → IsLost n timer c
    → IsConnecting n (reconnect_fires timer c).fresh (regained timer c)
regains n timer c h =
    let (on, falls_back, registered, ticks) = fired_keeps timer c h.on h.registered in
    connects n (reconnect_fires timer c) on (falls_back ∙ h.falls_back) (rw registered h.registered)
      (ticks ∙ h.polling)

opened_stays : (i : ℕ) (c : Client) → is_closed ((on_open i c).sockets i).ready_state ≡ false
unfolding on_open
opened_stays i c = rw (write_self i (record (c.sockets i) { ready_state = opened }) c.sockets) refl

Run-append : {c d e : Client} → Run c d → Run d e → Run c e
Run-append (quiet c) s = s
Run-append (then_event event r) s = then_event event (Run-append r s)

-- A connection that flaps: the socket that is connecting opens and is lost, and the timer that its loss
-- has set brings the next one. No poll ends meanwhile, and nobody stops the client.
pub data Flaps (c : Client) : ℕ → Client → Type 0 where
  steady : Flaps c zero c
  flaps :
      {n : ℕ} {d : Client} (i : ℕ)
      → Flaps c n d
      → d.socket ≡ some i
      → (d.sockets i).ready_state ≡ connecting
      → Flaps c (suc n) (regained d.fresh (lost i d))

at_socket :
    {n i j : ℕ} {c : Client}
    → IsConnecting n i c
    → c.socket ≡ some j
    → (c.sockets j).ready_state ≡ connecting
    → IsConnecting n j c
at_socket h current waiting = record {
  on = h.on;
  falls_back = h.falls_back;
  registered = h.registered;
  current = current;
  waiting = waiting;
  polling = h.polling;
}

round : (n i : ℕ) (c : Client) → IsConnecting n i c → Run c (regained c.fresh (lost i c))
round n i c h =
    let lost_now = loses n i c h in
    let fired = fires c.fresh (lost i c) lost_now.on lost_now.registered in
    then_event (opens c i h.waiting) (
      then_event (closes (on_open i c) i (opened_stays i c)) (
        then_event (retries (lost i c) c.fresh lost_now.scheduled) (
          then_event (authorizes (reconnect_fires c.fresh (lost i c)) fired)
            (quiet (regained c.fresh (lost i c))))))

rounds :
    {i : ℕ} {c : Client} {n : ℕ} {d : Client}
    → IsConnecting zero i c
    → Flaps c n d
    → (j : ℕ) × IsConnecting n j d × Run c d
rounds {i} {c} begun steady = (i, begun, quiet c)
rounds begun (flaps {n} {d} j r current waiting) =
    let (k, h, run) = rounds begun r in
    let now = at_socket h current waiting in
    (
      (reconnect_fires d.fresh (lost j d)).fresh,
      regains (suc n) d.fresh (lost j d) (loses n j d now),
      Run-append run (round n j d now),
    )

started :
    (c : Client)
    → is_some c.replica_id ≡ true
    → (0 < (start true c).connects)
      × ((start true c).stopped ≡ false)
      × ((start true c).has_poll ≡ true)
      × ((start true c).replica_id ≡ c.replica_id)
      × ((start true c).ticks ≡ c.ticks)
unfolding start
started c registered = rw registered (omega arith, refl, refl, refl, refl)

-- When a client is started with polls to fall back on, and its connection then opens and is lost n
-- times while the polls that this begins are still on their way, n polls are on their way at once.
-- That is a run of the client, and it can go on.
pub polls_pile_up :
    (c d : Client) (n : ℕ)
    → is_some c.replica_id ≡ true
    → c.ticks ≡ 0
    → Flaps (authorized (start true c)) n d
    → (d.ticks ≡ n)
      × Run (start true c) d
      × ((e : Client) × Flaps (authorized (start true c)) (suc n) e)
polls_pile_up c d n registered none_yet r =
    let (waits, on, falls_back, kept, ticks) = started c registered in
    let first = connects 0 (start true c) on falls_back (rw kept registered) (ticks ∙ none_yet) in
    let (i, h, run) = rounds first r in
    (
      h.polling,
      then_event (authorizes (start true c) waits) run,
      (regained d.fresh (lost i d), flaps i r h.current h.waiting),
    )
