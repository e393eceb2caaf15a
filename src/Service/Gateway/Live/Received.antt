-- ===== src/Service/Gateway/Live/Received.antt =====
-- What a connection of apps/service/src/ws.ts has been sent or holds back for the end of its replay.
use crosscode.Prelude.{
  ◌≡◌, refl, sym, ap, ◌∙◌, Bool, true, false, List, [], ◌∷◌, ◌++◌, Option, none, some, is_some,
  get_or, if◌then◌else◌, ltb, Bool-cases, inl, inr, arith,
}
use mathlib.Core.List.{append_assoc, append-nil}
use crosscode.Protocol.{Change}
use crosscode.Service.Gateway.{
  Message, change, Socket, Connection, terminate, send, queue, queue_on,
}
use crosscode.Service.Gateway.Replay.{send_open}
use crosscode.Service.Gateway.Subscribe.{send_changes, flush}
use crosscode.Service.Gateway.Live.{finish_replay}

abbrev pub received : Connection → List Message
received c = c.socket.sent ++ get_or c.pending []

abbrev pub IsOpen : Connection → Type 0
IsOpen c = c.socket.is_open ≡ true

-- A connection that is open after a message has been given to it was open, and has it.
pub record Took (messages : List Message) (c d : Connection) : Type 0 where
  pub opened : IsOpen c
  pub gained : received d ≡ received c ++ messages
  pub phase : is_some d.pending ≡ is_some c.pending

pub send_keeps : (m : Message) (socket : Socket) → (send m socket).is_open ≡ socket.is_open
unfolding send
send_keeps m socket = ground arith

pub send_changes_keeps :
    (changes : List Change) (socket : Socket)
    → (send_changes changes socket).is_open ≡ socket.is_open
unfolding send_changes
send_changes_keeps [] socket = refl
send_changes_keeps (c ∷ changes) socket =
    send_changes_keeps changes (send (change c) socket) ∙ send_keeps (change c) socket

sent_Took :
    (m : Message) (c : Connection) (over : Bool)
    → c.pending ≡ none
    → IsOpen (
        if over
        then record c { socket = terminate c.socket }
        else record c { socket = send m c.socket })
    → Took (m ∷ []) c (
        if over
        then record c { socket = terminate c.socket }
        else record c { socket = send m c.socket })
sent_Took m c true e h = cc
sent_Took m c false e h =
    let opened = sym (send_keeps m c.socket) ∙ h in
    record {
      opened = opened;
      gained =
          rw (e, (send_open m c.socket opened).1, append-nil c.socket.sent)
            (append-nil (c.socket.sent ++ m ∷ []));
      phase = refl;
    }

queue_on-Took :
    (m : Message) (c : Connection) (p : Option (List Message))
    → c.pending ≡ p
    → IsOpen (queue_on m c p)
    → Took (m ∷ []) c (queue_on m c p)
unfolding queue_on
queue_on-Took m c (some held) e h = record {
  opened = h;
  gained = rw e (sym (append_assoc c.socket.sent held (m ∷ [])));
  phase = rw e refl;
}
queue_on-Took m c none e h = sent_Took m c (ltb c.max_buffered_bytes c.socket.buffered_amount) e h

pub queue-Took : (m : Message) (c : Connection) → IsOpen (queue m c) → Took (m ∷ []) c (queue m c)
unfolding queue
queue-Took m c h = queue_on-Took m c c.pending refl h

queue_on-none :
    (m : Message) (c : Connection) (p : Option (List Message))
    → c.pending ≡ p
    → is_some p ≡ false
    → (queue_on m c p).pending ≡ none
unfolding queue_on
queue_on-none m c none e h = elim (Bool-cases (ltb c.max_buffered_bytes c.socket.buffered_amount)) [
  | inl over ↦ rw over e
  | inr fits ↦ rw fits e
]
queue_on-none m c (some held) e h = cc

queue_on_replica :
    (m : Message) (c : Connection) (p : Option (List Message))
    → (queue_on m c p).replica_id ≡ c.replica_id
unfolding queue_on
queue_on_replica m c none = ground arith
queue_on_replica m c (some held) = refl

pub queue_replica : (m : Message) (c : Connection) → (queue m c).replica_id ≡ c.replica_id
unfolding queue
queue_replica m c = queue_on_replica m c c.pending

queue-none : (m : Message) (c : Connection) → c.pending ≡ none → (queue m c).pending ≡ none
unfolding queue
queue-none m c e = queue_on-none m c c.pending refl (rw e refl)

pub flush_replica : (l : List Message) (c : Connection) → (flush l c).replica_id ≡ c.replica_id
unfolding flush
flush_replica [] c = refl
flush_replica (m ∷ l) c = flush_replica l (queue m c) ∙ queue_replica m c

-- At the end of a replay, what was held back follows.
pub flush-Took :
    (l : List Message) (c : Connection)
    → c.pending ≡ none
    → IsOpen (flush l c)
    → Took l c (flush l c)
unfolding flush
flush-Took [] c e h = record { opened = h; gained = sym (append-nil (received c)); phase = refl }
flush-Took (m ∷ l) c e h =
    let rest = flush-Took l (queue m c) (queue-none m c e) h in
    let first = queue-Took m c rest.opened in
    record {
      opened = first.opened;
      gained = rest.gained ∙ rw first.gained (append_assoc (received c) (m ∷ []) l);
      phase = rest.phase ∙ first.phase;
    }

pub finish_replay-received :
    (c : Connection)
    → IsOpen (finish_replay c)
    → IsOpen c × (received (finish_replay c) ≡ received c)
unfolding finish_replay
finish_replay-received c h =
    let took = flush-Took (get_or c.pending []) (record c { pending = none }) refl h in
    (took.opened, took.gained ∙ ap (λ l. l ++ get_or c.pending []) (append-nil c.socket.sent))
