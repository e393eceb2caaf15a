-- ===== src/Service/Gateway/Live/Pages.antt =====
-- A page of the log, and what a connection of apps/service/src/ws.ts has after it.
use crosscode.Prelude.{
  ℕ, zero, suc, ◌+◌, ◌-◌, ◌≤◌, ◌<◌, ◌≡◌, refl, ap, ◌⊎◌, inl, inr, true, false, List, [], ◌∷◌, ◌++◌,
  map, get_or, length, take, drop, ltb, Bool-cases, Among, Among-append, Among-append_left,
  Among-append_right, arith,
}
use crosscode.Protocol.{Change}
use crosscode.Service.Changes.Sequence.{Follows}
use crosscode.Service.Gateway.{Message, change, Connection}
use crosscode.Service.Gateway.Replay.{take_short, send_changes_open, ltb-true}
use crosscode.Service.Gateway.Subscribe.{send_changes}
use crosscode.Service.Gateway.Live.Received.{received, IsOpen}

pub Among-drop :
    (n since : ℕ) (c : Change) (rows : List Change)
    → Follows n rows
    → since < c.sequence
    → Among c rows
    → Among c (drop (since - n) rows)
unfolding Follows
Among-drop n since c [] f lt m = elim m [ ]
Among-drop n since c (row ∷ rows) (h, t) lt m = elim (Bool-cases (ltb n since)) [
  | inl more ↦
      let step : since - n ≡ suc (since - (n + 1)) = ground (arith, more) in
      rw step (elim m [
        | inl e ↦ absurd (
            let s : row.sequence ≡ c.sequence = ap (λ (r : Change). r.sequence) e in
            ground (arith, more, s, h))
        | inr m' ↦ Among-drop (n + 1) since c rows t lt m'
      ])
  | inr all ↦ let step : since - n ≡ 0 = ground (arith, all) in rw step m
]

Among-take :
    (k n : ℕ) (c : Change) (rows : List Change)
    → Follows n rows
    → Among c rows
    → Among c (take k rows) ⊎ (n + k < c.sequence)
unfolding Follows
Among-take zero n c [] f m = elim m [ ]
Among-take (suc k) n c [] f m = elim m [ ]
Among-take zero n c (row ∷ rows) (h, t) (inl e) =
    let s : row.sequence ≡ c.sequence = ap (λ (r : Change). r.sequence) e in
    inr (omega (arith, s, h))
Among-take zero n c (row ∷ rows) (h, t) (inr m) = elim (Among-take zero (n + 1) c rows t m) [
  | inl none_such ↦ absurd none_such
  | inr lt ↦ inr (omega (arith, lt))
]
Among-take (suc k) n c (row ∷ rows) (h, t) (inl e) = inl (inl e)
Among-take (suc k) n c (row ∷ rows) (h, t) (inr m) = elim (Among-take k (n + 1) c rows t m) [
  | inl early ↦ inl (inr early)
  | inr lt ↦ inr (omega (arith, lt))
]

length-take : (k : ℕ) (rows : List Change) → length (take k rows) ≤ k
length-take zero rows = omega arith
length-take (suc k) [] = omega arith
length-take (suc k) (row ∷ rows) = omega (arith, length-take k rows)

pub whole_page :
    (k : ℕ) (c : Change) (rows changes : List Change)
    → changes ≡ take k rows
    → ltb (length changes) k ≡ true
    → Among c rows
    → Among c changes
whole_page k c rows changes e short m =
    let less = rw e at (ltb-true (length changes) k short) in rw (e, take_short k rows less) m

pub part_page :
    (k n : ℕ) (c : Change) (rows changes : List Change)
    → changes ≡ take k rows
    → Follows n rows
    → Among c rows
    → Among c changes ⊎ (n + length changes < c.sequence)
part_page k n c rows changes e f m = rw e (elim (Among-take k n c rows f m) [
  | inl a ↦ inl a
  | inr lt ↦ inr (omega (arith, lt, length-take k rows))
])

drop_none : (m : ℕ) → drop {A = Change} m [] ≡ []
drop_none zero = refl
drop_none (suc m) = refl

pub nonempty_log :
    (k m : ℕ) (rows changes : List Change)
    → changes ≡ take (suc k) (drop m rows)
    → ltb (length changes) (suc k) ≡ false
    → 0 < length rows
nonempty_log k m [] changes e full =
    let short : length changes ≡ 0 = rw (e, drop_none m) refl in ground (arith, full, short)
nonempty_log k m (row ∷ rows) changes e full = omega arith

Among-map :
    (c : Change) (rows : List Change) → Among c rows → Among (change c) (map (λ r. change r) rows)
Among-map c [] m = elim m [ ]
Among-map c (row ∷ rows) (inl e) = inl (ap (λ r. change r) e)
Among-map c (row ∷ rows) (inr m) = inr (Among-map c rows m)

-- The connection after the messages of a page.
abbrev pub after_page : List Change → Connection → Connection
after_page changes connection = record connection {
  socket = send_changes changes connection.socket;
}

received-after_page :
    (changes : List Change) (connection : Connection)
    → IsOpen connection
    → (after_page changes connection).socket.sent
      ≡ connection.socket.sent ++ map (λ r. change r) changes
received-after_page changes connection h = (send_changes_open changes connection.socket h).1

pub page_has :
    (c : Change) (changes : List Change) (connection : Connection)
    → IsOpen connection
    → Among c changes
    → Among (change c) (received (after_page changes connection))
page_has c changes connection h m =
    let all = map (λ r. change r) changes in
    rw (received-after_page changes connection h) (
      Among-append_left (change c) (connection.socket.sent ++ all) (get_or connection.pending [])
        (Among-append_right (change c) connection.socket.sent all (Among-map c changes m)))

pub page_keeps :
    (m : Message) (changes : List Change) (connection : Connection)
    → IsOpen connection
    → Among m (received connection)
    → Among m (received (after_page changes connection))
page_keeps m changes connection h had =
    let all = map (λ r. change r) changes in
    let held = get_or connection.pending [] in
    rw (received-after_page changes connection h)
      (elim (Among-append m connection.socket.sent held had) [
        | inl sent ↦
            Among-append_left m (connection.socket.sent ++ all) held
              (Among-append_left m connection.socket.sent all sent)
        | inr waits ↦ Among-append_right m (connection.socket.sent ++ all) held waits
      ])
