-- ===== src/Service/Gateway/Replay.antt =====
-- What a subscriber of apps/service/src/ws.ts is sent of the history of its room.
use crosscode.Prelude.{
  take-drop, ℕ, zero, suc, ◌+◌, ◌-◌, ◌*◌, ◌≤◌, ◌<◌, ◌⊎◌, ◌≡◌, refl, sym, ap, ◌∙◌, true, false, List,
  [], ◌∷◌, ◌++◌, map, arith, take, drop, length, ltb, Bool-cases, inl, inr,
}
use mathlib.Core.List.{append_assoc, append-nil}
use crosscode.Protocol.{Change}
use crosscode.Service.Changes.{Room, rows_of}
use crosscode.Service.Changes.Sequence.{Follows}
use crosscode.Service.Changes.Pages.{page_at, list_changes_complete}
use crosscode.Service.Gateway.{Message, change, Socket, send}
use crosscode.Service.Gateway.Subscribe.{send_changes, replay_limit, replay_pages}

pub send_open :
    (message : Message) (socket : Socket)
    → socket.is_open ≡ true
    → ((send message socket).is_open ≡ true)
      × ((send message socket).sent ≡ socket.sent ++ message ∷ [])
unfolding send
send_open message socket h = rw h (refl, refl)

pub send_changes_open :
    (changes : List Change) (socket : Socket)
    → socket.is_open ≡ true
    → ((send_changes changes socket).is_open ≡ true)
      × ((send_changes changes socket).sent ≡ socket.sent ++ map (λ c. change c) changes)
unfolding send_changes
send_changes_open [] socket h = (h, sym (append-nil socket.sent))
send_changes_open (c ∷ changes) socket h =
    let one = send_open (change c) socket h in
    let rest = send_changes_open changes (send (change c) socket) one.0 in
    (
      rest.0,
      rest.1 ∙ rw one.1 (append_assoc socket.sent (change c ∷ []) (map (λ c. change c) changes)),
    )

-- The same log at every page.
pub same_logs : ℕ → List Change → List (List Change)
same_logs zero log = []
same_logs (suc k) log = log ∷ same_logs k log

pub take_short : (m : ℕ) (l : List Change) → length (take m l) < m → take m l ≡ l
take_short zero l h = ground (arith, h)
take_short (suc m) [] h = refl
take_short (suc m) (c ∷ l) h = ap (λ r. c ∷ r) (take_short m l (omega (arith, h)))

take_full :
    (m : ℕ) (l : List Change)
    → m ≤ length (take m l)
    → (length (take m l) ≡ m) × (length (drop m l) + m ≡ length l)
take_full zero l h = omega arith
take_full (suc m) [] h = omega (arith, h)
take_full (suc m) (c ∷ l) h = let ih = take_full m l (omega (arith, h)) in omega (arith, ih)

drop_nil : (k : ℕ) → drop {A = Change} k [] ≡ []
drop_nil zero = refl
drop_nil (suc k) = refl

drop-drop : (a b : ℕ) (l : List Change) → drop b (drop a l) ≡ drop (a + b) l
drop-drop zero b l = let e : 0 + b ≡ b = omega arith in rw e
drop-drop (suc a) b [] = rw (drop_nil b, drop_nil (suc a + b))
drop-drop (suc a) b (c ∷ l) =
    let e : suc a + b ≡ suc (a + b) = omega arith in rw e (drop-drop a b l)

map-append :
    (l m : List Change)
    → map (λ c. change c) (l ++ m) ≡ map (λ c. change c) l ++ map (λ c. change c) m
map-append [] m = refl
map-append (c ∷ l) m = ap (λ r. change c ∷ r) (map-append l m)

length-drop : (k : ℕ) (l : List Change) → length (drop k l) ≤ length l
length-drop zero l = omega arith
length-drop (suc k) [] = omega arith
length-drop (suc k) (c ∷ l) = omega (arith, length-drop k l)

pub ltb-true : (a b : ℕ) → ltb a b ≡ true → a < b
ltb-true a b h = ground (arith, h)

pub ltb-false : (a b : ℕ) → ltb a b ≡ false → b ≤ a
ltb-false a b h = ground (arith, h)

joined :
    (socket : Socket) (all : List Change)
    → {after : List Message} → after ≡ socket.sent ++ map (λ c. change c) (take replay_limit all)
    → after ++ map (λ c. change c) (drop replay_limit all) ≡ socket.sent ++ map (λ c. change c) all
joined socket all e = rw (
  e,
  append_assoc,
  sym (map-append (take replay_limit all) (drop replay_limit all)),
  take-drop replay_limit all,
)

-- The history that a cursor has not seen, in a log from which retention has deleted `n` rows.
abbrev pub unseen : ℕ → Room → ℕ → List Change → List Change
unseen n room since log = drop (since - n) (rows_of room log)

module _ (room : Room) (log : List Change) (n : ℕ) (follows : Follows n (rows_of room log)) where
  unseen_behind :
      (since m : ℕ) → n ≤ since → unseen n room (since + m) log ≡ drop m (unseen n room since log)
  unseen_behind since m le =
      let e : (since + m) - n ≡ (since - n) + m = omega (arith, le) in
      rw (e, drop-drop (since - n) m (rows_of room log))

  replay_steps :
      (pages since : ℕ) (socket : Socket)
      → n ≤ since
      → (since ≡ 0) ⊎ (0 < length (rows_of room log))
      → socket.is_open ≡ true
      → length (unseen n room since log) < pages * replay_limit
      → ((replay_pages (same_logs pages log) room since socket).0.sent
          ≡ socket.sent ++ map (λ c. change c) (unseen n room since log))
        × ((replay_pages (same_logs pages log) room since socket).1 ≡ true)
  unfolding replay_pages same_logs
  replay_steps zero since socket le reason ready enough = absurd (omega (arith, enough))
  replay_steps (suc pages) since socket le reason ready enough =
      let all = unseen n room since log in
      let batch = page_at n since replay_limit (rows_of room log) in
      let (served, _) = list_changes_complete log room since replay_limit n follows le reason in
      let sent = send_changes_open batch socket ready in
      rw (same_logs, served, replay_pages)
        (elim (Bool-cases (ltb (length batch) replay_limit)) [
          | inl short ↦ rw short (
            sent.1
                ∙ ap (λ l. socket.sent ++ map (λ c. change c) l)
                    (take_short replay_limit all (ltb-true (length batch) replay_limit short)),
            refl,
          )
          | inr long ↦
              let full = take_full replay_limit all (ltb-false (length batch) replay_limit long) in
              let behind = unseen_behind since (length batch) le in
              let rest =
                replay_steps pages (since + length batch) (send_changes batch socket)
                  (omega (arith, le))
                  (inr (omega (arith, full, length-drop (since - n) (rows_of room log)))) sent.0
                  (rw (behind, full.0) (omega (arith, full.1, enough))) in
              rw long (rest.0 ∙ rw (behind, full.0) (joined socket all sent.1), rest.1)
        ])

-- While nothing is published to a room whose log has no gaps, and with a cursor from which retention
-- has deleted nothing, in a log that has rows or at the cursor 0: the replay to an open socket ends,
-- in as many pages as its rows fill and one that is not full, and sends exactly the changes that the
-- cursor has not seen, in order.
pub replay_pages-ends :
    (room : Room) (log : List Change) (n since pages : ℕ) (socket : Socket)
    → Follows n (rows_of room log)
    → n ≤ since
    → (since ≡ 0) ⊎ (0 < length (rows_of room log))
    → socket.is_open ≡ true
    → length (unseen n room since log) < pages * replay_limit
    → ((replay_pages (same_logs pages log) room since socket).0.sent
        ≡ socket.sent ++ map (λ c. change c) (unseen n room since log))
      × ((replay_pages (same_logs pages log) room since socket).1 ≡ true)
replay_pages-ends room log n since pages socket follows le reason ready enough =
    replay_steps room log n follows pages since socket le reason ready enough
