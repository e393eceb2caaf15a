-- ===== src/Service/Gateway/Live/Steps.antt =====
-- Every step of a subscriber of apps/service/src/ws.ts keeps the changes that it has yet to be sent.
use crosscode.Prelude.{
  ℕ, ◌+◌, ◌-◌, ◌≤◌, ◌<◌, ◌≡◌, refl, sym, ap, ◌∙◌, ◌⊎◌, inl, inr, Bool, true, false, ◌&&◌, List, [],
  ◌∷◌, ◌++◌, none, is_some, get_or, length, drop, ltb, Bool-cases, Among, Among-append,
  Among-append_left, Among-append_right, arith,
}
use crosscode.Prelude.Text.{Text, same}
use crosscode.Protocol.{FileVersion, Change}
use crosscode.Service.Changes.{Room, page, rows_of, publish_changes}
use crosscode.Service.Changes.Sequence.{
  Follows, publish_changes-Follows, publish_changes-other_rooms,
}
use crosscode.Service.Changes.Pages.{dropped, page_at, list_changes_complete}
use crosscode.Service.Gateway.{Message, change, presence, Connection, queue}
use crosscode.Service.Gateway.Subscribe.{replay_limit}
use crosscode.Service.Gateway.Live.{
  Stream, Step, publish, publish_elsewhere, announce, read, tell, written, gone, unregister, hear,
  commit, commit_elsewhere, read_page, replayed, finish_replay,
}
use crosscode.Service.Gateway.Live.Received.{
  received, IsOpen, queue-Took, queue_replica, flush_replica, finish_replay-received,
  send_changes_keeps,
}
use crosscode.Service.Gateway.Live.Pages.{
  Among-drop, whole_page, part_page, nonempty_log, after_page, page_has, page_keeps,
}

-- A change is with the subscriber, or will be: it is to be broadcast, or the replay will read it.
abbrev pub Covered : Change → Stream → Type 0
Covered c s =
    Among (change c) (received s.connection)
    ⊎ (Among c s.unannounced ⊎ ((is_some s.connection.pending ≡ true) × (s.cursor < c.sequence)))

module _ (room : Room) (n : ℕ) (own : Text) (c : Change)
    (others : same c.replica_id own ≡ false) where
  pub record Inv (s : Stream) : Type 0 where
    pub follows : Follows n (rows_of room s.log)
    pub deleted : n ≤ s.cursor
    pub reason : (s.cursor ≡ 0) ⊎ (0 < length (rows_of room s.log))
    pub named : s.connection.replica_id ≡ own
    pub covers :
        s.is_registered ≡ true → IsOpen s.connection → Among c (rows_of room s.log) → Covered c s

  reached : (s : Stream) → Inv s → (n ≡ 0) ⊎ (0 < length (rows_of room s.log))
  reached s inv = elim inv.reason [ inl e ↦ inl (omega (arith, e, inv.deleted)) | inr lt ↦ inr lt ]

  later_reason :
      (cursor : ℕ) (a b : List Change)
      → (cursor ≡ 0) ⊎ (0 < length a)
      → (cursor ≡ 0) ⊎ (0 < length (a ++ b))
  later_reason cursor a b (inl e) = inl e
  later_reason cursor [] b (inr lt) = elim lt [ ]
  later_reason cursor (x ∷ a) b (inr lt) = inr (omega arith)

  widened :
      (s : Stream) (more : List Change)
      → Covered c s
      → Covered c (record s { unannounced = s.unannounced ++ more })
  widened s more (inl m) = inl m
  widened s more (inr (inl m)) = inr (inl (Among-append_left c s.unannounced more m))
  widened s more (inr (inr waits)) = inr (inr waits)

  publish-Inv :
      (s : Stream) (replica_id created_at : Text) (versions : List FileVersion)
      → Inv s
      → Inv (commit room replica_id created_at versions s)
  unfolding commit
  publish-Inv s replica_id created_at versions inv =
      let (f, e, _) =
        publish_changes-Follows s.log room replica_id created_at versions n inv.follows
          (reached s inv) in
      let more = (publish_changes s.log room replica_id created_at versions).1 in
      record {
        follows = f;
        deleted = inv.deleted;
        reason = rw e (later_reason s.cursor (rows_of room s.log) more inv.reason);
        named = inv.named;
        covers = λ g h m. elim (Among-append c (rows_of room s.log) more (rw e at m)) [
          | inl old ↦ widened s more (inv.covers g h old)
          | inr new ↦ inr (inl (Among-append_right c s.unannounced more new))
        ];
      }

  publish_elsewhere-Inv :
      (s : Stream) (other : Room) (replica_id created_at : Text) (versions : List FileVersion)
      → (same other.project_id room.project_id && same other.branch room.branch) ≡ false
      → Inv s
      → Inv (commit_elsewhere other replica_id created_at versions s)
  unfolding commit_elsewhere
  publish_elsewhere-Inv s other replica_id created_at versions apart inv =
      let e = publish_changes-other_rooms s.log other room replica_id created_at versions apart in
      record {
        follows = rw e inv.follows;
        deleted = inv.deleted;
        reason = rw e inv.reason;
        named = inv.named;
        covers = λ g h m. inv.covers g h (rw e at m);
      }

  -- A message that the connection is given costs it nothing that it has.
  given :
      (s : Stream) (m : Message) (unannounced : List Change)
      → IsOpen (queue m s.connection)
      → (Among c s.unannounced → Among c unannounced ⊎ (m ≡ change c))
      → Covered c s
      → Covered c (record s { unannounced = unannounced; connection = queue m s.connection })
  given s m unannounced h moved covered =
      let took = queue-Took m s.connection h in
      let add : Among (change c) (received s.connection ++ m ∷ [])
          → Among (change c) (received (queue m s.connection)) =
        λ a. rw took.gained a in
      elim covered [
        | inl had ↦ inl (add (Among-append_left (change c) (received s.connection) (m ∷ []) had))
        | inr (inl waiting) ↦ elim (moved waiting) [
          | inl still ↦ inr (inl still)
          | inr e ↦
              inl (add (Among-append_right (change c) (received s.connection) (m ∷ []) (inl e)))
        ]
        | inr (inr (reading, lt)) ↦ inr (inr (took.phase ∙ reading, lt))
      ]

  taken :
      (before : List Change) (d : Change) (behind : List Change) (unannounced : List Change)
      → unannounced ≡ before ++ d ∷ behind
      → Among c unannounced
      → Among c (before ++ behind) ⊎ (d ≡ c)
  taken before d behind unannounced e m = elim (Among-append c before (d ∷ behind) (rw e at m)) [
    | inl a ↦ inl (Among-append_left c before behind a)
    | inr (inl a) ↦ inr a
    | inr (inr a) ↦ inl (Among-append_right c before behind a)
  ]

  clash :
      (d : Change) (replica_id : Text)
      → d ≡ c
      → replica_id ≡ own
      → same d.replica_id replica_id ≡ true
      → ⊥
  clash d replica_id e named mine = cc (others, ap (λ (x : Change). x.replica_id) e)

  as_message :
      (before : List Change) (d : Change) (behind : List Change)
      → Among c (before ++ behind) ⊎ (d ≡ c)
      → Among c (before ++ behind) ⊎ (change d ≡ change c)
  as_message before d behind (inl a) = inl a
  as_message before d behind (inr e) = inr (ap (λ x. change x) e)

  announce_covers :
      (s : Stream) (before : List Change) (d : Change) (behind : List Change)
      → s.unannounced ≡ before ++ d ∷ behind
      → s.connection.replica_id ≡ own
      → IsOpen (hear true d s.connection)
      → (IsOpen s.connection → Covered c s)
      → Covered c
          (record s { unannounced = before ++ behind; connection = hear true d s.connection })
  unfolding hear
  announce_covers s before d behind e named h covers =
      elim (Bool-cases (same d.replica_id s.connection.replica_id)) [
        | inl mine ↦ rw mine (elim (covers (rw mine at h)) [
          | inl had ↦ inl had
          | inr (inl waiting) ↦ elim (taken before d behind s.unannounced e waiting) [
            | inl still ↦ inr (inl still)
            | inr is_d ↦ absurd (clash d s.connection.replica_id is_d named mine)
          ]
          | inr (inr reading) ↦ inr (inr reading)
        ])
        | inr theirs ↦ rw theirs (
            given s (change d) (before ++ behind) (rw theirs at h)
              (λ m. as_message before d behind (taken before d behind s.unannounced e m))
              (covers (queue-Took (change d) s.connection (rw theirs at h)).opened))
      ]

  announced :
      (registered : Bool) (s : Stream) (before : List Change) (d : Change) (behind : List Change)
      → registered ≡ true
      → s.unannounced ≡ before ++ d ∷ behind
      → s.connection.replica_id ≡ own
      → IsOpen (hear registered d s.connection)
      → (IsOpen s.connection → Covered c s)
      → Covered c
          (record s { unannounced = before ++ behind; connection = hear registered d s.connection })
  announced true s before d behind g e named h covers =
      announce_covers s before d behind e named h covers
  announced false s before d behind g e named h covers = cc

  hear_replica :
      (registered : Bool) (d : Change) (connection : Connection)
      → (hear registered d connection).replica_id ≡ connection.replica_id
  unfolding hear
  hear_replica false d connection = refl
  hear_replica true d connection = elim (Bool-cases (same d.replica_id connection.replica_id)) [
    | inl mine ↦ rw mine refl
    | inr theirs ↦ rw theirs (queue_replica (change d) connection)
  ]

  last_page :
      (s : Stream) (changes : List Change)
      → IsOpen s.connection
      → (s.cursor < c.sequence → Among c changes)
      → Covered c s
      → Among (change c) (received (after_page changes s.connection)) ⊎ Among c s.unannounced
  last_page s changes h all (inl had) = inl (page_keeps (change c) changes s.connection h had)
  last_page s changes h all (inr (inl waits)) = inr waits
  last_page s changes h all (inr (inr (_, lt))) = inl (page_has c changes s.connection h (all lt))

  full_page :
      (s : Stream) (changes : List Change) (next : ℕ)
      → IsOpen s.connection
      → (s.cursor < c.sequence → Among c changes ⊎ (next < c.sequence))
      → Covered c s
      → Covered c (record s { cursor = next; connection = after_page changes s.connection })
  full_page s changes next h some_of (inl had) =
      inl (page_keeps (change c) changes s.connection h had)
  full_page s changes next h some_of (inr (inl waits)) = inr (inl waits)
  full_page s changes next h some_of (inr (inr (reading, lt))) = elim (some_of lt) [
    | inl m ↦ inl (page_has c changes s.connection h m)
    | inr behind ↦ inr (inr (reading, behind))
  ]

  behind_cursor :
      (s : Stream)
      → Inv s
      → Among c (rows_of room s.log)
      → s.cursor < c.sequence
      → Among c (drop (s.cursor - n) (rows_of room s.log))
  behind_cursor s inv m lt = Among-drop n s.cursor c (rows_of room s.log) inv.follows lt m

  finished :
      (s : Stream) (connection : Connection)
      → IsOpen (finish_replay connection)
      → Among (change c) (received connection) ⊎ Among c s.unannounced
      → Covered c (record s { connection = finish_replay connection })
  finished s connection h (inl had) = inl (rw (finish_replay-received connection h).1 had)
  finished s connection h (inr waits) = inr (inl waits)

  read_covers :
      (s : Stream) (changes : List Change)
      → changes ≡ page_at n s.cursor replay_limit (rows_of room s.log)
      → Inv s
      → s.is_registered ≡ true
      → IsOpen (replayed (page changes (s.cursor + length changes)) s).connection
      → Among c (rows_of room s.log)
      → Covered c (replayed (page changes (s.cursor + length changes)) s)
  unfolding replayed
  read_covers s changes e inv g h m = elim (Bool-cases (ltb (length changes) replay_limit)) [
    | inl last ↦ rw last (
        let h' : IsOpen (finish_replay (after_page changes s.connection)) = rw last at h in
        let open_before =
          sym (send_changes_keeps changes s.connection.socket)
          ∙ (finish_replay-received (after_page changes s.connection) h').0 in
        finished s (after_page changes s.connection) h' (
          last_page s changes open_before
            (λ lt.
              whole_page replay_limit c (drop (s.cursor - n) (rows_of room s.log)) changes e last
                (behind_cursor s inv m lt))
            (inv.covers g open_before m)))
    | inr full ↦ rw full (
        let h' : IsOpen (after_page changes s.connection) = rw full at h in
        let open_before = sym (send_changes_keeps changes s.connection.socket) ∙ h' in
        full_page s changes (s.cursor + length changes) open_before
          (λ lt.
            part_page replay_limit s.cursor c (drop (s.cursor - n) (rows_of room s.log)) changes e
              (dropped n s.cursor (rows_of room s.log) inv.follows inv.deleted)
              (behind_cursor s inv m lt))
          (inv.covers g open_before m))
  ]

  finish_replay_replica :
      (connection : Connection) → (finish_replay connection).replica_id ≡ connection.replica_id
  unfolding finish_replay
  finish_replay_replica connection =
      flush_replica (get_or connection.pending []) (record connection { pending = none })

  page-Inv :
      (s : Stream) (changes : List Change)
      → changes ≡ page_at n s.cursor replay_limit (rows_of room s.log)
      → Inv s
      → Inv (replayed (page changes (s.cursor + length changes)) s)
  unfolding replayed
  page-Inv s changes e inv = elim (Bool-cases (ltb (length changes) replay_limit)) [
    | inl last ↦ rw last (record {
      follows = inv.follows;
      deleted = inv.deleted;
      reason = inv.reason;
      named = finish_replay_replica (after_page changes s.connection) ∙ inv.named;
      covers = rw last at (read_covers s changes e inv);
    })
    | inr full ↦ rw full (record {
      follows = inv.follows;
      deleted = omega (arith, inv.deleted);
      reason = inr (nonempty_log 499 (s.cursor - n) (rows_of room s.log) changes e full);
      named = inv.named;
      covers = rw full at (read_covers s changes e inv);
    })
  ]

  read-Inv : (s : Stream) → Inv s → Inv (read_page room s)
  unfolding read_page
  read-Inv s inv =
      let (served, _) =
        list_changes_complete s.log room s.cursor replay_limit n inv.follows inv.deleted
          inv.reason in
      rw served (page-Inv s (page_at n s.cursor replay_limit (rows_of room s.log)) refl inv)

  pub Step-Inv : {s t : Stream} → Step room s t → Inv s → Inv t
  Step-Inv (publish s replica_id created_at versions) inv =
      publish-Inv s replica_id created_at versions inv
  Step-Inv (publish_elsewhere s other replica_id created_at versions apart) inv =
      publish_elsewhere-Inv s other replica_id created_at versions apart inv
  Step-Inv (announce s before d behind e) inv = record {
    follows = inv.follows;
    deleted = inv.deleted;
    reason = inv.reason;
    named = hear_replica s.is_registered d s.connection ∙ inv.named;
    covers = λ g h m.
        announced s.is_registered s before d behind g e inv.named h (λ o. inv.covers g o m);
  }
  Step-Inv (read s buffered e) inv = read-Inv s inv
  Step-Inv (tell s peers) inv = record {
    follows = inv.follows;
    deleted = inv.deleted;
    reason = inv.reason;
    named = queue_replica (presence peers) s.connection ∙ inv.named;
    covers = λ g h m.
        given s (presence peers) s.unannounced h (λ a. inl a)
          (inv.covers g (queue-Took (presence peers) s.connection h).opened m);
  }
  Step-Inv (written s amount) inv = record {
    follows = inv.follows;
    deleted = inv.deleted;
    reason = inv.reason;
    named = inv.named;
    covers = inv.covers;
  }
  Step-Inv (gone s) inv = record {
    follows = inv.follows;
    deleted = inv.deleted;
    reason = inv.reason;
    named = inv.named;
    covers = λ g h m. cc;
  }
  Step-Inv (unregister s) inv = record {
    follows = inv.follows;
    deleted = inv.deleted;
    reason = inv.reason;
    named = inv.named;
    covers = λ g h m. cc;
  }
