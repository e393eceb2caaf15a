-- ===== src/Service/Gateway/Live/Complete.antt =====
-- No change is lost between the replay of a subscriber of apps/service/src/ws.ts and the broadcasts.
use crosscode.Prelude.{
  ℕ, ◌≤◌, ◌<◌, ◌≡◌, refl, ◌⊎◌, inl, inr, true, false, [], none, some, is_some, length, Among,
}
use mathlib.Core.List.{append-nil}
use crosscode.Prelude.Text.{Text, same}
use crosscode.Protocol.{Change}
use crosscode.Service.Changes.{Room, rows_of}
use crosscode.Service.Changes.Sequence.{Follows}
use crosscode.Service.Gateway.{change}
use crosscode.Service.Gateway.Live.{Stream, Reach, here, later}
use crosscode.Service.Gateway.Live.Steps.{Covered, Inv, Step-Inv}

module _ (room : Room) (n : ℕ) (own : Text) (c : Change)
    (others : same c.replica_id own ≡ false) where
  Reach-Inv :
      {s t : Stream} → Reach room s t → Inv room n own c others s → Inv room n own c others t
  Reach-Inv here inv = inv
  Reach-Inv (later r step) inv = Step-Inv room n own c others step (Reach-Inv r inv)

  settled :
      (s : Stream)
      → s.connection.pending ≡ none
      → Covered c s
      → Among (change c) s.connection.socket.sent ⊎ Among c s.unannounced
  settled s e (inl had) = inl (rw (e, append-nil s.connection.socket.sent) at had)
  settled s e (inr (inl waits)) = inr waits
  settled s e (inr (inr (reading, lt))) =
      absurd (let no_more : is_some s.connection.pending ≡ false = rw e refl in cc)

-- From a registration on, whatever else is published, broadcast and told meanwhile, and in whatever
-- order: when the replay is over, the connection still open, and the registry of its room still has it,
-- every change of the room behind the subscriber's cursor that another replica has published has been
-- sent, or has yet to be broadcast. The log has no gaps, retention has deleted nothing behind the
-- cursor and deletes nothing meanwhile, and the log has rows or the cursor is 0.
pub no_change_is_lost :
    (room : Room) (n : ℕ) (c : Change) (s t : Stream)
    → s.connection.pending ≡ some []
    → Follows n (rows_of room s.log)
    → n ≤ s.cursor
    → (s.cursor ≡ 0) ⊎ (0 < length (rows_of room s.log))
    → Reach room s t
    → t.is_registered ≡ true
    → t.connection.socket.is_open ≡ true
    → t.connection.pending ≡ none
    → Among c (rows_of room t.log)
    → s.cursor < c.sequence
    → same c.replica_id s.connection.replica_id ≡ false
    → Among (change c) t.connection.socket.sent ⊎ Among c t.unannounced
no_change_is_lost room n c s t fresh follows deleted reason reach registered opened over m unseen
      others =
    let start : Inv room n s.connection.replica_id c others s = record {
      follows = follows;
      deleted = deleted;
      reason = reason;
      named = refl;
      covers = λ g h a. inr (inr (rw fresh refl, unseen));
    } in
    let inv : Inv room n s.connection.replica_id c others t =
      Reach-Inv room n s.connection.replica_id c others reach start in
    settled room n s.connection.replica_id c others t over (inv.covers registered opened m)
