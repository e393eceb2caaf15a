-- ===== src/Service/Gateway/Presence.antt =====
-- What a client can say of itself over apps/service/src/ws.ts.
use crosscode.Prelude.{ℕ, ◌≡◌, refl, ◌∙◌, List, [], ◌∷◌, Option, none, some, Bool-cases, inl, inr}
use crosscode.Service.Gateway.{
  PresenceEntry, Connection, take_presence_frame, find_own, reported, presence_frame,
}

-- The frames of a connection, one after another, each at its time.
pub frames : ℕ → List (ℕ × List PresenceEntry) → Connection → Connection
frames maximum [] c = c
frames maximum ((now, peers) ∷ rest) c = frames maximum rest (presence_frame maximum now peers c).0

-- All of the presence but the paths.
pub record IsNamed (before after : PresenceEntry) : Type 0 where
  pub replica_id : after.replica_id ≡ before.replica_id
  pub actor : after.actor ≡ before.actor
  pub branch : after.branch ≡ before.branch
  pub head : after.head ≡ before.head

reported-IsNamed :
    (maximum now : ℕ) (c : Connection) (own : Option PresenceEntry)
    → IsNamed c.presence (reported maximum now c own).0.presence
unfolding reported take_presence_frame
reported-IsNamed maximum now c none = record {
  replica_id = refl;
  actor = refl;
  branch = refl;
  head = refl;
}
reported-IsNamed maximum now c (some own) =
    elim (Bool-cases (take_presence_frame maximum now c).1) [
      | inl t ↦ rw t (record { replica_id = refl; actor = refl; branch = refl; head = refl })
      | inr f ↦ rw f (record { replica_id = refl; actor = refl; branch = refl; head = refl })
    ]

-- Whatever presence frames a client sends, the actor, the replica and the branch that its peers see
-- are those of its connection; and so is the head, though a frame has one to announce.
pub frames-IsNamed :
    (maximum : ℕ) (sent : List (ℕ × List PresenceEntry)) (c : Connection)
    → IsNamed c.presence (frames maximum sent c).presence
unfolding frames presence_frame
frames-IsNamed maximum [] c = record { replica_id = refl; actor = refl; branch = refl; head = refl }
frames-IsNamed maximum ((now, peers) ∷ rest) c =
    let first = reported-IsNamed maximum now c (find_own c.replica_id peers) in
    let later = frames-IsNamed maximum rest (presence_frame maximum now peers c).0 in
    record {
      replica_id = later.replica_id ∙ first.replica_id;
      actor = later.actor ∙ first.actor;
      branch = later.branch ∙ first.branch;
      head = later.head ∙ first.head;
    }
