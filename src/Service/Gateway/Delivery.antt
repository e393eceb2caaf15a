-- ===== src/Service/Gateway/Delivery.antt =====
-- Whom a change reaches over apps/service/src/ws.ts.
use crosscode.Prelude.{
  ℕ, ◌≡◌, refl, ap, ◌∙◌, Bool, true, false, not, ◌&&◌, ◌||◌, List, [], ◌∷◌, Option, none, some,
  arith, any, ◌==◌, ==_iff, if◌then◌else◌, Bool-cases, inl, inr,
}
use crosscode.Prelude.Text.{Text, same}
use crosscode.Prelude.Dict.{Dict, lookup}
use crosscode.Protocol.{Change}
use crosscode.Service.Gateway.{
  Message, change, Connection, Gateway, write, queue, deliver_to, deliver, deliver_in,
  broadcast_changes,
}

-- Whether a registry has the connection for another replica than the one left out.
pub receives : Text → ℕ → Dict ℕ → Bool
receives exclude c [] = false
receives exclude c ((replica_id, id) ∷ registry) =
    (not (same replica_id exclude) && (id == c)) || receives exclude c registry

abbrev pub has_id : ℕ → Dict ℕ → Bool
has_id c registry = any (λ entry. entry.1 == c) registry

-- No connection stands in the registry twice.
unfoldable pub Distinct : Dict ℕ → Type 0
Distinct [] = Unit
Distinct ((replica_id, id) ∷ registry) = (has_id id registry ≡ false) × Distinct registry

receives_none :
    (exclude : Text) (c : ℕ) (registry : Dict ℕ)
    → has_id c registry ≡ false
    → receives exclude c registry ≡ false
unfolding receives any
receives_none exclude c [] h = refl
receives_none exclude c ((replica_id, id) ∷ registry) h =
    ground (arith, h, receives_none exclude c registry)

deliver_to_lem :
    (message : Message) (exclude : Text) (c : ℕ) (registry : Dict ℕ) (connections : ℕ → Connection)
    → Distinct registry
    → deliver_to message exclude registry connections c
      ≡ (if receives exclude c registry then queue message (connections c) else connections c)
unfolding deliver_to receives Distinct
deliver_to_lem message exclude c [] connections h = refl
deliver_to_lem message exclude c ((replica_id, id) ∷ registry) connections (fresh, h) =
    elim (Bool-cases (same replica_id exclude)) [
      | inl left_out ↦ rw left_out (deliver_to_lem message exclude c registry connections h)
      | inr sent ↦
          let after = write id (queue message (connections id)) connections in
          let ih = deliver_to_lem message exclude c registry after h in
          elim (Bool-cases (id == c)) [
            | inr other ↦ rw (sent, other) (rw other at ih)
            | inl it ↦
                let same_id : id ≡ c = (==_iff id c).0 it in
                let gone = receives_none exclude c registry (rw same_id at fresh) in
                rw (sent, it)
                  (rw (gone, it) at ih ∙ ap (λ i. queue message (connections i)) same_id)
          ]
    ]

-- The changes queued one after another.
pub queue_all : List Change → Connection → Connection
queue_all [] c = c
queue_all (x ∷ changes) c = queue_all changes (queue (change x) c)

deliver_connections :
    (g : Gateway) (room : Text) (message : Message) (exclude : Text) (registry c : ℕ)
    → lookup room g.rooms ≡ some registry
    → Distinct (g.registries registry)
    → (deliver g room message exclude).connections c ≡ (
        if receives exclude c (g.registries registry)
        then queue message (g.connections c)
        else g.connections c)
unfolding deliver deliver_in
deliver_connections g room message exclude registry c there h =
    rw there (deliver_to_lem message exclude c (g.registries registry) g.connections h)

deliver_in_rooms :
    (g : Gateway) (message : Message) (exclude : Text) (found : Option ℕ)
    → ((deliver_in g message exclude found).rooms ≡ g.rooms)
      × ((deliver_in g message exclude found).registries ≡ g.registries)
unfolding deliver_in
deliver_in_rooms g message exclude none = (refl, refl)
deliver_in_rooms g message exclude (some registry) = (refl, refl)

deliver_rooms :
    (g : Gateway) (room : Text) (message : Message) (exclude : Text)
    → ((deliver g room message exclude).rooms ≡ g.rooms)
      × ((deliver g room message exclude).registries ≡ g.registries)
unfolding deliver
deliver_rooms g room message exclude = deliver_in_rooms g message exclude (lookup room g.rooms)

either_way :
    (test : Bool) (changes : List Change) (x : Change) (before after : Connection)
    → after ≡ (if test then queue (change x) before else before)
    → (if test then queue_all changes after else after)
      ≡ (if test then queue_all (x ∷ changes) before else before)
unfolding queue_all
either_way true changes x before after h = ap (queue_all changes) h
either_way false changes x before after h = h

-- A batch of changes is queued, in order, for every connection of the room but the sender's, and for
-- no other connection.
pub broadcast_changes_reaches :
    (g : Gateway) (room : Text) (changes : List Change) (exclude : Text) (registry c : ℕ)
    → lookup room g.rooms ≡ some registry
    → Distinct (g.registries registry)
    → (broadcast_changes g room changes exclude).connections c ≡ (
        if receives exclude c (g.registries registry)
        then queue_all changes (g.connections c)
        else g.connections c)
unfolding broadcast_changes queue_all deliver receives
broadcast_changes_reaches g room [] exclude registry c there h = ground arith
broadcast_changes_reaches g room (x ∷ changes) exclude registry c there h =
    let g' = deliver g room (change x) exclude in
    let kept = deliver_rooms g room (change x) exclude in
    let ih =
      broadcast_changes_reaches g' room changes exclude registry c
        (ap (λ rooms. lookup room rooms) kept.0 ∙ there) (rw kept.1 h) in
    rw kept.1 at ih
    ∙ either_way (receives exclude c (g.registries registry)) changes x (g.connections c)
        (g'.connections c) (deliver_connections g room (change x) exclude registry c there h)
