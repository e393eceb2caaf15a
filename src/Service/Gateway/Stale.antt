-- ===== src/Service/Gateway/Stale.antt =====
-- A handshake of apps/service/src/ws.ts that fails late.
use crosscode.Prelude.{ℕ, ◌≡◌, refl, []}
use crosscode.Prelude.Text.{Text, same_refl}
use crosscode.Prelude.Dict.{lookup, lookup-erase}
use crosscode.Service.Gateway.{Message, Gateway, is_empty, deliver, deliver_in}
use crosscode.Service.Gateway.Subscribe.{abandon}

-- Where the registry that a handshake was registered in has been emptied, the handshake's failure
-- takes the room away from whichever registry has it by then, and what is delivered to the room
-- afterwards reaches no connection.
pub abandon-deliver :
    (g : Gateway) (id registry : ℕ) (message : Message) (exclude : Text)
    → g.registries registry ≡ []
    → (deliver (abandon id registry g) (g.connections id).room message exclude).connections
      ≡ g.connections
unfolding abandon deliver deliver_in is_empty
abandon-deliver g id registry message exclude emptied =
    rw emptied (unfold lookup in rw (lookup-erase, same_refl (g.connections id).room) refl)
