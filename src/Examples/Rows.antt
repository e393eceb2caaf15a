-- ===== src/Examples/Rows.antt =====
-- Tables with a few rows.
use crosscode.Prelude.{
  ◌||◌, ℕ, ◌+◌, ◌≡◌, refl, true, false, List, [], ◌∷◌, ◌++◌, none, some, arith, length, inr,
}
use crosscode.Prelude.Text.{Text, codes, same}
use crosscode.Prelude.Dict.{lookup, keys, insert}
use crosscode.Protocol.{FileVersion, Change, delete, utf8}
use crosscode.Service.Changes.{Room, page, rows_of, in_room, publish_changes, list_changes}
use crosscode.Service.Changes.Sequence.{Follows, publish_changes-Follows}
use crosscode.Service.Changes.Pages.{page_at, list_changes_complete, list_changes_restarts}
use crosscode.Service.Invites.{Tables, owner, refused, conflicting, is_member, redeem_invite}
use crosscode.Service.Invites.Redeem.{accepted, joins, redeem_invite-once, redeem_invite-members}
use crosscode.Service.Rows.{find}
use crosscode.Service.Devices.{
  DeviceSession, Drawn, Devices, start_device_code, bind_device_code, claim_device_code,
}
use crosscode.Service.Devices.Steps.{started, bound, done, then_}
use crosscode.Service.Devices.Once.{hands_over, claim_device_code-once}

abbrev room : Room
room = record { project_id = codes "p"; branch = codes "main" }

abbrev version : FileVersion
version = record {
  path = codes "a.txt";
  op = delete;
  base_hash = some (codes "1");
  content_hash = none;
  content = none;
  patch = none;
  encoding = utf8;
  mode = none;
  renamed_from = none;
}

abbrev row : Text → ℕ → Change
row branch sequence = record {
  sequence = sequence;
  project_id = codes "p";
  branch = branch;
  replica_id = codes "r";
  created_at = codes "t";
  version = version;
}

-- Retention has deleted the first two rows of the room, and another room has rows too.
abbrev table : List Change
table =
    row (codes "main") 3 ∷ row (codes "dev") 1 ∷ row (codes "main") 4 ∷ row (codes "main") 5 ∷ []

table_rows :
    rows_of room table ≡ (row (codes "main") 3 ∷ row (codes "main") 4 ∷ row (codes "main") 5 ∷ [])
unfolding rows_of in_room same
table_rows = refl

table-Follows : Follows 2 (rows_of room table)
unfolding Follows rows_of in_room same
table-Follows = (refl, (refl, (refl, tt)))

table-length : length (rows_of room table) ≡ 3
unfolding rows_of in_room same
table-length = refl

publish_changes-Follows_example :
    Follows 2 (rows_of room (publish_changes table room (codes "r") (codes "t") (version ∷ [])).0)
    × (rows_of room (publish_changes table room (codes "r") (codes "t") (version ∷ [])).0 ≡ (
        rows_of room table
        ++ (publish_changes table room (codes "r") (codes "t") (version ∷ [])).1))
    × Follows
        (2 + length (rows_of room table))
        (publish_changes table room (codes "r") (codes "t") (version ∷ [])).1
publish_changes-Follows_example =
    publish_changes-Follows table room (codes "r") (codes "t") (version ∷ []) 2 table-Follows
      (inr (ground (arith, table-length)))

list_changes_complete_example :
    (list_changes table room 3 1
      ≡ page (page_at 2 3 1 (rows_of room table)) (3 + length (page_at 2 3 1 (rows_of room table))))
    × Follows 3 (page_at 2 3 1 (rows_of room table))
list_changes_complete_example =
    list_changes_complete table room 3 1 2 table-Follows (omega arith)
      (inr (ground (arith, table-length)))

list_changes_restarts_example :
    list_changes (publish_changes [] room (codes "r") (codes "t") (version ∷ [])).0 room 50 10
    ≡ page [] 50
list_changes_restarts_example =
    list_changes_restarts [] room (codes "r") (codes "t") (version ∷ []) 50 10
      (unfold rows_of in refl) (omega arith) (omega arith)

abbrev hash : Text → Text
hash code = code

abbrev session : DeviceSession
session = record {
  access_token = codes "a";
  refresh_token = codes "b";
  expires_at = codes "t";
  github_token = none;
}

abbrev drawn : Drawn
drawn = record { id = codes "1"; device_code = codes "secret"; user_code = codes "WDJB-MJHT" }

abbrev opened : Devices
opened = (start_device_code hash (drawn ∷ []) 900 1000 []).0

abbrev signed_in : Devices
signed_in = (bind_device_code (codes "WDJB-MJHT") (codes "u") session 2000 opened).0

abbrev collected : Devices
collected = (claim_device_code hash (codes "secret") 3000 signed_in).0

handed : hands_over (claim_device_code hash (codes "secret") 3000 signed_in).1 ≡ true
unfolding claim_device_code bind_device_code start_device_code keys lookup insert same
handed = refl

claim_device_code-once_example :
    hands_over
      (claim_device_code hash
        (codes "secret")
        4000
        (bind_device_code (codes "WDJB-MJHT") (codes "v") session 3500 collected).0).1
    ≡ false
claim_device_code-once_example =
    claim_device_code-once hash signed_in
      (bind_device_code (codes "WDJB-MJHT") (codes "v") session 3500 collected).0 (codes "secret")
      3000 4000
      (then_ [] opened signed_in (started (drawn ∷ []) 900 1000 [] (refl, tt)) (
        then_ opened signed_in signed_in (bound (codes "WDJB-MJHT") (codes "u") session 2000 opened)
          (done signed_in)))
      handed
      (then_ collected _ _ (bound (codes "WDJB-MJHT") (codes "v") session 3500 collected)
        (done (bind_device_code (codes "WDJB-MJHT") (codes "v") session 3500 collected).0))

abbrev tables : Tables
tables = record {
  projects =
      (codes "p", record { name = codes "n"; repo = codes "o/r"; created_by = codes "u" }) ∷ [];
  members = record { project_id = codes "p"; user_id = codes "u"; role = owner } ∷ [];
  invites =
      (
        codes "i",
        record {
          project_id = codes "p";
          code = codes "CC-7F3A-9C2E";
          created_by = codes "u";
          expires_at = 5000;
          redeemed_at = none;
          redeemed_by = none;
        },
      )
      ∷ [];
}

redeemed : accepted (redeem_invite (codes "CC-7F3A-9C2E") (codes "v") 1000 tables).0 ≡ true
unfolding redeem_invite find keys lookup same
redeemed = refl

redeem_invite-once_example :
    (redeem_invite
      (codes "CC-7F3A-9C2E")
      (codes "w")
      2000
      (redeem_invite (codes "CC-7F3A-9C2E") (codes "v") 1000 tables).1).0
    ≡ refused conflicting
redeem_invite-once_example =
    redeem_invite-once (codes "CC-7F3A-9C2E") (codes "v") (codes "w") 1000 2000 tables redeemed

redeem_invite-members_example :
    is_member
      (redeem_invite (codes "CC-7F3A-9C2E") (codes "v") 1000 tables).1.members
      (codes "p")
      (codes "v")
    ≡ (is_member tables.members (codes "p") (codes "v")
        || joins
            (redeem_invite (codes "CC-7F3A-9C2E") (codes "v") 1000 tables).0
            (codes "v")
            (codes "p")
            (codes "v"))
redeem_invite-members_example =
    redeem_invite-members (codes "CC-7F3A-9C2E") (codes "v") 1000 tables (codes "p") (codes "v")
