-- ===== src/Service/Devices.antt =====
-- apps/service/src/store.ts: the device codes by which a terminal signs in. A row is found by its
-- code, and a transaction that has found one holds its lock, so an operation is one function.
pub mod Table
pub mod Steps
pub mod Once
use crosscode.Prelude.{
  ℕ, ◌+◌, ◌*◌, Bool, true, false, not, ◌||◌, List, [], ◌∷◌, Option, none, some, ltb, leb, is_some,
  if◌then◌else◌,
}
use crosscode.Prelude.Text.{Text, same}
use crosscode.Service.Rows.{find}
use crosscode.Prelude.Dict.{Dict, lookup, insert, erase, keys}

pub record DeviceSession : Type 0 where
  pub access_token : Text
  pub refresh_token : Text
  pub expires_at : Text
  pub github_token : Option Text

pub data DeviceBindResult : Type 0 where
  unknown expired consumed already_bound bound : DeviceBindResult

pub data DeviceClaimResult : Type 0 where
  unknown expired consumed pending : DeviceClaimResult
  complete : DeviceSession → DeviceClaimResult

-- A row of `device_codes`; its primary key is its name in the table.
pub record DeviceRow : Type 0 where
  pub device_code_hash : Text
  pub user_code : Text
  pub user_id : Option Text
  pub session : Option DeviceSession
  pub expires_at : ℕ
  pub consumed_at : Option ℕ

abbrev pub Devices : Type 0
Devices = Dict DeviceRow

abbrev hour : ℕ
hour = 3600000

-- `DELETE FROM device_codes WHERE expires_at < now() - interval '1 hour'`
unfoldable pub sweep : ℕ → List Text → Devices → Devices
sweep now [] table = table
sweep now (id ∷ ids) table =
    let rest = sweep now ids table in
    elim (lookup id table) [
      | none ↦ rest
      | some row ↦ if ltb (row.expires_at + hour) now then erase id rest else rest
    ]

-- The random values of one attempt: the row's id and the two codes.
pub record Drawn : Type 0 where
  pub id : Text
  pub device_code : Text
  pub user_code : Text

bind_row : Text → DeviceSession → ℕ → Devices → Text → DeviceRow → Devices × DeviceBindResult
bind_row user_id session now table id row =
    if is_some row.consumed_at
    then (table, consumed)
    else if leb row.expires_at now
    then (table, expired)
    else if is_some row.user_id
    then (table, already_bound)
    else (insert id (record row { user_id = some user_id; session = some session }) table, bound)

unfoldable pub bind_device_code :
    Text → Text → DeviceSession → ℕ → Devices → Devices × DeviceBindResult
unfolding bind_row
bind_device_code user_code user_id session now table =
    elim (find (λ row. same row.user_code user_code) table) [
      | none ↦ (table, unknown)
      | some (id, row) ↦ bind_row user_id session now table id row
    ]

collect : Devices → ℕ → Text → DeviceRow → Option DeviceSession → Devices × DeviceClaimResult
collect table now id row none = (table, pending)
collect table now id row (some session) =
    (insert id (record row { consumed_at = some now; session = none }) table, complete session)

claim_row : ℕ → Devices → Text → DeviceRow → Devices × DeviceClaimResult
unfolding collect
claim_row now table id row =
    if is_some row.consumed_at
    then (table, consumed)
    else if leb row.expires_at now
    then (table, expired)
    else collect table now id row row.session

module _ (hash_device_code : Text → Text) where
  -- A UNIQUE constraint or the primary key refuses the row.
  collides : Drawn → Devices → Bool
  unfolding find
  collides drawn table =
      is_some (lookup drawn.id table)
      || is_some
          (find (λ row. same row.device_code_hash (hash_device_code drawn.device_code)) table)
      || is_some (find (λ row. same row.user_code drawn.user_code) table)

  abbrev pub fresh_row : Drawn → ℕ → DeviceRow
  fresh_row drawn expires_at = record {
    device_code_hash = hash_device_code drawn.device_code;
    user_code = drawn.user_code;
    user_id = none;
    session = none;
    expires_at = expires_at;
    consumed_at = none;
  }

  -- The attempts, of which the caller makes five; `none` is the error of the last.
  insert_row : List Drawn → ℕ → Devices → Devices × Option Drawn
  unfolding collides
  insert_row [] expires_at table = (table, none)
  insert_row (drawn ∷ rest) expires_at table =
      let again = insert_row rest expires_at table in
      if collides drawn table
      then again
      else (insert drawn.id (fresh_row drawn expires_at) table, some drawn)

  unfoldable pub start_device_code : List Drawn → ℕ → ℕ → Devices → Devices × Option Drawn
  unfolding insert_row sweep
  start_device_code draws expires_in_seconds now table =
      insert_row draws (now + expires_in_seconds * 1000) (sweep now (keys table) table)

  unfoldable pub claim_device_code : Text → ℕ → Devices → Devices × DeviceClaimResult
  unfolding claim_row
  claim_device_code device_code now table =
      elim (find (λ row. same row.device_code_hash (hash_device_code device_code)) table) [
        | none ↦ (table, unknown)
        | some (id, row) ↦ claim_row now table id row
      ]
