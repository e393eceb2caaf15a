-- ===== src/Service/Devices/Table.antt =====
-- The table of device codes of apps/service/src/store.ts: what a search and a sweep find, and the ways
-- in which the table changes.
use crosscode.Prelude.{
  ℕ, ◌≡◌, Bool, true, false, List, [], ◌∷◌, some, arith, ltb, is_some, Bool-cases, Option-cases,
  inl, inr, ◌+◌,
}
use crosscode.Prelude.Text.{Text, same}
use crosscode.Prelude.Dict.{lookup, insert, lookup-erase}
use crosscode.Service.Devices.{DeviceRow, Devices, sweep, hour}

pub sweep-kept :
    (now : ℕ) (ids : List Text) (table : Devices) (id : Text) {row : DeviceRow}
    → lookup id (sweep now ids table) ≡ some row
    → lookup id table ≡ some row
unfolding sweep
sweep-kept now [] table id h = h
sweep-kept now (i ∷ ids) table id h = elim (Option-cases (lookup i table)) [
  | inl gone ↦ sweep-kept now ids table id (rw (gone, sweep) at h)
  | inr (r, here) ↦ elim (Bool-cases (ltb (r.expires_at + hour) now)) [
    | inr f ↦ sweep-kept now ids table id (rw (here, f, sweep) at h)
    | inl t ↦ sweep-kept now ids table id (ground (arith, rw (here, t, sweep, lookup-erase) at h))
  ]
]

abbrev pub Holds : Devices → Text → DeviceRow → Type 0
Holds table id row = lookup id table ≡ some row

-- What survives the three ways in which a table changes: rows are deleted, a row that is not
-- consumed is written, and a row with an unused hash is added.
pub record IsClosed (fresh : Text → Bool) (P : Devices → Type 0) : Type 0 where
  pub deleted :
      (t t' : Devices)
      → ((id : Text) (row : DeviceRow) → Holds t' id row → Holds t id row)
      → P t
      → P t'
  pub updated :
      (t : Devices) (id : Text) (old row : DeviceRow)
      → Holds t id old
      → row.device_code_hash ≡ old.device_code_hash
      → is_some old.consumed_at ≡ false
      → P t
      → P (insert id row t)
  pub created :
      (t : Devices) (id : Text) (row : DeviceRow)
      → fresh row.device_code_hash ≡ true
      → ((j : Text) (other : DeviceRow)
          → Holds t j other
          → same other.device_code_hash row.device_code_hash ≡ false)
      → P t
      → P (insert id row t)
