-- ===== src/Service/Rows.antt =====
-- A table of apps/service/src/store.ts as a dictionary by its primary key, and `SELECT … WHERE …` on it.
pub mod Search
use crosscode.Prelude.{Bool, List, [], ◌∷◌, Option, none, some, if◌then◌else◌}
use crosscode.Prelude.Text.{Text}
use crosscode.Prelude.Dict.{Dict, lookup, keys}

module _ {A : Type 0} where
  -- The first row that passes, with its key.
  first_of : (A → Bool) → Dict A → List Text → Option (Text × A)
  first_of test table [] = none
  first_of test table (id ∷ ids) =
      let rest = first_of test table ids in
      elim (lookup id table) [ none ↦ rest | some row ↦ if test row then some (id, row) else rest ]

  unfoldable pub find : (A → Bool) → Dict A → Option (Text × A)
  unfolding first_of
  find test table = first_of test table (keys table)
