-- ===== src/Service/Rows/Search.antt =====
-- What a search in a table of apps/service/src/store.ts finds.
use crosscode.Prelude.{
  ◌≡◌, ◌∙◌, sym, ap, Bool, true, false, List, [], ◌∷◌, Option, none, some, arith, is_some,
  Bool-cases, Option-cases, inl, inr,
}
use crosscode.Prelude.Text.{Text, same, same_iff}
use crosscode.Prelude.Dict.{Dict, lookup, insert, keys, member, lookup-insert}
use crosscode.Service.Rows.{first_of, find}

module _ {A : Type 0} where
  first_of_sound :
      (test : A → Bool) (table : Dict A) (ids : List Text) {id : Text} {row : A}
      → first_of test table ids ≡ some (id, row)
      → (lookup id table ≡ some row) × (test row ≡ true)
  unfolding first_of
  first_of_sound test table [] h = cc
  first_of_sound test table (i ∷ ids) h = elim (Option-cases (lookup i table)) [
    | inl gone ↦ first_of_sound test table ids (rw (gone, first_of) at h)
    | inr (r, there) ↦ elim (Bool-cases (test r)) [
      | inl t ↦ (cc (rw (there, t, first_of) at h, there), cc (rw (there, t, first_of) at h, t))
      | inr f ↦ first_of_sound test table ids (rw (there, f, first_of) at h)
    ]
  ]

  pub find_sound :
      (test : A → Bool) (table : Dict A) {id : Text} {row : A}
      → find test table ≡ some (id, row)
      → (lookup id table ≡ some row) × (test row ≡ true)
  unfolding find
  find_sound test table h = first_of_sound test table (keys table) h

  first_of_complete :
      (test : A → Bool) (table : Dict A) (ids : List Text) (id : Text) (row : A)
      → first_of test table ids ≡ none
      → member id ids ≡ true
      → lookup id table ≡ some row
      → test row ≡ false
  unfolding first_of member
  first_of_complete test table [] id row h inside there = cc
  first_of_complete test table (i ∷ ids) id row h inside there =
      elim (Option-cases (lookup i table)) [
        | inl gone ↦
            first_of_complete test table ids id row (rw (gone, first_of) at h)
              (ground (arith, inside, gone, there, same_iff i id)) there
        | inr (r, here) ↦ elim (Bool-cases (test r)) [
          | inl t ↦ cc (rw (here, t, first_of) at h)
          | inr f ↦ elim (Bool-cases (same i id)) [
            | inl eq ↦ ground (arith, here, there, f, (same_iff i id).0 eq)
            | inr ne ↦
                first_of_complete test table ids id row (rw (here, f, first_of) at h)
                  (ground (arith, inside, ne)) there
          ]
        ]
      ]

  member-keys :
      (id : Text) (table : Dict A) {row : A}
      → lookup id table ≡ some row
      → member id (keys table) ≡ true
  unfolding member lookup keys
  member-keys id [] h = cc
  member-keys id ((i, r) ∷ table) h = elim (Bool-cases (same i id)) [
    | inl eq ↦ ground (arith, eq)
    | inr ne ↦ ground (arith, ne, member-keys id table (rw ne at h))
  ]

  pub find_complete :
      (test : A → Bool) (table : Dict A) (id : Text) (row : A)
      → is_some (find test table) ≡ false
      → lookup id table ≡ some row
      → test row ≡ false
  unfolding find
  find_complete test table id row h there = elim (Option-cases (first_of test table (keys table))) [
    | inl missed ↦
        first_of_complete test table (keys table) id row missed (member-keys id table there) there
    | inr (found, hit) ↦ cc (rw hit at h)
  ]

  keys-insert :
      (id : Text) (row : A) (table : Dict A) {old : A}
      → lookup id table ≡ some old
      → keys (insert id row table) ≡ keys table
  unfolding keys insert lookup
  keys-insert id row [] h = cc
  keys-insert id row ((i, r) ∷ table) h = elim (Bool-cases (same i id)) [
    | inl here ↦ rw here
    | inr there ↦ rw (there, keys-insert id row table (rw there at h))
  ]

  absurd_key :
      {P : Type 0} (i j : Text) (r s : A)
      → same j i ≡ false
      → ◌≡◌ {A = Option (Text × A)} (some (i, r)) (some (j, s))
      → P
  absurd_key i j r s there h =
      let same_key : i ≡ j = cc in ground (arith, there, same_iff j i, sym same_key)

  first_of-insert :
      (test : A → Bool) (table : Dict A) (ids : List Text) (id : Text) (old row : A)
      → first_of test table ids ≡ some (id, old)
      → test row ≡ true
      → first_of test (insert id row table) ids ≡ some (id, row)
  unfolding first_of
  first_of-insert test table [] id old row h passes = cc
  first_of-insert test table (i ∷ ids) id old row h passes = elim (Bool-cases (same id i)) [
    | inl here ↦
        let found : lookup i (insert id row table) ≡ some row =
          lookup-insert i id row table ∙ rw here in
        rw (found, first_of, passes) (ap (λ k. some (k, row)) (sym ((same_iff id i).0 here)))
    | inr there ↦
        let found : lookup i (insert id row table) ≡ lookup i table =
          lookup-insert i id row table ∙ rw there in
        elim (Option-cases (lookup i table)) [
          | inl gone ↦
              rw (found, gone, first_of)
                (first_of-insert test table ids id old row (rw (gone, first_of) at h) passes)
          | inr (r, kept) ↦ elim (Bool-cases (test r)) [
            | inl t ↦ absurd_key i id r old there (rw (kept, t, first_of) at h)
            | inr f ↦
                rw (found, kept, f, first_of)
                  (first_of-insert test table ids id old row (rw (kept, f, first_of) at h) passes)
          ]
        ]
  ]

  -- The row that is found is found again after it is written, if it still passes.
  pub find-insert :
      (test : A → Bool) (table : Dict A) (id : Text) (old row : A)
      → find test table ≡ some (id, old)
      → test row ≡ true
      → find test (insert id row table) ≡ some (id, row)
  unfolding find
  find-insert test table id old row h passes =
      rw (keys-insert id row table (find_sound test table h).0)
        (first_of-insert test table (keys table) id old row h passes)
