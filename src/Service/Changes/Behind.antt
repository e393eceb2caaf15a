-- ===== src/Service/Changes/Behind.antt =====
-- What `listChanges` of apps/service/src/store.ts never answers with.
use crosscode.Prelude.{
  ℕ, zero, suc, ◌<◌, ◌≡◌, not, ◌&&◌, List, [], ◌∷◌, take, All, Among, ltb, leb, is_some, arith,
  Bool-cases, inl, inr,
}
use crosscode.Protocol.{Change}
use crosscode.Service.Changes.{
  Room, page, rows_of, after, insert_by_sequence, order_by_sequence, oldest_sequence, servable_from,
  last_sequence, list_changes,
}

abbrev pub AllBehind : ℕ → List Change → Type 0
AllBehind since = All (λ (row : Change). since < row.sequence)

after-AllBehind : (since : ℕ) (rows : List Change) → AllBehind since (after since rows)
unfolding after
after-AllBehind since [] = tt
after-AllBehind since (row ∷ rows) = elim (Bool-cases (ltb since row.sequence)) [
  | inl behind ↦ rw behind (ground (arith, behind), after-AllBehind since rows)
  | inr seen ↦ rw seen (after-AllBehind since rows)
]

insert-AllBehind :
    (since : ℕ) (row : Change) (rows : List Change)
    → since < row.sequence
    → AllBehind since rows
    → AllBehind since (insert_by_sequence row rows)
unfolding insert_by_sequence
insert-AllBehind since row [] lt h = (lt, tt)
insert-AllBehind since row (first ∷ rows) lt h =
    elim (Bool-cases (leb row.sequence first.sequence)) [
      | inl before ↦ rw before (lt, h)
      | inr behind ↦ rw behind (h.0, insert-AllBehind since row rows lt h.1)
    ]

order-AllBehind :
    (since : ℕ) (rows : List Change)
    → AllBehind since rows
    → AllBehind since (order_by_sequence rows)
unfolding order_by_sequence
order-AllBehind since [] h = tt
order-AllBehind since (row ∷ rows) h =
    insert-AllBehind since row (order_by_sequence rows) h.0 (order-AllBehind since rows h.1)

take-AllBehind :
    (since k : ℕ) (rows : List Change) → AllBehind since rows → AllBehind since (take k rows)
take-AllBehind since zero rows h = tt
take-AllBehind since (suc k) [] h = tt
take-AllBehind since (suc k) (row ∷ rows) h = (h.0, take-AllBehind since k rows h.1)

page_of :
    (served changes : List Change) (m next : ℕ)
    → page served m ≡ page changes next
    → served ≡ changes
page_of served changes m next e = cc

-- A page has only what is behind the cursor.
pub list_changes-AllBehind :
    (table : List Change) (room : Room) (since limit : ℕ) (changes : List Change) (next : ℕ)
    → list_changes table room since limit ≡ page changes next
    → AllBehind since changes
unfolding list_changes
list_changes-AllBehind table room since limit changes next e =
    let rows = rows_of room table in
    let served = take limit (order_by_sequence (after since rows)) in
    let behind =
      take-AllBehind since limit (order_by_sequence (after since rows))
        (order-AllBehind since (after since rows) (after-AllBehind since rows)) in
    elim (Bool-cases (ltb 0 since && ltb since (servable_from (oldest_sequence rows)))) [
      | inl old ↦ absurd (let e' = rw old at e in cc)
      | inr kept ↦ elim (Bool-cases (ltb 0 since && not (is_some (oldest_sequence rows)))) [
        | inl empty ↦ absurd (let e' = rw (kept, empty) at e in cc)
        | inr full ↦
            rw (page_of served changes (last_sequence since served) next (rw (kept, full) at e)) at
              behind
      ]
    ]

pub Among-All :
    (since : ℕ) (c : Change) (rows : List Change)
    → AllBehind since rows
    → Among c rows
    → since < c.sequence
Among-All since c [] h m = elim m [ ]
Among-All since c (row ∷ rows) h (inl e) = rw e at (h.0)
Among-All since c (row ∷ rows) h (inr m) = Among-All since c rows h.1 m
