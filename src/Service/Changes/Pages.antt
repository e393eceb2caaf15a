-- ===== src/Service/Changes/Pages.antt =====
-- The pages of the change log of apps/service/src/store.ts: what a cursor is answered.
use crosscode.Prelude.{
  ℕ, zero, suc, ◌⊎◌, ◌+◌, ◌-◌, ◌≤◌, ◌<◌, ◌≡◌, refl, ap, ◌∙◌, sym, false, not, ◌&&◌, List, [], ◌∷◌,
  ◌++◌, Option, none, some, arith, ltb, take, drop, length, is_some, if◌then◌else◌, Bool-cases, inl,
  inr,
}
use crosscode.Prelude.Text.{Text}
use crosscode.Protocol.{FileVersion, Change}
use crosscode.Service.Changes.{
  Room, ChangePage, page, cursor_too_old, history_retention_days, rows_of, smaller, oldest_sequence,
  assign, publish_changes, after, insert_by_sequence, order_by_sequence, last_sequence,
  servable_from, list_changes,
}
use crosscode.Service.Changes.Sequence.{Follows, rows_of-append, rows_of-assign, Follows-assign}

after_all :
    (n since : ℕ) (rows : List Change) → since ≤ n → Follows n rows → after since rows ≡ rows
unfolding after Follows
after_all n since [] le h = refl
after_all n since (row ∷ rows) le (h, t) =
    ground (arith, after_all (n + 1) since rows (omega arith) t)

drop_nil : (k : ℕ) → drop {A = Change} k [] ≡ []
drop_nil zero = refl
drop_nil (suc k) = refl

-- In a log without gaps the rows after a cursor are those behind as many rows.
after-drop :
    (n since : ℕ) (rows : List Change)
    → n ≤ since
    → Follows n rows
    → after since rows ≡ drop (since - n) rows
unfolding after Follows
after-drop n since [] le h = sym (drop_nil (since - n))
after-drop n since (row ∷ rows) le (h, t) = elim (Bool-cases (ltb n since)) [
  | inl lt ↦
      let step : since - n ≡ suc (since - (n + 1)) = ground arith in
      ground (arith, step, after-drop (n + 1) since rows (ground arith) t)
  | inr ge ↦
      let here : since - n ≡ 0 = ground arith in
      ground (arith, here, after_all (n + 1) since rows (ground arith) t)
]

Follows-drop : (n k : ℕ) (rows : List Change) → Follows n rows → Follows (n + k) (drop k rows)
unfolding Follows
Follows-drop n zero rows h = let same_start : n + 0 ≡ n = omega arith in rw same_start h
Follows-drop n (suc k) [] h = tt
Follows-drop n (suc k) (row ∷ rows) (h, t) =
    let shift : n + suc k ≡ (n + 1) + k = omega arith in rw shift (Follows-drop (n + 1) k rows t)

Follows-take : (n k : ℕ) (rows : List Change) → Follows n rows → Follows n (take k rows)
unfolding Follows
Follows-take n zero rows h = tt
Follows-take n (suc k) [] h = tt
Follows-take n (suc k) (row ∷ rows) (h, t) = (h, Follows-take (n + 1) k rows t)

insert_first :
    (n : ℕ) (row : Change) (rows : List Change)
    → row.sequence ≡ n + 1
    → Follows (n + 1) rows
    → insert_by_sequence row rows ≡ (row ∷ rows)
unfolding insert_by_sequence Follows
insert_first n row [] h t = refl
insert_first n row (next ∷ rows) h (g, t) = ground (arith, h, g)

order-Follows : (n : ℕ) (rows : List Change) → Follows n rows → order_by_sequence rows ≡ rows
unfolding order_by_sequence Follows
order-Follows n [] h = refl
order-Follows n (row ∷ rows) (h, t) =
    rw (order-Follows (n + 1) rows t) (insert_first n row rows h t)

last-Follows :
    (n : ℕ) (rows : List Change) → Follows n rows → last_sequence n rows ≡ n + length rows
unfolding last_sequence Follows
last-Follows n [] h = omega arith
last-Follows n (row ∷ rows) (h, t) = rw h (last-Follows (n + 1) rows t ∙ omega arith)

oldest-Follows :
    (n : ℕ) (rows : List Change)
    → Follows n rows
    → 0 < length rows
    → oldest_sequence rows ≡ some (n + 1)
unfolding oldest_sequence smaller Follows
oldest-Follows n [] h lt = ground (arith, lt)
oldest-Follows n (row ∷ []) (h, t) lt = ap some h
oldest-Follows n (row ∷ next ∷ rows) (h, t) lt =
    ap (λ o. some (smaller row.sequence o)) (oldest-Follows (n + 1) (next ∷ rows) t (omega arith))
    ∙ ground (arith, h)

pub dropped :
    (n since : ℕ) (rows : List Change)
    → Follows n rows
    → n ≤ since
    → Follows since (drop (since - n) rows)
dropped n since rows h le =
    let total : n + (since - n) ≡ since = omega arith in
    rw total at (Follows-drop n (since - n) rows h)

-- A page at a cursor in the log.
abbrev pub page_at : ℕ → ℕ → ℕ → List Change → List Change
page_at n since limit rows = take limit (drop (since - n) rows)

page_at-Follows :
    (n since limit : ℕ) (rows : List Change)
    → Follows n rows
    → n ≤ since
    → Follows since (page_at n since limit rows)
page_at-Follows n since limit rows h le =
    Follows-take since limit (drop (since - n) rows) (dropped n since rows h le)

selected :
    (n since limit : ℕ) (rows : List Change)
    → Follows n rows
    → n ≤ since
    → take limit (order_by_sequence (after since rows)) ≡ page_at n since limit rows
selected n since limit rows h le = rw (
  after-drop n since rows le h,
  order-Follows since (drop (since - n) rows) (dropped n since rows h le),
)

served :
    (n since : ℕ) (rows : List Change)
    → Follows n rows
    → n ≤ since
    → (since ≡ 0) ⊎ (0 < length rows)
    → ((ltb 0 since && ltb since (servable_from (oldest_sequence rows))) ≡ false)
      × ((ltb 0 since && not (is_some (oldest_sequence rows))) ≡ false)
served n since [] h le reason = ground (arith, reason)
served n since (row ∷ rows) h le reason =
    rw (oldest-Follows n (row ∷ rows) h (omega arith)) (ground arith)

-- Where the log of a room has no gaps, a cursor from which retention has deleted nothing is answered
-- with a page: the rows behind it, in order, up to the limit, and the sequence of the last as the
-- new cursor. This is for a log that has rows, or the cursor 0.
pub list_changes_complete :
    (table : List Change) (room : Room) (since limit n : ℕ)
    → Follows n (rows_of room table)
    → n ≤ since
    → (since ≡ 0) ⊎ (0 < length (rows_of room table))
    → (list_changes table room since limit
        ≡ page
            (page_at n since limit (rows_of room table))
            (since + length (page_at n since limit (rows_of room table))))
      × Follows since (page_at n since limit (rows_of room table))
unfolding list_changes
list_changes_complete table room since limit n h le reason =
    let rows = rows_of room table in
    let ok = served n since rows h le reason in
    let follows = page_at-Follows n since limit rows h le in
    (
      rw (ok.0, ok.1, selected n since limit rows h le)
          (ap (page (page_at n since limit rows))
            (last-Follows since (page_at n since limit rows) follows)),
      follows,
    )

refused_at :
    (n since : ℕ) (oldest : Option ℕ) (otherwise : ChangePage)
    → oldest ≡ some (n + 1)
    → 0 < since
    → since < n
    → (if ltb 0 since && ltb since (servable_from oldest)
        then cursor_too_old (servable_from oldest) history_retention_days
        else if ltb 0 since && not (is_some oldest)
        then cursor_too_old 0 history_retention_days
        else otherwise)
      ≡ cursor_too_old n history_retention_days
refused_at n since none otherwise is_oldest positive old = cc
refused_at n since (some m) otherwise is_oldest positive old =
    let same_sequence : m ≡ n + 1 = cc in
    let servable : (n + 1) - 1 ≡ n = omega arith in rw (same_sequence, servable) (ground arith)

refused :
    (n since : ℕ) (rows : List Change) (otherwise : ChangePage)
    → Follows n rows
    → 0 < since
    → since < n
    → (if ltb 0 since && ltb since (servable_from (oldest_sequence rows))
        then cursor_too_old (servable_from (oldest_sequence rows)) history_retention_days
        else if ltb 0 since && not (is_some (oldest_sequence rows))
        then cursor_too_old 0 history_retention_days
        else otherwise)
      ≡ cursor_too_old (if ltb 0 (length rows) then n else 0) history_retention_days
unfolding oldest_sequence
refused n since [] otherwise h positive old = ground arith
refused n since (row ∷ rows) otherwise h positive old =
    refused_at n since (oldest_sequence (row ∷ rows)) otherwise
      (oldest-Follows n (row ∷ rows) h (omega arith)) positive old
    ∙ ground arith

-- Where the log of a room has no gaps, a cursor that is not 0 and behind which retention has deleted
-- rows is refused, with the oldest cursor that can be served, or 0 where no row is left.
pub list_changes-too_old :
    (table : List Change) (room : Room) (since limit n : ℕ)
    → Follows n (rows_of room table)
    → 0 < since
    → since < n
    → list_changes table room since limit
      ≡ cursor_too_old (if ltb 0 (length (rows_of room table)) then n else 0) history_retention_days
unfolding list_changes
list_changes-too_old table room since limit n h positive old =
    refused n since (rows_of room table) _ h positive old

-- The rows that a cursor is past.
after_none :
    (n since : ℕ) (rows : List Change)
    → Follows n rows
    → n + length rows ≤ since
    → after since rows ≡ []
unfolding after Follows
after_none n since [] h le = refl
after_none n since (row ∷ rows) (h, t) le =
    ground (arith, h, after_none (n + 1) since rows t (omega arith))

length-assign :
    (room : Room) (replica at : Text) (n : ℕ) (versions : List FileVersion)
    → length (assign room replica at n versions) ≡ length versions
unfolding assign
length-assign room replica at n [] = refl
length-assign room replica at n (v ∷ versions) =
    ap suc (length-assign room replica at (n + 1) versions)

empty_page :
    (limit since : ℕ)
    → page
        (take limit (order_by_sequence []))
        (last_sequence since (take limit (order_by_sequence [])))
      ≡ page [] since
unfolding order_by_sequence last_sequence
empty_page zero since = refl
empty_page (suc limit) since = refl

-- Where retention has deleted the whole log of a room, what is published next is not served to a
-- cursor at least as large as the batch: the answer is an empty page, not a refusal.
pub list_changes_restarts :
    (table : List Change) (room : Room) (replica_id created_at : Text) (versions : List FileVersion)
    (since limit : ℕ)
    → rows_of room table ≡ []
    → 0 < length versions
    → length versions ≤ since
    → list_changes (publish_changes table room replica_id created_at versions).0 room since limit
      ≡ page [] since
unfolding list_changes publish_changes
list_changes_restarts table room replica at versions since limit empty some_sent past =
    let changes = assign room replica at 0 versions in
    let follows = Follows-assign room replica at 0 versions in
    let size = length-assign room replica at 0 versions in
    let stored : rows_of room (table ++ changes) ≡ changes =
      rows_of-append room table changes ∙ rw (empty, rows_of-assign room replica at 0 versions) in
    let ok = served 0 since changes follows (omega arith) (inr (rw size some_sent)) in
    rw (empty, stored, ok.0, ok.1, after_none 0 since changes follows (ground (arith, size, past)))
      (empty_page limit since)
