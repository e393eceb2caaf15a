-- ===== src/Service/Limiter/Bounds.antt =====
-- What `FixedWindowRateLimiter` of apps/service/src/http.ts bounds: its own size, and what passes.
use crosscode.Prelude.{
  ◌⊎◌, ℕ, ◌+◌, ◌-◌, ◌≤◌, ◌<◌, ◌≡◌, refl, ◌∙◌, Bool, true, false, not, ◌&&◌, List, [], ◌∷◌, Option,
  none, some, arith, is_some, length, leb, if◌then◌else◌, Bool-cases, All, inl, inr,
}
use crosscode.Prelude.Text.{Text, same, same_iff, same_refl}
use crosscode.Prelude.Dict.{Dict, lookup, insert, lookup-insert}
use crosscode.Service.Limiter.{
  Window, window_ms, max_windows, is_over, sweep, next_window, sweep_above, make_room, take_from,
  take,
}

length-sweep : (now : ℕ) (windows : Dict Window) → length (sweep now windows) ≤ length windows
unfolding sweep
length-sweep now [] = omega arith
length-sweep now ((k, w) ∷ windows) = ground (arith, length-sweep now windows)

length-insert :
    (k : Text) (w : Window) (windows : Dict Window)
    → length (insert k w windows)
      ≡ (if is_some (lookup k windows) then length windows else length windows + 1)
unfolding insert lookup
length-insert k w [] = omega arith
length-insert k w ((j, v) ∷ windows) = ground (arith, length-insert k w windows)

length-sweep_above :
    (now : ℕ) (windows : Dict Window) → length (sweep_above now windows) ≤ length windows
length-sweep_above now windows = ground (arith, length-sweep now windows)

length-take_from :
    (key : Text) (maximum now : ℕ) (current : Option Window) (windows : Dict Window)
    → (is_some current ≡ is_some (lookup key windows)) ⊎ (is_some current ≡ false)
    → length windows ≤ max_windows
    → length (take_from key maximum now current windows).0 ≤ max_windows
unfolding take_from
length-take_from key maximum now none windows known h = ground (
  arith,
  length-insert key (next_window now none) windows,
  length-sweep now (insert key (next_window now none) windows),
)
length-take_from key maximum now (some w) windows known h = ground (
  arith,
  known,
  length-insert key (next_window now (some w)) windows,
  length-sweep now (insert key (next_window now (some w)) windows),
)

length-take_current :
    (key : Text) (maximum now : ℕ) (current : Option Window) (windows : Dict Window)
    → lookup key windows ≡ current
    → length windows ≤ max_windows
    → length (take_from key maximum now current (make_room now current windows)).0 ≤ max_windows
unfolding make_room
length-take_current key maximum now none windows known h =
    length-take_from key maximum now none _ (inr refl) (ground (arith, length-sweep now windows))
length-take_current key maximum now (some w) windows known h =
    length-take_from key maximum now (some w) windows (inl (rw known)) h

-- A limiter of at most ten thousand windows has at most that many after every request, whatever the
-- keys.
pub take-IsBounded :
    (key : Text) (maximum now : ℕ) (windows : Dict Window)
    → length windows ≤ max_windows
    → length (take key maximum now windows).0 ≤ max_windows
unfolding take
take-IsBounded key maximum now windows h =
    length-take_current key maximum now (lookup key windows) windows refl h

lookup-sweep :
    (now : ℕ) (key : Text) (w : Window) (windows : Dict Window)
    → lookup key windows ≡ some w
    → is_over now w ≡ false
    → lookup key (sweep now windows) ≡ some w
unfolding lookup sweep
lookup-sweep now key w [] h fresh = cc
lookup-sweep now key w ((j, v) ∷ windows) h fresh = elim (Bool-cases (same j key)) [
  | inl here ↦ let this : v ≡ w = cc (rw here at h) in rw (this, fresh, here) (ground arith)
  | inr there ↦ elim (Bool-cases (is_over now v)) [
    | inl old ↦ rw old (lookup-sweep now key w windows (rw there at h) fresh)
    | inr new ↦ rw (new, there) (lookup-sweep now key w windows (rw there at h) fresh)
  ]
]

lookup-sweep_above :
    (now : ℕ) (key : Text) (w : Window) (windows : Dict Window)
    → lookup key windows ≡ some w
    → is_over now w ≡ false
    → lookup key (sweep_above now windows) ≡ some w
lookup-sweep_above now key w windows h fresh =
    ground (arith, h, lookup-sweep now key w windows h fresh)

lookup-make_room :
    (now : ℕ) (key : Text) (w : Window) (current : Option Window) (windows : Dict Window)
    → lookup key windows ≡ some w
    → is_over now w ≡ false
    → lookup key (make_room now current windows) ≡ some w
unfolding make_room
lookup-make_room now key w (some v) windows h fresh = h
lookup-make_room now key w none windows h fresh =
    ground (arith, h, lookup-sweep now key w windows h fresh)

lookup-take_from_other :
    (key other : Text) (maximum now : ℕ) (w : Window) (current : Option Window)
    (windows : Dict Window)
    → same other key ≡ false
    → lookup key windows ≡ some w
    → is_over now w ≡ false
    → lookup key (take_from other maximum now current windows).0 ≡ some w
unfolding take_from
lookup-take_from_other key other maximum now w current windows apart h fresh =
    let next = next_window now current in
    let kept : lookup key (insert other next windows) ≡ some w =
      lookup-insert key other next windows ∙ rw apart h in
    elim (Bool-cases (not (is_some current) && leb max_windows (length windows))) [
      | inl full ↦ rw full h
      | inr room ↦ rw room (lookup-sweep_above now key w (insert other next windows) kept fresh)
    ]

-- A request of another key leaves a window that is not over.
lookup-take_other :
    (key other : Text) (maximum now : ℕ) (w : Window) (windows : Dict Window)
    → same other key ≡ false
    → lookup key windows ≡ some w
    → is_over now w ≡ false
    → lookup key (take other maximum now windows).0 ≡ some w
unfolding take
lookup-take_other key other maximum now w windows apart h fresh =
    lookup-take_from_other key other maximum now w (lookup other windows)
      (make_room now (lookup other windows) windows) apart
      (lookup-make_room now key w (lookup other windows) windows h fresh) fresh

take_counts :
    (key : Text) (maximum now : ℕ) (w next : Window) (current : Option Window)
    (windows : Dict Window)
    → next_window now current ≡ next
    → is_over now next ≡ false
    → (not (is_some current) && leb max_windows (length windows)) ≡ false
    → (lookup key (take_from key maximum now current windows).0 ≡ some next)
      × ((take_from key maximum now current windows).1 ≡ leb next.count maximum)
unfolding take_from
take_counts key maximum now w next current windows e fresh room =
    rw (room, e)
      (
        lookup-sweep_above now key next (insert key next windows)
            (lookup-insert key key next windows ∙ rw (same_refl key)) fresh,
        refl,
      )

-- A request of the key itself counts in its window.
take_own :
    (key : Text) (maximum now : ℕ) (w : Window) (windows : Dict Window)
    → lookup key windows ≡ some w
    → is_over now w ≡ false
    → (lookup key (take key maximum now windows).0 ≡ some (record w { count = w.count + 1 }))
      × ((take key maximum now windows).1 ≡ leb (w.count + 1) maximum)
unfolding take next_window make_room
take_own key maximum now w windows h fresh =
    rw (h, take)
      (take_counts key maximum now w (record w { count = w.count + 1 }) (some w) windows (rw fresh)
        fresh refl)

pub record Request : Type 0 where
  pub key : Text
  pub maximum : ℕ
  pub time : ℕ

-- How many of the requests of a key pass.
pub passed : Text → List Request → Dict Window → ℕ
passed key [] windows = 0
passed key (r ∷ requests) windows =
    let (windows', pass) = take r.key r.maximum r.time windows in
    let rest = passed key requests windows' in if same r.key key && pass then rest + 1 else rest

-- The requests are in one window that starts at a time, and those of the key have one limit.
abbrev pub InWindow : Text → ℕ → ℕ → Request → Type 0
InWindow key maximum start r =
    (r.time < start + window_ms) × (same r.key key ≡ true → r.maximum ≡ maximum)

own_request :
    (key : Text) (maximum asked : ℕ) (w : Window) (requests : List Request)
    (answer : Dict Window × Bool)
    → lookup key answer.0 ≡ some (record w { count = w.count + 1 })
    → answer.1 ≡ leb (w.count + 1) asked
    → asked ≡ maximum
    → passed key requests answer.0 ≤ maximum - (w.count + 1)
    → (if answer.1 then passed key requests answer.0 + 1 else passed key requests answer.0)
      ≤ maximum - w.count
own_request key maximum asked w requests (windows, pass) h e same_limit le =
    ground (arith, e, same_limit, le)

passed-le_left :
    (key : Text) (maximum : ℕ) (w : Window) (requests : List Request) (windows : Dict Window)
    → lookup key windows ≡ some w
    → All (InWindow key maximum w.started_at) requests
    → passed key requests windows ≤ maximum - w.count
unfolding passed
passed-le_left key maximum w [] windows h within = omega arith
passed-le_left key maximum w (r ∷ requests) windows h ((early, limit), within) =
    let fresh : is_over r.time w ≡ false = ground (arith, early) in
    elim (Bool-cases (same r.key key)) [
      | inr other ↦
          let kept = lookup-take_other key r.key r.maximum r.time w windows other h fresh in
          rw other (passed-le_left key maximum w requests _ kept within)
      | inl own ↦
          let mine : r.key ≡ key = (same_iff r.key key).0 own in
          let step = take_own key r.maximum r.time w windows h fresh in
          rw (own, mine)
            (own_request key maximum r.maximum w requests (take key r.maximum r.time windows) step.0
              step.1 (limit own)
              (passed-le_left key maximum (record w { count = w.count + 1 }) requests
                (take key r.maximum r.time windows).0 step.0 within))
    ]

-- A request of a key that opens a window for it, where the table has room, and any requests after
-- it in that window, those of other keys included: where all of the key's have one limit, no more
-- of them pass than the limit.
pub passed-le :
    (key : Text) (maximum start : ℕ) (requests : List Request) (windows : Dict Window)
    → next_window start (lookup key windows) ≡ record { started_at = start; count = 1 }
    → (not (is_some (lookup key windows))
        && leb max_windows (length (make_room start (lookup key windows) windows)))
      ≡ false
    → All (InWindow key maximum start) requests
    → passed key (record { key = key; maximum = maximum; time = start } ∷ requests) windows
      ≤ maximum
unfolding passed take
passed-le key maximum start requests windows opens room within =
    let first : Window = record { started_at = start; count = 1 } in
    let step =
      take_counts key maximum start first first (lookup key windows)
        (make_room start (lookup key windows) windows) opens (ground arith) room in
    let rest = take key maximum start windows in
    let bound =
      own_request key maximum maximum (record { started_at = start; count = 0 }) requests rest
        step.0 step.1 refl (passed-le_left key maximum first requests rest.0 step.0 within) in
    ground (arith, same_refl key, bound)
