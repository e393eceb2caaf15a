-- ===== src/Service/Limiter.antt =====
-- `FixedWindowRateLimiter` of apps/service/src/http.ts. `Date.now()` is an argument.
pub mod Bounds
use crosscode.Prelude.{
  ℕ, ◌+◌, Bool, true, false, not, ◌&&◌, List, [], ◌∷◌, Option, none, some, is_some, length, ltb,
  leb, if◌then◌else◌,
}
use crosscode.Prelude.Text.{Text}
use crosscode.Prelude.Dict.{Dict, lookup, insert}

pub record Window : Type 0 where
  pub started_at : ℕ
  pub count : ℕ

abbrev pub window_ms : ℕ
window_ms = 60000

abbrev pub max_windows : ℕ
max_windows = 10000

-- `now - startedAt >= 60_000`, also where the clock has gone back.
abbrev pub is_over : ℕ → Window → Bool
is_over now w = leb (w.started_at + window_ms) now

sweep : ℕ → Dict Window → Dict Window
sweep now [] = []
sweep now ((key, w) ∷ windows) =
    let rest = sweep now windows in if is_over now w then rest else (key, w) ∷ rest

unfoldable pub next_window : ℕ → Option Window → Window
next_window now none = record { started_at = now; count = 1 }
next_window now (some w) =
    if is_over now w
    then record { started_at = now; count = 1 }
    else record w { count = w.count + 1 }

abbrev sweep_above : ℕ → Dict Window → Dict Window
sweep_above now windows = if ltb max_windows (length windows) then sweep now windows else windows

-- Room for a key that has no window.
unfoldable pub make_room : ℕ → Option Window → Dict Window → Dict Window
unfolding sweep
make_room now (some w) windows = windows
make_room now none windows = if leb max_windows (length windows) then sweep now windows else windows

take_from : Text → ℕ → ℕ → Option Window → Dict Window → Dict Window × Bool
unfolding next_window sweep
take_from key maximum now current windows =
    let next = next_window now current in
    if not (is_some current) && leb max_windows (length windows)
    then (windows, false)
    else (sweep_above now (insert key next windows), leb next.count maximum)

-- `take(key, maximum)`: the windows after it, and whether the request may pass.
pub take : Text → ℕ → ℕ → Dict Window → Dict Window × Bool
unfolding make_room take_from
take key maximum now windows =
    let current = lookup key windows in
    take_from key maximum now current (make_room now current windows)
