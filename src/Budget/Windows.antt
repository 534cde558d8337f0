-- ===== src/Budget/Windows.antt =====
-- What counting sends does to the windows that a budget reads.
use skymail_backend.Prelude.{
  ℕ, ◌+◌, ◌-◌, ◌*◌, ◌≤◌, ◌<◌, ◌≡◌, refl, ◌&&◌, List, [], ◌∷◌, arith, leb, ◌==◌, if◌then◌else◌,
}
use skymail_backend.Env.{hour, minute}
use skymail_backend.Budget.{
  SendWindow, window_start, day_from, day_span, taken_in, hour_since, lane_index, count_window,
  count_sends, send_window_counts, prune_send_windows,
}

hours-count_window :
    (from l start lane n : ℕ) (ws : List SendWindow)
    → taken_in (hour_since from l) (count_window 3600 start lane n ws)
      ≡ taken_in (hour_since from l) ws + (if leb from start && lane_index lane == l then n else 0)
unfolding taken_in count_window
hours-count_window from l start lane n [] = ground arith
hours-count_window from l start lane n (w ∷ ws) =
    ground (arith, hours-count_window from l start lane n ws)

hours-count_window_minute :
    (from l start lane n : ℕ) (ws : List SendWindow)
    → taken_in (hour_since from l) (count_window 60 start lane n ws)
      ≡ taken_in (hour_since from l) ws
unfolding taken_in count_window
hours-count_window_minute from l start lane n [] = ground arith
hours-count_window_minute from l start lane n (w ∷ ws) =
    ground (arith, hours-count_window_minute from l start lane n ws)

-- Counting n rows of a lane at an instant adds n to that lane's hours when the instant's hour is read,
-- and nothing to the other lane's.
pub hours-count_sends :
    (from l at lane n : ℕ) (ws : List SendWindow)
    → taken_in (hour_since from l) (count_sends at lane n ws)
      ≡ taken_in (hour_since from l) ws
        + (if leb from (window_start at hour) && lane_index lane == l then n else 0)
unfolding count_sends
hours-count_sends from l at lane n ws = omega (
  arith,
  hours-count_window from l (window_start at hour) lane n
      (count_window 60 (window_start at minute) lane n ws),
  hours-count_window_minute from l (window_start at minute) lane n ws,
)

-- The rows that the query returns hold every hour that the budget reads.
pub hours-send_window_counts :
    (since from l : ℕ) (ws : List SendWindow)
    → taken_in (hour_since from l) (send_window_counts since from ws)
      ≡ taken_in (hour_since from l) ws
unfolding taken_in send_window_counts
hours-send_window_counts since from l [] = refl
hours-send_window_counts since from l (w ∷ ws) =
    ground (arith, hours-send_window_counts since from l ws)

-- Pruning takes away no hour that starts at or after `from`, two days before the prune or later.
pub hours-prune_send_windows :
    (at from l : ℕ) (ws : List SendWindow)
    → at - 2 * day_span ≤ from
    → taken_in (hour_since from l) (prune_send_windows at ws) ≡ taken_in (hour_since from l) ws
unfolding taken_in prune_send_windows
hours-prune_send_windows at from l [] h = refl
hours-prune_send_windows at from l (w ∷ ws) h =
    ground (arith, hours-prune_send_windows at from l ws h)

pub window_start_mono : (a b : ℕ) → a ≤ b → window_start a hour ≤ window_start b hour
unfolding window_start
window_start_mono a b h = omega arith

pub day_from_bounds :
    (at : ℕ) → (day_from at ≤ at - day_span) × (at - day_span < day_from at + hour)
unfolding day_from window_start
day_from_bounds at = omega arith

-- The hour of an instant within the last day is one that the budget reads.
pub hour_of_recent : (at t : ℕ) → at - day_span ≤ t → day_from at ≤ window_start t hour
unfolding day_from
hour_of_recent at t h = window_start_mono (at - day_span) t h
