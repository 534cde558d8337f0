-- ===== src/Budget.antt =====
-- internal/mailer/budget.go and the send windows of query.sql: how many bulk rows the relay's limits
-- leave room for. Instants and spans are nanoseconds since the Unix epoch and lie more than two days
-- after it. The code computes a window's room with floats; here it is computed exactly, in units of a
-- span's nanoseconds, with the code's epsilon of 1e-9.
use skymail_backend.Prelude.{
  ℕ, ◌+◌, ◌-◌, ◌*◌, ◌/◌, ◌%◌, ◌^◌, min, Bool, true, false, ◌&&◌, ◌||◌, not, List, [], ◌∷◌, leb, ltb,
  ◌==◌, if◌then◌else◌,
}
use skymail_backend.Env.{RateBudget, second, minute, hour}
pub mod Room
pub mod Windows
pub mod Day

-- A row of mail_send_windows.
pub record SendWindow : Type 0 where
  pub span_seconds : ℕ
  pub starts_at : ℕ
  pub lane : ℕ
  pub taken : ℕ

-- RateBudget.Off
unfoldable pub budget_off : RateBudget → Bool
budget_off b = b.per_minute == 0 && b.per_day == 0

abbrev pub day_span : ℕ
day_span = 24 * hour

-- windowStart
unfoldable pub window_start : ℕ → ℕ → ℕ
window_start at span = let unix = at / second in (unix - unix % (span / second)) * second

-- dayFrom
unfoldable pub day_from : ℕ → ℕ
day_from at = window_start (at - day_span) hour

-- bulkShare
unfoldable pub bulk_share : ℕ → ℕ
bulk_share n = let share = n * 70 / 100 in if ltb 0 share then share else 1

-- limitRoom, of a bulk and a total that are counted in parts of which `unit` make one row.
unfoldable pub limit_room : ℕ → ℕ → ℕ → ℕ → ℕ
limit_room unit limit bulk total =
    let room = min (bulk_share limit * unit - bulk) (limit * unit - total) in
    if room == 0 then 0 else (room + unit / 1000000000) / unit

-- windowRoom, `elapsed` nanoseconds into a window of a minute.
unfoldable pub window_room : ℕ → ℕ → ℕ → ℕ → ℕ → ℕ → ℕ
window_room limit elapsed cur_bulk cur_system prev_bulk prev_system =
    let weight = minute - elapsed in
    limit_room minute limit (prev_bulk * weight + cur_bulk * minute)
      ((prev_bulk + prev_system) * weight + (cur_bulk + cur_system) * minute)

-- What the windows of one lane that pass a test took. `lane` is laneIndex's: 1 above 0.
unfoldable pub taken_in : (SendWindow → Bool) → List SendWindow → ℕ
taken_in p [] = 0
taken_in p (w ∷ ws) = (if p w then w.taken else 0) + taken_in p ws

abbrev pub lane_index : ℕ → ℕ
lane_index lane = if ltb 0 lane then 1 else 0

abbrev pub minute_at : ℕ → ℕ → SendWindow → Bool
minute_at start lane w = w.span_seconds == 60 && w.starts_at == start && lane_index w.lane == lane

abbrev pub hour_since : ℕ → ℕ → SendWindow → Bool
hour_since from lane w = w.span_seconds == 3600 && leb from w.starts_at && lane_index w.lane == lane

abbrev pub max_int : ℕ
max_int = 2 ^ 63 - 1

unfoldable pub minute_room : RateBudget → ℕ → List SendWindow → ℕ
minute_room b at counted =
    let current = window_start at minute in
    let previous = current - minute in
    window_room b.per_minute (at - current) (taken_in (minute_at current 0) counted)
      (taken_in (minute_at current 1) counted) (taken_in (minute_at previous 0) counted)
      (taken_in (minute_at previous 1) counted)

unfoldable pub day_room : RateBudget → ℕ → List SendWindow → ℕ
day_room b at counted =
    let bulk = taken_in (hour_since (day_from at) 0) counted in
    limit_room 1 b.per_day bulk (bulk + taken_in (hour_since (day_from at) 1) counted)

-- RateBudget.bulkRoom
unfoldable pub bulk_room : RateBudget → ℕ → List SendWindow → ℕ
bulk_room b at counted =
    let room = if ltb 0 b.per_minute then min max_int (minute_room b at counted) else max_int in
    if ltb 0 b.per_day then min room (day_room b at counted) else room

-- One row of CountSends: a new window, or the window there is with more taken.
unfoldable pub count_window : ℕ → ℕ → ℕ → ℕ → List SendWindow → List SendWindow
count_window span start lane n [] =
    record { span_seconds = span; starts_at = start; lane = lane; taken = n } ∷ []
count_window span start lane n (w ∷ ws) =
    if w.span_seconds == span && w.starts_at == start && w.lane == lane
    then record w { taken = w.taken + n } ∷ ws
    else w ∷ count_window span start lane n ws

-- countSends and CountSends
unfoldable pub count_sends : ℕ → ℕ → ℕ → List SendWindow → List SendWindow
count_sends at lane n ws =
    count_window 3600 (window_start at hour) lane n
      (count_window 60 (window_start at minute) lane n ws)

-- SendWindowCounts
unfoldable pub send_window_counts : ℕ → ℕ → List SendWindow → List SendWindow
send_window_counts minute_since hour_start [] = []
send_window_counts minute_since hour_start (w ∷ ws) =
    let rest = send_window_counts minute_since hour_start ws in
    if (w.span_seconds == 60 && leb minute_since w.starts_at)
      || (w.span_seconds == 3600 && leb hour_start w.starts_at)
    then w ∷ rest
    else rest

-- PruneSendWindows, as pruneSendWindows calls it: windows that started two days before `at` go.
unfoldable pub prune_send_windows : ℕ → List SendWindow → List SendWindow
prune_send_windows at [] = []
prune_send_windows at (w ∷ ws) =
    let rest = prune_send_windows at ws in
    if ltb w.starts_at (at - 2 * day_span) then rest else w ∷ rest
