-- ===== src/Budget/Room.antt =====
-- Bounds on the room of one limit and of the whole budget.
use skymail_backend.Prelude.{ℕ, ◌+◌, ◌-◌, ◌*◌, ◌/◌, ◌≤◌, ◌<◌, ◌≡◌, ◌⊎◌, List, arith}
use skymail_backend.Env.{RateBudget, minute}
use skymail_backend.Budget.{
  SendWindow, bulk_share, limit_room, window_room, day_room, day_from, minute_room, bulk_room,
  window_start, minute_at, taken_in, hour_since,
}

-- The bulk lane's share of n is n * 70 / 100, at least one row, and at most n unless n is 0.
pub bulk_share_bounds :
    (n : ℕ)
    → (1 ≤ bulk_share n)
      × (bulk_share n ≤ n ⊎ n ≡ 0)
      × (bulk_share n ≡ n * 70 / 100 ⊎ bulk_share n ≡ 1)
unfolding bulk_share
bulk_share_bounds n = (ground arith, ground arith, ground arith)

-- Counted in whole rows, a positive room keeps the bulk lane to its share and both lanes to the limit.
limit_room_day :
    (limit bulk total : ℕ)
    → (limit_room 1 limit bulk total ≡ 0)
      ⊎ ((bulk + limit_room 1 limit bulk total ≤ bulk_share limit)
          × (total + limit_room 1 limit bulk total ≤ limit))
unfolding limit_room
limit_room_day limit bulk total = ground arith

-- In parts of a minute: a positive room keeps the bulk lane within its share and both lanes within the
-- limit, but for the 60 parts of the epsilon.
limit_room-minute :
    (limit bulk total : ℕ)
    → (limit_room minute limit bulk total ≡ 0)
      ⊎ ((bulk + limit_room minute limit bulk total * minute ≤ bulk_share limit * minute + 60)
          × (total + limit_room minute limit bulk total * minute ≤ limit * minute + 60))
unfolding limit_room
limit_room-minute limit bulk total = ground arith

day_room_bounds :
    (b : RateBudget) (at : ℕ) (ws : List SendWindow)
    → let bulk = taken_in (hour_since (day_from at) 0) ws in
      let system = taken_in (hour_since (day_from at) 1) ws in
      (day_room b at ws ≡ 0)
      ⊎ ((bulk + day_room b at ws ≤ bulk_share b.per_day)
          × (bulk + system + day_room b at ws ≤ b.per_day))
unfolding day_room
day_room_bounds b at ws = limit_room_day _ _ _

bulk_room-le-day_room :
    (b : RateBudget) (at : ℕ) (ws : List SendWindow)
    → 0 < b.per_day
    → bulk_room b at ws ≤ day_room b at ws
unfolding bulk_room
bulk_room-le-day_room b at ws h = ground arith

-- What a budget with a daily limit lets the bulk lane take: nothing, or a number that keeps the bulk
-- lane's hours within its share of the limit and both lanes' hours within the limit.
pub bulk_room_day :
    (b : RateBudget) (at : ℕ) (ws : List SendWindow)
    → 0 < b.per_day
    → let bulk = taken_in (hour_since (day_from at) 0) ws in
      let system = taken_in (hour_since (day_from at) 1) ws in
      (bulk_room b at ws ≡ 0)
      ⊎ ((bulk + bulk_room b at ws ≤ bulk_share b.per_day)
          × (bulk + system + bulk_room b at ws ≤ b.per_day))
bulk_room_day b at ws h = omega (arith, day_room_bounds b at ws, bulk_room-le-day_room b at ws h)

minute_room_bounds :
    (b : RateBudget) (at : ℕ) (ws : List SendWindow)
    → let current = window_start at minute in
      let weight = minute - (at - current) in
      let prev_bulk = taken_in (minute_at (current - minute) 0) ws in
      let prev_system = taken_in (minute_at (current - minute) 1) ws in
      let cur_bulk = taken_in (minute_at current 0) ws in
      let cur_system = taken_in (minute_at current 1) ws in
      (minute_room b at ws ≡ 0)
      ⊎ ((prev_bulk * weight + cur_bulk * minute + minute_room b at ws * minute
            ≤ bulk_share b.per_minute * minute + 60)
          × ((prev_bulk + prev_system) * weight
                + (cur_bulk + cur_system) * minute
                + minute_room b at ws * minute
              ≤ b.per_minute * minute + 60))
unfolding minute_room window_room
minute_room_bounds b at ws = limit_room-minute _ _ _

bulk_room-le-minute_room :
    (b : RateBudget) (at : ℕ) (ws : List SendWindow)
    → 0 < b.per_minute
    → bulk_room b at ws ≤ minute_room b at ws
unfolding bulk_room
bulk_room-le-minute_room b at ws h = ground arith

-- What a budget with a limit a minute lets the bulk lane take: nothing, or a number that, with what the
-- current minute took and the part of the previous minute's that still lies within a minute of now,
-- keeps the bulk lane within its share and both lanes within the limit, but for a billionth of a row:
-- counted in parts of which `minute` make one row, 60 parts.
pub bulk_room-minute :
    (b : RateBudget) (at : ℕ) (ws : List SendWindow)
    → 0 < b.per_minute
    → let current = window_start at minute in
      let weight = minute - (at - current) in
      let prev_bulk = taken_in (minute_at (current - minute) 0) ws in
      let prev_system = taken_in (minute_at (current - minute) 1) ws in
      let cur_bulk = taken_in (minute_at current 0) ws in
      let cur_system = taken_in (minute_at current 1) ws in
      (bulk_room b at ws ≡ 0)
      ⊎ ((prev_bulk * weight + cur_bulk * minute + bulk_room b at ws * minute
            ≤ bulk_share b.per_minute * minute + 60)
          × ((prev_bulk + prev_system) * weight
                + (cur_bulk + cur_system) * minute
                + bulk_room b at ws * minute
              ≤ b.per_minute * minute + 60))
bulk_room-minute b at ws h =
    omega (arith, minute_room_bounds b at ws, bulk_room-le-minute_room b at ws h)
