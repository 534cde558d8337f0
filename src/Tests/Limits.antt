-- ===== src/Tests/Limits.antt =====
-- The budget on concrete windows.
use skymail_backend.Prelude.{ℕ, ◌+◌, ◌-◌, ◌*◌, ◌≤◌, ◌≡◌, refl, ◌⊎◌, List, [], ◌∷◌, arith}
use skymail_backend.Env.{RateBudget, second, minute, hour}
use skymail_backend.Budget.{
  SendWindow, bulk_share, bulk_room, day_span, taken_in, minute_at, day_from, window_start,
  count_sends, minute_room, day_room, window_room, limit_room, send_window_counts, count_window,
}
use skymail_backend.Budget.Room.{bulk_room-minute}
use skymail_backend.Budget.Day.{Entry, sent, sent_since, counts_at, take_within_day}

abbrev budget : RateBudget
budget = record { per_minute = 10; per_day = 100 }

-- An instant 30 seconds into a minute, more than two days after the epoch.
abbrev noon : ℕ
noon = 300000 * second - 30 * second

abbrev counted : List SendWindow
counted =
    record { span_seconds = 3600; starts_at = window_start noon hour; lane = 0; taken = 60 } ∷ []

bulk_share_test : bulk_share 100 ≡ 70
unfolding bulk_share
bulk_share_test = refl

bulk_room_test : bulk_room budget noon counted ≡ 7
unfolding bulk_room minute_room day_room window_room limit_room bulk_share taken_in window_start
    day_from
bulk_room_test = refl

-- What the two minutes before `noon` bound.
abbrev IsPaced : ℕ → Type 0
IsPaced room =
    let current = window_start noon minute in
    let weight = minute - (noon - current) in
    let prev_bulk = taken_in (minute_at (current - minute) 0) counted in
    let prev_system = taken_in (minute_at (current - minute) 1) counted in
    let cur_bulk = taken_in (minute_at current 0) counted in
    let cur_system = taken_in (minute_at current 1) counted in
    (room ≡ 0)
    ⊎ ((prev_bulk * weight + cur_bulk * minute + room * minute ≤ bulk_share 10 * minute + 60)
        × ((prev_bulk + prev_system) * weight + (cur_bulk + cur_system) * minute + room * minute
            ≤ 10 * minute + 60))

bulk_room-minute_example : IsPaced (bulk_room budget noon counted)
bulk_room-minute_example = bulk_room-minute budget noon counted (omega arith)

-- 60 bulk rows an hour before noon.
abbrev earlier : List Entry
earlier = sent (noon - hour) 0 6 ∷ []

room_left : 3 ≤ bulk_room budget noon (counts_at noon earlier)
unfolding bulk_room minute_room day_room window_room limit_room bulk_share taken_in window_start
    day_from send_window_counts count_sends count_window
room_left = omega arith

take_within_day_example :
    (sent_since (noon - day_span) 0 earlier + 3 ≤ bulk_share 100)
    × (sent_since (noon - day_span) 0 earlier + sent_since (noon - day_span) 1 earlier + 3 ≤ 100)
take_within_day_example =
    take_within_day budget noon 3 earlier (omega arith) (omega arith, tt) (omega arith) room_left

room_before : 6 ≤ bulk_room budget (noon - hour) (counts_at (noon - hour) [])
unfolding bulk_room minute_room day_room window_room limit_room bulk_share taken_in window_start
    day_from send_window_counts
room_before = omega arith
