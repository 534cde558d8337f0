-- ===== src/Budget/Day.antt =====
-- The daily limit over whole histories of sends.
use skymail_backend.Prelude.{
  ℕ, zero, suc, ◌+◌, ◌-◌, ◌≤◌, ◌<◌, ◌≡◌, refl, ◌&&◌, List, [], ◌∷◌, arith, leb, ◌==◌, if◌then◌else◌,
}
use skymail_backend.Env.{RateBudget, minute}
use skymail_backend.Budget.{
  SendWindow, window_start, day_from, day_span, taken_in, hour_since, lane_index, bulk_room,
  bulk_share, count_sends, send_window_counts, prune_send_windows,
}
use skymail_backend.Budget.Windows.{
  hours-count_sends, hours-send_window_counts, hours-prune_send_windows, day_from_bounds,
  hour_of_recent,
}
use skymail_backend.Budget.Room.{bulk_room_day}

-- What happened to the windows, newest first: rows of a lane counted, or old windows pruned.
pub data Entry : Type 0 where
  sent : ℕ → ℕ → ℕ → Entry
  pruned : ℕ → Entry

abbrev pub windows_of : List Entry → List SendWindow
windows_of [] = []
windows_of (sent at lane n ∷ h) = count_sends at lane n (windows_of h)
windows_of (pruned at ∷ h) = prune_send_windows at (windows_of h)

-- The rows of one lane sent at or after an instant.
abbrev pub sent_since : ℕ → ℕ → List Entry → ℕ
sent_since from l [] = 0
sent_since from l (sent at lane n ∷ h) =
    (if leb from at && lane_index lane == l then n else 0) + sent_since from l h
sent_since from l (pruned at ∷ h) = sent_since from l h

-- No entry is later than an instant.
abbrev pub Until : ℕ → List Entry → Type 0
Until at [] = Unit {0}
Until at (sent t lane n ∷ h) = (t ≤ at) × Until at h
Until at (pruned t ∷ h) = (t ≤ at) × Until at h

sent_since-le-hours :
    (at l : ℕ) (h : List Entry)
    → Until at h
    → sent_since (at - day_span) l h ≤ taken_in (hour_since (day_from at) l) (windows_of h)
sent_since-le-hours at l [] u = omega arith
sent_since-le-hours at l (sent t lane n ∷ h) u = ground (
  arith,
  sent_since-le-hours at l h u.1,
  hours-count_sends (day_from at) l t lane n (windows_of h),
  hour_of_recent at t,
)
sent_since-le-hours at l (pruned t ∷ h) u = omega (
  arith,
  sent_since-le-hours at l h u.1,
  hours-prune_send_windows t (day_from at) l (windows_of h),
  day_from_bounds at,
)

-- What claimBulk reads of the windows at an instant.
abbrev pub counts_at : ℕ → List Entry → List SendWindow
counts_at at h = send_window_counts (window_start at minute - minute) (day_from at) (windows_of h)

-- A take of n bulk rows within the room that the budget reads at `at`, after any history of sends and
-- prunes none of them later: with it, the bulk lane's sends of the last 24 hours are within its share
-- of the daily limit, and both lanes' within the limit. A take of none is left out.
pub take_within_day :
    (b : RateBudget) (at n : ℕ) (h : List Entry)
    → 0 < b.per_day
    → Until at h
    → 0 < n
    → n ≤ bulk_room b at (counts_at at h)
    → (sent_since (at - day_span) 0 h + n ≤ bulk_share b.per_day)
      × (sent_since (at - day_span) 0 h + sent_since (at - day_span) 1 h + n ≤ b.per_day)
take_within_day b at n h limited u some_rows room = omega (
  arith,
  bulk_room_day b at (counts_at at h) limited,
  hours-send_window_counts (window_start at minute - minute) (day_from at) 0 (windows_of h),
  hours-send_window_counts (window_start at minute - minute) (day_from at) 1 (windows_of h),
  sent_since-le-hours at 0 h u,
  sent_since-le-hours at 1 h u,
)

-- Every take of bulk rows was within the room at its instant, and no entry is later than the next.
abbrev pub Paced : RateBudget → List Entry → Type 0
Paced b [] = Unit {0}
Paced b (sent at lane n ∷ h) =
    Until at h × (lane ≡ 0 → n ≤ bulk_room b at (counts_at at h)) × Paced b h
Paced b (pruned at ∷ h) = Until at h × Paced b h

sent_since_mono :
    (from to l : ℕ) (h : List Entry) → from ≤ to → sent_since to l h ≤ sent_since from l h
sent_since_mono from to l [] le = omega arith
sent_since_mono from to l (sent t lane n ∷ h) le = ground (arith, sent_since_mono from to l h le)
sent_since_mono from to l (pruned t ∷ h) le = sent_since_mono from to l h le

Until-mono : (s t : ℕ) (h : List Entry) → s ≤ t → Until s h → Until t h
Until-mono s t [] le u = tt
Until-mono s t (sent a lane n ∷ h) le u = (omega arith, Until-mono s t h le u.1)
Until-mono s t (pruned a ∷ h) le u = (omega arith, Until-mono s t h le u.1)

-- However the sends and prunes fell, as long as each take of bulk rows was within the room that the
-- budget read at its instant: in the 24 hours before any instant that is not before the last entry,
-- the bulk lane sent no more than its share of the daily limit, whatever the system lane sent.
pub Paced-day :
    (b : RateBudget) (at : ℕ) (h : List Entry)
    → 0 < b.per_day
    → Paced b h
    → Until at h
    → sent_since (at - day_span) 0 h ≤ bulk_share b.per_day
Paced-day b at [] limited p u = omega arith
Paced-day b at (pruned t ∷ h) limited p u = Paced-day b at h limited p.1 u.1
Paced-day b at (sent t zero zero ∷ h) limited p u = ground (arith, Paced-day b at h limited p.2 u.1)
Paced-day b at (sent t zero (suc n) ∷ h) limited p u = ground (
  arith,
  take_within_day b t (suc n) h limited p.0 (omega arith) (p.1 refl),
  sent_since_mono (t - day_span) (at - day_span) 0 h (omega arith),
)
Paced-day b at (sent t (suc lane) n ∷ h) limited p u =
    ground (arith, Paced-day b at h limited p.2 u.1)
