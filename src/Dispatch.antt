-- ===== src/Dispatch.antt =====
-- internal/mailer/mailer.go: the slots that drainQueue, dispatch and untake count, so that a process
-- takes no more rows than it has idle workers. A dispatcher's turn is two steps, and workers finish
-- rows before, between and after them.
use skymail_backend.Prelude.{
  ℕ, ◌+◌, ◌-◌, ◌≤◌, ◌<◌, ◌≡◌, min, Bool, true, false, List, [], ◌∷◌, ◌++◌, length, leb, All,
  if◌then◌else◌,
}
use skymail_backend.Lanes.{priority_bulk}
use skymail_backend.Budget.{bulk_share}
use skymail_backend.Queue.{Row, affected}
pub mod Kept

-- What a process holds: the rows that it took and that are waiting for a worker or being sent, with its
-- two counters; `left` is how many idle workers this turn's system rows have left.
pub record Slots : Type 0 where
  pub workers : ℕ
  pub bulk_slots : ℕ
  pub held : List Row
  pub taken : ℕ
  pub taken_bulk : ℕ
  pub left : ℕ

abbrev pub is_bulk : Row → Bool
is_bulk r = leb r.priority priority_bulk

-- bulkSlotsFor
abbrev pub bulk_slots_for : ℕ → ℕ
bulk_slots_for workers = bulk_share workers

-- A process that holds nothing.
unfoldable pub started : ℕ → Slots
started workers = record {
  workers = workers;
  bulk_slots = bulk_slots_for workers;
  held = [];
  taken = 0;
  taken_bulk = 0;
  left = 0;
}

abbrev pub idle : Slots → ℕ
idle s = s.workers - s.taken

-- dispatch
unfoldable pub dispatch : List Row → Slots → Slots
dispatch rows s = record s { held = rows ++ s.held; taken = s.taken + length rows }

-- drainQueue's first part, of the system rows that it claimed for its idle workers.
unfoldable pub drain_system : List Row → Slots → Slots
unfolding dispatch
drain_system rows s = record (dispatch rows s) { left = idle s - length rows }

abbrev pub bulk_room_of : Slots → ℕ
bulk_room_of s = min s.left (s.bulk_slots - s.taken_bulk)

-- drainQueue's second part, of the bulk rows that it claimed.
unfoldable pub drain_bulk : List Row → Slots → Slots
unfolding dispatch
drain_bulk rows s = dispatch rows (record s { taken_bulk = s.taken_bulk + length rows; left = 0 })

-- untake, of a row that stands between others among those held.
unfoldable pub untake : Row → List Row → List Row → Slots → Slots
untake job before after s = record s {
  held = before ++ after;
  taken = s.taken - 1;
  taken_bulk = if is_bulk job then s.taken_bulk - 1 else s.taken_bulk;
}

-- One step of a process. A claim returns at most as many rows as it was asked for, all of its lane.
pub data Step : Slots → Slots → Type 0 where
  system :
      (s : Slots) (rows : List Row)
      → 0 < idle s
      → length rows ≤ idle s
      → All (λ r. is_bulk r ≡ false) rows
      → Step s (drain_system rows s)
  bulk :
      (s : Slots) (rows : List Row)
      → length rows ≤ bulk_room_of s
      → All (λ r. is_bulk r ≡ true) rows
      → Step s (drain_bulk rows s)
  finished :
      (s : Slots) (job : Row) (before after : List Row)
      → s.held ≡ before ++ job ∷ after
      → Step s (untake job before after s)

-- What a process of `workers` workers can come to hold.
pub data Reachable (workers : ℕ) : Slots → Type 0 where
  at_start : Reachable workers (started workers)
  then_step : (s t : Slots) → Reachable workers s → Step s t → Reachable workers t
