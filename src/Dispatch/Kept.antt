-- ===== src/Dispatch/Kept.antt =====
-- The slots are kept.
use skymail_backend.Prelude.{
  ℕ, suc, ◌+◌, ◌≤◌, ◌<◌, ◌≡◌, refl, ap, ◌∙◌, Bool, true, false, List, [], ◌∷◌, ◌++◌, length, All,
  arith, if◌then◌else◌,
}
use skymail_backend.Budget.{bulk_share}
use skymail_backend.Queue.{Row, affected, take_rows}
use skymail_backend.Queue.Claims.{Distinct, WasDue, take_rows_sound}
use skymail_backend.Dispatch.{
  Slots, is_bulk, started, idle, dispatch, drain_system, drain_bulk, untake, Step, system, bulk,
  finished, Reachable, at_start, then_step,
}

-- The counters are those of the rows held, and within the workers and the bulk lane's slots.
abbrev pub IsWithin : Slots → Type 0
IsWithin s =
    (s.taken ≡ length s.held)
    × (s.taken_bulk ≡ affected is_bulk s.held)
    × (s.taken + s.left ≤ s.workers)
    × (s.taken_bulk ≤ s.bulk_slots)

length-append : (xs ys : List Row) → length (xs ++ ys) ≡ length xs + length ys
length-append [] ys = omega arith
length-append (x ∷ xs) ys = omega (arith, length-append xs ys)

affected-append :
    (p : Row → Bool) (xs ys : List Row) → affected p (xs ++ ys) ≡ affected p xs + affected p ys
affected-append p [] ys = omega arith
affected-append p (x ∷ xs) ys = ground (arith, affected-append p xs ys)

affected_none : (rows : List Row) → All (λ r. is_bulk r ≡ false) rows → affected is_bulk rows ≡ 0
affected_none [] a = refl
affected_none (r ∷ rs) a = rw a.0 (affected_none rs a.1)

affected_bulk :
    (rows : List Row) → All (λ r. is_bulk r ≡ true) rows → affected is_bulk rows ≡ length rows
affected_bulk [] a = refl
affected_bulk (r ∷ rs) a = ground (arith, affected_bulk rs a.1)

affected-cons :
    (job : Row) (rows : List Row)
    → affected is_bulk (job ∷ rows) ≡ (if is_bulk job then 1 else 0) + affected is_bulk rows
affected-cons job rows = ground arith

Step-IsWithin : (s t : Slots) → Step s t → IsWithin s → IsWithin t
unfolding drain_system drain_bulk dispatch untake
Step-IsWithin s _ (system _ rows some_idle few lane) w =
    ground (
      arith,
      length-append rows s.held,
      affected-append is_bulk rows s.held,
      affected_none rows lane,
    )
Step-IsWithin s _ (bulk _ rows few lane) w =
    ground (
      arith,
      length-append rows s.held,
      affected-append is_bulk rows s.held,
      affected_bulk rows lane,
    )
Step-IsWithin s _ (finished _ job before after e) w =
    let n : length s.held ≡ length before + suc (length after) =
      ap length e ∙ length-append before (job ∷ after) in
    let m : affected is_bulk s.held ≡ affected is_bulk before + affected is_bulk (job ∷ after) =
      ap (affected is_bulk) e ∙ affected-append is_bulk before (job ∷ after) in
    ground (
      arith,
      length-append before after,
      affected-append is_bulk before after,
      affected-cons job after,
    )

started-IsWithin : (workers : ℕ) → IsWithin (started workers)
unfolding started
started-IsWithin workers = (refl, refl, omega arith, omega arith)

Reachable-IsWithin : (workers : ℕ) (s : Slots) → Reachable workers s → IsWithin s
Reachable-IsWithin workers _ at_start = started-IsWithin workers
Reachable-IsWithin workers t (then_step s _ before step) =
    Step-IsWithin s t step (Reachable-IsWithin workers s before)

-- The number of workers and of slots does not change.
abbrev IsOf : ℕ → Slots → Type 0
IsOf workers s = (s.workers ≡ workers) × (s.bulk_slots ≡ bulk_share workers)

Step-IsOf : (workers : ℕ) (s t : Slots) → Step s t → IsOf workers s → IsOf workers t
unfolding drain_system drain_bulk dispatch untake
Step-IsOf workers s _ (system _ rows some_idle few lane) w = w
Step-IsOf workers s _ (bulk _ rows few lane) w = w
Step-IsOf workers s _ (finished _ job before after e) w = w

Reachable-IsOf : (workers : ℕ) (s : Slots) → Reachable workers s → IsOf workers s
unfolding started
Reachable-IsOf workers _ at_start = (refl, refl)
Reachable-IsOf workers t (then_step s _ before step) =
    Step-IsOf workers s t step (Reachable-IsOf workers s before)

bulk_share_less : (n : ℕ) → 2 ≤ n → bulk_share n < n
unfolding bulk_share
bulk_share_less n h = ground arith

-- However its turns and its workers interleave, a process holds at most one row for each worker, and at
-- most as many bulk rows as the bulk lane's share of its workers.
pub Reachable-held :
    (workers : ℕ) (s : Slots)
    → Reachable workers s
    → (length s.held ≤ workers) × (affected is_bulk s.held ≤ bulk_share workers)
Reachable-held workers s reached =
    let (a, b, c, d) = Reachable-IsWithin workers s reached in
    let (e, f) = Reachable-IsOf workers s reached in (omega arith, omega arith)

-- A process of two workers or more that holds only bulk rows has an idle worker for a system row.
pub Reachable-idle :
    (workers : ℕ) (s : Slots)
    → Reachable workers s
    → 2 ≤ workers
    → affected is_bulk s.held ≡ length s.held
    → 0 < idle s
Reachable-idle workers s reached two only_bulk =
    let (a, b, c, d) = Reachable-IsWithin workers s reached in
    let (e, f) = Reachable-IsOf workers s reached in omega (arith, bulk_share_less workers two)

WasDue-system :
    (by now : ℕ) (locked : Row → Bool) (rows : List Row) (t : Row)
    → WasDue true by now locked rows t
    → is_bulk t ≡ false
WasDue-system by now locked rows t (r, i, e, d, l) = ground arith

All-WasDue-system :
    (by now : ℕ) (locked : Row → Bool) (rows ts : List Row)
    → All (WasDue true by now locked rows) ts
    → All (λ t. is_bulk t ≡ false) ts
All-WasDue-system by now locked rows [] a = tt
All-WasDue-system by now locked rows (t ∷ ts) a =
    (WasDue-system by now locked rows t a.0, All-WasDue-system by now locked rows ts a.1)

-- The system rows that a take returns for the idle workers of a reachable process, handed to them, are
-- a step to a reachable process.
pub take_rows-Reachable :
    (workers by now : ℕ) (locked : Row → Bool) (rows : List Row) (s : Slots)
    → Reachable workers s
    → Distinct rows
    → 0 < idle s
    → Reachable workers (drain_system (take_rows true by (idle s) now locked rows).1 s)
take_rows-Reachable workers by now locked rows s reached d some_idle =
    let (few, all) = take_rows_sound true by (idle s) now locked rows d in
    let returned = (take_rows true by (idle s) now locked rows).1 in
    then_step s (drain_system returned s) reached
      (system s returned some_idle few (All-WasDue-system by now locked rows returned all))
