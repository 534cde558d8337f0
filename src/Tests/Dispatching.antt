-- ===== src/Tests/Dispatching.antt =====
-- A process of three workers.
use skymail_backend.Prelude.{◌≤◌, ◌<◌, refl, List, [], ◌∷◌, length, arith}
use skymail_backend.Budget.{bulk_share}
use skymail_backend.Queue.{Row, affected}
use skymail_backend.Dispatch.{
  Slots, is_bulk, started, idle, drain_system, drain_bulk, dispatch, system, bulk, Reachable,
  at_start, then_step,
}
use skymail_backend.Dispatch.Kept.{Reachable-held, Reachable-idle}
use skymail_backend.Tests.{waiting}

abbrev three : Slots
three = drain_system [] (started 3)

-- Two bulk rows, after a turn that found no system row.
abbrev two_bulk : List Row
two_bulk = waiting 1 10 ∷ waiting 2 20 ∷ []

three-Reachable : Reachable 3 three
unfolding started
three-Reachable =
    then_step (started 3) three at_start (system (started 3) [] (omega arith) (omega arith) tt)

holding-Reachable : Reachable 3 (drain_bulk two_bulk three)
unfolding started drain_system dispatch bulk_share
holding-Reachable =
    then_step three (drain_bulk two_bulk three) three-Reachable
      (bulk three two_bulk (omega arith) (refl, (refl, tt)))

Reachable-held_example :
    (length (drain_bulk two_bulk three).held ≤ 3)
    × (affected is_bulk (drain_bulk two_bulk three).held ≤ bulk_share 3)
Reachable-held_example = Reachable-held 3 (drain_bulk two_bulk three) holding-Reachable

Reachable-idle_example : 0 < idle (drain_bulk two_bulk three)
unfolding drain_bulk drain_system dispatch started
Reachable-idle_example =
    Reachable-idle 3 (drain_bulk two_bulk three) holding-Reachable (omega arith) refl

-- A system row that waits.
abbrev urgent : Row
urgent = record (waiting 5 10) { priority = 1 }

three-idle : 0 < idle (started 3)
unfolding started
three-idle = omega arith
