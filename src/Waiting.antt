-- ===== src/Waiting.antt =====
-- internal/mailer/consent_gate.go: the rows of a take that wait for an answer of core are put back, or
-- closed when core has not answered for too long (deferWaiting, consentBackoff).
use skymail_backend.Prelude.{
  ℕ, ◌+◌, ◌-◌, ◌*◌, ◌/◌, Bool, true, false, ◌&&◌, ◌||◌, not, List, [], ◌∷◌, ◌++◌, Text, map, select,
  mem, leb, ltb, ◌==◌, if◌then◌else◌,
}
use skymail_backend.Env.{minute, millisecond}
use skymail_backend.Queue.{Statement}
use skymail_backend.Store.{Store}
use skymail_backend.Taken.{run_all}
pub mod Groups
pub mod Left

-- gatedRow: a row, and when it was queued.
pub record GatedRow : Type 0 where
  pub id : ℕ
  pub queued : ℕ

-- waitingRule, less its log messages; `breaker_open` is `open`.
pub record WaitingRule : Type 0 where
  pub now : ℕ
  pub breaker_open : Bool
  pub fetch_delay : ℕ
  pub undecided_after : ℕ
  pub undecided_error : Text

-- consentBackoff
unfoldable pub consent_backoff : ℕ → ℕ
consent_backoff age =
    if ltb age (2 * minute)
    then minute
    else if ltb age (5 * minute)
    then 2 * minute
    else if ltb age (15 * minute)
    then 5 * minute
    else if ltb age (30 * minute)
    then 10 * minute
    else 15 * minute

abbrev pub age_of : WaitingRule → GatedRow → ℕ
age_of rule row = rule.now - row.queued

abbrev pub is_undecided : WaitingRule → GatedRow → Bool
is_undecided rule row = rule.breaker_open && leb rule.undecided_after (age_of rule row)

abbrev pub delay_of : WaitingRule → GatedRow → ℕ
delay_of rule row =
    if rule.breaker_open then consent_backoff (age_of rule row) else rule.fetch_delay

-- A delay, and the rows that wait for it.
pub record Delayed : Type 0 where
  pub delay : ℕ
  pub ids : List ℕ

-- The map from a delay to its rows; the code visits its keys in any order.
unfoldable pub add_delayed : ℕ → ℕ → List Delayed → List Delayed
add_delayed delay id [] = record { delay = delay; ids = id ∷ [] } ∷ []
add_delayed delay id (g ∷ gs) =
    let rest = add_delayed delay id gs in
    if g.delay == delay then record g { ids = id ∷ g.ids } ∷ gs else g ∷ rest

unfoldable pub by_delay : WaitingRule → List GatedRow → List Delayed
unfolding add_delayed
by_delay rule [] = []
by_delay rule (row ∷ rows) =
    let rest = by_delay rule rows in
    if is_undecided rule row then rest else add_delayed (delay_of rule row) row.id rest

abbrev pub gated_ids : List GatedRow → List ℕ
gated_ids = map λ row. row.id

abbrev pub defer_all : ℕ → List Delayed → List Statement
defer_all me = map λ g. Statement.defer_claimed g.ids me (g.delay / millisecond)

abbrev pub skip_undecided : ℕ → Text → List ℕ → List Statement
skip_undecided me error [] = []
skip_undecided me error (id ∷ ids) = Statement.skip_claimed (id ∷ ids) me error ∷ []

-- The statements that deferWaiting runs.
unfoldable pub waiting_statements : ℕ → WaitingRule → List GatedRow → List Statement
unfolding by_delay
waiting_statements me rule rows =
    defer_all me (by_delay rule rows)
    ++ skip_undecided me rule.undecided_error (gated_ids (select (is_undecided rule) rows))

-- deferWaiting, in the transaction of the take that process `me` runs at `now`.
unfoldable pub defer_waiting : ℕ → ℕ → WaitingRule → List GatedRow → Store → Store
unfolding waiting_statements
defer_waiting me now rule rows st = run_all now (waiting_statements me rule rows) st
