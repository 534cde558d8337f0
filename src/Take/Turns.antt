-- ===== src/Take/Turns.antt =====
-- Histories of turns of many processes: what claimBulk does refines the takes that keep to the room of
-- Budget/Day.
use skymail_backend.Prelude.{
  ℕ, ◌+◌, ◌≡◌, sym, ◌≤◌, ◌<◌, inl, inr, subst, Bool, true, false, ◌||◌, List, [], ◌∷◌, All, arith,
  length, leb, Bool-cases, if◌then◌else◌, ◌==◌,
}
use skymail_backend.Env.{RateBudget}
use skymail_backend.Lanes.{priority_bulk, priority_system}
use skymail_backend.Budget.{budget_off, prune_send_windows}
use skymail_backend.Budget.Day.{Entry, sent, pruned, windows_of, sent_since, Until, Paced}
use skymail_backend.Queue.{Row}
use skymail_backend.Queue.Claims.{Distinct}
use skymail_backend.Store.{Store}
use skymail_backend.Take.{Mailer, Caches, claim_bulk, count_system}
use skymail_backend.Take.Bulk.{claim_bulk-Distinct, counted-rows}

-- What happens to the tables: a process takes bulk rows, or counts the system rows that it took, or
-- prunes the windows; or anything else happens, which leaves the windows and puts the tables in any
-- state that has one row for an id.
pub data Move : Type 0 where
  takes_bulk :
      (m : Mailer) (now : ℕ) (fails free : Bool) (locked : Row → Bool) (max_rows : ℕ)
      (caches : Caches)
      → Move
  counts_system : (m : Mailer) (now : ℕ) (fails : Bool) (n : ℕ) → Move
  prunes : (now : ℕ) → Move
  changes : (other : Store) → Distinct other.rows → Move

-- Every process has the same budget.
abbrev pub with_budget : RateBudget → Mailer → Mailer
with_budget b m = record m { budget = b }

abbrev pub perform : RateBudget → Move → Store → Store
perform b (takes_bulk m now fails free locked max_rows caches) st =
    (claim_bulk (with_budget b m) now fails free locked max_rows caches st).store
perform b (counts_system m now fails n) st = count_system (with_budget b m) now fails n st
perform b (prunes now) st = record st { windows = prune_send_windows now st.windows }
perform b (changes other _) st = record other { windows = st.windows }

-- A history, newest first, of a store that starts without windows.
abbrev pub perform_moves : RateBudget → List Move → Store → Store
perform_moves b [] st = record st { windows = [] }
perform_moves b (a ∷ as') st = perform b a (perform_moves b as' st)

-- The bulk rows that the turns at or after an instant handed to the workers.
abbrev pub taken_by_turn : RateBudget → ℕ → Move → Store → ℕ
taken_by_turn b from (takes_bulk m now fails free locked max_rows caches) st =
    if leb from now
    then length (claim_bulk (with_budget b m) now fails free locked max_rows caches st).taken
    else 0
taken_by_turn b from _ st = 0

abbrev pub taken_since : RateBudget → ℕ → List Move → Store → ℕ
taken_since b from [] st = 0
taken_since b from (a ∷ as') st =
    taken_by_turn b from a (perform_moves b as' st) + taken_since b from as' st

-- The move is no later than an instant.
abbrev pub IsBy : ℕ → Move → Type 0
IsBy at (takes_bulk m now fails free locked max_rows caches) = now ≤ at
IsBy at (counts_system m now fails n) = now ≤ at
IsBy at (prunes now) = now ≤ at
IsBy at (changes other _) = Unit

abbrev Before : Move → List Move → Type 0
Before (takes_bulk m now fails free locked max_rows caches) as' = All (IsBy now) as'
Before (counts_system m now fails n) as' = All (IsBy now) as'
Before (prunes now) as' = All (IsBy now) as'
Before (changes other _) as' = Unit

-- The database's clock does not go back: no move is later than the next.
abbrev pub Ordered : List Move → Type 0
Ordered [] = Unit {0}
Ordered (a ∷ as') = Before a as' × Ordered as'

-- The entry of a count, where there is something to count.
abbrev pub entry : ℕ → ℕ → ℕ → List Entry → List Entry
entry now lane n h = if n == 0 then h else sent now lane n ∷ h

abbrev pub entries_of : RateBudget → Move → Store → List Entry → List Entry
entries_of b (takes_bulk m now fails free locked max_rows caches) st h =
    entry now priority_bulk
      (length (claim_bulk (with_budget b m) now fails free locked max_rows caches st).taken) h
entries_of b (counts_system m now fails n) st h = if fails then h else entry now priority_system n h
entries_of b (prunes now) st h = pruned now ∷ h
entries_of b (changes other _) st h = h

-- What a history of moves is as a history of counts.
abbrev pub entries : RateBudget → List Move → Store → List Entry
entries b [] st = []
entries b (a ∷ as') st = entries_of b a (perform_moves b as' st) (entries b as' st)

Until-entry :
    (at now lane n : ℕ) (h : List Entry) → now ≤ at → Until at h → Until at (entry now lane n h)
Until-entry at now lane n h le u = elim (Bool-cases (n == 0)) [
  | inl e ↦ rw e u
  | inr e ↦ rw e (le, u)
]

pub Until-entries :
    (b : RateBudget) (at : ℕ) (as' : List Move) (st : Store)
    → All (IsBy at) as'
    → Until at (entries b as' st)
Until-entries b at [] st a = tt
Until-entries b at (takes_bulk m now fails free locked max_rows caches ∷ as') st a =
    Until-entry at now priority_bulk _ (entries b as' st) a.0 (Until-entries b at as' st a.1)
Until-entries b at (counts_system m now true n ∷ as') st a = Until-entries b at as' st a.1
Until-entries b at (counts_system m now false n ∷ as') st a =
    Until-entry at now priority_system n (entries b as' st) a.0 (Until-entries b at as' st a.1)
Until-entries b at (prunes now ∷ as') st a = (a.0, Until-entries b at as' st a.1)
Until-entries b at (changes other _ ∷ as') st a = Until-entries b at as' st a.1

-- The tables have one row for an id at every move.
pub perform_moves-Distinct :
    (b : RateBudget) (as' : List Move) (st : Store)
    → Distinct st.rows
    → Distinct (perform_moves b as' st).rows
unfolding count_system
perform_moves-Distinct b [] st d = d
perform_moves-Distinct b (takes_bulk m now fails free locked max_rows caches ∷ as') st d =
    claim_bulk-Distinct (with_budget b m) now fails free locked max_rows caches
      (perform_moves b as' st) (perform_moves-Distinct b as' st d)
perform_moves-Distinct b (counts_system m now fails n ∷ as') st d =
    let before = perform_moves b as' st in
    let rest = perform_moves-Distinct b as' st d in
    elim (Bool-cases (budget_off b || fails)) [
      | inl e ↦ rw e rest
      | inr e ↦ rw e (subst Distinct (sym (counted-rows now priority_system n before)) rest)
    ]
perform_moves-Distinct b (prunes now ∷ as') st d = perform_moves-Distinct b as' st d
perform_moves-Distinct b (changes other one ∷ as') st d = one

-- What the history of counts says of a history of moves.
abbrev pub Refines : RateBudget → List Move → Store → Type 0
Refines b as' st =
    ((perform_moves b as' st).windows ≡ windows_of (entries b as' st))
    × Paced b (entries b as' st)
    × ((from : ℕ) → taken_since b from as' st ≡ sent_since from 0 (entries b as' st))

pub is_on : (b : RateBudget) → 0 < b.per_day → budget_off b ≡ false
unfolding budget_off
is_on b h = ground (arith, h)
