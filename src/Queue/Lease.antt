-- ===== src/Queue/Lease.antt =====
-- Many processes on one queue: a history is a list of transactions, in their order. A statement's
-- transaction carries its instant and the sends as that transaction sees them.
use skymail_backend.Prelude.{
  ℕ, ◌+◌, ◌*◌, ◌≤◌, ◌≡◌, refl, sym, ap, ◌∙◌, ◌≢◌, ◌⊎◌, inl, inr, Bool, some, List, [], ◌∷◌, map,
  arith, mem, All, if◌then◌else◌, Bool-cases, subst,
}
use skymail_backend.Env.{second}
use skymail_backend.Queue.{
  Row, Task, Statement, pending, processing, sent, failed, act, assign, take_rows, taken_ids, claim,
}
use skymail_backend.Queue.Claims.{In, Distinct, mem-taken_ids}
use skymail_backend.Queue.Fencing.{acts_for, Respects, act-done, act-claimed}

pub data Event : Type 0 where
  ran : (now : ℕ) (tasks : List Task) (s : Statement) → Event
  took : (now : ℕ) (system : Bool) (by max_rows : ℕ) (locked : Row → Bool) → Event

abbrev pub step : Event → List Row → List Row
step (ran now ts s) rows = map (act now ts s) rows
step (took now system by max_rows locked) rows = (take_rows system by max_rows now locked rows).0

abbrev pub run : List Event → List Row → List Row
run [] rows = rows
run (e ∷ es) rows = run es (step e rows)

-- What one event does to one row of the table.
pub on_row : Event → List Row → Row → Row
on_row (ran now ts s) rows r = act now ts s r
on_row (took now system by max_rows locked) rows r =
    if mem r.id (taken_ids system max_rows now locked rows) then claim now by r else r

step-on_row : (e : Event) (rows : List Row) → step e rows ≡ map (on_row e rows) rows
unfolding on_row take_rows
step-on_row (ran now ts s) rows = refl
step-on_row (took now system by max_rows locked) rows = refl

act-id : (now : ℕ) (ts : List Task) (s : Statement) (r : Row) → (act now ts s r).id ≡ r.id
unfolding act assign
act-id now ts Statement.start_lease r = ground arith
act-id now ts s r = ground arith

on_row-id : (e : Event) (rows : List Row) (r : Row) → (on_row e rows r).id ≡ r.id
unfolding on_row
on_row-id (ran now ts s) rows r = act-id now ts s r
on_row-id (took now system by max_rows locked) rows r = ground arith

pub In-map_of_In : (f : Row → Row) (x : Row) (xs : List Row) → In x xs → In (f x) (map f xs)
In-map_of_In f x [] i = i
In-map_of_In f x (y ∷ ys) (inl e) = inl (ap f e)
In-map_of_In f x (y ∷ ys) (inr i) = inr (In-map_of_In f x ys i)

others-map :
    (f : Row → Row) (x : Row) (xs : List Row)
    → ((r : Row) → (f r).id ≡ r.id)
    → All (λ y. y.id ≢ x.id) xs
    → All (λ y. y.id ≢ (f x).id) (map f xs)
others-map f x [] same a = tt
others-map f x (y ∷ ys) same a = (λ e. a.0 (sym (same y) ∙ e ∙ same x), others-map f x ys same a.1)

Distinct-map :
    (f : Row → Row) (xs : List Row)
    → ((r : Row) → (f r).id ≡ r.id)
    → Distinct xs
    → Distinct (map f xs)
Distinct-map f [] same d = tt
Distinct-map f (x ∷ xs) same d = (others-map f x xs same d.0, Distinct-map f xs same d.1)

pub step-Distinct : (e : Event) (rows : List Row) → Distinct rows → Distinct (step e rows)
step-Distinct e rows d =
    subst Distinct (sym (step-on_row e rows))
      (Distinct-map (on_row e rows) rows (on_row-id e rows) d)

-- A row that an event leaves alone stays in the table as it is.
pub step-In :
    (e : Event) (rows : List Row) (r : Row) → on_row e rows r ≡ r → In r rows → In r (step e rows)
step-In e rows r kept i =
    subst (In r) (sym (step-on_row e rows))
      (subst (λ x. In x (map (on_row e rows) rows)) kept (In-map_of_In (on_row e rows) r rows i))

-- A take does not touch a row that is not pending.
took-other :
    (now : ℕ) (system : Bool) (by max_rows : ℕ) (locked : Row → Bool) (rows : List Row) (r : Row)
    → Distinct rows
    → In r rows
    → r.status ≢ pending
    → on_row (took now system by max_rows locked) rows r ≡ r
unfolding on_row
took-other now system by max_rows locked rows r d i other =
    elim (Bool-cases (mem r.id (taken_ids system max_rows now locked rows))) [
      | inl m ↦
          let h = mem-taken_ids system max_rows now locked rows r d i m in
          absurd (other (ground arith))
      | inr n ↦ rw n
    ]

pub on_row-done :
    (e : Event) (rows : List Row) (r : Row)
    → Distinct rows
    → In r rows
    → (r.status ≡ sent) ⊎ (r.status ≡ failed)
    → on_row e rows r ≡ r
on_row-done (ran now ts s) rows r d i h = unfold on_row in act-done now ts s r h
on_row-done (took now system by max_rows locked) rows r d i h =
    took-other now system by max_rows locked rows r d i (λ e. ground arith)

-- No history of takes and of the statements with which the mailer sends, puts back and holds back rows
-- and a send's controls park and cancel them, by any processes, changes a row that was sent or that
-- failed, where the queue has one row for an id. The statements that empty what was sent (retention and
-- masking) and account erasure are not in such a history.
pub run-done :
    (es : List Event) (rows : List Row) (r : Row)
    → Distinct rows
    → In r rows
    → (r.status ≡ sent) ⊎ (r.status ≡ failed)
    → In r (run es rows)
run-done [] rows r d i h = i
run-done (e ∷ es) rows r d i h =
    run-done es (step e rows) r (step-Distinct e rows d)
      (step-In e rows r (on_row-done e rows r d i h) i) h

-- An event within a lease that started at `c`, not in the name of process `p`.
abbrev pub Within : ℕ → ℕ → ℕ → Event → Type 0
Within lease p c (ran now ts s) =
    (now ≤ c + lease * second) × Respects lease s × (acts_for s ≢ some p)
Within lease p c (took now system by max_rows locked) = Unit {0}

on_row-claimed :
    (lease p c : ℕ) (e : Event) (rows : List Row) (r : Row)
    → Distinct rows
    → In r rows
    → r.status ≡ processing
    → r.claimed_by ≡ some p
    → r.claimed_at ≡ some c
    → Within lease p c e
    → on_row e rows r ≡ r
on_row-claimed lease p c (ran now ts s) rows r d i st who at w =
    unfold on_row in act-claimed lease now p c ts s r st who at w.0 w.1 w.2
on_row-claimed lease p c (took now system by max_rows locked) rows r d i st who at w =
    took-other now system by max_rows locked rows r d i (λ e. ground arith)

-- A lease is exclusive: a row that process p claimed at c stays p's, unchanged, through any history of
-- takes by anyone and of statements that are not run in p's name, while those statements run no later
-- than the lease's end and every reset of dead rows gives claims at least that lease; the queue has one
-- row for an id.
pub run-exclusive :
    (lease p c : ℕ) (es : List Event) (rows : List Row) (r : Row)
    → Distinct rows
    → In r rows
    → r.status ≡ processing
    → r.claimed_by ≡ some p
    → r.claimed_at ≡ some c
    → All (Within lease p c) es
    → In r (run es rows)
run-exclusive lease p c [] rows r d i st who at w = i
run-exclusive lease p c (e ∷ es) rows r d i st who at w =
    run-exclusive lease p c es (step e rows) r (step-Distinct e rows d)
      (step-In e rows r (on_row-claimed lease p c e rows r d i st who at w.0) i) st who at w.1
