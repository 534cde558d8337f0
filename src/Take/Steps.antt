-- ===== src/Take/Steps.antt =====
-- The checks of a take one by one: what each leaves, and which rows it goes on with.
use skymail_backend.Prelude.{
  ℕ, ◌≡◌, ◌≢◌, refl, sym, ap, ◌∙◌, ◌⊎◌, inl, inr, subst, Bool, true, false, ◌&&◌, not, Option, List,
  [], ◌∷◌, Text, map, All, arith, mem, select, if◌then◌else◌, Bool-cases,
}
use skymail_backend.Lanes.{SendLanes}
use skymail_backend.Rows.{link_in}
use skymail_backend.Queue.{Row, Statement, ids_of, taken_ids, claim, take_rows}
use skymail_backend.Queue.Claims.{
  In, Distinct, Distinct-unique, mem-ids_of, In-select, In-map, All-In, All-of-In,
}
use skymail_backend.Queue.Order.{In-selected, mem_of_In}
use skymail_backend.Store.{Store}
use skymail_backend.Guard.{cancelled_task, paused_task, skip_held_tasks}
use skymail_backend.Unsubscribed.{skips, skip_unsubscribed, unsubscribed_error}
use skymail_backend.Taken.Steps.{has}
use skymail_backend.Taken.Passes.{IsTaken, Passes, Gives, run_all-Passes, In-mapped, not-both}
use skymail_backend.Consents.{ConsentGate, ConsentCache}
use skymail_backend.Consents.Gate.{with_link, give_link, goes_on, decided_of, gate_consents}
use skymail_backend.Preferences.{PreferenceCache}
use skymail_backend.Preferences.Gate.{gate_preferences}

-- Of rows of a table with one row for an id: which of them a test's ids name.
pub mem-selected :
    (p : Row → Bool) (r : Row) (rows table : List Row)
    → Distinct table
    → ((x : Row) → In x rows → In x table)
    → In r rows
    → mem r.id (ids_of (select p rows)) ≡ p r
mem-selected p r rows table d sub i = elim (Bool-cases (p r)) [
  | inl e ↦ mem_of_In r (select p rows) (In-selected p r rows e i) ∙ sym e
  | inr n ↦ elim (Bool-cases (mem r.id (ids_of (select p rows)))) [
    | inl m ↦
        let (x, j, e) = mem-ids_of r.id (select p rows) m in
        let (k, q) = In-select p x rows j in
        let same : x ≡ r = Distinct-unique x r table d (sub x k) (sub r i) e in
        not-both (p x) q (ap p same ∙ n)
    | inr o ↦ o ∙ sym n
  ]
]

pub In-taken :
    (me : ℕ) (rows table : List Row)
    → All (IsTaken table me) rows
    → (x : Row) → In x rows
    → In x table
In-taken me rows table taken x i = (All-In (IsTaken table me) x rows taken i).0

pub skip_held_tasks-Passes :
    (me now : ℕ) (rows : List Row) (st : Store)
    → Distinct st.rows
    → All (IsTaken st.rows me) rows
    → Passes me st rows (skip_held_tasks me now rows st)
unfolding skip_held_tasks
skip_held_tasks-Passes me now rows st d taken =
    let parks = λ (r : Row). not (cancelled_task st.tasks r) && paused_task st.tasks r in
    let stays = λ (r : Row). not (cancelled_task st.tasks r) && not (paused_task st.tasks r) in
    let ss =
      Statement.park_claimed (ids_of (select parks rows)) me
      ∷ Statement.cancel_claimed (ids_of (select (cancelled_task st.tasks) rows)) me
      ∷ [] in
    let sub = In-taken me rows st.rows taken in
    run_all-Passes me now ss stays st rows (refl, (refl, tt)) taken
      λ r i. ground (
        arith,
        mem-selected parks r rows st.rows d sub i,
        mem-selected (cancelled_task st.tasks) r rows st.rows d sub i,
      )

pub skip_unsubscribed-Passes :
    (lanes : SendLanes) (me now : ℕ) (rows : List Row) (st : Store)
    → All (IsTaken st.rows me) rows
    → Passes me st rows (skip_unsubscribed lanes me now rows st)
unfolding skip_unsubscribed
skip_unsubscribed-Passes lanes me now rows st taken =
    let skip = ids_of (select (skips lanes st.tasks st.unsubscribes (ids_of rows) me) st.rows) in
    run_all-Passes me now (Statement.skip_claimed skip me unsubscribed_error ∷ [])
      (λ r. not (mem r.id skip)) st rows (refl, tt) taken (λ r i. ground arith)

pub All-selected :
    (P : Row → Type 0) (p : Row → Bool) (rows : List Row) → All P rows → All P (select p rows)
All-selected P p rows a =
    All-of-In P (select p rows) λ r i. All-In P r rows a (In-select p r rows i).0

-- What does not look at a row's link is true of the rows that gate_consents goes on with.
pub gate_consents-All :
    (P : Row → Type 0) (gate : ConsentGate) (lanes : SendLanes) (me now : ℕ) (c : ConsentCache)
    (rows : List Row) (st : Store)
    → ((o : Option Text) (r : Row) → P r → P (with_link o r))
    → All P rows
    → All P (gate_consents gate lanes me now c rows st).kept
unfolding gate_consents
gate_consents-All P gate lanes me now c rows st stable a =
    let v = decided_of gate lanes me now c (ids_of rows) st in
    All-of-In P (map (give_link v.links) (select (goes_on v) rows)) λ r i.
      let (x, j, e) = In-map (give_link v.links) r (select (goes_on v) rows) i in
      let (k, _) = In-select (goes_on v) x rows j in
      subst P (sym e) (stable (link_in x.id v.links) x (All-In P x rows a k))

pub gate_preferences-All :
    (P : Row → Type 0) (gate_on : Bool) (lanes : SendLanes) (me now : ℕ) (c : PreferenceCache)
    (rows : List Row) (st : Store)
    → All P rows
    → All P (gate_preferences gate_on lanes me now c rows st).kept
unfolding gate_preferences
gate_preferences-All P false lanes me now c rows st a = a
gate_preferences-All P true lanes me now c rows st a = All-selected P _ rows a

pub Distinct-map :
    (f : Row → Row) (rows : List Row)
    → ((r : Row) → (f r).id ≡ r.id)
    → Distinct rows
    → Distinct (map f rows)
Distinct-map f [] same_id d = tt
Distinct-map f (r ∷ rs) same_id d = (
  subst (λ i. All (λ y. y.id ≢ i) (map f rs)) (sym (same_id r)) (other rs d.0),
  Distinct-map f rs same_id d.1,
)
  where
    other : (xs : List Row) → All (λ y. y.id ≢ r.id) xs → All (λ y. y.id ≢ r.id) (map f xs)
    other [] a = tt
    other (x ∷ xs) a = ((λ e. a.0 (sym (same_id x) ∙ e)), other xs a.1)

-- One row for an id, still, after a change that gives the process no row.
pub Distinct-Gives : (me : ℕ) (a b : Store) → Gives me a b → Distinct a.rows → Distinct b.rows
Distinct-Gives me a b (f, path, same_id, _) d =
    subst (λ (s : Store). Distinct s.rows) (sym path) (Distinct-map f a.rows same_id d)

-- The rows that a take returns are in the table that it leaves, claimed by the process.
pub take_rows-IsTaken :
    (system : Bool) (me max_rows now : ℕ) (locked : Row → Bool) (rows : List Row)
    → let (after, returned) = take_rows system me max_rows now locked rows in
      All (IsTaken after me) returned
unfolding take_rows
take_rows-IsTaken system me max_rows now locked rows =
    let chosen = λ (r : Row). mem r.id (taken_ids system max_rows now locked rows) in
    All-of-In (IsTaken (map (λ r. if chosen r then claim now me r else r) rows) me)
      (map (claim now me) (select chosen rows))
      λ t i.
        let (r, j, e) = In-map (claim now me) t (select chosen rows) i in
        let (k, m) = In-select chosen r rows j in
        let at = In-mapped (λ (x : Row). if chosen x then claim now me x else x) r rows k in
        subst (IsTaken (map (λ r. if chosen r then claim now me r else r) rows) me) (sym e)
          ((rw m at at, refl, refl))

pub take_rows-Distinct :
    (system : Bool) (me max_rows now : ℕ) (locked : Row → Bool) (rows : List Row)
    → Distinct rows
    → Distinct (take_rows system me max_rows now locked rows).0
unfolding take_rows
take_rows-Distinct system me max_rows now locked rows d =
    let chosen = λ (r : Row). mem r.id (taken_ids system max_rows now locked rows) in
    Distinct-map (λ r. if chosen r then claim now me r else r) rows (λ r. ground arith) d

-- A row that the process has after a take is one that the take returned, or one that it had.
pub take_rows-has :
    (system : Bool) (me max_rows now : ℕ) (locked : Row → Bool) (rows : List Row) (r : Row)
    → let (after, returned) = take_rows system me max_rows now locked rows in
      In r after → has me r ≡ true → (mem r.id (ids_of returned) ≡ true) ⊎ (In r rows)
unfolding take_rows
take_rows-has system me max_rows now locked rows r i own =
    let chosen = λ (x : Row). mem x.id (taken_ids system max_rows now locked rows) in
    let (x, j, e) = In-map (λ x. if chosen x then claim now me x else x) r rows i in
    elim (Bool-cases (chosen x)) [
      | inl c ↦
          let same : r ≡ claim now me x = rw c at e in
          inl (
            mem_of_In r (map (claim now me) (select chosen rows)) (
              subst (λ y. In y (map (claim now me) (select chosen rows))) (sym same)
                (In-mapped (claim now me) x (select chosen rows) (In-selected chosen x rows c j))))
      | inr n ↦ let same : r ≡ x = rw n at e in inr (subst (λ y. In y rows) (sym same) j)
    ]
