-- ===== src/Consents/Ended.antt =====
-- That the process still has the rows that gateConsents goes on with, and no other of the take.
use skymail_backend.Prelude.{
  ℕ, ◌≡◌, refl, sym, ap, ◌∙◌, subst, true, false, not, Option, none, some, List, [], ◌∷◌, Text, map,
  All, arith, mem, select, is_some,
}
use skymail_backend.Lanes.{SendLanes}
use skymail_backend.Rows.{link_in}
use skymail_backend.Queue.{Row, Task, Statement, ids_of, act, applies, assign}
use skymail_backend.Queue.Claims.{In, In-map, All-In, All-of-In}
use skymail_backend.Store.{Store}
use skymail_backend.Taken.{write_held, run_all}
use skymail_backend.Taken.Steps.{
  has, names, names-append, names-write_held, Yields-append, write_held-Yields, act_all,
  run_all-rows,
}
use skymail_backend.Taken.Passes.{
  IsTaken, Passes, Gives, Gives-trans, HasOnly-Gives, run_all-Passes, In-mapped,
}
use skymail_backend.Waiting.{WaitingRule, waiting_statements}
use skymail_backend.Waiting.Groups.{names-waiting_statements, waiting_statements-Yields}
use skymail_backend.Consents.{ConsentGate, ConsentCache, Verdict}
use skymail_backend.Consents.Gate.{
  goes_on, ends_of, links_of, with_link, give_link, consent_rule, decided_of, gate_consents,
}

goes_on-names :
    (me : ℕ) (rule : WaitingRule) (v : Verdict) (r : Row)
    → goes_on v r ≡ not (names (ends_of me rule v) r.id)
goes_on-names me rule v r = ground (
  arith,
  names-append r.id (write_held me v.held) (waiting_statements me rule v.waiting),
  names-write_held me r.id v.held,
  names-waiting_statements me r.id rule v.waiting,
)

mem-links :
    (i : ℕ) (links : List (ℕ × Text))
    → mem i (map (λ (l : ℕ × Text). l.0) links) ≡ is_some (link_in i links)
mem-links i [] = refl
mem-links i (l ∷ ls) = ground (arith, mem-links i ls)

-- A row that the process has is given its link, in the table as in memory.
act-link_claimed :
    (me now : ℕ) (ts : List Task) (links : List (ℕ × Text)) (r : Row)
    → has me r ≡ true
    → act now ts (Statement.link_claimed links me) r ≡ give_link links r
unfolding act applies assign
act-link_claimed me now ts links r own = linked (link_in r.id links) refl
  where
    linked :
        (o : Option Text)
        → o ≡ link_in r.id links
        → act now ts (Statement.link_claimed links me) r ≡ give_link links r
    linked none e =
        let out : mem r.id (map (λ (l : ℕ × Text). l.0) links) ≡ false =
          mem-links r.id links ∙ ap is_some (sym e) in
        rw (out, sym e) refl
    linked (some l) e =
        let on : mem r.id (map (λ (l : ℕ × Text). l.0) links) ≡ true =
          mem-links r.id links ∙ ap is_some (sym e) in
        rw (on, own, sym e) refl

links_of-has :
    (me now : ℕ) (ts : List Task) (links : List (ℕ × Text)) (r : Row)
    → (has me (act_all now ts (links_of me links) r) ≡ has me r)
      × ((act_all now ts (links_of me links) r).id ≡ r.id)
unfolding act applies assign
links_of-has me now ts [] r = (refl, refl)
links_of-has me now ts (l ∷ ls) r = (ground arith, ground arith)

links_of-give_link :
    (me now : ℕ) (ts : List Task) (links : List (ℕ × Text)) (r : Row)
    → has me r ≡ true
    → act_all now ts (links_of me links) r ≡ give_link links r
links_of-give_link me now ts [] r own = refl
links_of-give_link me now ts (l ∷ ls) r own = act-link_claimed me now ts (l ∷ ls) r own

run_all-links_of :
    (me now : ℕ) (links : List (ℕ × Text)) (st : Store)
    → Gives me st (run_all now (links_of me links) st)
run_all-links_of me now links st = (
  act_all now st.tasks (links_of me links),
  run_all-rows now (links_of me links) st,
  λ r. (links_of-has me now st.tasks links r).1,
  λ r h. (links_of-has me now st.tasks links r).0 ∙ h,
)

with_link-claim :
    (o : Option Text) (r : Row)
    → ((with_link o r).id ≡ r.id)
      × ((with_link o r).status ≡ r.status)
      × ((with_link o r).claimed_by ≡ r.claimed_by)
with_link-claim none r = (refl, refl, refl)
with_link-claim (some l) r = (refl, refl, refl)

ids_of-give_link :
    (links : List (ℕ × Text)) (rows : List Row) → ids_of (map (give_link links) rows) ≡ ids_of rows
ids_of-give_link links [] = refl
ids_of-give_link links (r ∷ rs) =
    ap (λ i. i ∷ ids_of (map (give_link links) rs)) (with_link-claim (link_in r.id links) r).0
    ∙ ap (◌∷◌ r.id) (ids_of-give_link links rs)

IsTaken-linked :
    (me now : ℕ) (links : List (ℕ × Text)) (st : Store) (kept : List Row)
    → All (IsTaken st.rows me) kept
    → All (IsTaken (run_all now (links_of me links) st).rows me) (map (give_link links) kept)
IsTaken-linked me now links st kept taken =
    let f = act_all now st.tasks (links_of me links) in
    subst (λ (s : Store). All (IsTaken s.rows me) (map (give_link links) kept))
      (sym (run_all-rows now (links_of me links) st))
      (All-of-In (IsTaken (map f st.rows) me) (map (give_link links) kept) λ r i.
        let (x, j, e) = In-map (give_link links) r kept i in
        let (l, busy, mine) = All-In (IsTaken st.rows me) x kept taken j in
        let own : has me x ≡ true = ground arith in
        let same : f x ≡ r = links_of-give_link me now st.tasks links x own ∙ sym e in
        let (_, s, b) = with_link-claim (link_in x.id links) x in
        (
          subst (λ y. In y (map f st.rows)) same (In-mapped f x st.rows l),
          ap (λ (y : Row). y.status) e ∙ s ∙ busy,
          ap (λ (y : Row). y.claimed_by) e ∙ b ∙ mine,
        ))

pub gate_consents-Passes :
    (gate : ConsentGate) (lanes : SendLanes) (me now : ℕ) (c : ConsentCache) (rows : List Row)
    (st : Store)
    → All (IsTaken st.rows me) rows
    → let done = gate_consents gate lanes me now c rows st in
      Passes me st rows (done.store, done.kept)
unfolding gate_consents
gate_consents-Passes gate lanes me now c rows st taken =
    let v = decided_of gate lanes me now c (ids_of rows) st in
    let rule = consent_rule now c in
    let ended = run_all now (ends_of me rule v) st in
    let after = run_all now (links_of me v.links) ended in
    let kept = select (goes_on v) rows in
    let linked = run_all-links_of me now v.links ended in
    let yields =
      Yields-append me (write_held me v.held) (waiting_statements me rule v.waiting)
        (write_held-Yields me v.held) (waiting_statements-Yields me rule v.waiting) in
    let (a, t, o) =
      run_all-Passes me now (ends_of me rule v) (goes_on v) st rows yields taken
        (λ r _. goes_on-names me rule v r) in
    let only = HasOnly-Gives me ended after rows kept o linked in
    (
      Gives-trans me st ended after a linked,
      IsTaken-linked me now v.links ended kept t,
      λ r i h m.
          subst (λ ids. mem r.id ids ≡ true) (sym (ids_of-give_link v.links kept)) (only r i h m),
    )
