-- ===== src/Preferences/Ended.antt =====
-- That the process has no row of the take but those that gatePreferences goes on with.
use skymail_backend.Prelude.{
  ℕ, ◌≡◌, refl, ◌∙◌, Bool, true, false, not, List, [], ◌∷◌, ◌++◌, All, arith, select,
}
use skymail_backend.Lanes.{SendLanes}
use skymail_backend.Queue.{Row, Task, Statement, ids_of, act, applies, assign}
use skymail_backend.Store.{Store}
use skymail_backend.Taken.{HeldRow, write_held, run_all}
use skymail_backend.Taken.Steps.{
  has, Yields, names, names-append, names-write_held, Yields-append, write_held-Yields, act_all,
  run_all-rows,
}
use skymail_backend.Taken.Passes.{
  IsTaken, Passes-refl, Gives, Gives-trans, HasOnly, HasOnly-Gives, run_all-Passes,
}
use skymail_backend.Waiting.{WaitingRule, waiting_statements}
use skymail_backend.Waiting.Groups.{names-waiting_statements, waiting_statements-Yields}
use skymail_backend.Preferences.{PreferenceCache, PreferenceVerdict, decide}
use skymail_backend.Preferences.Gate.{
  AllowedRows, gate_case, missing_rows, checked_rows, by_instant, checks_of, goes_on, ends_of,
  preference_rule, gate_preferences,
}

goes_on-names :
    (me : ℕ) (rule : WaitingRule) (missing : List HeldRow) (v : PreferenceVerdict) (r : Row)
    → goes_on missing v r ≡ not (names (ends_of me rule missing v) r.id)
goes_on-names me rule missing v r = ground (
  arith,
  names-append r.id (write_held me missing)
      (write_held me v.held ++ waiting_statements me rule v.waiting),
  names-append r.id (write_held me v.held) (waiting_statements me rule v.waiting),
  names-write_held me r.id missing,
  names-write_held me r.id v.held,
  names-waiting_statements me r.id rule v.waiting,
)

ends_of-Yields :
    (me : ℕ) (rule : WaitingRule) (missing : List HeldRow) (v : PreferenceVerdict)
    → All (Yields me) (ends_of me rule missing v)
ends_of-Yields me rule missing v =
    Yields-append me (write_held me missing)
      (write_held me v.held ++ waiting_statements me rule v.waiting) (write_held-Yields me missing)
      (Yields-append me (write_held me v.held) (waiting_statements me rule v.waiting)
        (write_held-Yields me v.held) (waiting_statements-Yields me rule v.waiting))

checks_of-has :
    (me now : ℕ) (ts : List Task) (gs : List AllowedRows) (r : Row)
    → (has me (act_all now ts (checks_of me gs) r) ≡ has me r)
      × ((act_all now ts (checks_of me gs) r).id ≡ r.id)
unfolding act applies assign
checks_of-has me now ts [] r = (refl, refl)
checks_of-has me now ts (g ∷ gs) r =
    let s = Statement.check_claimed g.ids me g.at in
    let (a, b) = checks_of-has me now ts gs (act now ts s r) in
    let one : has me (act now ts s r) ≡ has me r = ground arith in
    let same_id : (act now ts s r).id ≡ r.id = ground arith in (a ∙ one, b ∙ same_id)

-- Noting when core allowed the rows gives the process none.
run_all-checks_of :
    (me now : ℕ) (gs : List AllowedRows) (st : Store)
    → Gives me st (run_all now (checks_of me gs) st)
run_all-checks_of me now gs st = (
  act_all now st.tasks (checks_of me gs),
  run_all-rows now (checks_of me gs) st,
  λ r. (checks_of-has me now st.tasks gs r).1,
  λ r h. (checks_of-has me now st.tasks gs r).0 ∙ h,
)

pub gate_preferences-HasOnly :
    (gate_on : Bool) (lanes : SendLanes) (me now : ℕ) (c : PreferenceCache) (rows : List Row)
    (st : Store)
    → All (IsTaken st.rows me) rows
    → let done = gate_preferences gate_on lanes me now c rows st in
      Gives me st done.store × HasOnly me rows done.kept done.store.rows
unfolding gate_preferences
gate_preferences-HasOnly false lanes me now c rows st taken =
    let (g, _, o) = Passes-refl me st rows taken in (g, o)
gate_preferences-HasOnly true lanes me now c rows st taken =
    let g = gate_case lanes st (ids_of rows) me in
    let missing = missing_rows g st.rows in
    let v = decide now c (checked_rows g st.rows) in
    let ss = ends_of me (preference_rule now c) missing v in
    let ended = run_all now ss st in
    let gs = by_instant v.checked in
    let checked = run_all-checks_of me now gs ended in
    let (a, _, o) =
      run_all-Passes me now ss (goes_on missing v) st rows
        (ends_of-Yields me (preference_rule now c) missing v) taken
        (λ r _. goes_on-names me (preference_rule now c) missing v r) in
    (
      Gives-trans me st ended (run_all now (checks_of me gs) ended) a checked,
      HasOnly-Gives me ended (run_all now (checks_of me gs) ended) rows
          (select (goes_on missing v) rows) o checked,
    )
