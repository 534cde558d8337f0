-- ===== src/Preferences/Gate.antt =====
-- gatePreferences: of the bulk rows that a process just took, which go on.
use skymail_backend.Prelude.{
  ℕ, Bool, false, ◌&&◌, ◌||◌, not, Option, none, some, List, [], ◌∷◌, ◌++◌, Text, codes, map,
  text_eq, select, mem, is_some, ltb, ◌==◌, if◌then◌else◌,
}
use skymail_backend.Lanes.{SendLanes}
use skymail_backend.Queue.{Row, Task, Statement, find_task, taken_by, ids_of}
use skymail_backend.Store.{Store}
use skymail_backend.Unsubscribed.{lane_of_send, is_duyuru_lane}
use skymail_backend.Taken.{Gated, HeldRow, held_ids, write_held, run_all}
use skymail_backend.Waiting.{WaitingRule, gated_ids, waiting_statements}
use skymail_backend.Preferences.{
  PreferenceCache, PreferenceVerdict, CheckedRow, decide, note_needs, recipient_key,
  preference_fetch_delay, preference_undecided_after, preference_undecided_error,
  unsubscribe_missing_error,
}

-- The notification of a send is of a required type.
abbrev pub required : List ℕ → Option ℕ → Bool
required ns none = false
required ns (some n) = mem n ns

-- What the check makes of a taken row: it passes, it misses its link, or core is asked about it in a
-- category.
pub data GateCase : Type 0 where
  passes misses : GateCase
  asks : Text → GateCase

abbrev pub asks_in : Option Text → GateCase
asks_in none = passes
asks_in (some category) = asks category

-- The loop's body, of a row and its send.
unfoldable pub case_of : SendLanes → List ℕ → Task → Row → GateCase
case_of lanes ns t r =
    if t.self_test || not (is_duyuru_lane (lane_of_send lanes (some t) r.priority))
    then passes
    else if not (is_some r.link) && not (required ns t.notification_id)
    then misses
    else if not (is_some r.preference_checked_at) && not (is_some r.recipient_sub)
    then passes
    else asks_in t.category

abbrev pub case_in : SendLanes → List ℕ → Option Task → Row → GateCase
unfolding case_of
case_in lanes ns none r = passes
case_in lanes ns (some t) r = case_of lanes ns t r

-- GetPreferenceGateClaimedRows, and the loop's body on what it returns.
unfoldable pub gate_case : SendLanes → Store → List ℕ → ℕ → Row → GateCase
unfolding case_of
gate_case lanes st ids me r =
    if taken_by ids me r && text_eq r.channel (codes "email")
    then case_in lanes st.required_notifications (find_task r.task_id st.tasks) r
    else passes

abbrev pub add_missing : GateCase → Row → List HeldRow → List HeldRow
add_missing misses r hs = record { id = r.id; reason = unsubscribe_missing_error } ∷ hs
add_missing _ r hs = hs

unfoldable pub missing_rows : (Row → GateCase) → List Row → List HeldRow
missing_rows g [] = []
missing_rows g (r ∷ rs) = add_missing (g r) r (missing_rows g rs)

abbrev pub add_checked : GateCase → Row → List CheckedRow → List CheckedRow
add_checked (asks category) r cs =
    record {
      gated = record { id = r.id; queued = r.created_at };
      category = category;
      recipient = recipient_key r.recipient_sub r.recipient_email;
    }
    ∷ cs
add_checked _ r cs = cs

unfoldable pub checked_rows : (Row → GateCase) → List Row → List CheckedRow
unfolding recipient_key
checked_rows g [] = []
checked_rows g (r ∷ rs) = add_checked (g r) r (checked_rows g rs)

-- An instant, and the rows that core allowed at it.
pub record AllowedRows : Type 0 where
  pub at : ℕ
  pub ids : List ℕ

-- The map from an instant to its rows; the code visits its keys in any order.
unfoldable pub add_allowed : ℕ → ℕ → List AllowedRows → List AllowedRows
add_allowed at id [] = record { at = at; ids = id ∷ [] } ∷ []
add_allowed at id (g ∷ gs) =
    let rest = add_allowed at id gs in
    if g.at == at then record g { ids = id ∷ g.ids } ∷ gs else g ∷ rest

unfoldable pub by_instant : List (ℕ × ℕ) → List AllowedRows
unfolding add_allowed
by_instant [] = []
by_instant (c ∷ cs) = add_allowed c.0 c.1 (by_instant cs)

abbrev pub checks_of : ℕ → List AllowedRows → List Statement
checks_of me = map λ g. Statement.check_claimed g.ids me g.at

unfoldable pub preference_rule : ℕ → PreferenceCache → WaitingRule
preference_rule now c = record {
  now = now;
  breaker_open = ltb now c.open_until;
  fetch_delay = preference_fetch_delay;
  undecided_after = preference_undecided_after;
  undecided_error = preference_undecided_error;
}

-- The statements by which the rows end that do not go on.
abbrev pub ends_of : ℕ → WaitingRule → List HeldRow → PreferenceVerdict → List Statement
ends_of me rule missing v =
    write_held me missing ++ (write_held me v.held ++ waiting_statements me rule v.waiting)

abbrev pub goes_on : List HeldRow → PreferenceVerdict → Row → Bool
goes_on missing v r =
    not (mem r.id (held_ids missing))
    && not (mem r.id (held_ids v.held))
    && not (mem r.id (gated_ids v.waiting))

-- gatePreferences of process `me` at `now`; `gate_on` is the switch. Where nothing is missing and
-- nothing is asked about, there is no statement to run and no row to leave out.
unfoldable pub gate_preferences :
    Bool → SendLanes → ℕ → ℕ → PreferenceCache → List Row → Store → Gated PreferenceCache
unfolding gate_case missing_rows checked_rows by_instant preference_rule decide note_needs
gate_preferences gate_on lanes me now c rows st =
    let g = gate_case lanes st (ids_of rows) me in
    let missing = missing_rows g st.rows in
    let v = decide now c (checked_rows g st.rows) in
    let ended = run_all now (ends_of me (preference_rule now c) missing v) st in
    if not gate_on then record { store = st; kept = rows; cache = c } else record {
      store = run_all now (checks_of me (by_instant v.checked)) ended;
      kept = select (goes_on missing v) rows;
      cache = note_needs v.asked c;
    }
