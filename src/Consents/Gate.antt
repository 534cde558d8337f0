-- ===== src/Consents/Gate.antt =====
-- gateConsents: of the bulk rows that a process just took, which go on, and with which link.
use skymail_backend.Prelude.{
  ℕ, Bool, true, false, ◌&&◌, ◌||◌, not, Option, none, some, List, [], ◌∷◌, ◌++◌, Text, codes, map,
  text_eq, select, mem, is_some, ltb, if◌then◌else◌,
}
use skymail_backend.Lanes.{SendLanes, account_mail, is_duyuru}
use skymail_backend.Core.{normalize_address}
use skymail_backend.Queue.{Row, Task, Statement, find_task, taken_by, ids_of}
use skymail_backend.Rows.{link_in}
use skymail_backend.Store.{Store}
use skymail_backend.Unsubscribed.{lane_of_send, is_duyuru_lane}
use skymail_backend.Taken.{Gated, held_ids, write_held, run_all}
use skymail_backend.Waiting.{WaitingRule, gated_ids, waiting_statements}
use skymail_backend.Consents.{
  ConsentGate, ConsentCache, ConsentRow, Verdict, decide, note_needs, consent_fetch_delay,
  consent_undecided_after, consent_undecided_error,
}

abbrev is_false : Option Bool → Bool
is_false (some b) = not b
is_false none = false

abbrev is_true : Option Bool → Bool
is_true (some b) = b
is_true none = false

abbrev listed : List ℕ → Option ℕ → Bool
listed lists none = false
listed lists (some l) = mem l lists

-- GetConsentGateClaimedRows: its columns promotional, to_list and own_event, of a send.
abbrev pub is_promotional : Task → Bool
is_promotional t = is_duyuru t.purpose && is_false t.commercial_content_absent

abbrev pub to_list : List ℕ → Task → Bool
to_list lists t = listed lists t.mail_list_id

abbrev pub own_event : Task → Bool
own_event t = is_true t.own_event_statement && is_some t.mail_list_id

-- What the gate makes of a taken row: no consent applies, it is promotional, or an announcement.
pub data ConsentCase : Type 0 where
  exempt promotes announces : ConsentCase

-- The address needs the announcement consent.
abbrev pub needs_invitation : ConsentGate → SendLanes → List ℕ → Task → Row → Bool
needs_invitation gate lanes lists t r =
    gate.list_consent
    && (to_list lists t || is_duyuru t.purpose)
    && not (is_some r.recipient_sub)
    && not (own_event t)
    && not t.self_test
    && is_duyuru_lane (lane_of_send lanes (some t) r.priority)

-- The loop's body, of a row and its send.
unfoldable pub case_of : ConsentGate → SendLanes → List ℕ → Task → Row → ConsentCase
case_of gate lanes lists t r =
    if is_promotional t
    then promotes
    else if account_mail t.template_key t.template_system
    then exempt
    else if needs_invitation gate lanes lists t r
    then announces
    else exempt

unfoldable pub case_in : ConsentGate → SendLanes → List ℕ → Option Task → Row → ConsentCase
unfolding case_of
case_in gate lanes lists none r = exempt
case_in gate lanes lists (some t) r =
    if is_duyuru t.purpose || to_list lists t then case_of gate lanes lists t r else exempt

-- GetConsentGateClaimedRows, and the loop's body on what it returns.
unfoldable pub consent_case : ConsentGate → SendLanes → Store → List ℕ → ℕ → Row → ConsentCase
unfolding case_in
consent_case gate lanes st ids me r =
    if taken_by ids me r && text_eq r.channel (codes "email")
    then case_in gate lanes st.mailing_lists (find_task r.task_id st.tasks) r
    else exempt

abbrev pub is_promotes : ConsentCase → Bool
is_promotes promotes = true
is_promotes _ = false

abbrev pub is_announces : ConsentCase → Bool
is_announces announces = true
is_announces _ = false

abbrev pub consent_row : Row → ConsentRow
consent_row r = record {
  gated = record { id = r.id; queued = r.created_at };
  address = normalize_address r.recipient_email;
}

unfoldable pub consent_rule : ℕ → ConsentCache → WaitingRule
consent_rule now c = record {
  now = now;
  breaker_open = ltb now c.open_until;
  fetch_delay = consent_fetch_delay;
  undecided_after = consent_undecided_after;
  undecided_error = consent_undecided_error;
}

-- The statements by which the rows end that do not go on.
abbrev pub ends_of : ℕ → WaitingRule → Verdict → List Statement
ends_of me rule v = write_held me v.held ++ waiting_statements me rule v.waiting

abbrev pub links_of : ℕ → List (ℕ × Text) → List Statement
links_of me [] = []
links_of me (l ∷ ls) = Statement.link_claimed (l ∷ ls) me ∷ []

abbrev pub goes_on : Verdict → Row → Bool
goes_on v r = not (mem r.id (held_ids v.held)) && not (mem r.id (gated_ids v.waiting))

abbrev pub with_link : Option Text → Row → Row
with_link none r = r
with_link (some l) r = record r { link = some l }

abbrev pub give_link : List (ℕ × Text) → Row → Row
give_link links r = with_link (link_in r.id links) r

-- What gateConsents decides about the rows of the queue.
abbrev pub decided_of : ConsentGate → SendLanes → ℕ → ℕ → ConsentCache → List ℕ → Store → Verdict
unfolding consent_case decide
decided_of gate lanes me now c ids st =
    let g = consent_case gate lanes st ids me in
    decide now c (map consent_row (select (λ r. is_promotes (g r)) st.rows))
      (map consent_row (select (λ r. is_announces (g r)) st.rows))

-- gateConsents of process `me` at `now`. Where no row is promotional and none an announcement, there is
-- no statement to run and no row to leave out.
unfoldable pub gate_consents :
    ConsentGate → SendLanes → ℕ → ℕ → ConsentCache → List Row → Store → Gated ConsentCache
unfolding consent_rule note_needs
gate_consents gate lanes me now c rows st =
    let v = decided_of gate lanes me now c (ids_of rows) st in
    let ended = run_all now (ends_of me (consent_rule now c) v) st in
    record {
      store = run_all now (links_of me v.links) ended;
      kept = map (give_link v.links) (select (goes_on v) rows);
      cache = note_needs v.asked c;
    }
