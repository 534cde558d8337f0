-- ===== src/Preferences/Kept.antt =====
-- Which rows gatePreferences goes on with, and that the process keeps no other.
use skymail_backend.Prelude.{
  ℕ, ◌≡◌, refl, sym, ◌∙◌, ◌⊎◌, inl, inr, Bool, true, false, ◌&&◌, ◌||◌, not, Option, none, some,
  List, Text, codes, All, arith, select, is_some, text_eq, Bool-cases,
}
use skymail_backend.Lanes.{SendLanes}
use skymail_backend.Core.{Recipient}
use skymail_backend.Queue.{Row, Task, find_task, ids_of, taken_by}
use skymail_backend.Queue.Claims.{Distinct, All-In, All-of-In, In-select}
use skymail_backend.Queue.Order.{mem_of_In}
use skymail_backend.Store.{Store}
use skymail_backend.Unsubscribed.{lane_of_send, is_duyuru_lane}
use skymail_backend.Taken.Passes.{not-both, IsTaken}
use skymail_backend.Preferences.{
  PreferenceCache, Decision, CachedVerdict, is_fresh, is_gone, find_verdict, decision, decision_of,
  recipient_key, decide,
}
use skymail_backend.Preferences.Gate.{
  GateCase, passes, misses, asks, asks_in, required, case_of, case_in, gate_case, missing_rows,
  checked_rows, goes_on, gate_preferences,
}
use skymail_backend.Preferences.Found.{is_missing, decided_as, is_hold, is_wait, goes_on-ends}

-- What core last said of a recipient allows the mail, or says that the recipient has no account; it is
-- fresh, and the category was not said to be gone.
abbrev pub IsCleared : ℕ → PreferenceCache → Text → Recipient → Type 0
IsCleared now c category recipient =
    (is_gone now category c.gone ≡ false)
    × (v : CachedVerdict) × (find_verdict category recipient c.verdicts ≡ some v)
    × (is_fresh now v.at ≡ true)
    × ((v.result.matched ≡ false) ⊎ (v.result.allowed ≡ true))

abbrev ClearedIn : ℕ → PreferenceCache → Option Text → Recipient → Type 0
ClearedIn now c none recipient = Unit
ClearedIn now c (some category) recipient = IsCleared now c category recipient

-- A row of a send may go: it is a test mail or not of the duyuru stream; or it has its link, or is of a
-- required notification type, and core cleared it where it is asked about.
abbrev pub MayGo : ℕ → PreferenceCache → SendLanes → List ℕ → Row → Option Task → Type 0
MayGo now c lanes ns r none = Unit
MayGo now c lanes ns r (some t) =
    (t.self_test ≡ true)
    ⊎ (is_duyuru_lane (lane_of_send lanes (some t) r.priority) ≡ false)
    ⊎ (((is_some r.link ≡ true) ⊎ (required ns t.notification_id ≡ true))
        × (((r.preference_checked_at ≡ none) × (r.recipient_sub ≡ none))
            ⊎ ClearedIn now c t.category (recipient_key r.recipient_sub r.recipient_email)))

-- Neither held nor waiting.
abbrev stays : Decision → Bool
stays d = not (is_hold d || is_wait d)

fresh_answer :
    (now : ℕ) (found : Option CachedVerdict)
    → stays (decision_of now found) ≡ true
    → (v : CachedVerdict) × (found ≡ some v)
      × (is_fresh now v.at ≡ true)
      × ((v.result.matched ≡ false) ⊎ (v.result.allowed ≡ true))
fresh_answer now none h = cc
fresh_answer now (some v) h = elim (Bool-cases (is_fresh now v.at)) [
  | inr n ↦ not-both (stays (decision_of now (some v))) h (rw n refl)
  | inl f ↦ elim (Bool-cases v.result.matched) [
    | inr n ↦ (v, refl, f, inl n)
    | inl m ↦ elim (Bool-cases v.result.allowed) [
      | inl a ↦ (v, refl, f, inr a)
      | inr n ↦ not-both (stays (decision_of now (some v))) h (rw (f, m, n) refl)
    ]
  ]
]

decision-IsCleared :
    (now : ℕ) (c : PreferenceCache) (category : Text) (recipient : Recipient)
    → stays (decision now c category recipient) ≡ true
    → IsCleared now c category recipient
unfolding decision
decision-IsCleared now c category recipient h = elim (Bool-cases (is_gone now category c.gone)) [
  | inl e ↦ not-both (stays (decision now c category recipient)) h (rw e refl)
  | inr n ↦
      let (v, e, f, a) =
        fresh_answer now (find_verdict category recipient c.verdicts) (rw n at h) in
      (n, v, e, f, a)
]

-- The row does not end, where the check makes `k` of it.
abbrev passes_on : ℕ → PreferenceCache → GateCase → Row → Bool
passes_on now c passes r = true
passes_on now c misses r = false
passes_on now c (asks category) r =
    stays (decision now c category (recipient_key r.recipient_sub r.recipient_email))

asks_in-ClearedIn :
    (now : ℕ) (c : PreferenceCache) (r : Row) (category : Option Text)
    → passes_on now c (asks_in category) r ≡ true
    → ClearedIn now c category (recipient_key r.recipient_sub r.recipient_email)
asks_in-ClearedIn now c r none h = tt
asks_in-ClearedIn now c r (some category) h =
    decision-IsCleared now c category (recipient_key r.recipient_sub r.recipient_email) h

is_none : (o : Option ℕ) → is_some o ≡ false → o ≡ none
is_none none h = refl
is_none (some a) h = cc

case_of-MayGo :
    (now : ℕ) (c : PreferenceCache) (lanes : SendLanes) (ns : List ℕ) (t : Task) (r : Row)
    → passes_on now c (case_of lanes ns t r) r ≡ true
    → MayGo now c lanes ns r (some t)
unfolding case_of
case_of-MayGo now c lanes ns t r h = elim (Bool-cases t.self_test) [
  | inl s ↦ inl s
  | inr s ↦ elim (Bool-cases (is_duyuru_lane (lane_of_send lanes (some t) r.priority))) [
    | inr l ↦ inr (inl l)
    | inl l ↦ elim (Bool-cases (not (is_some r.link) && not (required ns t.notification_id))) [
      | inl e ↦ not-both (passes_on now c (case_of lanes ns t r) r) h (rw (s, l, e) refl)
      | inr e ↦ inr (
          inr (
            elim (Bool-cases (is_some r.link)) [ inl a ↦ inl a | inr b ↦ inr (ground arith) ],
            elim (Bool-cases
                (not (is_some r.preference_checked_at) && not (is_some r.recipient_sub))) [
                  | inl u ↦ inl (is_none _ (ground arith), is_none _ (ground arith))
                  | inr u ↦ inr (asks_in-ClearedIn now c r t.category (rw (s, l, e, u) at h))
                ],
          ))
    ]
  ]
]

ends-passes_on :
    (now : ℕ) (c : PreferenceCache) (g : Row → GateCase) (k : GateCase) (r : Row)
    → not (is_missing k || decided_as now c g is_hold k r || decided_as now c g is_wait k r) ≡ true
    → passes_on now c k r ≡ true
ends-passes_on now c g passes r h = refl
ends-passes_on now c g misses r h = cc
ends-passes_on now c g (asks category) r h = h

-- The rows that the check is about are the e-mails of the take.
abbrev pub Cleared : ℕ → PreferenceCache → SendLanes → Store → Row → Type 0
Cleared now c lanes st r =
    (text_eq r.channel (codes "email") ≡ false)
    ⊎ MayGo now c lanes st.required_notifications r (find_task r.task_id st.tasks)

gate_case-Cleared :
    (now : ℕ) (c : PreferenceCache) (lanes : SendLanes) (st : Store) (ids : List ℕ) (me : ℕ)
    (r : Row)
    → taken_by ids me r ≡ true
    → passes_on now c (gate_case lanes st ids me r) r ≡ true
    → Cleared now c lanes st r
unfolding gate_case
gate_case-Cleared now c lanes st ids me r own h =
    elim (Bool-cases (text_eq r.channel (codes "email"))) [
      | inr n ↦ inl n
      | inl e ↦ inr (of_send (find_task r.task_id st.tasks) (rw (own, e) at h))
    ]
  where
    of_send :
        (t : Option Task)
        → passes_on now c (case_in lanes st.required_notifications t r) r ≡ true
        → MayGo now c lanes st.required_notifications r t
    of_send none h = tt
    of_send (some t) h = case_of-MayGo now c lanes st.required_notifications t r h

-- The rows that gatePreferences goes on with may go.
pub kept-Cleared :
    (lanes : SendLanes) (me now : ℕ) (c : PreferenceCache) (rows : List Row) (st : Store)
    → Distinct st.rows
    → All (IsTaken st.rows me) rows
    → All (Cleared now c lanes st) (gate_preferences true lanes me now c rows st).kept
unfolding gate_preferences
kept-Cleared lanes me now c rows st d taken =
    let g = gate_case lanes st (ids_of rows) me in
    let keep = goes_on (missing_rows g st.rows) (decide now c (checked_rows g st.rows)) in
    All-of-In (Cleared now c lanes st) (select keep rows) λ r i.
      let (j, q) = In-select keep r rows i in
      let (l, busy, mine) = All-In (IsTaken st.rows me) r rows taken j in
      let asked = mem_of_In r rows j in
      let own : taken_by (ids_of rows) me r ≡ true = ground arith in
      gate_case-Cleared now c lanes st (ids_of rows) me r own
        (ends-passes_on now c g (g r) r (sym (goes_on-ends now c g r st.rows d l) ∙ q))
