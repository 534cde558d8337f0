-- ===== src/Tests/Taking.antt =====
-- A turn of the bulk lane on a store with a due row, and a history of such turns.
use skymail_backend.Prelude.{
  ℕ, ◌+◌, ◌-◌, ◌*◌, ◌≤◌, ◌≡◌, refl, Bool, true, false, not, Option, none, some, List, [], ◌∷◌, Text,
  codes, All, arith, length,
}
use skymail_backend.Env.{RateBudget, hour}
use skymail_backend.Lanes.{SendLanes, lane_off, duyuru_purpose}
use skymail_backend.Budget.{bulk_room, bulk_share, day_span}
use skymail_backend.Queue.{Row, Task}
use skymail_backend.Queue.Claims.{Distinct}
use skymail_backend.Store.{Store}
use skymail_backend.Core.{
  Recipient, by_email, Reply, answered, ResolvedItem, Resolved, resolve, reason_opted_out,
}
use skymail_backend.Core.Answers.{Decides, resolve-Decides}
use skymail_backend.Consents.{new_consent_cache}
use skymail_backend.Preferences.{PreferenceCache, new_preference_cache}
use skymail_backend.Take.{Mailer, Caches, claim_bulk, window_counts}
use skymail_backend.Take.Checks.{MaySend}
use skymail_backend.Take.Bulk.{Accounted, claim_bulk-MaySend, claim_bulk-Accounted}
use skymail_backend.Take.Counts.{with_bulk, claim_bulk-windows}
use skymail_backend.Take.Turns.{Move, takes_bulk, counts_system, taken_since}
use skymail_backend.Take.Refines.{perform_moves-day}
use skymail_backend.Tests.{waiting, guard_on, store_of, send_9, none_locked}

abbrev pub purposes_on : SendLanes
purposes_on = record {
  hesap_lane = lane_off;
  bilgi_lane = lane_off;
  duyuru_lane = lane_off;
  reply_to = none;
  list_unsubscribe = false;
  purpose = true;
}

abbrev small : RateBudget
small = record { per_minute = 0; per_day = 10 }

abbrev mailer : Mailer
mailer = record {
  me = 7;
  lanes = purposes_on;
  guard = guard_on;
  budget = small;
  consents = record { promotional = true; list_consent = true };
  preference_on = true;
}

abbrev noon : ℕ
noon = 900000 * hour

-- Core lately allowed a@b.tr in the category.
abbrev told : Caches
told = record {
  consent = new_consent_cache;
  preference = record new_preference_cache {
    verdicts =
        record {
          category = codes "club:duyuru";
          recipient = by_email (codes "a@b.tr");
          result = record {
            matched = true;
            allowed = true;
            reason = [];
            unsubscribe_url = codes "https://c.tr/u";
          };
          at = noon;
        }
        ∷ [];
  };
}

-- A required notification's row waits beside a duyuru row with its link.
abbrev due_row : Row
due_row = record (waiting 1 10) {
  link = some (codes "https://c.tr/u");
  recipient_sub = none;
  preference_checked_at = some 20;
}

abbrev duyuru_send : Task
duyuru_send = record send_9 {
  purpose = some duyuru_purpose;
  category = some (codes "club:duyuru");
  commercial_content_absent = some true;
  own_event_statement = some true;
  mail_list_id = some 3;
}

abbrev full : Store
full = record (store_of (due_row ∷ waiting 2 20 ∷ [])) { tasks = duyuru_send ∷ [] }

full-Distinct : Distinct full.rows
full-Distinct = (((λ e. ground arith), tt), (tt, tt))

-- Row 1 is returned; row 2, without a link, is not.
takes_one : length (claim_bulk mailer noon false true none_locked 5 told full).taken ≡ 1
unfolding claim_bulk skymail_backend.Take.budgeted skymail_backend.Take.unbudgeted
    skymail_backend.Take.checked_take skymail_backend.Take.counted skymail_backend.Take.room_of
    skymail_backend.Take.run_checks skymail_backend.Budget.budget_off bulk_room
    skymail_backend.Budget.day_room skymail_backend.Budget.limit_room bulk_share
    skymail_backend.Budget.taken_in skymail_backend.Budget.send_window_counts
    skymail_backend.Budget.window_start skymail_backend.Budget.day_from
    skymail_backend.Budget.minute_room skymail_backend.Budget.window_room
    skymail_backend.Guard.bulk_lane_held skymail_backend.Guard.skip_held_tasks
    skymail_backend.Queue.take_rows skymail_backend.Queue.taken_ids skymail_backend.Queue.sort_rows
    skymail_backend.Queue.insert_row skymail_backend.Queue.execute skymail_backend.Queue.act
    skymail_backend.Queue.applies skymail_backend.Queue.assign
    skymail_backend.Unsubscribed.skip_unsubscribed skymail_backend.Consents.Gate.gate_consents
    skymail_backend.Consents.Gate.consent_case skymail_backend.Consents.Gate.case_in
    skymail_backend.Consents.Gate.case_of skymail_backend.Consents.Gate.consent_rule
    skymail_backend.Consents.decide skymail_backend.Consents.decide_rows
    skymail_backend.Consents.promotional_decision skymail_backend.Consents.announcement_decision
    skymail_backend.Consents.note_needs skymail_backend.Preferences.Gate.gate_preferences
    skymail_backend.Preferences.Gate.gate_case skymail_backend.Preferences.Gate.missing_rows
    skymail_backend.Preferences.Gate.checked_rows skymail_backend.Preferences.Gate.by_instant
    skymail_backend.Preferences.Gate.add_allowed skymail_backend.Preferences.Gate.preference_rule
    skymail_backend.Preferences.decision skymail_backend.Preferences.find_verdict
    skymail_backend.Preferences.recipient_key skymail_backend.Taken.write_held
    skymail_backend.Taken.by_reason skymail_backend.Taken.add_reason
    skymail_backend.Waiting.waiting_statements skymail_backend.Waiting.by_delay
    skymail_backend.Waiting.add_delayed skymail_backend.Lanes.lane_of
    skymail_backend.Lanes.purpose_of skymail_backend.Lanes.account_mail
    skymail_backend.Core.normalize_address skymail_backend.Prelude.btrim
    skymail_backend.Prelude.to_lower skymail_backend.Prelude.lower
    skymail_backend.Prelude.trim_space skymail_backend.Prelude.trim_left
    skymail_backend.Prelude.ltrim skymail_backend.Prelude.is_space
    skymail_backend.Preferences.decide skymail_backend.Preferences.note_needs
    skymail_backend.Preferences.Gate.case_of
takes_one = refl

claim_bulk-MaySend_example :
    All
      (MaySend mailer noon told full)
      (claim_bulk mailer noon false true none_locked 5 told full).taken
claim_bulk-MaySend_example =
    claim_bulk-MaySend mailer noon false true none_locked 5 told full full-Distinct

claim_bulk-Accounted_example :
    let t = claim_bulk mailer noon false true none_locked 5 told full in
    All (Accounted 7 full t.taken) t.store.rows
claim_bulk-Accounted_example =
    claim_bulk-Accounted mailer noon false true none_locked 5 told full full-Distinct

claim_bulk-windows_example :
    let t = claim_bulk mailer noon false true none_locked 5 told full in
    (length t.taken ≤ 5)
    × (length t.taken ≤ bulk_room small noon (window_counts noon full))
    × (t.store.windows ≡ with_bulk noon (length t.taken) full.windows)
unfolding skymail_backend.Budget.budget_off
claim_bulk-windows_example =
    claim_bulk-windows mailer noon false true none_locked 5 told full refl full-Distinct

-- Two processes take, and one counts system rows between them.
abbrev turns : List Move
turns =
    takes_bulk (record mailer { me = 8 }) (noon + hour) false true none_locked 5 told
    ∷ counts_system mailer noon false 2
    ∷ takes_bulk mailer noon false true none_locked 5 told
    ∷ []

perform_moves-day_example : taken_since small (noon + hour - day_span) turns full ≤ bulk_share 10
perform_moves-day_example =
    perform_moves-day small turns full (noon + hour) (omega arith) full-Distinct
      ((ground arith, (ground arith, tt)), ((ground arith, tt), (tt, tt)))
      (ground arith, (ground arith, (ground arith, tt)))

-- Core's answers about two recipients.
abbrev answer : Text → List Recipient → Reply
answer _ _ = answered (
    some (
      record { matched = false; allowed = false; reason = none; unsubscribe_url = [] }
      ∷ record {
        matched = true;
        allowed = false;
        reason = some reason_opted_out;
        unsubscribe_url = [];
      }
      ∷ []))

abbrev both : List Recipient
both = by_email (codes "a@b.tr") ∷ by_email (codes "c@d.tr") ∷ []

resolve-Decides_example : Decides 2 (resolve answer (codes "club:duyuru") both)
resolve-Decides_example = resolve-Decides answer (codes "club:duyuru") both
