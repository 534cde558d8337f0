-- ===== src/Tests/Queueing.antt =====
-- A duyuru send to two recipients, as it is queued.
use skymail_backend.Prelude.{
  ℕ, ◌≡◌, refl, Bool, true, false, Option, none, some, List, [], ◌∷◌, Text, codes, map, All, length,
}
use skymail_backend.Lanes.{duyuru_purpose}
use skymail_backend.Core.{Recipient, by_email, Reply, answered, ResolvedItem, resolved, resolve}
use skymail_backend.Preferences.{new_preference_cache}
use skymail_backend.Preferences.Resolved.{
  PreferenceVerdicts, SendPurpose, gated_purpose, resolve_preferences,
}
use skymail_backend.Preferences.Answered.{Answers, resolve_preferences-Answers}
use skymail_backend.Queue.{Task}
use skymail_backend.Enqueue.{RecipientRow, Queueing, gated, render_and_queue}
use skymail_backend.Enqueue.Linked.{
  info_of, IsAddressed, CanLink, HasLinks, render_and_queue-resolve_preferences,
}
use skymail_backend.Tests.{send_9}
use skymail_backend.Tests.Taking.{purposes_on}

abbrev to_a : RecipientRow
to_a = record {
  email = codes "a@b.tr";
  sub = none;
  unsubscribe_url = [];
  source_ref = none;
  in_body_only = false;
}

abbrev to_c : RecipientRow
to_c = record to_a { email = codes "c@d.tr" }

abbrev recipients : List RecipientRow
recipients = to_a ∷ to_c ∷ []

-- The first has an account and may get the mail; the second has none.
abbrev core : Text → List Recipient → Reply
core _ _ = answered (
    some (
      record {
        matched = true;
        allowed = true;
        reason = none;
        unsubscribe_url = codes "https://c.tr/u";
      }
      ∷ record { matched = false; allowed = false; reason = none; unsubscribe_url = [] }
      ∷ []))

abbrev verdicts : PreferenceVerdicts
verdicts = record {
  category = codes "club:duyuru";
  results =
      (
        by_email (codes "a@b.tr"),
        record {
          matched = true;
          allowed = true;
          reason = [];
          unsubscribe_url = codes "https://c.tr/u";
        },
      )
      ∷ (
        by_email (codes "c@d.tr"),
        record { matched = false; allowed = false; reason = []; unsubscribe_url = [] },
      )
      ∷ [];
  at = 5000;
}

abbrev queueing : Queueing
queueing = record {
  lanes = purposes_on;
  priority = 0;
  refuse_reserved = true;
  preference_on = true;
  verdicts = some verdicts;
  links = record { link_on = true; base_url = codes "https://s.tr"; has_key = true };
  encode = λ address. address;
  suppressions =
      record { address = codes "x@y.tr"; source = codes "smtp"; reason_code = codes "rcpt 550" }
      ∷ [];
  unsubscribes = [];
}

abbrev duyuru_purposes : SendPurpose
duyuru_purposes = record { purpose = some duyuru_purpose; category = none }

abbrev duyuru_task : Task
duyuru_task = record send_9 { purpose = some duyuru_purpose }

abbrev renders : RecipientRow → Option Text
renders _ = none

resolve_preferences-Answers_example :
    Answers
      (some core)
      (codes "club:duyuru")
      (gated_purpose true purposes_on (some duyuru_purpose))
      (map info_of recipients)
      (resolve_preferences true purposes_on
        (some core)
        5000
        duyuru_purposes
        (map info_of recipients)
        new_preference_cache).0
resolve_preferences-Answers_example =
    resolve_preferences-Answers true purposes_on (some core) 5000 duyuru_purposes
      (map info_of recipients) new_preference_cache

asked_about :
    (resolve_preferences true purposes_on
      (some core)
      5000
      duyuru_purposes
      (map info_of recipients)
      new_preference_cache).0
    ≡ resolved (some verdicts)
unfolding resolve_preferences skymail_backend.Lanes.purpose_of skymail_backend.Prelude.trim_space
    resolve skymail_backend.Core.normalize_address skymail_backend.Prelude.to_lower
asked_about = refl

linking : CanLink queueing.links
linking = (refl, refl, refl)

is_gated : gated queueing duyuru_task ≡ true
unfolding gated skymail_backend.Lanes.purpose_of skymail_backend.Lanes.lane_of
    skymail_backend.Lanes.account_mail
is_gated = refl

addressed : All IsAddressed recipients
unfolding skymail_backend.Tokens.valid_address skymail_backend.Prelude.trim_space
    skymail_backend.Prelude.to_lower skymail_backend.Prelude.after_last
addressed = ((refl, refl), ((refl, refl), tt))

render_and_queue-resolve_preferences_example :
    HasLinks (render_and_queue false 5000 1 queueing duyuru_task none renders recipients)
render_and_queue-resolve_preferences_example =
    render_and_queue-resolve_preferences true purposes_on (some core) duyuru_purposes
      new_preference_cache false 5000 1 queueing duyuru_task verdicts none renders recipients
      asked_about is_gated refl linking addressed
