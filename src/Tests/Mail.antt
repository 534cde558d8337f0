-- ===== src/Tests/Mail.antt =====
-- Replies, addresses, lanes and environments.
use skymail_backend.Prelude.{
  ◌*◌, trim_suffix_char, to_lower, trim_space, ◌≡◌, refl, inl, inr, true, false, Option, none, some,
  [], ◌++◌, Text, codes, after_last, text_eq, if◌then◌else◌, ℤ, pos,
}
use skymail_backend.Dsn.{
  Recipient, classify, classify_hard_iff, hard, exchange_recipient_unknown_as,
}
use skymail_backend.Smtp.{
  rcpt_to, permanent, MailSendError, smtp_failure, unanswered, other_reason, reserved_domain,
  reserved_domains, recipients_marker, message_marker, smtp_rcpt_to,
}
use skymail_backend.Smtp.Refusals.{by_code, permanent_iff, smtp_failure_text, contains}
use skymail_backend.Smtp.Domains.{Under, host_name, reserved_domain_iff}
use skymail_backend.Lanes.{account_mail, SendLanes, lane_off, any_on, MailAddress, graph}
use skymail_backend.Env.{
  reads, queue_lease_from_env, bulk_guard_from_env, minute, limit_from_env, switch_from_env,
  lane_from_env, transport_of, send_lanes_from_env, BulkGuard,
}
use skymail_backend.Env.Bounds.{HasFrom, send_lanes-HasFrom}

permanent_iff_example : permanent (record { stage = rcpt_to; code = 550; enhanced = [] }) ≡ true
permanent_iff_example =
    (permanent_iff (record { stage = rcpt_to; code = 550; enhanced = [] })).1
      (by_code refl refl (inl refl))

abbrev unknown_user : Recipient
unknown_user = record {
  action = codes "failed";
  status = codes "5.4.1";
  as_code = exchange_recipient_unknown_as;
}

classify_hard_iff_example : classify unknown_user ≡ hard
classify_hard_iff_example = (classify_hard_iff unknown_user).1 (refl, inr (refl, refl))

-- A reply at DATA that names nobody: 554 5.7.1.
abbrev rejected : MailSendError
rejected = record {
  reason = smtp_rcpt_to;
  code = 554;
  enhanced = codes "5.7.1";
  text = codes "554 5.7.1 spam";
}

-- go-mail's error of a dial that failed, with the recipients that it appends.
abbrev dial_error : MailSendError
dial_error = record {
  reason = other_reason;
  code = 0;
  enhanced = [];
  text = codes "dial failed" ++ (recipients_marker ++ codes "a@b.tr");
}

dial_error-text : smtp_failure (some dial_error) [] ≡ unanswered (codes "send failed: dial failed")
unfolding smtp_failure
dial_error-text = refl

smtp_failure_text_example :
    (t : Text) × (codes "send failed: dial failed" ≡ codes "send failed: " ++ t)
    × (contains t recipients_marker ≡ false)
    × (contains t message_marker ≡ false)
smtp_failure_text_example =
    smtp_failure_text dial_error [] (codes "send failed: dial failed") dial_error-text

test_host : reserved_domain (codes "a@Mail.Test.") ≡ true
unfolding reserved_domain after_last trim_suffix_char to_lower trim_space
test_host = refl

reserved_domain_iff_example : Under (host_name (codes "Mail.Test.")) reserved_domains
unfolding after_last
reserved_domain_iff_example =
    (reserved_domain_iff (codes "a") (codes "Mail.Test.") refl).0 test_host

account_key : account_mail (some (codes "account.reset_password")) true ≡ true
unfolding account_mail
account_key = refl

abbrev lanes_off : SendLanes
lanes_off = record {
  hesap_lane = lane_off;
  bilgi_lane = lane_off;
  duyuru_lane = lane_off;
  reply_to = none;
  list_unsubscribe = false;
  purpose = false;
}

-- Every variable is "9m", which parses as nine minutes.
abbrev nine_minutes : Text → Option ℤ
nine_minutes s = if text_eq s (codes "9m") then some (pos (9 * minute)) else none

abbrev nine_everywhere : Text → Text
nine_everywhere _ = codes "9m"

nine_lease : queue_lease_from_env nine_minutes nine_everywhere ≡ reads (9 * minute)
unfolding queue_lease_from_env trim_space
nine_lease = refl

abbrev unset : Text → Text
unset _ = []

abbrev default_guard : BulkGuard
default_guard = record { throttle_pause = 5 * minute; failure_count = 10; failure_percent = 10 }

unset_guard : bulk_guard_from_env nine_minutes unset ≡ reads default_guard
unfolding bulk_guard_from_env limit_from_env trim_space
unset_guard = refl

abbrev no_address : Text → Option MailAddress
no_address _ = none

abbrev hesap_address : MailAddress
hesap_address = record { name = []; address = codes "hesap@b.tr" }

abbrev parses_all : Text → Option MailAddress
parses_all _ = some hesap_address

-- Only the hesap lane is on, by Graph.
abbrev hesap_on : Text → Text
hesap_on name =
    if text_eq name (codes "SKYMAIL_SEND_HESAP")
    then codes "graph"
    else if text_eq name (codes "SKYMAIL_FROM_HESAP")
    then codes "hesap@b.tr"
    else []

abbrev hesap_lanes : SendLanes
hesap_lanes = record lanes_off {
  hesap_lane = record { transport = graph; from = some hesap_address };
}

hesap-reads : send_lanes_from_env parses_all hesap_on true ≡ reads hesap_lanes
unfolding send_lanes_from_env switch_from_env lane_from_env transport_of any_on to_lower trim_space
hesap-reads = refl

send_lanes-HasFrom_example :
    HasFrom parses_all hesap_on
      (codes "SKYMAIL_SEND_HESAP")
      (codes "SKYMAIL_FROM_HESAP")
      hesap_lanes.hesap_lane
send_lanes-HasFrom_example = (send_lanes-HasFrom parses_all hesap_on true hesap_lanes hesap-reads).0
