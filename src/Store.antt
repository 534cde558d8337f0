-- ===== src/Store.antt =====
-- The tables that the mailer writes: mail_queue, mail_tasks, mail_bulk_holds, mail_send_windows,
-- mail_suppressions and mail_bounces, with the addresses of mail_unsubscribes that left the duyuru
-- stream, the ids of mailing_lists, and the notifications whose type is required. Newer bounces stand
-- first.
use skymail_backend.Prelude.{
  ℕ, ◌+◌, Bool, false, ◌&&◌, ◌||◌, Option, none, some, List, [], ◌∷◌, Text, codes, max, leb,
  text_eq, to_lower, trim_space, btrim, ◌==◌, if◌then◌else◌,
}
use skymail_backend.Budget.{SendWindow}
use skymail_backend.Queue.{Row, Task}
use skymail_backend.Smtp.{SmtpReply}

-- The row of mail_bulk_holds.
pub record Hold : Type 0 where
  pub held_until : ℕ
  pub reason : Text

-- A row of mail_suppressions that a relay's refusal wrote; its reason is the reply.
pub record Suppression : Type 0 where
  pub address : Text
  pub recipient_sub : Option ℕ
  pub reply : SmtpReply
  pub count : ℕ
  pub first_seen : ℕ
  pub last_seen : ℕ
  pub last_queue_id : ℕ

-- A row of mail_bounces that a relay's refusal wrote.
pub record Bounce : Type 0 where
  pub queue_id : ℕ
  pub status : Option Text
  pub smtp_code : ℕ

pub record Store : Type 0 where
  pub rows : List Row
  pub tasks : List Task
  pub hold : Option Hold
  pub windows : List SendWindow
  pub suppressions : List Suppression
  pub bounces : List Bounce
  pub unsubscribes : List Text
  pub mailing_lists : List ℕ
  pub required_notifications : List ℕ

abbrev held : ℕ → Text → Option Hold → Hold
held until reason none = record { held_until = until; reason = reason }
held until reason (some h) = record {
  held_until = max h.held_until until;
  reason = if leb h.held_until until then reason else h.reason;
}

-- HoldBulkLane
unfoldable pub hold_until : ℕ → Text → Store → Store
hold_until until reason st = record st { hold = some (held until reason st.hold) }

-- suppressionAddress
unfoldable pub suppression_address : Text → Text
suppression_address address = to_lower (trim_space address)

-- The address of a queue row that may be suppressed: btrim(recipient_email) LIKE '_%@_%'.
abbrev has_mailbox : ℕ → Text → Bool
has_mailbox seen [] = false
has_mailbox seen (c ∷ []) = false
has_mailbox seen (c ∷ d ∷ s) = (leb 1 seen && c == b'@') || has_mailbox (seen + 1) (d ∷ s)

abbrev or_sub : Option ℕ → Option ℕ → Option ℕ
or_sub none old = old
or_sub (some a) old = some a

upsert_suppression : Text → Option ℕ → SmtpReply → ℕ → ℕ → List Suppression → List Suppression
upsert_suppression address sub reply now id [] =
    record {
      address = address;
      recipient_sub = sub;
      reply = reply;
      count = 1;
      first_seen = now;
      last_seen = now;
      last_queue_id = id;
    }
    ∷ []
upsert_suppression address sub reply now id (s ∷ ss) =
    if text_eq s.address address
    then record s {
      recipient_sub = or_sub sub s.recipient_sub;
      reply = reply;
      count = s.count + 1;
      last_seen = now;
      last_queue_id = id;
    }
      ∷ ss
    else s ∷ upsert_suppression address sub reply now id ss

suppress_rows : ℕ → SmtpReply → ℕ → List Row → List Suppression → List Suppression
unfolding upsert_suppression
suppress_rows id reply now [] ss = ss
suppress_rows id reply now (r ∷ rs) ss = suppress_rows id reply now rs (
    if r.id == id && text_eq r.channel (codes "email") && has_mailbox 0 (btrim r.recipient_email)
    then upsert_suppression (to_lower (btrim r.recipient_email)) r.recipient_sub reply now id ss
    else ss)

-- SuppressQueueRowAddress
unfoldable pub suppress_queue_row_address : ℕ → SmtpReply → ℕ → Store → Store
unfolding suppress_rows
suppress_queue_row_address id reply now st = record st {
  suppressions = suppress_rows id reply now st.rows st.suppressions;
}

abbrev enhanced_or_none : Text → Option Text
enhanced_or_none [] = none
enhanced_or_none (c ∷ s) = some (c ∷ s)

-- InsertSMTPRefusalBounce
unfoldable pub insert_smtp_refusal_bounce : ℕ → SmtpReply → Store → Store
insert_smtp_refusal_bounce id reply st = record st {
  bounces =
      record { queue_id = id; status = enhanced_or_none reply.enhanced; smtp_code = reply.code }
      ∷ st.bounces;
}
