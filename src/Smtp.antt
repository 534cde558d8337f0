-- ===== src/Smtp.antt =====
-- internal/mailer/smtp_refusal.go: what a relay's refusal of a send means, and the recipients that are
-- never sent to. go-mail's error of a send is an input: its reason, its reply code (0 where it has
-- none), its enhanced code and its text.
use skymail_backend.Prelude.{
  ℕ, ◌≤◌, ◌<◌, ◌≡◌, Bool, true, false, ◌&&◌, ◌||◌, Option, none, some, List, [], ◌∷◌, ◌++◌, Text,
  codes, text_eq, has_prefix, has_suffix, trim_space, to_lower, trim_suffix_char, after_last, leb,
  ltb, not, if◌then◌else◌, ◌==◌,
}
use skymail_backend.Dsn.{recipient_address_status}
pub mod Scan
pub mod Refusals
pub mod Domains
unfoldable pub use Scan.{enhanced_code}

pub data Stage : Type 0 where
  mail_from rcpt_to data_stage smtp : Stage

pub record SmtpReply : Type 0 where
  pub stage : Stage
  pub code : ℕ
  pub enhanced : Text

abbrev is_rcpt_to : Stage → Bool
is_rcpt_to rcpt_to = true
is_rcpt_to _ = false

abbrev is_data : Stage → Bool
is_data data_stage = true
is_data _ = false

-- smtpReply.permanent
unfoldable pub permanent : SmtpReply → Bool
permanent r =
    if ltb r.code 500 || leb 600 r.code
    then false
    else if not (is_rcpt_to r.stage) && not (is_data r.stage)
    then false
    else if not (text_eq r.enhanced [])
    then recipient_address_status r.enhanced
    else is_rcpt_to r.stage && (r.code == 550 || r.code == 551 || r.code == 553)

-- The reasons of go-mail's SendError that the code tells apart.
pub data Reason : Type 0 where
  smtp_mail_from smtp_rcpt_to smtp_data smtp_data_close write_content other_reason : Reason

-- smtpStage
unfoldable pub smtp_stage : Reason → Stage
smtp_stage smtp_mail_from = mail_from
smtp_stage smtp_rcpt_to = rcpt_to
smtp_stage smtp_data = data_stage
smtp_stage smtp_data_close = data_stage
smtp_stage write_content = data_stage
smtp_stage other_reason = smtp

pub record MailSendError : Type 0 where
  pub reason : Reason
  pub code : ℕ
  pub enhanced : Text
  pub text : Text

-- strings.Cut: the text before the first `sep`, or all of it.
unfoldable pub before : Text → Text → Text
before sep [] = []
before sep (c ∷ s) = elim (has_prefix (c ∷ s) sep) [ true ↦ [] | false ↦ c ∷ before sep s ]

abbrev pub recipients_marker : Text
recipients_marker = codes ", affected recipient(s): "

abbrev pub message_marker : Text
message_marker = codes ", affected message ID: "

-- go-mail's text without the recipients and the Message-ID that it appends.
cut_text : Text → Text
unfolding before
cut_text text = before message_marker (before recipients_marker text)

-- How a send that the relay did not take fails: for good, to be tried again with the relay's reply, or
-- to be tried again with a text.
pub data Failure : Type 0 where
  for_good : SmtpReply → Failure
  deferred : SmtpReply → Failure
  unanswered : Text → Failure

abbrev pub or_scanned : Text → Text → Text
or_scanned text [] = elim (enhanced_code text) [ some found ↦ found | none ↦ [] ]
or_scanned text (c ∷ s) = c ∷ s

classified : SmtpReply → Failure
classified r = if permanent r then for_good r else deferred r

-- smtpFailure: of go-mail's SendError, or of another error (none) by its text.
unfoldable pub smtp_failure : Option MailSendError → Text → Failure
unfolding classified cut_text
smtp_failure none text = unanswered (codes "send failed: " ++ text)
smtp_failure (some e) text =
    if ltb e.code 400 || leb 600 e.code
    then unanswered (codes "send failed: " ++ cut_text e.text)
    else classified (record {
      stage = smtp_stage e.reason;
      code = e.code;
      enhanced = or_scanned e.text e.enhanced;
    })

abbrev pub reserved_domains : List Text
reserved_domains =
    codes "example.com"
    ∷ codes "example.net"
    ∷ codes "example.org"
    ∷ codes "example"
    ∷ codes "test"
    ∷ codes "invalid"
    ∷ codes "localhost"
    ∷ []

abbrev pub is_or_under : Text → Text → Bool
is_or_under domain reserved = text_eq domain reserved || has_suffix domain (codes "." ++ reserved)

abbrev pub any_domain : Text → List Text → Bool
any_domain domain [] = false
any_domain domain (r ∷ rs) = is_or_under domain r || any_domain domain rs

abbrev reserved_after : Option Text → Bool
reserved_after none = false
reserved_after (some host) =
    any_domain (trim_suffix_char (to_lower (trim_space host)) b'.') reserved_domains

-- reservedDomain
unfoldable pub reserved_domain : Text → Bool
reserved_domain address = reserved_after (after_last b'@' address)
