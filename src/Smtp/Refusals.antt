-- ===== src/Smtp/Refusals.antt =====
-- When a refusal fails a row for good, and what a failure's text says.
use skymail_backend.Prelude.{
  ℕ, ◌≤◌, ◌<◌, ◌≡◌, refl, ◌≢◌, ◌⊎◌, Bool, true, false, Option, none, some, [], ◌∷◌, ◌++◌, Text,
  codes, text_eq, has_prefix, arith, ◌↔◌, ◌||◌,
}
use skymail_backend.Dsn.{recipient_address_status, recipient_address_status_iff, Listed}
use skymail_backend.Smtp.{
  SmtpReply, rcpt_to, data_stage, permanent, MailSendError, Failure, for_good, deferred, unanswered,
  smtp_failure, before, cut_text, Reason, Stage, smtp_mail_from, smtp_rcpt_to, smtp_data,
  smtp_data_close, write_content, other_reason, mail_from, smtp, recipients_marker, message_marker,
}

-- The refusals that are about the recipient's address, written apart from the code: a listed enhanced
-- code to RCPT TO or at DATA, or, without one, 550, 551 or 553 to RCPT TO.
pub data AboutRecipient (r : SmtpReply) : Type 0 where
  by_status :
      500 ≤ r.code
      → r.code < 600
      → (r.stage ≡ rcpt_to) ⊎ (r.stage ≡ data_stage)
      → r.enhanced ≢ []
      → Listed r.enhanced
      → AboutRecipient r
  by_code :
      r.stage ≡ rcpt_to
      → r.enhanced ≡ []
      → (r.code ≡ 550) ⊎ (r.code ≡ 551) ⊎ (r.code ≡ 553)
      → AboutRecipient r

permanent-true : (r : SmtpReply) (s : Text) → r.enhanced ≡ s → permanent r ≡ true → AboutRecipient r
unfolding permanent
permanent-true r [] e h = by_code (ground arith) e (ground arith)
permanent-true r (c ∷ s) e h =
    by_status (ground arith) (ground arith) (ground arith) (ground arith)
      ((recipient_address_status_iff r.enhanced).0 (ground arith))

not-text_eq-nil : (s : Text) → s ≢ [] → text_eq s [] ≡ false
not-text_eq-nil [] h = absurd (h refl)
not-text_eq-nil (c ∷ s) h = refl

AboutRecipient-permanent : (r : SmtpReply) → AboutRecipient r → permanent r ≡ true
unfolding permanent
AboutRecipient-permanent r (by_status low high stage some_code listed) =
    let status : recipient_address_status r.enhanced ≡ true =
      (recipient_address_status_iff r.enhanced).1 listed in
    ground (arith, not-text_eq-nil r.enhanced some_code)
AboutRecipient-permanent r (by_code stage no_code code) = ground arith

-- A refusal is permanent exactly when it is about the recipient's address: a 5xx with a listed
-- enhanced code to RCPT TO or at DATA, or 550, 551 or 553 with no enhanced code to RCPT TO.
pub permanent_iff : (r : SmtpReply) → (permanent r ≡ true) ↔ AboutRecipient r
permanent_iff r = (permanent-true r r.enhanced refl, AboutRecipient-permanent r)

-- The stage of a reply by go-mail's reason for the error.
pub data StageOf : Reason → Stage → Type 0 where
  at_mail_from : StageOf smtp_mail_from mail_from
  at_rcpt_to : StageOf smtp_rcpt_to rcpt_to
  at_data : StageOf smtp_data data_stage
  at_data_close : StageOf smtp_data_close data_stage
  at_content : StageOf write_content data_stage
  elsewhere : StageOf other_reason smtp

-- A reply as the error tells it: its code, its stage, and the enhanced code where the error has one.
abbrev pub IsReplyOf : Option MailSendError → SmtpReply → Type 0
IsReplyOf none r = ⊥
IsReplyOf (some e) r =
    (r.code ≡ e.code)
    × StageOf e.reason r.stage
    × ((e.enhanced ≡ []) ⊎ (r.enhanced ≡ e.enhanced))
    × (400 ≤ e.code)
    × (e.code < 600)

-- An error without a 4xx or 5xx reply.
abbrev pub HasNoReply : Option MailSendError → Type 0
HasNoReply none = Unit
HasNoReply (some e) = (e.code < 400) ⊎ (600 ≤ e.code)

-- What a class of failure says of the error that it is of.
abbrev pub IsClassed : Option MailSendError → Failure → Type 0
IsClassed e (for_good r) = IsReplyOf e r × AboutRecipient r
IsClassed e (deferred r) = IsReplyOf e r × ¬ AboutRecipient r
IsClassed e (unanswered u) = HasNoReply e × (has_prefix u (codes "send failed: ") ≡ true)

-- Whether a text holds a part.
abbrev pub contains : Text → Text → Bool
contains [] sep = has_prefix [] sep
contains (c ∷ s) sep = has_prefix (c ∷ s) sep || contains s sep

has_prefix-before : (sep p s : Text) → has_prefix (before sep s) p ≡ true → has_prefix s p ≡ true
unfolding before
has_prefix-before sep [] s h = refl
has_prefix-before sep (b ∷ p) [] h = h
has_prefix-before sep (b ∷ p) (c ∷ s) h = ground (arith, has_prefix-before sep p s)

contains-before : (c : ℕ) (sep s : Text) → contains (before (c ∷ sep) s) (c ∷ sep) ≡ false
unfolding before
contains-before c sep [] = refl
contains-before c sep (a ∷ s) =
    ground (arith, has_prefix-before (c ∷ sep) sep s, contains-before c sep s)

contains-before_mono :
    (sep : Text) (c : ℕ) (p s : Text)
    → contains s (c ∷ p) ≡ false
    → contains (before sep s) (c ∷ p) ≡ false
unfolding before
contains-before_mono sep c p [] h = refl
contains-before_mono sep c p (a ∷ s) h =
    ground (arith, has_prefix-before sep p s, contains-before_mono sep c p s)

before_clean : (sep s : Text) → sep ≢ [] → contains (before sep s) sep ≡ false
before_clean [] s h = absurd (h refl)
before_clean (c ∷ sep) s h = contains-before c sep s

before_clean_mono :
    (sep p s : Text) → p ≢ [] → contains s p ≡ false → contains (before sep s) p ≡ false
before_clean_mono sep [] s n h = absurd (n refl)
before_clean_mono sep (c ∷ p) s n h = contains-before_mono sep c p s h

cut_text_clean :
    (text : Text)
    → (contains (cut_text text) recipients_marker ≡ false)
      × (contains (cut_text text) message_marker ≡ false)
unfolding cut_text
cut_text_clean text = (
  before_clean_mono message_marker recipients_marker (before recipients_marker text) (λ e. cc)
      (before_clean recipients_marker text (λ e. cc)),
  before_clean message_marker (before recipients_marker text) (λ e. cc),
)

-- Where go-mail's error has no reply code, what is recorded is "send failed: " and a text that holds
-- neither the marker before the recipients nor the marker before the Message-ID.
pub smtp_failure_text :
    (e : MailSendError) (text u : Text)
    → smtp_failure (some e) text ≡ unanswered u
    → (t : Text) × (u ≡ codes "send failed: " ++ t)
      × (contains t recipients_marker ≡ false)
      × (contains t message_marker ≡ false)
unfolding smtp_failure
smtp_failure_text e text u h =
    let (r, m) = cut_text_clean e.text in (cut_text e.text, ground arith, r, m)
