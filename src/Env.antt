-- ===== src/Env.antt =====
-- The startup settings: internal/mailer/lanes.go, list_unsubscribe.go, sender.go, budget.go, lease.go,
-- bulk_guard.go and preference_gate.go read the environment, and stop startup at a value that they do
-- not know. `getenv` is the environment. net/mail's ParseAddress and time's ParseDuration (in
-- nanoseconds) are parameters; an error is the name of the variable that it is about.
use skymail_backend.Prelude.{
  ℕ, ◌+◌, ◌*◌, ◌≤◌, ◌<◌, ◌≡◌, Bool, true, false, ◌&&◌, ◌||◌, Option, none, some, List, [], ◌∷◌,
  ◌++◌, Text, codes, text_eq, trim_space, to_lower, atoi, ℤ, pos, negsuc, leb, ltb, not,
  if◌then◌else◌, ◌==◌,
}
use skymail_backend.Lanes.{
  Lane, hesap, bilgi, duyuru, Transport, off, graph, xoauth2, LaneConfig, lane_off, SendLanes,
  MailAddress, any_on,
}
pub mod Bounds

pub data Setting {ℓ} (A : Type ℓ) : Type ℓ where
  stops_at : Text → Setting A
  reads : A → Setting A

module _ {ℓ κ} {A : Type ℓ} {B : Type κ} where
  infixl 5 ◌>>=◌
  abbrev pub ◌>>=◌ : Setting A → (A → Setting B) → Setting B
  stops_at variable >>= next = stops_at variable
  reads value >>= next = next value

-- listUnsubscribeFromEnv, purposeFromEnv and PreferenceGateFromEnv's switch: off, also when unset, or
-- on.
unfoldable pub switch_from_env : (Text → Text) → Text → Setting Bool
switch_from_env getenv name =
    let raw = to_lower (trim_space (getenv name)) in
    if text_eq raw [] || text_eq raw (codes "off")
    then reads false
    else if text_eq raw (codes "on")
    then reads true
    else stops_at name

pub data Sender : Type 0 where
  sender_on sender_paused : Sender

abbrev mail_sender_env : Text
mail_sender_env = codes "MAIL_SENDER"

-- SenderFromEnv
unfoldable pub sender_from_env : (Text → Text) → Setting Sender
sender_from_env getenv =
    let raw = trim_space (getenv mail_sender_env) in
    if text_eq raw [] || text_eq raw (codes "on")
    then reads sender_on
    else if text_eq raw (codes "paused")
    then reads sender_paused
    else stops_at mail_sender_env

abbrev whole : Text → Option ℤ → Setting ℕ
whole name (some (pos n)) = reads n
whole name (some (negsuc n)) = stops_at name
whole name none = stops_at name

-- limitFromEnv
unfoldable pub limit_from_env : (Text → Text) → Text → ℕ → Setting ℕ
limit_from_env getenv name unset =
    let raw = trim_space (getenv name) in
    if text_eq raw [] then reads unset else whole name (atoi raw)

pub record RateBudget : Type 0 where
  pub per_minute : ℕ
  pub per_day : ℕ

abbrev rate_per_minute_env : Text
rate_per_minute_env = codes "SKYMAIL_RATE_PER_MINUTE"

abbrev daily_recipient_budget_env : Text
daily_recipient_budget_env = codes "SKYMAIL_DAILY_RECIPIENT_BUDGET"

-- RateBudgetFromEnv
unfoldable pub rate_budget_from_env : (Text → Text) → Setting RateBudget
rate_budget_from_env getenv = limit_from_env getenv rate_per_minute_env 25 >>= λ per_minute.
    limit_from_env getenv daily_recipient_budget_env 9000 >>= λ per_day.
    reads (record { per_minute = per_minute; per_day = per_day })

-- Durations are nanoseconds, as Go's are.
abbrev pub second : ℕ
second = 1000000000

abbrev pub millisecond : ℕ
millisecond = 1000000

abbrev pub minute : ℕ
minute = 60 * second

abbrev pub hour : ℕ
hour = 60 * minute

pub record BulkGuard : Type 0 where
  pub throttle_pause : ℕ
  pub failure_count : ℕ
  pub failure_percent : ℕ

abbrev throttle_pause_env : Text
throttle_pause_env = codes "SKYMAIL_THROTTLE_PAUSE"

abbrev failure_pause_count_env : Text
failure_pause_count_env = codes "SKYMAIL_FAILURE_PAUSE_COUNT"

abbrev failure_pause_percent_env : Text
failure_pause_percent_env = codes "SKYMAIL_FAILURE_PAUSE_PERCENT"

abbrev queue_lease_env : Text
queue_lease_env = codes "MAIL_QUEUE_LEASE"

abbrev pub default_queue_lease : ℕ
default_queue_lease = 10 * minute

abbrev pub min_queue_lease : ℕ
min_queue_lease = 5 * minute

abbrev pub max_queue_lease : ℕ
max_queue_lease = 24 * hour

abbrev between : Text → ℕ → ℕ → Option ℤ → Setting ℕ
between name lo hi (some (pos n)) = if leb lo n && leb n hi then reads n else stops_at name
between name lo hi (some (negsuc n)) = stops_at name
between name lo hi none = stops_at name

module _ (parse_duration : Text → Option ℤ) where
  pause_from_env : (Text → Text) → Setting ℕ
  pause_from_env getenv =
      let raw = trim_space (getenv throttle_pause_env) in
      if text_eq raw []
      then reads (5 * minute)
      else if text_eq raw (codes "0")
      then reads 0
      else between throttle_pause_env 0 hour (parse_duration raw)

  percent_from_env : (Text → Text) → Setting ℕ
  percent_from_env getenv =
      let raw = trim_space (getenv failure_pause_percent_env) in
      if text_eq raw [] then reads 10 else between failure_pause_percent_env 1 100 (atoi raw)

  -- BulkGuardFromEnv
  unfoldable pub bulk_guard_from_env : (Text → Text) → Setting BulkGuard
  unfolding pause_from_env percent_from_env
  bulk_guard_from_env getenv = pause_from_env getenv >>= λ pause.
      limit_from_env getenv failure_pause_count_env 10 >>= λ count.
      percent_from_env getenv >>= λ percent.
      reads (record { throttle_pause = pause; failure_count = count; failure_percent = percent })

  -- QueueLeaseFromEnv
  unfoldable pub queue_lease_from_env : (Text → Text) → Setting ℕ
  queue_lease_from_env getenv =
      let raw = trim_space (getenv queue_lease_env) in
      if text_eq raw []
      then reads default_queue_lease
      else between queue_lease_env min_queue_lease max_queue_lease (parse_duration raw)

abbrev lane_upper : Lane → Text
lane_upper hesap = codes "HESAP"
lane_upper bilgi = codes "BILGI"
lane_upper duyuru = codes "DUYURU"

abbrev pub send_env : Lane → Text
send_env lane = codes "SKYMAIL_SEND_" ++ lane_upper lane

abbrev pub from_env : Lane → Text
from_env lane = codes "SKYMAIL_FROM_" ++ lane_upper lane

abbrev pub list_unsubscribe_env : Text
list_unsubscribe_env = codes "SKYMAIL_LIST_UNSUBSCRIBE"

abbrev pub purpose_env : Text
purpose_env = codes "SKYMAIL_MAIL_PURPOSE"

abbrev pub reply_to_env : Text
reply_to_env = codes "SMTP_REPLY_TO"

-- The transport that a switch names.
unfoldable pub transport_of : Text → Option Transport
transport_of raw =
    if text_eq raw [] || text_eq raw (codes "off")
    then some off
    else if text_eq raw (codes "graph")
    then some graph
    else if text_eq raw (codes "xoauth2")
    then some xoauth2
    else none

-- The end of SendLanesFromEnv: lanes that are on need the application's credentials.
with_credentials : Bool → SendLanes → Setting SendLanes
with_credentials credentials lanes =
    if any_on lanes && not credentials then stops_at (codes "GRAPH") else reads lanes

module _ (parse_address : Text → Option MailAddress) where
  abbrev pub with_from : Lane → Transport → Option MailAddress → Setting LaneConfig
  with_from lane t none = stops_at (from_env lane)
  with_from lane t (some a) = reads (record { transport = t; from = some a })

  named_lane : (Text → Text) → Lane → Transport → Setting LaneConfig
  named_lane getenv lane t =
      let from = trim_space (getenv (from_env lane)) in
      if text_eq from [] then stops_at (send_env lane) else with_from lane t (parse_address from)

  abbrev on_transport : (Text → Text) → Lane → Option Transport → Setting LaneConfig
  on_transport getenv lane none = stops_at (send_env lane)
  on_transport getenv lane (some off) = reads lane_off
  on_transport getenv lane (some graph) = named_lane getenv lane graph
  on_transport getenv lane (some xoauth2) = named_lane getenv lane xoauth2

  -- One turn of SendLanesFromEnv's loop over the lanes.
  unfoldable pub lane_from_env : (Text → Text) → Lane → Setting LaneConfig
  unfolding named_lane
  lane_from_env getenv lane =
      on_transport getenv lane (transport_of (to_lower (trim_space (getenv (send_env lane)))))

  abbrev parsed_reply_to : Option MailAddress → Setting (Option MailAddress)
  parsed_reply_to none = stops_at reply_to_env
  parsed_reply_to (some a) = reads (some a)

  reply_to_from_env : (Text → Text) → Setting (Option MailAddress)
  reply_to_from_env getenv =
      let raw = trim_space (getenv reply_to_env) in
      if text_eq raw [] then reads none else parsed_reply_to (parse_address raw)

  -- SendLanesFromEnv. `credentials` says that the application's credentials could be read; they are
  -- read only when a lane is on.
  unfoldable pub send_lanes_from_env : (Text → Text) → Bool → Setting SendLanes
  unfolding reply_to_from_env with_credentials
  send_lanes_from_env getenv credentials =
      switch_from_env getenv list_unsubscribe_env >>= λ list_unsubscribe.
      switch_from_env getenv purpose_env >>= λ purpose. lane_from_env getenv hesap >>= λ h.
      lane_from_env getenv bilgi >>= λ b. lane_from_env getenv duyuru >>= λ d.
      reply_to_from_env getenv >>= λ reply_to. with_credentials credentials (record {
        hesap_lane = h;
        bilgi_lane = b;
        duyuru_lane = d;
        reply_to = reply_to;
        list_unsubscribe = list_unsubscribe;
        purpose = purpose;
      })
