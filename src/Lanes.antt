-- ===== src/Lanes.antt =====
-- internal/mailer/lanes.go and the account-mail rule of internal/mailer/suppression.go: from which
-- sender mailbox a mail goes out, and the environment that says how each lane is sent.
use skymail_backend.Prelude.{
  ℕ, ◌≤◌, ◌≡◌, ◌⊎◌, Bool, true, false, ◌&&◌, ◌||◌, Option, none, some, List, [], ◌∷◌, Text, codes,
  text_eq, has_prefix, trim_space, to_lower, leb, if◌then◌else◌, ◌==◌, not,
}
pub mod Stream

pub data Lane : Type 0 where
  hesap bilgi duyuru : Lane

pub data Transport : Type 0 where
  off graph xoauth2 : Transport

-- mail_tasks.purpose: the two streams that the code names, or a text that it does not know.
pub data Purpose : Type 0 where
  islem duyuru_purpose : Purpose
  other_purpose : Text → Purpose

abbrev pub priority_bulk : ℕ
priority_bulk = 0

abbrev pub priority_system : ℕ
priority_system = 1

unfoldable pub account_mail : Option Text → Bool → Bool
account_mail none system = false
account_mail (some key) system =
    system && (has_prefix key (codes "keycloak.") || has_prefix key (codes "account."))

abbrev pub is_duyuru : Option Purpose → Bool
is_duyuru (some duyuru_purpose) = true
is_duyuru _ = false

abbrev is_islem : Option Purpose → Bool
is_islem (some islem) = true
is_islem _ = false

unfoldable pub lane_of : Option Purpose → Option Text → Bool → ℕ → Lane
lane_of purpose key system priority =
    if account_mail key system
    then hesap
    else if is_duyuru purpose
    then duyuru
    else if is_islem purpose
    then bilgi
    else if leb priority priority_bulk
    then duyuru
    else bilgi

-- An address that net/mail parsed: its display name and its mailbox.
pub record MailAddress : Type 0 where
  pub name : Text
  pub address : Text

pub record LaneConfig : Type 0 where
  pub transport : Transport
  pub from : Option MailAddress

abbrev pub lane_off : LaneConfig
lane_off = record { transport = off; from = none }

-- SendLanes, less the application's credentials, which internal/msauth reads. The map from a lane to
-- its configuration is a field for each lane.
pub record SendLanes : Type 0 where
  pub hesap_lane : LaneConfig
  pub bilgi_lane : LaneConfig
  pub duyuru_lane : LaneConfig
  pub reply_to : Option MailAddress
  pub list_unsubscribe : Bool
  pub purpose : Bool

-- SendLanes.purposeOf
unfoldable pub purpose_of : SendLanes → Option Purpose → Option Purpose
purpose_of l p = if l.purpose then p else none

-- SendLanes.Lane
unfoldable pub lane_config : SendLanes → Lane → LaneConfig
lane_config l hesap = l.hesap_lane
lane_config l bilgi = l.bilgi_lane
lane_config l duyuru = l.duyuru_lane

abbrev pub is_off : Transport → Bool
is_off off = true
is_off _ = false

abbrev transport_eq : Transport → Transport → Bool
transport_eq off off = true
transport_eq graph graph = true
transport_eq xoauth2 xoauth2 = true
transport_eq _ _ = false

unfoldable pub uses : SendLanes → Transport → Bool
unfolding lane_config
uses l t =
    transport_eq (lane_config l hesap).transport t
    || transport_eq (lane_config l bilgi).transport t
    || transport_eq (lane_config l duyuru).transport t

unfoldable pub any_on : SendLanes → Bool
unfolding lane_config
any_on l =
    not (is_off (lane_config l hesap).transport)
    || not (is_off (lane_config l bilgi).transport)
    || not (is_off (lane_config l duyuru).transport)
