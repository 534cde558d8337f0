-- ===== src/Unsubscribed.antt =====
-- internal/mailer/unsubscribe.go: a take of bulk rows leaves out those whose address left the duyuru
-- stream after they were queued.
use skymail_backend.Prelude.{
  ℕ, Bool, true, false, ◌&&◌, ◌||◌, not, Option, none, some, List, [], ◌∷◌, Text, codes, select,
  mem, holds, text_eq, btrim, to_lower, if◌then◌else◌,
}
use skymail_backend.Lanes.{Lane, duyuru, SendLanes, lane_of, purpose_of}
use skymail_backend.Queue.{Row, Task, find_task, is_processing, taken_by, ids_of, Statement}
use skymail_backend.Store.{Store}
use skymail_backend.Guard.{on_queue}
pub mod Skipped

abbrev pub unsubscribed_error : Text
unsubscribed_error = codes "suppressed: unsubscribed"

abbrev pub mem_text : Text → List Text → Bool
mem_text t [] = false
mem_text t (s ∷ ss) = text_eq t s || mem_text t ss

-- The lane of a row, from its send and its send's template (LEFT JOIN: neither, for a row without one).
abbrev pub lane_of_send : SendLanes → Option Task → ℕ → Lane
lane_of_send lanes none priority = lane_of (purpose_of lanes none) none false priority
lane_of_send lanes (some t) priority =
    lane_of (purpose_of lanes t.purpose) t.template_key t.template_system priority

abbrev pub is_duyuru_lane : Lane → Bool
is_duyuru_lane duyuru = true
is_duyuru_lane _ = false

-- An e-mail row in the duyuru stream whose address left the stream.
abbrev pub left_stream : SendLanes → List Task → List Text → Row → Bool
left_stream lanes ts left r =
    text_eq r.channel (codes "email")
    && mem_text (to_lower (btrim r.recipient_email)) left
    && is_duyuru_lane (lane_of_send lanes (find_task r.task_id ts) r.priority)

-- GetUnsubscribedClaimedRows, and LaneOf's test on what it returns.
abbrev pub skips : SendLanes → List Task → List Text → List ℕ → ℕ → Row → Bool
skips lanes ts left ids by r = taken_by ids by r && left_stream lanes ts left r

-- skipUnsubscribed, of bulk rows that process `me` just took, in the transaction of the take: the
-- tables, and the rows to go on with.
unfoldable pub skip_unsubscribed : SendLanes → ℕ → ℕ → List Row → Store → Store × List Row
skip_unsubscribed lanes me now rows st =
    let skip = ids_of (select (skips lanes st.tasks st.unsubscribes (ids_of rows) me) st.rows) in
    (
      (on_queue false now (Statement.skip_claimed skip me unsubscribed_error) st).0,
      select (λ r. not (mem r.id skip)) rows,
    )
