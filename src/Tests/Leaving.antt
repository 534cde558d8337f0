-- ===== src/Tests/Leaving.antt =====
-- A taken row whose address left the duyuru stream, and one that waits for an answer of core.
use skymail_backend.Prelude.{
  ◌*◌, ◌≡◌, refl, inl, true, false, List, [], ◌∷◌, none, map, All, codes, arith,
}
use skymail_backend.Lanes.{SendLanes, lane_off}
use skymail_backend.Env.{minute, hour}
use skymail_backend.Waiting.{WaitingRule, GatedRow, defer_waiting}
use skymail_backend.Waiting.Left.{OneByOne, SettledRow, defer_waiting-SettledRow}
use skymail_backend.Queue.{ids_of}
use skymail_backend.Queue.Claims.{Distinct}
use skymail_backend.Store.{Store}
use skymail_backend.Unsubscribed.{left_stream, skips, skip_unsubscribed}
use skymail_backend.Unsubscribed.Skipped.{skipped, skip_unsubscribed-left_stream}
use skymail_backend.Tests.{waiting, taken_row, store_of}

abbrev lanes_off : SendLanes
lanes_off = record {
  hesap_lane = lane_off;
  bilgi_lane = lane_off;
  duyuru_lane = lane_off;
  reply_to = none;
  list_unsubscribe = false;
  purpose = false;
}

abbrev left : Store
left = record (store_of (taken_row ∷ waiting 2 20 ∷ [])) { unsubscribes = codes "a@b.tr" ∷ [] }

left-Distinct : Distinct left.rows
left-Distinct = (((λ e. ground arith), tt), (tt, tt))

skip_unsubscribed-left_stream_example :
    let (after, kept) = skip_unsubscribed lanes_off 7 5000 (taken_row ∷ []) left in
    All (λ r. left_stream lanes_off left.tasks left.unsubscribes r ≡ false) kept
    × (after.rows
        ≡ map
            (skipped (skips lanes_off left.tasks left.unsubscribes (ids_of (taken_row ∷ [])) 7))
            left.rows)
skip_unsubscribed-left_stream_example =
    skip_unsubscribed-left_stream lanes_off 7 5000 (taken_row ∷ []) left left-Distinct
      ((inl refl, refl, refl), tt)

-- A taken row that was queued three minutes ago, while core does not answer.
abbrev rule : WaitingRule
rule = record {
  now = 3 * minute;
  breaker_open = true;
  fetch_delay = minute;
  undecided_after = hour;
  undecided_error = codes "undecided";
}

abbrev asked : List GatedRow
asked = record { id = 1; queued = 0 } ∷ []

defer_waiting-SettledRow_example :
    OneByOne (SettledRow 7 rule asked) left.rows (defer_waiting 7 5000 rule asked left).rows
defer_waiting-SettledRow_example = defer_waiting-SettledRow 7 5000 rule asked left
