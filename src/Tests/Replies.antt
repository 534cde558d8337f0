-- ===== src/Tests/Replies.antt =====
-- Graph's replies.
use skymail_backend.Prelude.{
  ℕ, min, max, ◌*◌, ◌≡◌, ◌≢◌, refl, inl, true, Option, none, some, [], Text, codes, ℤ, pos, arith,
  atoi, trim_space,
}
use skymail_backend.Env.{second, hour}
use skymail_backend.Guard.{throttled, at_least_retry_after}
use skymail_backend.Graph.{
  retry_after, graph_failure, graph_failure_classes, graph_failure-at_least_retry_after,
}

abbrev no_date : Text → Option ℤ
no_date _ = none

abbrev one_letter : ℕ → Text
one_letter _ = codes "n"

thirty : atoi (trim_space (codes " 30")) ≡ some (pos 30)
unfolding atoi trim_space
thirty = refl

thirty-some : trim_space (codes " 30") ≢ []
unfolding trim_space
thirty-some e = cc

-- 18446744074 seconds wrap to less than a third of one.
wrapped_wait : retry_after no_date (codes "18446744074") 0 ≡ 290448384
unfolding retry_after atoi trim_space
wrapped_wait = refl

graph_failure_classes_example :
    throttled (
      graph_failure one_letter one_letter no_date 429 (codes "ApplicationThrottled") (codes "30") 0)
    ≡ true
graph_failure_classes_example =
    (graph_failure_classes one_letter one_letter no_date 429 (codes "ApplicationThrottled")
        (codes "30") 0).1.1
      (inl refl)

graph_failure-at_least_retry_after_example :
    at_least_retry_after 5 (
      graph_failure one_letter one_letter no_date 429
        (codes "ApplicationThrottled")
        (codes " 30")
        0)
    ≡ max 5 (min (30 * second) hour)
graph_failure-at_least_retry_after_example =
    graph_failure-at_least_retry_after one_letter one_letter no_date 429
      (codes "ApplicationThrottled") (codes " 30") 0 5 30 thirty-some thirty (omega arith)
