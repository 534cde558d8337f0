-- ===== src/Tests/Queue.antt =====
-- The queue's histories on concrete rows.
use skymail_backend.Prelude.{◌≡◌, refl, inl, inr, true, false, List, [], ◌∷◌, arith, ◌≤◌, length}
use skymail_backend.Queue.{
  Row, release, reset_dead, set_sent, taken_ids, before, insert_row, sort_rows, take_rows,
}
use skymail_backend.Queue.Claims.{In, Distinct, take_rows_sound}
use skymail_backend.Queue.Order.{taken_ids_order}
use skymail_backend.Queue.Once.{times_sent, times_sent-le}
use skymail_backend.Queue.Lease.{Event, ran, took, run, run-done, run-exclusive}
use skymail_backend.Tests.{waiting, taken_row, sent_row, none_locked}

abbrev table : List Row
table = taken_row ∷ waiting 2 20 ∷ sent_row ∷ []

table-Distinct : Distinct table
table-Distinct =
    (((λ e. ground arith), ((λ e. ground arith), tt)), (((λ e. ground arith), tt), (tt, tt)))

-- Another process's statements on row 1, a reset and a take, within the lease.
abbrev others : List Event
others =
    ran 1500 [] (release 1 8 1000)
    ∷ ran 2000 [] (reset_dead 300)
    ∷ took 2500 false 8 10 none_locked
    ∷ []

run-exclusive_example : In taken_row (run others table)
run-exclusive_example =
    run-exclusive 300 7 1000 others table taken_row table-Distinct (inl refl) refl refl refl (
      (ground arith, tt, λ e. ground arith),
      ((ground arith, ground arith, λ e. ground arith), (tt, tt)),
    )

-- Process 7 records row 1 as sent twice.
abbrev twice : List Event
twice = ran 1500 [] (set_sent 1 7 1000) ∷ ran 1600 [] (set_sent 1 7 1000) ∷ []

times_sent-le_example : times_sent 1 twice table ≤ 1
times_sent-le_example = times_sent-le 1 twice table table-Distinct

run-done_example : In sent_row (run others table)
run-done_example = run-done others table sent_row table-Distinct (inr (inr (inl refl))) (inl refl)

abbrev two : List Row
two = waiting 2 20 ∷ waiting 1 10 ∷ []

two-Distinct : Distinct two
two-Distinct = (((λ e. ground arith), tt), (tt, tt))

taken_two : taken_ids false 1 30 none_locked two ≡ 1 ∷ []
unfolding taken_ids insert_row sort_rows
taken_two = refl

take_rows_sound_example : length (take_rows false 7 1 30 none_locked two).1 ≤ 1
take_rows_sound_example = (take_rows_sound false 7 1 30 none_locked two two-Distinct).0

taken_ids_order_example : before (waiting 1 10) (waiting 2 20) ≡ true
taken_ids_order_example =
    taken_ids_order false 1 30 none_locked two (waiting 1 10) (waiting 2 20) two-Distinct
      (inr (inl refl)) (ground (arith, taken_two)) (inl refl) (ground (arith, taken_two)) refl
