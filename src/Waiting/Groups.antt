-- ===== src/Waiting/Groups.antt =====
-- How long a row waits, and which rows the statements of deferWaiting name.
use skymail_backend.Prelude.{
  ℕ, ◌*◌, ◌≤◌, ◌≡◌, refl, ap, ◌∙◌, ◌||◌, List, [], ◌∷◌, Text, All, arith, mem, select, ◌==◌,
}
use skymail_backend.Env.{minute}
use skymail_backend.Taken.Steps.{Yields, names, names-append, Yields-append}
use skymail_backend.Waiting.{
  GatedRow, WaitingRule, Delayed, consent_backoff, is_undecided, delay_of, add_delayed, by_delay,
  gated_ids, defer_all, skip_undecided, waiting_statements,
}

-- While core does not answer, a row waits at least a minute and at most a quarter of an hour, and an older
-- one no less than a younger one.
pub consent_backoff_bounds :
    (a b : ℕ)
    → a ≤ b
    → (minute ≤ consent_backoff a)
      × (consent_backoff a ≤ consent_backoff b)
      × (consent_backoff b ≤ 15 * minute)
unfolding consent_backoff
consent_backoff_bounds a b h = (ground arith, ground arith, ground arith)

names-add_delayed :
    (me i delay id : ℕ) (gs : List Delayed)
    → names (defer_all me (add_delayed delay id gs)) i ≡ (i == id || names (defer_all me gs) i)
unfolding add_delayed
names-add_delayed me i delay id [] = ground arith
names-add_delayed me i delay id (g ∷ gs) = ground (arith, names-add_delayed me i delay id gs)

names-skip_undecided :
    (me i : ℕ) (error : Text) (ids : List ℕ) → names (skip_undecided me error ids) i ≡ mem i ids
names-skip_undecided me i error [] = refl
names-skip_undecided me i error (id ∷ ids) = ground arith

names-by_delay :
    (me i : ℕ) (rule : WaitingRule) (rows : List GatedRow)
    → (names (defer_all me (by_delay rule rows)) i
        || mem i (gated_ids (select (is_undecided rule) rows)))
      ≡ mem i (gated_ids rows)
unfolding by_delay
names-by_delay me i rule [] = refl
names-by_delay me i rule (row ∷ rows) = ground (
  arith,
  names-by_delay me i rule rows,
  names-add_delayed me i (delay_of rule row) row.id (by_delay rule rows),
)

-- The statements of deferWaiting name the rows that wait.
pub names-waiting_statements :
    (me i : ℕ) (rule : WaitingRule) (rows : List GatedRow)
    → names (waiting_statements me rule rows) i ≡ mem i (gated_ids rows)
unfolding waiting_statements
names-waiting_statements me i rule rows =
    let undecided = gated_ids (select (is_undecided rule) rows) in
    let ds = defer_all me (by_delay rule rows) in
    names-append i ds (skip_undecided me rule.undecided_error undecided)
    ∙ ap (λ b. names ds i || b) (names-skip_undecided me i rule.undecided_error undecided)
    ∙ names-by_delay me i rule rows

defer_all-Yields : (me : ℕ) (gs : List Delayed) → All (Yields me) (defer_all me gs)
defer_all-Yields me [] = tt
defer_all-Yields me (g ∷ gs) = (refl, defer_all-Yields me gs)

skip_undecided-Yields :
    (me : ℕ) (error : Text) (ids : List ℕ) → All (Yields me) (skip_undecided me error ids)
skip_undecided-Yields me error [] = tt
skip_undecided-Yields me error (id ∷ ids) = (refl, tt)

pub waiting_statements-Yields :
    (me : ℕ) (rule : WaitingRule) (rows : List GatedRow)
    → All (Yields me) (waiting_statements me rule rows)
unfolding waiting_statements
waiting_statements-Yields me rule rows =
    let undecided = gated_ids (select (is_undecided rule) rows) in
    Yields-append me (defer_all me (by_delay rule rows))
      (skip_undecided me rule.undecided_error undecided) (defer_all-Yields me (by_delay rule rows))
      (skip_undecided-Yields me rule.undecided_error undecided)
