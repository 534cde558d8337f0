-- ===== src/Preferences/Found.antt =====
-- Which rows the lists of gatePreferences name.
use skymail_backend.Prelude.{
  ℕ, ◌≡◌, refl, sym, ap, ◌∙◌, Bool, true, false, ◌&&◌, ◌||◌, not, List, [], ◌∷◌, arith, mem, select,
  ◌==◌,
}
use skymail_backend.Queue.{Row, ids_of}
use skymail_backend.Queue.Claims.{In, Distinct}
use skymail_backend.Unsubscribed.Skipped.{mem-select}
use skymail_backend.Taken.{HeldRow, held_ids}
use skymail_backend.Waiting.{gated_ids}
use skymail_backend.Preferences.{
  PreferenceCache, Decision, hold, wait, go, allow, CheckedRow, PreferenceVerdict, decided,
  decision, decide, recipient_key,
}
use skymail_backend.Preferences.Gate.{
  GateCase, passes, misses, asks, missing_rows, checked_rows, add_missing, add_checked, goes_on,
}

abbrev pub is_missing : GateCase → Bool
is_missing misses = true
is_missing _ = false

abbrev pub is_hold : Decision → Bool
is_hold (hold _) = true
is_hold _ = false

abbrev pub is_wait : Decision → Bool
is_wait wait = true
is_wait _ = false

mem-selected :
    (i : ℕ) (p : Row → Bool) (r : Row) (rs : List Row)
    → mem i (ids_of (select p (r ∷ rs))) ≡ ((i == r.id && p r) || mem i (ids_of (select p rs)))
mem-selected i p r rs = ground arith

held-decided :
    (i : ℕ) (d : Decision) (row : CheckedRow) (v : PreferenceVerdict)
    → mem i (held_ids (decided d row v).held)
      ≡ ((i == row.gated.id && is_hold d) || mem i (held_ids v.held))
held-decided i (hold reason) row v = ground arith
held-decided i wait row v = ground arith
held-decided i go row v = ground arith
held-decided i (allow at) row v = ground arith

waiting-decided :
    (i : ℕ) (d : Decision) (row : CheckedRow) (v : PreferenceVerdict)
    → mem i (gated_ids (decided d row v).waiting)
      ≡ ((i == row.gated.id && is_wait d) || mem i (gated_ids v.waiting))
waiting-decided i (hold reason) row v = ground arith
waiting-decided i wait row v = ground arith
waiting-decided i go row v = ground arith
waiting-decided i (allow at) row v = ground arith

module _ (now : ℕ) (c : PreferenceCache) (g : Row → GateCase) where
  -- A test on what is decided of a row, where core is asked about it.
  abbrev pub decided_as : (Decision → Bool) → GateCase → Row → Bool
  decided_as p (asks category) r =
      p (decision now c category (recipient_key r.recipient_sub r.recipient_email))
  decided_as p _ r = false

  -- The row ends: it is missing its link, is held or waits.
  abbrev pub ends : Row → Bool
  ends r = is_missing (g r) || decided_as is_hold (g r) r || decided_as is_wait (g r) r

  add_missing-mem :
      (i : ℕ) (k : GateCase) (r : Row) (hs : List HeldRow)
      → mem i (held_ids (add_missing k r hs)) ≡ ((i == r.id && is_missing k) || mem i (held_ids hs))
  add_missing-mem i passes r hs = ground arith
  add_missing-mem i misses r hs = ground arith
  add_missing-mem i (asks category) r hs = ground arith

  mem-missing_rows :
      (i : ℕ) (rows : List Row)
      → mem i (held_ids (missing_rows g rows))
        ≡ mem i (ids_of (select (λ r. is_missing (g r)) rows))
  unfolding missing_rows
  mem-missing_rows i [] = refl
  mem-missing_rows i (r ∷ rs) =
      add_missing-mem i (g r) r (missing_rows g rs)
      ∙ ap (λ b. (i == r.id && is_missing (g r)) || b) (mem-missing_rows i rs)
      ∙ sym (mem-selected i (λ r. is_missing (g r)) r rs)

  held-add_checked :
      (i : ℕ) (k : GateCase) (r : Row) (cs : List CheckedRow)
      → mem i (held_ids (decide now c (add_checked k r cs)).held)
        ≡ ((i == r.id && decided_as is_hold k r) || mem i (held_ids (decide now c cs).held))
  unfolding decide
  held-add_checked i passes r cs = ground arith
  held-add_checked i misses r cs = ground arith
  held-add_checked i (asks category) r cs = held-decided i _ _ (decide now c cs)

  waiting-add_checked :
      (i : ℕ) (k : GateCase) (r : Row) (cs : List CheckedRow)
      → mem i (gated_ids (decide now c (add_checked k r cs)).waiting)
        ≡ ((i == r.id && decided_as is_wait k r) || mem i (gated_ids (decide now c cs).waiting))
  unfolding decide
  waiting-add_checked i passes r cs = ground arith
  waiting-add_checked i misses r cs = ground arith
  waiting-add_checked i (asks category) r cs = waiting-decided i _ _ (decide now c cs)

  mem-held :
      (i : ℕ) (rows : List Row)
      → mem i (held_ids (decide now c (checked_rows g rows)).held)
        ≡ mem i (ids_of (select (λ r. decided_as is_hold (g r) r) rows))
  unfolding checked_rows decide
  mem-held i [] = refl
  mem-held i (r ∷ rs) =
      held-add_checked i (g r) r (checked_rows g rs)
      ∙ ap (λ b. (i == r.id && decided_as is_hold (g r) r) || b) (mem-held i rs)
      ∙ sym (mem-selected i (λ r. decided_as is_hold (g r) r) r rs)

  mem-waiting :
      (i : ℕ) (rows : List Row)
      → mem i (gated_ids (decide now c (checked_rows g rows)).waiting)
        ≡ mem i (ids_of (select (λ r. decided_as is_wait (g r) r) rows))
  unfolding checked_rows decide
  mem-waiting i [] = refl
  mem-waiting i (r ∷ rs) =
      waiting-add_checked i (g r) r (checked_rows g rs)
      ∙ ap (λ b. (i == r.id && decided_as is_wait (g r) r) || b) (mem-waiting i rs)
      ∙ sym (mem-selected i (λ r. decided_as is_wait (g r) r) r rs)

  -- A row of the queue goes on exactly when it does not end.
  pub goes_on-ends :
      (r : Row) (rows : List Row)
      → Distinct rows
      → In r rows
      → goes_on (missing_rows g rows) (decide now c (checked_rows g rows)) r ≡ not (ends r)
  goes_on-ends r rows d i = ground (
    arith,
    mem-missing_rows r.id rows ∙ mem-select (λ r. is_missing (g r)) r rows d i,
    mem-held r.id rows ∙ mem-select (λ r. decided_as is_hold (g r) r) r rows d i,
    mem-waiting r.id rows ∙ mem-select (λ r. decided_as is_wait (g r) r) r rows d i,
  )
