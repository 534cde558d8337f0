-- ===== src/Take/Refines.antt =====
-- The daily limit over histories of turns of many processes.
use skymail_backend.Prelude.{
  ℕ, ◌+◌, ◌-◌, ◌≡◌, refl, sym, ap, ◌∙◌, ◌≤◌, ◌<◌, inl, inr, subst, Bool, true, false, List, [], ◌∷◌,
  All, arith, length, leb, Bool-cases, if◌then◌else◌, ◌==◌,
}
use skymail_backend.Env.{RateBudget, minute}
use skymail_backend.Lanes.{priority_bulk, priority_system}
use skymail_backend.Budget.{
  budget_off, bulk_room, bulk_share, count_sends, prune_send_windows, day_span, send_window_counts,
  window_start, day_from,
}
use skymail_backend.Budget.Day.{Entry, windows_of, counts_at, sent_since, Until, Paced, Paced-day}
use skymail_backend.Queue.{Row}
use skymail_backend.Queue.Claims.{Distinct}
use skymail_backend.Store.{Store}
use skymail_backend.Take.{Mailer, Caches, claim_bulk, count_system, counted}
use skymail_backend.Take.Counts.{with_bulk, claim_bulk-windows}
use skymail_backend.Take.Turns.{
  Move, takes_bulk, counts_system, prunes, changes, with_budget, perform_moves, taken_since, IsBy,
  Ordered, entry, entries, Until-entries, perform_moves-Distinct, Refines, is_on,
}

windows_of-entry :
    (now lane n : ℕ) (h : List Entry)
    → windows_of (entry now lane n h)
      ≡ (if n == 0 then windows_of h else count_sends now lane n (windows_of h))
windows_of-entry now lane n h = elim (Bool-cases (n == 0)) [ inl e ↦ rw e refl | inr e ↦ rw e refl ]

Paced-entry :
    (b : RateBudget) (now lane n : ℕ) (h : List Entry)
    → Until now h
    → (lane ≡ 0 → n ≤ bulk_room b now (counts_at now h))
    → Paced b h
    → Paced b (entry now lane n h)
Paced-entry b now lane n h u room p = elim (Bool-cases (n == 0)) [
  | inl e ↦ rw e p
  | inr e ↦ rw e (u, room, p)
]

sent_since-bulk :
    (from now n : ℕ) (h : List Entry)
    → sent_since from 0 (entry now priority_bulk n h)
      ≡ (if leb from now then n else 0) + sent_since from 0 h
sent_since-bulk from now n h = ground arith

sent_since-system :
    (from now n : ℕ) (h : List Entry)
    → sent_since from 0 (entry now priority_system n h) ≡ sent_since from 0 h
sent_since-system from now n h = ground arith

count_system-windows :
    (m : Mailer) (now n : ℕ) (fails : Bool) (st : Store) (h : List Entry)
    → budget_off m.budget ≡ false
    → st.windows ≡ windows_of h
    → (count_system m now fails n st).windows
      ≡ windows_of (if fails then h else entry now priority_system n h)
unfolding count_system counted
count_system-windows m now n true st h on w = rw on w
count_system-windows m now n false st h on w = elim (Bool-cases (n == 0)) [
  | inl e ↦ rw (on, e) w
  | inr e ↦ rw (on, e) (ap (count_sends now priority_system n) w)
]

module _ (b : RateBudget) (st : Store) (limited : 0 < b.per_day) (d : Distinct st.rows) where
  bulk-Refines :
      (m : Mailer) (now : ℕ) (fails free : Bool) (locked : Row → Bool) (max_rows : ℕ)
      (caches : Caches) (as' : List Move)
      → Until now (entries b as' st)
      → Refines b as' st
      → Refines b (takes_bulk m now fails free locked max_rows caches ∷ as') st
  bulk-Refines m now fails free locked max_rows caches as' u (w, p, s) =
      let before = perform_moves b as' st in
      let h = entries b as' st in
      let n =
        length (claim_bulk (with_budget b m) now fails free locked max_rows caches before).taken in
      let (_, room, counts) =
        claim_bulk-windows (with_budget b m) now fails free locked max_rows caches before
          (is_on b limited) (perform_moves-Distinct b as' st d) in
      (
        counts ∙ ap (with_bulk now n) w ∙ sym (windows_of-entry now priority_bulk n h),
        Paced-entry b now priority_bulk n h u
            (λ _.
              subst
                (λ ws.
                  n
                  ≤ bulk_room b now
                      (send_window_counts (window_start now minute - minute) (day_from now) ws))
                w room)
            p,
        λ from.
            ap (λ k. (if leb from now then n else 0) + k) (s from)
            ∙ sym (sent_since-bulk from now n h),
      )

  system-Refines :
      (m : Mailer) (now : ℕ) (fails : Bool) (n : ℕ) (as' : List Move)
      → Until now (entries b as' st)
      → Refines b as' st
      → Refines b (counts_system m now fails n ∷ as') st
  system-Refines m now true n as' u (w, p, s) = (
    count_system-windows (with_budget b m) now n true (perform_moves b as' st) (entries b as' st)
        (is_on b limited) w,
    p,
    λ from. omega (arith, s from),
  )
  system-Refines m now false n as' u (w, p, s) = (
    count_system-windows (with_budget b m) now n false (perform_moves b as' st) (entries b as' st)
        (is_on b limited) w,
    Paced-entry b now priority_system n (entries b as' st) u (λ e. ground arith) p,
    λ from. omega (arith, s from, sent_since-system from now n (entries b as' st)),
  )

  refines : (as' : List Move) → Ordered as' → Refines b as' st
  refines [] o = (refl, tt, λ from. refl)
  refines (takes_bulk m now fails free locked max_rows caches ∷ as') o =
      bulk-Refines m now fails free locked max_rows caches as' (Until-entries b now as' st o.0)
        (refines as' o.1)
  refines (counts_system m now fails n ∷ as') o =
      system-Refines m now fails n as' (Until-entries b now as' st o.0) (refines as' o.1)
  refines (prunes now ∷ as') o =
      let (w, p, s) = refines as' o.1 in
      (
        ap (prune_send_windows now) w,
        (Until-entries b now as' st o.0, p),
        λ from. omega (arith, s from),
      )
  refines (changes other one ∷ as') o =
      let (w, p, s) = refines as' o.1 in (w, p, λ from. omega (arith, s from))

-- However the turns of many processes interleave, with the counts of their system rows, prunes and any
-- other change of the tables between them, by a clock that does not go back: in the 24 hours before any
-- instant that is not before the last of them, claimBulk handed to the workers, over all processes, no
-- more bulk rows than the bulk lane's share of the daily limit; the tables have one row for an id, and
-- the windows start empty.
pub perform_moves-day :
    (b : RateBudget) (as' : List Move) (st : Store) (at : ℕ)
    → 0 < b.per_day
    → Distinct st.rows
    → Ordered as'
    → All (IsBy at) as'
    → taken_since b (at - day_span) as' st ≤ bulk_share b.per_day
perform_moves-day b as' st at limited d o by =
    let (_, p, s) = refines b st limited d as' o in
    omega (
      arith,
      s (at - day_span),
      Paced-day b at (entries b as' st) limited p (Until-entries b at as' st by),
    )
