-- ===== src/Take/Checks.antt =====
-- The checks of a take together.
use skymail_backend.Prelude.{
  ℕ, ◌≡◌, refl, ◌⊎◌, inl, inr, subst, Bool, true, false, Option, none, some, List, [], ◌∷◌, Text,
  map, All,
}
use skymail_backend.Queue.{Row}
use skymail_backend.Queue.Claims.{Distinct}
use skymail_backend.Store.{Store}
use skymail_backend.Guard.{skip_held_tasks}
use skymail_backend.Guard.Held.{IsFree, skip_held_tasks_keeps}
use skymail_backend.Unsubscribed.{left_stream, skip_unsubscribed}
use skymail_backend.Unsubscribed.Skipped.{skip_unsubscribed-left_stream}
use skymail_backend.Taken.{Gated}
use skymail_backend.Taken.Passes.{
  IsTaken, Passes, Passes-trans, Gives, Gives-trans, HasOnly, HasOnly-trans,
}
use skymail_backend.Consents.{ConsentCache}
use skymail_backend.Consents.Gate.{with_link, gate_consents}
use skymail_backend.Consents.Linked.{HasConsent, kept-HasConsent}
use skymail_backend.Consents.Ended.{gate_consents-Passes}
use skymail_backend.Preferences.{PreferenceCache}
use skymail_backend.Preferences.Gate.{gate_preferences}
use skymail_backend.Preferences.Kept.{Cleared, kept-Cleared}
use skymail_backend.Preferences.Ended.{gate_preferences-HasOnly}
use skymail_backend.Take.{Mailer, Caches, run_checks}
use skymail_backend.Take.Steps.{
  skip_held_tasks-Passes, skip_unsubscribed-Passes, All-selected, gate_consents-All,
  gate_preferences-All, Distinct-Gives,
}

-- A row that may be sent: its send is neither paused nor cancelled, its address did not leave the
-- duyuru stream, it has the consent that it needs, and core cleared it where the preference check is on.
abbrev pub MaySend : Mailer → ℕ → Caches → Store → Row → Type 0
MaySend m now caches st r =
    IsFree st.tasks r
    × (left_stream m.lanes st.tasks st.unsubscribes r ≡ false)
    × HasConsent now caches.consent m.consents m.lanes st r
    × ((m.preference_on ≡ false) ⊎ Cleared now caches.preference m.lanes st r)

-- A fact about the tables other than the queue, carried over what changes the queue alone.
carried :
    (me : ℕ) (P : Store → Row → Type 0) (a b : Store) (rows : List Row)
    → ((rs : List Row) (r : Row) → P (record a { rows = rs }) r → P a r)
    → Gives me a b
    → All (P b) rows
    → All (P a) rows
carried me P a b [] back g h = tt
carried me P a b (r ∷ rs) back (f, path, i, k) h = (
  back (map f a.rows) r (subst (λ (s : Store). P s r) path h.0),
  carried me P a b rs back (f, path, i, k) h.1,
)

module _ (m : Mailer) (now : ℕ) (caches : Caches) (rows : List Row) (st : Store)
    (d : Distinct st.rows) (taken : All (IsTaken st.rows m.me) rows) where
  held : Store × List Row
  held = skip_held_tasks m.me now rows st

  subscribed : Store × List Row
  unfolding held
  subscribed = skip_unsubscribed m.lanes m.me now held.1 held.0

  consented : Gated ConsentCache
  unfolding subscribed
  consented = gate_consents m.consents m.lanes m.me now caches.consent subscribed.1 subscribed.0

  preferred : Gated PreferenceCache
  unfolding consented
  preferred =
      gate_preferences m.preference_on m.lanes m.me now caches.preference consented.kept
        consented.store

  held-Passes : Passes m.me st rows held
  unfolding held
  held-Passes = skip_held_tasks-Passes m.me now rows st d taken

  subscribed-Passes : Passes m.me st rows subscribed
  unfolding held subscribed
  subscribed-Passes =
      Passes-trans m.me st held.0 subscribed.0 rows held.1 subscribed.1 held-Passes
        (skip_unsubscribed-Passes m.lanes m.me now held.1 held.0 held-Passes.1)

  consented-Passes : Passes m.me st rows (consented.store, consented.kept)
  unfolding held subscribed consented
  consented-Passes =
      Passes-trans m.me st subscribed.0 consented.store rows subscribed.1 consented.kept
        subscribed-Passes
        (gate_consents-Passes m.consents m.lanes m.me now caches.consent subscribed.1 subscribed.0
          subscribed-Passes.1)

  pub checks-HasOnly :
      let t = run_checks m now caches rows st in
      Gives m.me st t.store × HasOnly m.me rows t.taken t.store.rows
  unfolding held subscribed consented preferred run_checks
  checks-HasOnly =
      let (g, o) =
        gate_preferences-HasOnly m.preference_on m.lanes m.me now caches.preference consented.kept
          consented.store consented-Passes.1 in
      (
        Gives-trans m.me st consented.store preferred.store consented-Passes.0 g,
        HasOnly-trans m.me consented.store preferred.store rows consented.kept preferred.kept
            consented-Passes.2 g o,
      )

  IsFree-link : (o : Option Text) (r : Row) → IsFree st.tasks r → IsFree st.tasks (with_link o r)
  IsFree-link none r h = h
  IsFree-link (some l) r h = h

  Stays : Row → Type 0
  Stays r = left_stream m.lanes st.tasks st.unsubscribes r ≡ false

  Stays-link : (o : Option Text) (r : Row) → Stays r → Stays (with_link o r)
  unfolding Stays
  Stays-link none r h = h
  Stays-link (some l) r h = h

  IsFree-kept : All (IsFree st.tasks) (run_checks m now caches rows st).taken
  unfolding held subscribed consented preferred run_checks skip_unsubscribed
  IsFree-kept =
      gate_preferences-All (IsFree st.tasks) m.preference_on m.lanes m.me now caches.preference
        consented.kept consented.store
        (gate_consents-All (IsFree st.tasks) m.consents m.lanes m.me now caches.consent subscribed.1
          subscribed.0 IsFree-link
          (All-selected (IsFree st.tasks) _ held.1 (skip_held_tasks_keeps m.me now rows st).0))

  Stays-kept : All Stays (run_checks m now caches rows st).taken
  unfolding held subscribed consented preferred run_checks Stays
  Stays-kept =
      gate_preferences-All Stays m.preference_on m.lanes m.me now caches.preference consented.kept
        consented.store
        (gate_consents-All Stays m.consents m.lanes m.me now caches.consent subscribed.1
          subscribed.0 Stays-link
          (carried m.me (λ s r. left_stream m.lanes s.tasks s.unsubscribes r ≡ false) st held.0
            subscribed.1 (λ rs r h. h) held-Passes.0
            (skip_unsubscribed-left_stream m.lanes m.me now held.1 held.0
              (Distinct-Gives m.me st held.0 held-Passes.0 d) held-Passes.1).0))

  consent_kept :
      All
        (HasConsent now caches.consent m.consents m.lanes st)
        (run_checks m now caches rows st).taken
  unfolding held subscribed consented preferred run_checks
  consent_kept =
      gate_preferences-All (HasConsent now caches.consent m.consents m.lanes st) m.preference_on
        m.lanes m.me now caches.preference consented.kept consented.store
        (carried m.me (λ s r. HasConsent now caches.consent m.consents m.lanes s r) st subscribed.0
          consented.kept (λ rs r h. h) subscribed-Passes.0
          (kept-HasConsent m.consents m.lanes m.me now caches.consent subscribed.1 subscribed.0
            (Distinct-Gives m.me st subscribed.0 subscribed-Passes.0 d) subscribed-Passes.1))

  Prefers : Row → Type 0
  Prefers r = (m.preference_on ≡ false) ⊎ Cleared now caches.preference m.lanes st r

  prefers_on :
      (on : Bool)
      → All
          (λ r. (on ≡ false) ⊎ Cleared now caches.preference m.lanes st r)
          (gate_preferences on m.lanes m.me now caches.preference consented.kept
            consented.store).kept
  unfolding held subscribed consented gate_preferences
  prefers_on false = all_off consented.kept
    where
      all_off :
          (rs : List Row)
          → All (λ r. (false ≡ false) ⊎ Cleared now caches.preference m.lanes st r) rs
      all_off [] = tt
      all_off (r ∷ rs) = (inl refl, all_off rs)
  prefers_on true =
      carried m.me (λ s r. (true ≡ false) ⊎ Cleared now caches.preference m.lanes s r) st
        consented.store _ (λ rs r h. h) consented-Passes.0
        (all_on _ (
          kept-Cleared m.lanes m.me now caches.preference consented.kept consented.store
            (Distinct-Gives m.me st consented.store consented-Passes.0 d) consented-Passes.1))
    where
      all_on :
          (rs : List Row)
          → All (Cleared now caches.preference m.lanes consented.store) rs
          → All (λ r. (true ≡ false) ⊎ Cleared now caches.preference m.lanes consented.store r) rs
      all_on [] h = tt
      all_on (r ∷ rs) h = (inr h.0, all_on rs h.1)

  Prefers-kept : All Prefers (run_checks m now caches rows st).taken
  unfolding held subscribed consented preferred run_checks Prefers
  Prefers-kept = prefers_on m.preference_on

  pub checks-MaySend : All (MaySend m now caches st) (run_checks m now caches rows st).taken
  unfolding Stays Prefers
  checks-MaySend =
      four (run_checks m now caches rows st).taken IsFree-kept Stays-kept consent_kept Prefers-kept
    where
      four :
          (rs : List Row)
          → All (IsFree st.tasks) rs
          → All Stays rs
          → All (HasConsent now caches.consent m.consents m.lanes st) rs
          → All Prefers rs
          → All (MaySend m now caches st) rs
      four [] a b c e = tt
      four (r ∷ rs) a b c e = ((a.0, b.0, c.0, e.0), four rs a.1 b.1 c.1 e.1)
