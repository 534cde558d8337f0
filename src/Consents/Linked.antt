-- ===== src/Consents/Linked.antt =====
-- The rows that gateConsents goes on with, each with its link.
use skymail_backend.Prelude.{
  ℕ, ◌≡◌, refl, sym, ap, ◌⊎◌, inl, inr, subst, true, false, ◌&&◌, ◌||◌, Option, none, some, List,
  Text, codes, map, All, arith, select, text_eq, Bool-cases,
}
use skymail_backend.Lanes.{SendLanes, account_mail, is_duyuru}
use skymail_backend.Rows.{link_in}
use skymail_backend.Queue.{Row, Task, find_task, ids_of, taken_by}
use skymail_backend.Queue.Claims.{In, Distinct, All-In, All-of-In, In-select, In-map}
use skymail_backend.Queue.Order.{mem_of_In}
use skymail_backend.Store.{Store}
use skymail_backend.Taken.Passes.{IsTaken}
use skymail_backend.Consents.{
  ConsentGate, ConsentCache, no_verdict, link, promotional_decision, announcement_decision, decide,
  decide_rows,
}
use skymail_backend.Consents.Gate.{
  ConsentCase, exempt, promotes, announces, is_promotes, is_announces, is_promotional, to_list,
  needs_invitation, case_of, case_in, consent_case, consent_row, goes_on, with_link, give_link,
  decided_of, gate_consents,
}
use skymail_backend.Consents.Found.{address_of, mem-held, mem-waiting, link_in-decide_rows}
use skymail_backend.Consents.Kept.{
  IsInvited, Consented, stops, promotional_decision-link, announcement_decision-IsInvited,
}

-- What is known of a row that goes on, where the gate makes `k` of it and `found` is its link in the
-- verdict.
abbrev GoesOn : ℕ → ConsentCache → ConsentCase → Option Text → Row → Type 0
GoesOn now c exempt found r = Unit
GoesOn now c promotes found r =
    (stops (promotional_decision now c (address_of r)) ≡ false)
    × ((l : Text) → promotional_decision now c (address_of r) ≡ link l → found ≡ some l)
GoesOn now c announces found r = stops (announcement_decision now c (address_of r)) ≡ false

module _ (now : ℕ) (c : ConsentCache) (gate : ConsentGate) (lanes : SendLanes)
    (lists : List ℕ) where
  unpromoted :
      (t : Task) (r : Row) (found : Option Text)
      → is_promotional t ≡ false
      → (account_mail t.template_key t.template_system ≡ true)
        ⊎ (needs_invitation gate lanes lists t r ≡ false)
        ⊎ IsInvited now c (address_of r)
      → Consented now c gate lanes lists (with_link found r) (some t)
  unpromoted t r none n h = inr (n, h)
  unpromoted t r (some l) n h = inr (n, h)

  promoted :
      (t : Task) (r : Row) (found : Option Text)
      → is_promotional t ≡ true
      → GoesOn now c promotes found r
      → Consented now c gate lanes lists (with_link found r) (some t)
  promoted t r found p (s, given) =
      let (f, l, e, d) = promotional_decision-link now c (address_of r) s in
      rw (given l d) (inl (p, f, l, e, refl))

  case_of-Consented :
      (t : Task) (r : Row) (found : Option Text)
      → GoesOn now c (case_of gate lanes lists t r) found r
      → Consented now c gate lanes lists (with_link found r) (some t)
  unfolding case_of
  case_of-Consented t r found h = elim (Bool-cases (is_promotional t)) [
    | inl p ↦ promoted t r found p (rw p at h)
    | inr p ↦ elim (Bool-cases (account_mail t.template_key t.template_system)) [
      | inl a ↦ unpromoted t r found p (inl a)
      | inr a ↦ elim (Bool-cases (needs_invitation gate lanes lists t r)) [
        | inr n ↦ unpromoted t r found p (inr (inl n))
        | inl n ↦
            let stays = rw (p, a, n) at h in
            unpromoted t r found p
              (inr (inr (announcement_decision-IsInvited now c (address_of r) stays)))
      ]
    ]
  ]

  -- The WHERE reads every send that a consent applies to.
  read_by_where :
      (t : Task) (r : Row)
      → (is_duyuru t.purpose || to_list lists t) ≡ false
      → (is_promotional t ≡ false) × (needs_invitation gate lanes lists t r ≡ false)
  read_by_where t r h = (ground arith, ground arith)

  case_in-Consented :
      (o : Option Task) (r : Row) (found : Option Text)
      → GoesOn now c (case_in gate lanes lists o r) found r
      → Consented now c gate lanes lists (with_link found r) o
  unfolding case_in
  case_in-Consented none r found h = tt
  case_in-Consented (some t) r found h =
      elim (Bool-cases (is_duyuru t.purpose || to_list lists t)) [
        | inl e ↦ case_of-Consented t r found (rw e at h)
        | inr e ↦ let (p, n) = read_by_where t r e in unpromoted t r found p (inr (inl n))
      ]

-- An e-mail of the take goes with the consent that it needs.
abbrev pub HasConsent : ℕ → ConsentCache → ConsentGate → SendLanes → Store → Row → Type 0
HasConsent now c gate lanes st r =
    (text_eq r.channel (codes "email") ≡ false)
    ⊎ Consented now c gate lanes st.mailing_lists r (find_task r.task_id st.tasks)

-- What the verdict of the gate says of one row of the queue.
consent_case-GoesOn :
    (gate : ConsentGate) (lanes : SendLanes) (me now : ℕ) (c : ConsentCache) (ids : List ℕ)
    (st : Store) (r : Row)
    → Distinct st.rows
    → In r st.rows
    → goes_on (decided_of gate lanes me now c ids st) r ≡ true
    → GoesOn now c
        (consent_case gate lanes st ids me r)
        (link_in r.id (decided_of gate lanes me now c ids st).links)
        r
unfolding decide consent_case
consent_case-GoesOn gate lanes me now c ids st r d i h =
    let g = consent_case gate lanes st ids me in
    let p = λ (x : Row). is_promotes (g x) in
    let q = λ (x : Row). is_announces (g x) in
    let base =
      decide_rows (announcement_decision now c) (map consent_row (select q st.rows)) no_verdict in
    let ph = mem-held p (promotional_decision now c) base r st.rows d i in
    let pw = mem-waiting p (promotional_decision now c) base r st.rows d i in
    let ah = mem-held q (announcement_decision now c) no_verdict r st.rows d i in
    let aw = mem-waiting q (announcement_decision now c) no_verdict r st.rows d i in
    by_case (g r) refl
      (λ l e k. link_in-decide_rows p (promotional_decision now c) base r l st.rows d i e k)
      (ground (arith, ph, pw, ah, aw, h)) (ground (arith, ph, pw, ah, aw, h))
  where
    by_case :
        (k : ConsentCase)
        → k ≡ consent_case gate lanes st ids me r
        → ((l : Text)
            → is_promotes (consent_case gate lanes st ids me r) ≡ true
            → promotional_decision now c (address_of r) ≡ link l
            → link_in r.id (decided_of gate lanes me now c ids st).links ≡ some l)
        → (is_promotes (consent_case gate lanes st ids me r)
            && stops (promotional_decision now c (address_of r)))
          ≡ false
        → (is_announces (consent_case gate lanes st ids me r)
            && stops (announcement_decision now c (address_of r)))
          ≡ false
        → GoesOn now c k (link_in r.id (decided_of gate lanes me now c ids st).links) r
    by_case exempt e links a b = tt
    by_case promotes e links a b =
        let p : is_promotes (consent_case gate lanes st ids me r) ≡ true = ap is_promotes (sym e) in
        (ground (arith, a, p), λ l k. links l p k)
    by_case announces e links a b =
        let p : is_announces (consent_case gate lanes st ids me r) ≡ true =
          ap is_announces (sym e) in
        ground (arith, b, p)

consent_case-HasConsent :
    (gate : ConsentGate) (lanes : SendLanes) (me now : ℕ) (c : ConsentCache) (ids : List ℕ)
    (st : Store) (r : Row) (found : Option Text)
    → taken_by ids me r ≡ true
    → GoesOn now c (consent_case gate lanes st ids me r) found r
    → HasConsent now c gate lanes st (with_link found r)
unfolding consent_case
consent_case-HasConsent gate lanes me now c ids st r found own h =
    elim (Bool-cases (text_eq r.channel (codes "email"))) [
      | inr n ↦ other found n
      | inl e ↦ of_send found (
          case_in-Consented now c gate lanes st.mailing_lists (find_task r.task_id st.tasks) r found
            (rw (own, e) at h))
    ]
  where
    other :
        (o : Option Text)
        → text_eq r.channel (codes "email") ≡ false
        → HasConsent now c gate lanes st (with_link o r)
    other none n = inl n
    other (some l) n = inl n

    of_send :
        (o : Option Text)
        → Consented now c gate lanes st.mailing_lists (with_link o r) (find_task r.task_id st.tasks)
        → HasConsent now c gate lanes st (with_link o r)
    of_send none g = inr g
    of_send (some l) g = inr g

-- Every row that gateConsents goes on with has its consent.
pub kept-HasConsent :
    (gate : ConsentGate) (lanes : SendLanes) (me now : ℕ) (c : ConsentCache) (rows : List Row)
    (st : Store)
    → Distinct st.rows
    → All (IsTaken st.rows me) rows
    → All (HasConsent now c gate lanes st) (gate_consents gate lanes me now c rows st).kept
unfolding gate_consents
kept-HasConsent gate lanes me now c rows st d taken =
    let v = decided_of gate lanes me now c (ids_of rows) st in
    All-of-In (HasConsent now c gate lanes st) (map (give_link v.links) (select (goes_on v) rows))
      λ r i.
        let (x, j, e) = In-map (give_link v.links) r (select (goes_on v) rows) i in
        let (k, q) = In-select (goes_on v) x rows j in
        let (l, busy, mine) = All-In (IsTaken st.rows me) x rows taken k in
        let asked = mem_of_In x rows k in
        let own : taken_by (ids_of rows) me x ≡ true = ground arith in
        subst (HasConsent now c gate lanes st) (sym e) (
          consent_case-HasConsent gate lanes me now c (ids_of rows) st x (link_in x.id v.links) own
            (consent_case-GoesOn gate lanes me now c (ids_of rows) st x d l q))
