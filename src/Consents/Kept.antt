-- ===== src/Consents/Kept.antt =====
-- With which consent a row goes on.
use skymail_backend.Prelude.{
  ℕ, ◌≡◌, refl, ap, ◌⊎◌, inl, inr, Bool, true, false, ◌&&◌, ◌||◌, Option, none, some, List, Text,
  arith, Bool-cases,
}
use skymail_backend.Lanes.{SendLanes, account_mail}
use skymail_backend.Queue.{Row, Task}
use skymail_backend.Unsubscribed.{mem_text}
use skymail_backend.Taken.Passes.{not-both}
use skymail_backend.Consents.{
  ConsentGate, ConsentCache, ConsentDecision, CachedAccount, link, fresh, link_of, linked_or_held,
  find_account, known, matched, promotional_decision, announcement_decision,
}
use skymail_backend.Consents.Gate.{is_promotional, needs_invitation}
use skymail_backend.Consents.Found.{is_hold, is_wait, address_of}

-- Core lately matched the address to an account, or lately listed it as one that consented to
-- announcements.
abbrev pub IsInvited : ℕ → ConsentCache → Text → Type 0
IsInvited now c address =
    ((a : CachedAccount) × (find_account address c.accounts ≡ some a)
      × (fresh now (some a.at) ≡ true)
      × (a.matched ≡ true))
    ⊎ ((fresh now c.invited_at ≡ true) × (mem_text address c.invited ≡ true))

-- A row of a send goes with the consent that it needs: of a promotional send, with the link by which
-- core lately said that the address consented; of any other, where it is no account mail and needs the
-- announcement consent, with that.
abbrev pub Consented :
    ℕ → ConsentCache → ConsentGate → SendLanes → List ℕ → Row → Option Task → Type 0
Consented now c gate lanes lists r none = Unit
Consented now c gate lanes lists r (some t) =
    ((is_promotional t ≡ true)
      × (fresh now c.promotional_at ≡ true)
      × (l : Text) × (link_of (address_of r) c.promotional ≡ some l)
      × (r.link ≡ some l))
    ⊎ ((is_promotional t ≡ false)
        × ((account_mail t.template_key t.template_system ≡ true)
            ⊎ (needs_invitation gate lanes lists t r ≡ false)
            ⊎ IsInvited now c (address_of r)))

abbrev pub stops : ConsentDecision → Bool
stops d = is_hold d || is_wait d

pub promotional_decision-link :
    (now : ℕ) (c : ConsentCache) (address : Text)
    → stops (promotional_decision now c address) ≡ false
    → (fresh now c.promotional_at ≡ true)
      × (l : Text) × (link_of address c.promotional ≡ some l)
      × (promotional_decision now c address ≡ link l)
unfolding promotional_decision
promotional_decision-link now c address h = elim (Bool-cases (fresh now c.promotional_at)) [
  | inr n ↦ not-both (stops (promotional_decision now c address)) (rw n refl) h
  | inl f ↦
      let (l, e) = listed (link_of address c.promotional) (rw f at h) in
      (f, l, e, rw f (ap linked_or_held e))
]
  where
    listed : (o : Option Text) → stops (linked_or_held o) ≡ false → (l : Text) × (o ≡ some l)
    listed none h = cc
    listed (some l) h = (l, refl)

known_account :
    (now : ℕ) (o : Option CachedAccount)
    → (known now o && matched o) ≡ true
    → (a : CachedAccount) × (o ≡ some a) × (fresh now (some a.at) ≡ true) × (a.matched ≡ true)
known_account now none h = cc
known_account now (some a) h = (a, refl, ground arith, ground arith)

pub announcement_decision-IsInvited :
    (now : ℕ) (c : ConsentCache) (address : Text)
    → stops (announcement_decision now c address) ≡ false
    → IsInvited now c address
unfolding announcement_decision
announcement_decision-IsInvited now c address h =
    let account = find_account address c.accounts in
    let d = announcement_decision now c address in
    elim (Bool-cases (known now account && matched account)) [
      | inl m ↦ inl (known_account now account m)
      | inr m ↦ elim (Bool-cases (fresh now c.invited_at && mem_text address c.invited)) [
        | inl i ↦ inr (ground arith, ground arith)
        | inr i ↦ elim (Bool-cases (known now account && fresh now c.invited_at)) [
          | inl k ↦ not-both (stops d) (rw (m, i, k) refl) h
          | inr k ↦ not-both (stops d) (rw (m, i, k) refl) h
        ]
      ]
    ]
