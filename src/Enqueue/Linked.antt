-- ===== src/Enqueue/Linked.antt =====
-- A checked send is queued with a way out on every mail: what the resolution before the transaction and
-- the queueing in it promise together.
use skymail_backend.Prelude.{
  ℕ, suc, ◌≡◌, refl, sym, ap, ◌∙◌, inl, inr, subst, Bool, true, false, ◌&&◌, not, Option, none,
  some, List, [], ◌∷◌, Text, map, All, arith, is_some, text_eq, trim_space, Bool-cases,
  if◌then◌else◌, ◌++◌, codes, to_lower,
}
use skymail_backend.Lanes.{SendLanes, account_mail}
use skymail_backend.Smtp.{reserved_domain}
use skymail_backend.Queue.{Row, Task}
use skymail_backend.Store.{suppression_address}
use skymail_backend.Unsubscribed.{mem_text}
use skymail_backend.Core.{Recipient, Result, Reply, resolved}
use skymail_backend.Core.Answers.{IsDecisive}
use skymail_backend.Preferences.{PreferenceCache, LinkConfig}
use skymail_backend.Tokens.{valid_address, token_address, seal}
use skymail_backend.Preferences.Resolved.{
  PreferenceVerdicts, RecipientInfo, SendPurpose, gated_purpose, resolve_preferences,
  category_or_club, skips_asking,
}
use skymail_backend.Preferences.Answered.{IsAnswered, Answers, resolve_preferences-Answers}
use skymail_backend.Enqueue.{
  RecipientRow, Queueing, suppression_of, reads_unsubscribes, gated, own_link, outcome_of,
  preference_of, Placement, fails, unrendered, queues, rendered_as, is_suppressed, place, kept_link,
  QueueResult, refused, written, add_placed, queue_rows, render_and_queue,
}

-- The recipient as core is asked about it.
abbrev pub info_of : RecipientRow → RecipientInfo
info_of r = record { email = r.email; sub = r.sub; unsubscribe_url = r.unsubscribe_url }

-- A recipient whose address a token can carry, and whose link goes into the header too.
abbrev pub IsAddressed : RecipientRow → Type 0
IsAddressed r = (valid_address (token_address r.email) ≡ true) × (r.in_body_only ≡ false)

-- SkyMail's own link is on, with its base address and a key.
abbrev pub CanLink : LinkConfig → Type 0
CanLink links =
    (links.link_on ≡ true) × (text_eq links.base_url [] ≡ false) × (links.has_key ≡ true)

append_some : (s t : Text) → text_eq s [] ≡ false → text_eq (s ++ t) [] ≡ false
append_some [] t h = cc
append_some (c ∷ s) t h = refl

own_link_some :
    (links : LinkConfig) (encode : Text → Text) (address : Text)
    → CanLink links
    → valid_address (token_address address) ≡ true
    → text_eq (own_link links encode address) [] ≡ false
unfolding own_link seal
own_link_some links encode address (on, base, key) v =
    rw (on, base, key, v)
      (append_some links.base_url (codes "/u/" ++ encode (token_address address)) base)

has_address : (s : Text) → valid_address (to_lower s) ≡ true → text_eq s [] ≡ false
unfolding valid_address to_lower
has_address [] h = sym h
has_address (c ∷ s) h = refl

-- A recipient whose address a token can carry has an address.
addressed-skips :
    (r : RecipientRow)
    → IsAddressed r
    → skips_asking (info_of r) ≡ true
    → text_eq r.unsubscribe_url [] ≡ false
unfolding token_address
addressed-skips r here s = ground (arith, s, has_address (trim_space r.email) here.0)

abbrev chosen : Text → RecipientRow → Text
chosen link r = if text_eq link [] then r.unsubscribe_url else link

chosen_own :
    (link : Text) (r : RecipientRow)
    → text_eq r.unsubscribe_url [] ≡ false
    → text_eq (chosen link r) [] ≡ false
chosen_own link r h = elim (Bool-cases (text_eq link [])) [ inl e ↦ rw e h | inr e ↦ rw e e ]

chosen_link :
    (link : Text) (r : RecipientRow) → text_eq link [] ≡ false → text_eq (chosen link r) [] ≡ false
chosen_link link r h = rw h h

outcome_linked :
    (q : Queueing) (r : RecipientRow) (at : ℕ) (res : Result)
    → CanLink q.links
    → valid_address (token_address r.email) ≡ true
    → IsDecisive res
    → text_eq (outcome_of q r.email at (some res)).skip [] ≡ true
    → text_eq (outcome_of q r.email at (some res)).link [] ≡ false
outcome_linked q r at res can v d p = elim (Bool-cases res.matched) [
  | inr n ↦ rw n (own_link_some q.links q.encode r.email can v)
  | inl m ↦ elim (Bool-cases res.allowed) [
    | inr n ↦ absurd (never (rw (m, n) at p))
    | inl a ↦ rw (m, a) (given d m a)
  ]
]
  where
    never : false ≡ true → ⊥
    never e = cc

    given :
        IsDecisive res
        → res.matched ≡ true
        → res.allowed ≡ true
        → text_eq res.unsubscribe_url [] ≡ false
    given (inl n) m a = cc (n, m)
    given (inr (inl (b, u))) m a = u
    given (inr (inr (n, why))) m a = cc (n, a)

preference_linked :
    (core : Option (Text → List Recipient → Reply)) (q : Queueing) (t : Task)
    (v : PreferenceVerdicts) (r : RecipientRow)
    → gated q t ≡ true
    → q.verdicts ≡ some v
    → CanLink q.links
    → IsAddressed r
    → IsAnswered core v (info_of r)
    → text_eq (preference_of q t r).skip [] ≡ true
    → text_eq (chosen (preference_of q t r).link r) [] ≡ false
unfolding preference_of
preference_linked core q t v r g e can here (inl s) p =
    chosen_own (preference_of q t r).link r (addressed-skips r here s)
preference_linked core q t v r g e can here (inr (res, found, d, from)) p =
    let path : preference_of q t r ≡ outcome_of q r.email v.at (some res) =
      rw (g, e) (ap (outcome_of q r.email v.at) found) in
    chosen_link (preference_of q t r).link r (
      ap (λ o. text_eq o.link []) path
      ∙ outcome_linked q r v.at res can here.0 d (sym (ap (λ o. text_eq o.skip []) path) ∙ p))

abbrev HasWayOut : Placement → Type 0
HasWayOut (queues link checked exempt) = text_eq link [] ≡ false
HasWayOut _ = Unit

rendered_as-HasWayOut :
    (link : Text) (checked : Option ℕ) (exempt : Bool) (error : Option Text)
    → text_eq link [] ≡ false
    → HasWayOut (rendered_as link checked exempt error)
rendered_as-HasWayOut link checked exempt none h = h
rendered_as-HasWayOut link checked exempt (some e) h = tt

place-HasWayOut :
    (core : Option (Text → List Recipient → Reply)) (q : Queueing) (t : Task)
    (v : PreferenceVerdicts) (render : RecipientRow → Option Text) (r : RecipientRow)
    → gated q t ≡ true
    → q.verdicts ≡ some v
    → CanLink q.links
    → IsAddressed r
    → IsAnswered core v (info_of r)
    → HasWayOut (place q t render r)
unfolding place
place-HasWayOut core q t v render r g e can here answered =
    let address = suppression_address r.email in
    let s = suppression_of address q.suppressions in
    let outcome = preference_of q t r in
    elim (Bool-cases (q.refuse_reserved && reserved_domain r.email)) [
      | inl a ↦ rw a tt
      | inr a ↦
          rw a
            (elim (Bool-cases
              (is_suppressed s && not (account_mail t.template_key t.template_system))) [
                | inl b ↦ rw b tt
                | inr b ↦
                    rw b
                      (elim (Bool-cases
                        (reads_unsubscribes q t && mem_text address q.unsubscribes)) [
                          | inl c ↦ rw c tt
                          | inr c ↦ rw c (elim (Bool-cases (text_eq outcome.skip [])) [
                            | inr n ↦ rw n tt
                            | inl p ↦ rw p (
                                rendered_as-HasWayOut (chosen outcome.link r) outcome.checked
                                  (is_suppressed s) _
                                  (preference_linked core q t v r g e can here answered p))
                          ])
                        ])
              ])
    ]

-- Every queued row keeps a link.
abbrev pub HasLinks : QueueResult → Type 0
HasLinks (refused error) = Unit
HasLinks (written w) = All (λ (x : Row). is_some x.link ≡ true) w.queued

link_kept :
    (r : RecipientRow) (link : Text)
    → r.in_body_only ≡ false
    → text_eq link [] ≡ false
    → is_some (kept_link r link) ≡ true
link_kept r [] b h = cc
link_kept r (c ∷ s) b h = rw b refl

add_placed-HasLinks :
    (strict : Bool) (now id task : ℕ) (q : Queueing) (r : RecipientRow) (p : Placement)
    (result : QueueResult)
    → r.in_body_only ≡ false
    → HasWayOut p
    → HasLinks result
    → HasLinks (add_placed strict now id task q r p result)
add_placed-HasLinks strict now id task q r (fails error) (refused e) b out h = tt
add_placed-HasLinks strict now id task q r (queues link checked exempt) (refused e) b out h = tt
add_placed-HasLinks true now id task q r (unrendered error) (refused e) b out h = tt
add_placed-HasLinks false now id task q r (unrendered error) (refused e) b out h = tt
add_placed-HasLinks strict now id task q r (fails error) (written w) b out h = h
add_placed-HasLinks true now id task q r (unrendered error) (written w) b out h = tt
add_placed-HasLinks false now id task q r (unrendered error) (written w) b out h = h
add_placed-HasLinks strict now id task q r (queues link checked exempt) (written w) b out h =
    (link_kept r link b out, h)

queued_linked :
    (core : Option (Text → List Recipient → Reply)) (strict : Bool) (now id : ℕ) (q : Queueing)
    (t : Task) (v : PreferenceVerdicts) (render : RecipientRow → Option Text)
    (rs : List RecipientRow)
    → gated q t ≡ true
    → q.verdicts ≡ some v
    → CanLink q.links
    → All IsAddressed rs
    → All (IsAnswered core v) (map info_of rs)
    → HasLinks (queue_rows strict now id q t render rs)
unfolding queue_rows
queued_linked core strict now id q t v render [] g e can here answered = tt
queued_linked core strict now id q t v render (r ∷ rs) g e can here answered =
    add_placed-HasLinks strict now id t.id q r (place q t render r)
      (queue_rows strict now (suc id) q t render rs) here.0.1
      (place-HasWayOut core q t v render r g e can here.0 answered.0)
      (queued_linked core strict now (suc id) q t v render rs g e can here.1 answered.1)

send_linked :
    (core : Option (Text → List Recipient → Reply)) (strict : Bool) (now id : ℕ) (q : Queueing)
    (t : Task) (v : PreferenceVerdicts) (prepared : Option Text)
    (render : RecipientRow → Option Text) (rs : List RecipientRow)
    → gated q t ≡ true
    → q.verdicts ≡ some v
    → CanLink q.links
    → All IsAddressed rs
    → All (IsAnswered core v) (map info_of rs)
    → HasLinks (render_and_queue strict now id q t prepared render rs)
unfolding render_and_queue
send_linked core strict now id q t v prepared render [] g e can here answered = tt
send_linked core strict now id q t v (some error) render (r ∷ rs) g e can here answered = tt
send_linked core strict now id q t v none render (r ∷ rs) g e can here answered =
    queued_linked core strict now id q t v render (r ∷ rs) g e can here answered

-- A checked send that is queued with what ResolvePreferences answered about its recipients has a link in
-- the header of every row that it queues, whatever core came back with: where SkyMail's own link is on,
-- with its base address and a key, and where each recipient's address is one that a token can carry and
-- its link is not for the body only.
pub render_and_queue-resolve_preferences :
    (gate_on : Bool) (lanes : SendLanes) (core : Option (Text → List Recipient → Reply))
    (purpose : SendPurpose) (c : PreferenceCache) (strict : Bool) (now id : ℕ) (q : Queueing)
    (t : Task) (v : PreferenceVerdicts) (prepared : Option Text)
    (render : RecipientRow → Option Text) (rs : List RecipientRow)
    → (resolve_preferences gate_on lanes core now purpose (map info_of rs) c).0 ≡ resolved (some v)
    → gated q t ≡ true
    → q.verdicts ≡ some v
    → CanLink q.links
    → All IsAddressed rs
    → HasLinks (render_and_queue strict now id q t prepared render rs)
render_and_queue-resolve_preferences gate_on lanes core purpose c strict now id q t v prepared
      render rs h g e can here =
    let on = gated_purpose gate_on lanes purpose.purpose in
    let category = category_or_club purpose.category in
    let answered : Answers core category on (map info_of rs) (resolved (some v)) =
      subst (Answers core category on (map info_of rs)) h
        (resolve_preferences-Answers gate_on lanes core now purpose (map info_of rs) c) in
    send_linked core strict now id q t v prepared render rs g e can here answered.2
