-- ===== src/Lanes/Stream.antt =====
-- What decides the lane of a mail.
use skymail_backend.Prelude.{
  ℕ, ◌≤◌, ◌≡◌, refl, ◌≢◌, ◌↔◌, Bool, true, false, Option, none, some, Text, arith,
}
use skymail_backend.Lanes.{
  hesap, duyuru, Purpose, islem, duyuru_purpose, other_purpose, SendLanes, account_mail, lane_of,
  purpose_of, priority_bulk,
}

-- A lane of its own for the duyuru stream: a mail leaves from the duyuru mailbox exactly when it is
-- not account mail, and its purpose is duyuru, or its purpose is neither of the two and its row is in
-- the bulk lane.
abbrev pub InDuyuru : Option Purpose → ℕ → Type 0
InDuyuru (some duyuru_purpose) priority = Unit {0}
InDuyuru (some islem) priority = ⊥
InDuyuru (some (other_purpose p)) priority = priority ≤ priority_bulk
InDuyuru none priority = priority ≤ priority_bulk

-- A mail's lane is duyuru exactly when it is not account mail and its purpose is duyuru or, where the
-- purpose is neither islem nor duyuru or there is none, its queue row has bulk priority.
pub lane_of-duyuru :
    (purpose : Option Purpose) (key : Option Text) (system : Bool) (priority : ℕ)
    → (lane_of purpose key system priority ≡ duyuru)
      ↔ ((account_mail key system ≡ false) × InDuyuru purpose priority)
unfolding lane_of
lane_of-duyuru none key system priority = (ground arith, ground arith)
lane_of-duyuru (some islem) key system priority = (ground arith, ground arith)
lane_of-duyuru (some duyuru_purpose) key system priority = (ground arith, ground arith)
lane_of-duyuru (some (other_purpose p)) key system priority = (ground arith, ground arith)

account_mail-no_system : (key : Option Text) → account_mail key false ≡ false
unfolding account_mail
account_mail-no_system none = refl
account_mail-no_system (some key) = refl

-- Account mail goes from hesap whatever its purpose and priority, nothing else does, and an account
-- key alone is not enough: without a system template no mail is account mail.
pub lane_of-hesap :
    (purpose : Option Purpose) (key : Option Text) (system : Bool) (priority : ℕ)
    → ((lane_of purpose key system priority ≡ hesap) ↔ (account_mail key system ≡ true))
      × (lane_of purpose key false priority ≢ hesap)
unfolding lane_of
lane_of-hesap purpose key system priority =
    ((ground arith, ground arith), ground (arith, account_mail-no_system key))

-- With the purpose switch off a send's purpose is not read: any two purposes give the same lane, the
-- lane of a send without one.
pub lane_of-purpose_of_off :
    (l : SendLanes) (p q : Option Purpose) (key : Option Text) (system : Bool) (priority : ℕ)
    → l.purpose ≡ false
    → (lane_of (purpose_of l p) key system priority ≡ lane_of (purpose_of l q) key system priority)
      × (lane_of (purpose_of l p) key system priority ≡ lane_of none key system priority)
unfolding purpose_of
lane_of-purpose_of_off l p q key system priority h = (rw h, rw h)
