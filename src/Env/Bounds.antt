-- ===== src/Env/Bounds.antt =====
-- What a process that started can rely on.
use skymail_backend.Prelude.{
  ℕ, ◌≤◌, ◌≡◌, refl, ◌⊎◌, inr, Bool, true, Option, none, some, Text, ℤ, pos, negsuc, atoi, subst,
  trim_space, to_lower, arith, codes, ap, sym, ◌∙◌, Bool-cases, inl, [], text_eq,
}
use skymail_backend.Lanes.{
  Lane, hesap, bilgi, duyuru, Transport, off, graph, xoauth2, LaneConfig, SendLanes, MailAddress,
  any_on, is_off, lane_config,
}
use skymail_backend.Env.{
  Setting, reads, stops_at, BulkGuard, bulk_guard_from_env, queue_lease_from_env, min_queue_lease,
  max_queue_lease, hour, lane_from_env, queue_lease_env, throttle_pause_env,
  failure_pause_percent_env, ◌>>=◌, send_lanes_from_env, switch_from_env, limit_from_env, between,
  on_transport, named_lane, with_from, transport_of, send_env, from_env, pause_from_env,
  percent_from_env, failure_pause_count_env, list_unsubscribe_env, purpose_env, reply_to_from_env,
  with_credentials,
}

between_bounds :
    (name : Text) (lo hi : ℕ) (v : Option ℤ) (n : ℕ)
    → between name lo hi v ≡ reads n
    → (lo ≤ n) × (n ≤ hi)
between_bounds name lo hi none n h = cc
between_bounds name lo hi (some (negsuc m)) n h = cc
between_bounds name lo hi (some (pos m)) n h = ground arith

-- Whatever the environment and however durations are parsed, a lease that startup accepts lies between
-- five minutes and a day.
pub queue_lease_bounds :
    (parse_duration : Text → Option ℤ) (getenv : Text → Text) (lease : ℕ)
    → queue_lease_from_env parse_duration getenv ≡ reads lease
    → (min_queue_lease ≤ lease) × (lease ≤ max_queue_lease)
unfolding queue_lease_from_env
queue_lease_bounds parse_duration getenv lease h = ground (
  arith,
  between_bounds _ min_queue_lease max_queue_lease
      (parse_duration (trim_space (getenv queue_lease_env))) lease,
)

pause_bounds :
    (parse_duration : Text → Option ℤ) (getenv : Text → Text) (pause : ℕ)
    → pause_from_env parse_duration getenv ≡ reads pause
    → pause ≤ hour
unfolding pause_from_env
pause_bounds parse_duration getenv pause h =
    ground (
      arith,
      between_bounds _ 0 hour (parse_duration (trim_space (getenv throttle_pause_env))) pause,
    )

percent_bounds :
    (parse_duration : Text → Option ℤ) (getenv : Text → Text) (percent : ℕ)
    → percent_from_env parse_duration getenv ≡ reads percent
    → (1 ≤ percent) × (percent ≤ 100)
unfolding percent_from_env
percent_bounds parse_duration getenv percent h =
    ground
      (arith, between_bounds _ 1 100 (atoi (trim_space (getenv failure_pause_percent_env))) percent)

step_of_reads :
    {A B : Type 0} (first : Setting A) (next : A → Setting B) {value : B}
    → first >>= next ≡ reads value
    → (middle : A) × (first ≡ reads middle) × (next middle ≡ reads value)
step_of_reads (stops_at variable) next h = cc
step_of_reads (reads middle) next h = (middle, refl, h)

-- Whatever the environment, guards that startup accepts hold the bulk lane for at most an hour, and
-- pause a send at a percentage from 1 to 100.
pub bulk_guard_bounds :
    (parse_duration : Text → Option ℤ) (getenv : Text → Text) (guard : BulkGuard)
    → bulk_guard_from_env parse_duration getenv ≡ reads guard
    → (guard.throttle_pause ≤ hour) × (1 ≤ guard.failure_percent) × (guard.failure_percent ≤ 100)
unfolding bulk_guard_from_env
bulk_guard_bounds parse_duration getenv guard h =
    let (pause, p, h₁) = step_of_reads (pause_from_env parse_duration getenv) _ h in
    let (count, _, h₂) = step_of_reads (limit_from_env getenv failure_pause_count_env 10) _ h₁ in
    let (percent, q, h₃) = step_of_reads (percent_from_env parse_duration getenv) _ h₂ in
    ground (
      arith,
      pause_bounds parse_duration getenv pause,
      percent_bounds parse_duration getenv percent,
    )

-- A lane as its own two variables set it: the transport that its switch names, and, unless that is off,
-- the mailbox that its address parses to.
abbrev pub HasFrom : (Text → Option MailAddress) → (Text → Text) → Text → Text → LaneConfig → Type 0
HasFrom parse_address getenv switch mailbox c =
    (transport_of (to_lower (trim_space (getenv switch))) ≡ some c.transport)
    × ((c.transport ≡ off)
        ⊎ ((a : MailAddress) × (c.from ≡ some a)
            × (parse_address (trim_space (getenv mailbox)) ≡ some a)))

with_from-reads :
    (parse_address : Text → Option MailAddress) (lane : Lane) (t : Transport)
    (found : Option MailAddress) (c : LaneConfig)
    → with_from parse_address lane t found ≡ reads c
    → (a : MailAddress) × (found ≡ some a) × (c.from ≡ some a) × (c.transport ≡ t)
with_from-reads parse_address lane t none c h = cc
with_from-reads parse_address lane t (some a) c h = (a, refl, ground arith, ground arith)

named_lane-HasFrom :
    (parse_address : Text → Option MailAddress) (getenv : Text → Text) (lane : Lane) (t : Transport)
    (c : LaneConfig)
    → named_lane parse_address getenv lane t ≡ reads c
    → (a : MailAddress) × (parse_address (trim_space (getenv (from_env lane))) ≡ some a)
      × (c.from ≡ some a)
      × (c.transport ≡ t)
unfolding named_lane
named_lane-HasFrom parse_address getenv lane t c h =
    elim (Bool-cases (text_eq (trim_space (getenv (from_env lane))) [])) [
      | inl e ↦ absurd (stopped (rw e at h))
      | inr n ↦
          with_from-reads parse_address lane t (parse_address (trim_space (getenv (from_env lane))))
            c (rw n at h)
    ]
  where
    stopped : stops_at (send_env lane) ≡ reads c → ⊥
    stopped e = cc

lane_from_env-HasFrom :
    (parse_address : Text → Option MailAddress) (getenv : Text → Text) (lane : Lane)
    (t : Option Transport) (c : LaneConfig)
    → transport_of (to_lower (trim_space (getenv (send_env lane)))) ≡ t
    → on_transport parse_address getenv lane t ≡ reads c
    → HasFrom parse_address getenv (send_env lane) (from_env lane) c
lane_from_env-HasFrom parse_address getenv lane none c e h = cc
lane_from_env-HasFrom parse_address getenv lane (some off) c e h =
    (e ∙ ground arith, inl (ground arith))
lane_from_env-HasFrom parse_address getenv lane (some graph) c e h =
    let (a, p, from, t) = named_lane-HasFrom parse_address getenv lane graph c h in
    (e ∙ ap some (sym t), inr (a, from, p))
lane_from_env-HasFrom parse_address getenv lane (some xoauth2) c e h =
    let (a, p, from, t) = named_lane-HasFrom parse_address getenv lane xoauth2 c h in
    (e ∙ ap some (sym t), inr (a, from, p))

-- All lanes are off, or the application's credentials were read.
abbrev pub HasCredentials : Bool → SendLanes → Type 0
HasCredentials credentials l =
    ((l.hesap_lane.transport ≡ off)
      × (l.bilgi_lane.transport ≡ off)
      × (l.duyuru_lane.transport ≡ off))
    ⊎ (credentials ≡ true)

is_off_sound : (t : Transport) → is_off t ≡ true → t ≡ off
is_off_sound off h = refl
is_off_sound graph h = cc
is_off_sound xoauth2 h = cc

with_credentials-eq-reads :
    (credentials : Bool) (l m : SendLanes)
    → with_credentials credentials l ≡ reads m
    → (l ≡ m) × HasCredentials credentials l
unfolding with_credentials any_on lane_config
with_credentials-eq-reads credentials l m h = (
  ground arith,
  elim (Bool-cases credentials) [
    | inl y ↦ inr y
    | inr n ↦ inl (
      is_off_sound l.hesap_lane.transport (ground arith),
      is_off_sound l.bilgi_lane.transport (ground arith),
      is_off_sound l.duyuru_lane.transport (ground arith),
    )
  ],
)

-- Lanes that startup accepts: each lane has the transport that its own switch names and, unless that is
-- off, the address that its own SKYMAIL_FROM variable parses to; and unless all three are off, the
-- application's credentials were read.
pub send_lanes-HasFrom :
    (parse_address : Text → Option MailAddress) (getenv : Text → Text) (credentials : Bool)
    (lanes : SendLanes)
    → send_lanes_from_env parse_address getenv credentials ≡ reads lanes
    → HasFrom parse_address getenv
        (codes "SKYMAIL_SEND_HESAP")
        (codes "SKYMAIL_FROM_HESAP")
        lanes.hesap_lane
      × HasFrom parse_address getenv
          (codes "SKYMAIL_SEND_BILGI")
          (codes "SKYMAIL_FROM_BILGI")
          lanes.bilgi_lane
      × HasFrom parse_address getenv
          (codes "SKYMAIL_SEND_DUYURU")
          (codes "SKYMAIL_FROM_DUYURU")
          lanes.duyuru_lane
      × HasCredentials credentials lanes
unfolding send_lanes_from_env lane_from_env
send_lanes-HasFrom parse_address getenv credentials lanes h =
    let (_, _, h₁) = step_of_reads (switch_from_env getenv list_unsubscribe_env) _ h in
    let (_, _, h₂) = step_of_reads (switch_from_env getenv purpose_env) _ h₁ in
    let (a, p, h₃) = step_of_reads (lane_from_env parse_address getenv hesap) _ h₂ in
    let (b, q, h₄) = step_of_reads (lane_from_env parse_address getenv bilgi) _ h₃ in
    let (d, r, h₅) = step_of_reads (lane_from_env parse_address getenv duyuru) _ h₄ in
    let (_, _, h₆) = step_of_reads (reply_to_from_env parse_address getenv) _ h₅ in
    let from = λ (lane : Lane). HasFrom parse_address getenv (send_env lane) (from_env lane) in
    let from_a : from hesap a = lane_from_env-HasFrom parse_address getenv hesap _ a refl p in
    let from_b : from bilgi b = lane_from_env-HasFrom parse_address getenv bilgi _ b refl q in
    let from_d : from duyuru d = lane_from_env-HasFrom parse_address getenv duyuru _ d refl r in
    let (e, c) = with_credentials-eq-reads credentials _ lanes h₆ in
    (
      subst (λ l. from hesap l.hesap_lane) e from_a,
      subst (λ l. from bilgi l.bilgi_lane) e from_b,
      subst (λ l. from duyuru l.duyuru_lane) e from_d,
      subst (HasCredentials credentials) e c,
    )
