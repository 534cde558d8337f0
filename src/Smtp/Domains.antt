-- ===== src/Smtp/Domains.antt =====
-- Which recipients are never sent to.
use mathlib.Core.List.{reverse-append, reverse-reverse, reverse}
use skymail_backend.Prelude.{
  ℕ, ◌≡◌, refl, sym, ap, ◌∙◌, ◌⊎◌, ◌↔◌, inl, inr, Bool, true, ◌||◌, none, some, List, [], ◌∷◌, ◌++◌,
  Text, codes, text_eq, text_eq_sound, text_eq_refl, has_prefix, has_suffix, after_last, to_lower,
  trim_space, trim_suffix_char, Bool-cases, arith,
}
use skymail_backend.Smtp.{reserved_domain, reserved_domains, any_domain, is_or_under}

has_prefix_sound : (s p : Text) → has_prefix s p ≡ true → (t : Text) × (s ≡ p ++ t)
has_prefix_sound s [] h = (s, refl)
has_prefix_sound [] (b ∷ p) h = cc
has_prefix_sound (a ∷ s) (b ∷ p) h =
    let (t, e) = has_prefix_sound s p (ground arith) in (t, ground arith)

has_prefix-append : (p t : Text) → has_prefix (p ++ t) p ≡ true
has_prefix-append [] t = refl
has_prefix-append (b ∷ p) t = ground (arith, has_prefix-append p t)

has_suffix_sound : (s p : Text) → has_suffix s p ≡ true → (t : Text) × (s ≡ t ++ p)
has_suffix_sound s p h =
    let (t, e) = has_prefix_sound (reverse s) (reverse p) h in
    (
      reverse t,
      sym (reverse-reverse s)
          ∙ ap reverse e
          ∙ reverse-append (reverse p) t
          ∙ ap (◌++◌ (reverse t)) (reverse-reverse p),
    )

has_suffix-append : (t p : Text) → has_suffix (t ++ p) p ≡ true
has_suffix-append t p = rw (reverse-append t p) (has_prefix-append (reverse p) (reverse t))

-- One of the names, or a name under one: what stands before the name ends in a dot.
abbrev pub Under : Text → List Text → Type 0
Under domain [] = ⊥
Under domain (r ∷ rs) =
    ((domain ≡ r) ⊎ ((t : Text) × (domain ≡ t ++ (codes "." ++ r)))) ⊎ Under domain rs

is_or_under_iff :
    (d r : Text) → (is_or_under d r ≡ true) ↔ ((d ≡ r) ⊎ ((t : Text) × (d ≡ t ++ (codes "." ++ r))))
is_or_under_iff d r = (to, back)
  where
    to : is_or_under d r ≡ true → (d ≡ r) ⊎ ((t : Text) × (d ≡ t ++ (codes "." ++ r)))
    to h = elim (Bool-cases (text_eq d r)) [
      | inl e ↦ inl (text_eq_sound d r e)
      | inr n ↦ inr (has_suffix_sound d (codes "." ++ r) (ground arith))
    ]

    back : (d ≡ r) ⊎ ((t : Text) × (d ≡ t ++ (codes "." ++ r))) → is_or_under d r ≡ true
    back (inl e) = ground (arith, text_eq_refl r)
    back (inr (t, e)) =
        let under : has_suffix d (codes "." ++ r) ≡ true =
          rw e (has_suffix-append t (codes "." ++ r)) in
        ground arith

or-true : (a b : Bool) → b ≡ true → (a || b) ≡ true
or-true a b h = ground arith

any_domain-Under : (d : Text) (rs : List Text) → any_domain d rs ≡ true → Under d rs
any_domain-Under d [] h = cc
any_domain-Under d (r ∷ rs) h = elim (Bool-cases (is_or_under d r)) [
  | inl e ↦ inl ((is_or_under_iff d r).0 e)
  | inr n ↦ inr (any_domain-Under d rs (rw n at h))
]

Under-any_domain : (d : Text) (rs : List Text) → Under d rs → any_domain d rs ≡ true
Under-any_domain d [] u = absurd u
Under-any_domain d (r ∷ rs) (inl u) = rw ((is_or_under_iff d r).1 u)
Under-any_domain d (r ∷ rs) (inr u) =
    or-true (is_or_under d r) (any_domain d rs) (Under-any_domain d rs u)

-- The host that is compared: trimmed, in lower case, and without one dot at its end.
abbrev pub host_name : Text → Text
host_name host = trim_suffix_char (to_lower (trim_space host)) b'.'

after_last-append :
    (c : ℕ) (s host : Text) → after_last c host ≡ none → after_last c (s ++ c ∷ host) ≡ some host
unfolding after_last
after_last-append c [] host h = rw h (ground arith)
after_last-append c (a ∷ s) host h = rw (after_last-append c s host h)

-- Of an address whose last @ stands before `host`, reserved_domain says yes exactly when the host's
-- name is one of the reserved names or ends in a dot and one of them.
pub reserved_domain_iff :
    (mailbox host : Text)
    → after_last b'@' host ≡ none
    → (reserved_domain (mailbox ++ b'@' ∷ host) ≡ true) ↔ Under (host_name host) reserved_domains
unfolding reserved_domain
reserved_domain_iff mailbox host h = rw (after_last-append b'@' mailbox host h) (
  any_domain-Under (host_name host) reserved_domains,
  Under-any_domain (host_name host) reserved_domains,
)
