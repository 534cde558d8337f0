-- ===== src/Graph.antt =====
-- internal/mailer/graph.go: what Microsoft Graph's refusal of a send means, and how long it asks to wait.
-- The error code of the reply's JSON body and http.ParseTime (in nanoseconds since the epoch) are inputs,
-- and so is how fmt writes a status and a duration.
use skymail_backend.Prelude.{
  ℕ, ◌+◌, ◌-◌, ◌*◌, ◌/◌, ◌%◌, ◌^◌, min, max, ◌≤◌, ◌≡◌, ◌≢◌, refl, ◌↔◌, ◌⊎◌, inl, inr, Bool, true,
  false, ◌&&◌, ◌||◌, Option, none, some, [], ◌∷◌, ◌++◌, Text, codes, text_eq, text_eq_sound,
  text_eq_refl, trim_space, ℤ, pos, negsuc, atoi, leb, ltb, ◌==◌, if◌then◌else◌, arith, Bool-cases,
  length,
}
use skymail_backend.Env.{second, hour}
use skymail_backend.Guard.{GraphReply, SendError, throttled, at_least_retry_after}

abbrev is_letter : ℕ → Bool
is_letter c = (leb b'A' c && leb c b'Z') || (leb b'a' c && leb c b'z')

abbrev is_code_char : ℕ → Bool
is_code_char c = is_letter c || (leb b'0' c && leb c b'9') || c == b'_' || c == b'.'

abbrev all_code_chars : Text → Bool
all_code_chars [] = true
all_code_chars (c ∷ s) = is_code_char c && all_code_chars s

-- graphErrorCode
unfoldable pub graph_error_code : Text → Bool
graph_error_code [] = false
graph_error_code (c ∷ s) = is_letter c && all_code_chars s && leb (length s) 63

abbrev max_retry_after : ℕ
max_retry_after = hour

-- A wait of a 64-bit two's complement duration: 0 where it is negative.
abbrev capped : ℕ → ℕ
capped v = if ltb v (2 ^ 63) then min v max_retry_after else 0

-- time.Duration(seconds) * time.Second, which wraps.
abbrev pub seconds_wait : ℤ → ℕ
seconds_wait (pos n) = capped (n * second % 2 ^ 64)
seconds_wait (negsuc n) = capped ((2 ^ 64 - (n + 1) * second % 2 ^ 64) % 2 ^ 64)

-- at.Sub(now).Round(time.Second), of a date after now.
abbrev pub date_wait : ℕ → ℤ → ℕ
date_wait now (negsuc n) = 0
date_wait now (pos at) = min ((at - now + second / 2) / second * second) max_retry_after

abbrev date_or_none : ℕ → Option ℤ → ℕ
date_or_none now none = 0
date_or_none now (some at) = date_wait now at

abbrev wait_of : ℕ → Option ℤ → Option ℤ → ℕ
wait_of now (some seconds) date = seconds_wait seconds
wait_of now none date = date_or_none now date

-- retryAfter
unfoldable pub retry_after : (Text → Option ℤ) → Text → ℕ → ℕ
retry_after parse_time value now =
    let v = trim_space value in if text_eq v [] then 0 else wait_of now (atoi v) (parse_time v)

-- Whether graphFailure takes a refusal for permanent, of a code that it kept.
abbrev refuses_for_good : ℕ → Text → Bool
refuses_for_good status code =
    (status == 400 && text_eq code (codes "ErrorInvalidRecipients")) || status == 413

abbrev kept_code : Text → Text
kept_code code = if graph_error_code code then code else []

module _ (decimal duration : ℕ → Text) where
  -- graphReply.Error
  unfoldable pub reply_text : Bool → GraphReply → Text
  reply_text for_good g =
      (if for_good then codes "graph_rejected" else codes "graph_deferred")
      ++ (codes ": "
          ++ (decimal g.status
              ++ ((if text_eq g.code [] then [] else codes " " ++ g.code)
                  ++ (if g.retry_after == 0
                      then []
                      else codes " retry-after " ++ duration g.retry_after))))

  -- graphFailure
  unfoldable pub graph_failure : (Text → Option ℤ) → ℕ → Text → Text → ℕ → SendError
  graph_failure parse_time status code retry_after_header now =
      let reply : GraphReply = record {
        status = status;
        code = kept_code code;
        retry_after = retry_after parse_time retry_after_header now;
      } in
      let for_good = refuses_for_good status (kept_code code) in
      record {
        text = reply_text for_good reply;
        permanent = for_good;
        smtp = none;
        graph = some reply;
      }

seconds_wait-le : (n : ℤ) → seconds_wait n ≤ hour
seconds_wait-le (pos n) = ground arith
seconds_wait-le (negsuc n) = ground arith

date_wait-le : (now : ℕ) (at : ℤ) → date_wait now at ≤ hour
date_wait-le now (pos n) = ground arith
date_wait-le now (negsuc n) = omega arith

wait_of-le : (now : ℕ) (a b : Option ℤ) → wait_of now a b ≤ hour
wait_of-le now (some n) b = seconds_wait-le n
wait_of-le now none (some at) = date_wait-le now at
wait_of-le now none none = omega arith

-- However a Retry-After reads, a row is held back for an hour at most.
pub retry_after-le :
    (parse_time : Text → Option ℤ) (value : Text) (now : ℕ)
    → retry_after parse_time value now ≤ hour
unfolding retry_after
retry_after-le parse_time value now =
    ground (arith, wait_of-le now (atoi (trim_space value)) (parse_time (trim_space value)))

seconds_wait-pos : (n : ℕ) → n ≤ 9223372036 → seconds_wait (pos n) ≡ min (n * second) hour
seconds_wait-pos n h = ground arith

-- A Retry-After of n seconds, for any n up to 9223372036, is n seconds, or an hour where that is less.
pub retry_after-seconds :
    (parse_time : Text → Option ℤ) (value : Text) (now n : ℕ)
    → trim_space value ≢ []
    → atoi (trim_space value) ≡ some (pos n)
    → n ≤ 9223372036
    → retry_after parse_time value now ≡ min (n * second) hour
unfolding retry_after
retry_after-seconds parse_time value now n some_text h low =
    elim (Bool-cases (text_eq (trim_space value) [])) [
      | inl e ↦ absurd (some_text (text_eq_sound (trim_space value) [] e))
      | inr e ↦ rw (e, h) (seconds_wait-pos n low)
    ]

invalid_recipients_code : graph_error_code (codes "ErrorInvalidRecipients") ≡ true
unfolding graph_error_code
invalid_recipients_code = refl

-- A refusal by Graph is permanent exactly when its status is 413, or is 400 with the code
-- ErrorInvalidRecipients, and is throttling exactly when its status is 429 or 503.
pub graph_failure_classes :
    (decimal duration : ℕ → Text) (parse_time : Text → Option ℤ) (status : ℕ) (code header : Text)
    (now : ℕ)
    → let e = graph_failure decimal duration parse_time status code header now in
      ((e.permanent ≡ true)
        ↔ ((status ≡ 413) ⊎ ((status ≡ 400) × (code ≡ codes "ErrorInvalidRecipients"))))
      × ((throttled e ≡ true) ↔ ((status ≡ 429) ⊎ (status ≡ 503)))
unfolding graph_failure throttled
graph_failure_classes decimal duration parse_time status code header now =
    ((kept status code, back status code), (λ h. ground arith, λ h. ground arith))
  where
    kept :
        (status : ℕ) (code : Text)
        → refuses_for_good status (kept_code code) ≡ true
        → (status ≡ 413) ⊎ ((status ≡ 400) × (code ≡ codes "ErrorInvalidRecipients"))
    kept status code h = elim (Bool-cases (graph_error_code code)) [
      | inl e ↦ ground (arith, text_eq_sound code (codes "ErrorInvalidRecipients"))
      | inr n ↦ ground arith
    ]

    back :
        (status : ℕ) (code : Text)
        → (status ≡ 413) ⊎ ((status ≡ 400) × (code ≡ codes "ErrorInvalidRecipients"))
        → refuses_for_good status (kept_code code) ≡ true
    back status code (inl h) = ground arith
    back status code (inr (h, k)) =
        rw (h, k)
          (ground (arith, invalid_recipients_code, text_eq_refl (codes "ErrorInvalidRecipients")))

-- After a refusal with a Retry-After of n seconds, for n up to 9223372036, the wait is that of n seconds,
-- cut to an hour, or the wait that there would have been where that is longer.
pub graph_failure-at_least_retry_after :
    (decimal duration : ℕ → Text) (parse_time : Text → Option ℤ) (status : ℕ) (code header : Text)
    (now delay n : ℕ)
    → trim_space header ≢ []
    → atoi (trim_space header) ≡ some (pos n)
    → n ≤ 9223372036
    → at_least_retry_after delay (graph_failure decimal duration parse_time status code header now)
      ≡ max delay (min (n * second) hour)
unfolding graph_failure at_least_retry_after
graph_failure-at_least_retry_after decimal duration parse_time status code header now delay n
      some_text h low =
    ground (arith, retry_after-seconds parse_time header now n some_text h low)
