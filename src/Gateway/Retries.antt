-- ===== src/Gateway/Retries.antt =====
-- Retrying never sends a request again that may have reached the gateway.
use netcam.Prelude.{ℕ, ◌+◌, ◌≤◌, ◌<◌, ◌≡◌, suc, zero, arith, Bool, true, false}
use native.Mathlib.Decide.{dec_le}
use netcam.Gateway.{Attempt, before_connect, delivered, send_from, send_request}

abbrev pub is_before_connect : Attempt → Bool
is_before_connect (before_connect _) = true
is_before_connect (delivered _) = false

send_from-count :
    (left : ℕ) (attempt : ℕ → Attempt) (n : ℕ)
    → (suc n ≤ (send_from left attempt n).1) × ((send_from left attempt n).1 ≤ n + left + 1)
unfolding send_from
send_from-count zero attempt n = ground arith
send_from-count (suc left) attempt n = ground (arith, send_from-count left attempt (n + 1))

send_from-safe :
    (left : ℕ) (attempt : ℕ → Attempt) (n i : ℕ)
    → n ≤ i
    → suc i < (send_from left attempt n).1
    → is_before_connect (attempt i) ≡ true
unfolding send_from
send_from-safe zero attempt n i low high = ground arith
send_from-safe (suc left) attempt n i low high = elim (dec_le (suc n) i) [
  | yes later ↦ ground (arith, send_from-safe left attempt (n + 1) i (omega arith))
  | no now ↦ let here : n ≡ i = omega arith in ground arith
]

-- One call sends at least one and at most three requests, and each but the last failed before it
-- connected.
pub send_request_safe :
    (attempt : ℕ → Attempt) (i : ℕ)
    → (1 ≤ (send_request attempt).1)
      × ((send_request attempt).1 ≤ 3)
      × (suc i < (send_request attempt).1 → is_before_connect (attempt i) ≡ true)
unfolding send_request
send_request_safe attempt i = (
  (send_from-count 2 attempt 0).0,
  (send_from-count 2 attempt 0).1,
  λ high. send_from-safe 2 attempt 0 i (omega arith) high,
)
