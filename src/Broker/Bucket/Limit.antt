-- ===== src/Broker/Bucket/Limit.antt =====
-- What the token bucket limits: the requests granted over any sequence of calls.
use strange_claw.Prelude.{
  ℕ, ◌+◌, ◌-◌, ◌*◌, ◌≤◌, ◌≡◌, Bool, true, false, List, [], ◌∷◌, ap, arith, refl, length, ltb,
  if◌then◌else◌,
}
use native.Mathlib.Nat.{mul-le-mul_right}
use strange_claw.Broker.Numbers.{Period, finite, infinite, undefined}
use strange_claw.Broker.Bucket.{
  Bucket, unit, refilled, capacity, new_bucket, refill, take_token, consume,
}

abbrev pub granted : Bool → ℕ
granted true = 1
granted false = 0

-- The bucket after one call at each time, and how many calls were granted.
pub consume_all : List ℕ → Bucket → ℕ × Bucket
consume_all [] b = (0, b)
consume_all (now ∷ times) b =
    let (answer, b') = consume now b in
    let (count, b'') = consume_all times b' in (granted answer + count, b'')

abbrev pub IsWithin : Bucket → Type 0
IsWithin b = b.tokens ≤ capacity b

refilled-IsWithin :
    (period : Period) (elapsed : ℕ) (b : Bucket) → refilled period elapsed b ≤ capacity b
refilled-IsWithin (finite n) elapsed b = ground arith
refilled-IsWithin infinite elapsed b = ground arith
refilled-IsWithin undefined elapsed b = omega arith

refill-IsWithin : (now : ℕ) (b : Bucket) → IsWithin b → IsWithin (refill now b)
unfolding refill
refill-IsWithin now b h = ground (arith, refilled-IsWithin b.per_seconds (now - b.last_refill) b)

take_token-IsWithin : (b : Bucket) → IsWithin b → IsWithin (take_token b).1
unfolding take_token
take_token-IsWithin b h = ground arith

-- The tokens never exceed the capacity.
pub consume-IsWithin : (now : ℕ) (b : Bucket) → IsWithin b → IsWithin (consume now b).1
unfolding consume
consume-IsWithin now b h = take_token-IsWithin (refill now b) (refill-IsWithin now b h)

refill_keeps :
    (now : ℕ) (b : Bucket)
    → ((refill now b).requests_count ≡ b.requests_count)
      × ((refill now b).per_seconds ≡ b.per_seconds)
unfolding refill
refill_keeps now b = ground arith

take_token_pays :
    (b : Bucket)
    → (granted (take_token b).0 * unit b.per_seconds + (take_token b).1.tokens ≡ b.tokens)
      × ((take_token b).1.requests_count ≡ b.requests_count)
      × ((take_token b).1.per_seconds ≡ b.per_seconds)
      × ((take_token b).1.last_refill ≡ b.last_refill)
unfolding take_token
take_token_pays b = ground arith

consume_keeps :
    (now : ℕ) (b : Bucket)
    → ((consume now b).1.requests_count ≡ b.requests_count)
      × ((consume now b).1.per_seconds ≡ b.per_seconds)
unfolding consume
consume_keeps now b = ground (arith, refill_keeps now b, take_token_pays (refill now b))

refill-le : (now : ℕ) (b : Bucket) → IsWithin b → b.tokens ≤ (refill now b).tokens
unfolding refill
refill-le now b h = kept b.per_seconds
  where
    kept :
        (period : Period)
        → b.tokens
          ≤ (if ltb b.last_refill now
              then record b { tokens = refilled period (now - b.last_refill) b; last_refill = now }
              else b).tokens
    kept (finite n) = ground arith
    kept infinite = ground arith
    kept undefined = ground arith

take_token-grants : (b : Bucket) → unit b.per_seconds ≤ b.tokens → (take_token b).0 ≡ true
unfolding take_token
take_token-grants b h = grind arith

-- A call takes one token at most, and is granted if there is one.
consume-grants :
    (now : ℕ) (b : Bucket)
    → IsWithin b
    → unit b.per_seconds ≤ b.tokens
    → ((consume now b).0 ≡ true) × (b.tokens ≤ (consume now b).1.tokens + unit b.per_seconds)
unfolding consume
consume-grants now b h enough =
    let more = refill-le now b h in
    let same : unit (refill now b).per_seconds ≡ unit b.per_seconds =
      ap unit (refill_keeps now b).1 in
    let yes_it = take_token-grants (refill now b) (omega (arith, more, same)) in
    (yes_it, grind (arith, more, same, yes_it, (take_token_pays (refill now b)).0))

consume_all-grants :
    (times : List ℕ) (b : Bucket)
    → IsWithin b
    → length times * unit b.per_seconds ≤ b.tokens
    → (consume_all times b).0 ≡ length times
unfolding consume_all
consume_all-grants [] b h enough = refl
consume_all-grants (now ∷ times) b h enough =
    let first = consume-grants now b h (grind (arith, enough)) in
    let same : unit (consume now b).1.per_seconds ≡ unit b.per_seconds =
      ap unit (consume_keeps now b).1 in
    let rest =
      consume_all-grants times (consume now b).1 (consume-IsWithin now b h)
        (rw same (grind (arith, first.1, enough))) in
    rw first.0 (rw rest (omega arith))

-- A new bucket grants its first `requests_count` calls, at whatever clock readings, also readings that go
-- back, and whatever the period is.
pub first_calls-granted :
    (requests_count : ℕ) (per_seconds : Period) (start : ℕ) (times : List ℕ)
    → length times ≤ requests_count
    → (consume_all times (new_bucket requests_count per_seconds start)).0 ≡ length times
unfolding new_bucket
first_calls-granted r period start times h =
    consume_all-grants times (new_bucket r period start) (omega arith)
      (mul-le-mul_right (unit period) h)
