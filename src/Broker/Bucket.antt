-- ===== src/Broker/Bucket.antt =====
-- sandbox/broker.py: `_TokenBucket`. The clock counts ticks. A token is as many units as its period has
-- ticks, so that one tick refills `requests_count` units and no fraction is lost: where the source rounds a
-- float, this is exact. An infinite period has the refill rate 0; with `nan` the sum is no number,
-- and `min` gives the capacity.
use strange_claw.Prelude.{ℕ, ◌+◌, ◌-◌, ◌*◌, min, Bool, true, false, ltb, if◌then◌else◌}
use strange_claw.Broker.Numbers.{Period, finite, infinite, undefined}
pub mod Limit

pub record Bucket : Type 0 where
  pub requests_count : ℕ
  pub per_seconds : Period
  pub tokens : ℕ
  pub last_refill : ℕ

-- The units of one token
abbrev pub unit : Period → ℕ
unit (finite n) = n
unit infinite = 1
unit undefined = 1

abbrev pub capacity : Bucket → ℕ
capacity b = b.requests_count * unit b.per_seconds

-- `__init__`, with the reading of the clock
unfoldable pub new_bucket : ℕ → Period → ℕ → Bucket
new_bucket requests_count per_seconds now = record {
  requests_count = requests_count;
  per_seconds = per_seconds;
  tokens = requests_count * unit per_seconds;
  last_refill = now;
}

abbrev pub refilled : Period → ℕ → Bucket → ℕ
refilled (finite n) elapsed b = min (capacity b) (b.tokens + elapsed * b.requests_count)
refilled infinite elapsed b = min (capacity b) b.tokens
refilled undefined elapsed b = capacity b

unfoldable pub refill : ℕ → Bucket → Bucket
refill now b =
    if ltb b.last_refill now
    then record b { tokens = refilled b.per_seconds (now - b.last_refill) b; last_refill = now }
    else b

-- `tokens < 1.0`, and the token that is taken
unfoldable pub take_token : Bucket → Bool × Bucket
take_token b =
    if ltb b.tokens (unit b.per_seconds)
    then (false, b)
    else (true, record b { tokens = b.tokens - unit b.per_seconds })

unfoldable pub consume : ℕ → Bucket → Bool × Bucket
consume now b = take_token (refill now b)
