-- ===== src/Broker/Init.antt =====
-- sandbox/broker.py: `RequestBroker.__init__`. A record that is refused is skipped, with a warning.
use strange_claw.Prelude.{ℕ, Option, none, some, List, [], ◌∷◌}
use strange_claw.Text.{Text}
use strange_claw.Assoc.{Assoc, insert}
use strange_claw.Value.{
  Value, null, boolean, int, float, str, list, tuple, dict, Dict, empty, entry, Key, name, other,
}
use strange_claw.Python.{Platform, Outcome, returned, raised}
use strange_claw.Broker.Numbers.{Period}
use strange_claw.Broker.Bucket.{Bucket, new_bucket}
use strange_claw.Broker.Checked.{Checked, ok, value_error, crashed}
use strange_claw.Broker.Policy.{Policy, from_record}
use strange_claw.Broker.Tokens.{collect_credential_tokens}
use strange_claw.Broker.Handle.{RequestBroker}
pub mod Laws
pub mod Tests

-- `_policies` and `_rate_limiters`
pub record Tables : Type 0 where
  pub policies : Assoc Policy
  pub limiters : Assoc Bucket

module _ {W : Type 0} (py : Platform W) where
  add_limiter : Text → Option ℕ → Option Period → Tables → W → Tables × W
  add_limiter integration (some requests) (some period) t w =
      let (now, w') = py.monotonic w in
      (record t { limiters = insert integration (new_bucket requests period now) t.limiters }, w')
  add_limiter integration _ _ t w = (t, w)

  add_policy : Text → Policy → Tables → W → Tables × W
  unfolding add_limiter
  add_policy integration p t w =
      add_limiter integration p.rate_limit_requests p.rate_limit_period_seconds
        (record t { policies = insert integration p t.policies }) w

  -- The next tables, or the exception that the constructor does not catch.
  add_checked : Text → Checked Policy → Tables → W → Outcome Tables × W
  unfolding add_policy
  add_checked integration (ok p) t w =
      let (t', w') = add_policy integration p t w in (returned t', w')
  add_checked integration (value_error e) t w = (returned t, w)
  add_checked integration (crashed e) t w = (raised e, w)

  abbrev pub and_then : Outcome Tables × W → (Tables → W → Outcome Tables × W) → Outcome Tables × W
  and_then (returned t, w) next = next t w
  and_then (raised e, w) next = (raised e, w)

  pub add_all : Dict → Tables → W → Outcome Tables × W
  unfolding add_checked
  add_all empty t w = (returned t, w)
  add_all (entry (name integration) (dict fields) d) t w =
      and_then (add_checked integration (from_record py integration fields) t w) (add_all d)
  add_all (entry k v d) t w = add_all d t w

  abbrev pub broker_of :
      Dict → Dict → Outcome Tables × W → Outcome (RequestBroker × Assoc Bucket) × W
  broker_of credentials config (returned t, w) = (
    returned (
      record {
        policies = t.policies;
        config = config;
        redaction_tokens = collect_credential_tokens credentials;
      },
      t.limiters,
    ),
    w,
  )
  broker_of credentials config (raised e, w) = (raised e, w)

  -- The broker and its rate limiters.
  pub new_broker : Dict → Dict → W → Outcome (RequestBroker × Assoc Bucket) × W
  unfolding add_all
  new_broker credentials config w =
      broker_of credentials config (add_all credentials (record { policies = []; limiters = [] }) w)
