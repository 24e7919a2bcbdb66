-- ===== src/Broker/Host.antt =====
-- The state that the methods of `RequestBroker` change, and the methods as actions on it: the world,
-- the rate limiters, and the trace of what the broker asked of the network, newest first.
use strange_claw.Prelude.{Bool, true, false, Option, none, some, List, [], ◌∷◌, ◌≡◌, arith}
use strange_claw.Text.{Text}
use strange_claw.Assoc.{Assoc, insert, lookup}
use strange_claw.Python.{Platform, Outcome, returned, raised, Resolution, Reply, Outbound}
use strange_claw.Broker.Bucket.{Bucket, consume}
pub mod Triple

pub data Event : Type 0 where
  looked_up : Text → Resolution → Event
  sent : Outbound → Event

pub record Host (W : Type 0) : Type 0 where
  pub world : W
  pub trace : List Event
  pub limiters : Assoc Bucket

abbrev pub Exec : Type 0 → Type 0 → Type 0
Exec W A = Host W → Outcome A × Host W

module _ {W : Type 0} {A : Type 0} where
  unfoldable pub pure : A → Exec W A
  pure a h = (returned a, h)

  unfoldable pub lift : Outcome A → Exec W A
  lift r h = (r, h)

module _ {W A B : Type 0} where
  abbrev pub continue : Outcome A → (A → Exec W B) → Exec W B
  continue (returned a) f h = f a h
  continue (raised e) f h = (raised e, h)

  infixl 10 ◌>>=◌
  unfoldable pub ◌>>=◌ : Exec W A → (A → Exec W B) → Exec W B
  ◌>>=◌ m f h = let (r, h') = m h in continue r f h'

module _ {W : Type 0} (py : Platform W) where
  -- `socket.getaddrinfo(hostname, None)`
  unfoldable pub getaddrinfo : Text → Exec W Resolution
  getaddrinfo hostname h =
      let (r, w) = py.getaddrinfo hostname h.world in
      (returned r, record h { world = w; trace = looked_up hostname r ∷ h.trace })

  -- `session.request(...)`
  unfoldable pub request : Outbound → Exec W Reply
  request o h =
      let (r, w) = py.request o h.world in
      (returned r, record h { world = w; trace = sent o ∷ h.trace })

  spend : Text → Option Bucket → Exec W Bool
  spend integration none h = (returned true, h)
  spend integration (some b) h =
      let (now, w) = py.monotonic h.world in
      let (granted, b') = consume now b in
      (returned granted, record h { world = w; limiters = insert integration b' h.limiters })

  -- `_consume_rate_limit`: an integration without a limiter is not limited.
  unfoldable pub consume_rate_limit : Text → Exec W Bool
  unfolding spend
  consume_rate_limit integration h = spend integration (lookup integration h.limiters) h

  -- The rate limiters do not touch the trace.
  pub trace-consume_rate_limit :
      (integration : Text) (h : Host W) → (consume_rate_limit integration h).1.trace ≡ h.trace
  unfolding consume_rate_limit
  trace-consume_rate_limit integration h = ground arith
