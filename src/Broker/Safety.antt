-- ===== src/Broker/Safety.antt =====
-- What justifies a request that the broker hands to the network, by the trace at that moment.
use strange_claw.Prelude.{◌≡◌, true, false, ◌⊎◌, Option, none, some, List, [], ◌∷◌, All}
use strange_claw.Text.{Text, codes, elem}
use strange_claw.Assoc.{Assoc, Headers, lookup, update}
use strange_claw.Python.{Platform, returned, Url, infos, IpAddress, Outbound}
use strange_claw.Broker.Policy.{Policy}
use strange_claw.Broker.Host.{Event, looked_up, sent, Host}
use strange_claw.Broker.Validate.{inject}
use strange_claw.Broker.Validate.Laws.{Permits, NoneProtected}
use strange_claw.Broker.Public.{normalize_public_ip, is_blocked_public_ip}

module _ {W : Type 0} (py : Platform W) where
  -- An address of a lookup that is not blocked. What is no address is not counted.
  abbrev pub PublicAddress : Option Text → Type 0
  PublicAddress none = Unit
  PublicAddress (some t) =
      (ip : IpAddress)
      → py.ip_address t ≡ some ip
      → is_blocked_public_ip py (normalize_public_ip ip) ≡ false

  -- The last thing asked of the network is the address of this host, and no answer is blocked.
  abbrev pub JustLookedUp : Text → List Event → Type 0
  JustLookedUp host [] = ⊥
  JustLookedUp host (sent o ∷ trace) = ⊥
  JustLookedUp host (looked_up name (infos addresses) ∷ trace) =
      (name ≡ host) × All PublicAddress addresses
  JustLookedUp host (looked_up name r ∷ trace) = ⊥

  -- A request of an integration: its policy permits it as it stands, and it carries the defaults of
  -- the policy, the model's headers and the policy's credential.
  pub record FromIntegration (policies : Assoc Policy) (o : Outbound) : Type 0 where
    pub integration : Text
    pub policy : Policy
    pub configured : lookup integration policies ≡ some policy
    pub model_headers : Headers
    pub permitted : Permits py policy o.method o.url model_headers
    pub headers_eq : o.headers ≡ inject policy model_headers

  -- The URL is of a web scheme, and the last thing asked of the network is its host.
  pub record IsPublicTarget (url : Text) (trace : List Event) : Type 0 where
    pub parsed : Url
    pub parses : py.urlparse url ≡ returned parsed
    pub web_scheme : elem (py.lower parsed.scheme) (codes "http" ∷ codes "https" ∷ []) ≡ true
    pub host : Text
    pub has_host : parsed.hostname ≡ some host
    pub just_looked_up : JustLookedUp host trace

  -- A public request: to a public target, and with the model's headers alone, none of them an
  -- authorization.
  pub record FromPublic (o : Outbound) (trace : List Event) : Type 0 where
    pub target : IsPublicTarget o.url trace
    pub model_headers : Headers
    pub headers_eq : o.headers ≡ update [] model_headers
    pub unauthorized : NoneProtected py.lower (codes "Authorization" ∷ []) model_headers

  abbrev pub Justified : Assoc Policy → Outbound → List Event → Type 0
  Justified policies o trace = FromIntegration policies o ⊎ FromPublic o trace

  -- Every request of the trace was justified when it was sent.
  abbrev pub IsSafe : Assoc Policy → List Event → Type 0
  IsSafe policies [] = Unit
  IsSafe policies (looked_up name r ∷ trace) = IsSafe policies trace
  IsSafe policies (sent o ∷ trace) = Justified policies o trace × IsSafe policies trace

  abbrev pub Safe : Assoc Policy → Host W → Type 0
  Safe policies h = IsSafe policies h.trace
