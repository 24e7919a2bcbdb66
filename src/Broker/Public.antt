-- ===== src/Broker/Public.antt =====
-- sandbox/broker.py: `_ssrf_check`, `_ssrf_or_deny`, `_normalize_public_ip` and
-- `_is_blocked_public_ip`.
pub mod Laws
use strange_claw.Prelude.{
  ℕ, ◌^◌, ◌/◌, ◌%◌, Bool, true, false, not, ◌||◌, Option, none, some, List, [], ◌∷◌, ◌++◌, ◌==◌,
  if◌then◌else◌,
}
use strange_claw.Text.{Text, codes, elem, or_else, is_empty}
use strange_claw.Value.{Dict}
use strange_claw.Python.{Platform, Outcome, IpAddress, v4, v6, Resolution, infos, gaierror, Url}
use strange_claw.Broker.Host.{Exec, pure, lift, ◌>>=◌, getaddrinfo}
use strange_claw.Broker.Validate.{PolicyResult, allow, refuse, denial_of}

-- An IPv4-mapped IPv6 address, ::ffff:a.b.c.d, stands for a.b.c.d.
unfoldable pub normalize_public_ip : IpAddress → IpAddress
normalize_public_ip (v4 n) = v4 n
normalize_public_ip (v6 n) = if n / 2 ^ 32 == 0xffff then v4 (n % 2 ^ 32) else v6 n

-- The address blocks of `ipaddress`: 127.0.0.0/8 and ::1, 169.254.0.0/16 and fe80::/10, 224.0.0.0/4
-- and ff00::/8, 0.0.0.0 and ::.
unfoldable pub is_loopback : IpAddress → Bool
is_loopback (v4 n) = n / 2 ^ 24 == 127
is_loopback (v6 n) = n == 1

unfoldable pub is_link_local : IpAddress → Bool
is_link_local (v4 n) = n / 2 ^ 16 == 0xa9fe
is_link_local (v6 n) = n / 2 ^ 118 == 0x3fa

unfoldable pub is_multicast : IpAddress → Bool
is_multicast (v4 n) = n / 2 ^ 28 == 0xe
is_multicast (v6 n) = n / 2 ^ 120 == 0xff

unfoldable pub is_unspecified : IpAddress → Bool
is_unspecified (v4 n) = n == 0
is_unspecified (v6 n) = n == 0

module _ {W : Type 0} (py : Platform W) where
  unfoldable pub is_blocked_public_ip : IpAddress → Bool
  unfolding is_loopback is_link_local is_multicast is_unspecified
  is_blocked_public_ip ip =
      py.is_private ip || is_loopback ip || is_link_local ip || is_multicast ip || is_unspecified ip

  blocked_reason : Text → IpAddress → Text
  blocked_reason hostname ip =
      codes "SSRF: " ++ hostname ++ codes " resolves to blocked address " ++ py.ip_text ip

  -- The first blocked address, if one is found; what is no address is passed over.
  unfoldable pub first_blocked : List (Option Text) → Option IpAddress
  unfolding is_blocked_public_ip normalize_public_ip
  first_blocked [] = none
  first_blocked (none ∷ rest) = first_blocked rest
  first_blocked (some ip_text ∷ rest) =
      let later = first_blocked rest in
      elim (py.ip_address ip_text) [
        | none ↦ later
        | some ip ↦
            if is_blocked_public_ip (normalize_public_ip ip)
            then some (normalize_public_ip ip)
            else later
      ]

  check_addresses : Text → List (Option Text) → PolicyResult
  unfolding blocked_reason first_blocked
  check_addresses hostname addresses = elim (first_blocked addresses) [
    | none ↦ allow
    | some ip ↦ refuse (blocked_reason hostname ip)
  ]

  check_resolution : Text → Resolution → Outcome PolicyResult
  unfolding check_addresses
  check_resolution hostname (infos addresses) =
      Outcome.returned (check_addresses hostname addresses)
  check_resolution hostname gaierror =
      Outcome.returned (refuse (codes "DNS resolution failed for " ++ hostname))
  check_resolution hostname (Resolution.crashed e) = Outcome.raised e

  check_host : Option Text → Exec W PolicyResult
  unfolding check_resolution
  check_host none = pure (refuse (codes "DNS resolution failed for <unknown>"))
  check_host (some []) = pure (refuse (codes "DNS resolution failed for <unknown>"))
  check_host (some (c ∷ hostname)) = do
    found ← getaddrinfo py (c ∷ hostname)
    lift (check_resolution (c ∷ hostname) found)

  abbrev unsupported_scheme : Text → Text
  unsupported_scheme scheme =
      codes "unsupported URL scheme '"
      ++ or_else scheme (codes "<none>")
      ++ codes "' for public URL policy"

  unfoldable pub ssrf_check : Text → Exec W PolicyResult
  unfolding check_host
  ssrf_check url = do
    parsed ← lift (py.urlparse url)
    (if elem (py.lower parsed.scheme) (codes "http" ∷ codes "https" ∷ [])
        then check_host parsed.hostname
        else pure (refuse (unsupported_scheme (py.lower parsed.scheme))))

  unfoldable pub ssrf_or_deny : Text → Text → Text → Exec W (Option Dict)
  unfolding ssrf_check
  ssrf_or_deny integration method url = do
    ssrf ← ssrf_check url
    pure (denial_of py integration method url (codes "SSRF denied") ssrf)
