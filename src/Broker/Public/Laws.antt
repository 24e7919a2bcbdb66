-- ===== src/Broker/Public/Laws.antt =====
-- The SSRF check lets a URL pass only after a lookup of its host that gave no blocked address.
use strange_claw.Prelude.{◌≡◌, refl, true, Option, none, some, List, [], ◌∷◌, All, arith}
use strange_claw.Text.{Text, codes, elem}
use strange_claw.Assoc.{Assoc}
use strange_claw.Python.{Platform, returned, Url, Resolution, infos, gaierror}
use strange_claw.Broker.Policy.{Policy}
use strange_claw.Broker.Host.{Host, lift, getaddrinfo}
use strange_claw.Broker.Host.Triple.{
  Triple, Triple-pure, Triple-lift, Triple-if, Triple-bind, Triple-weaken,
}
use strange_claw.Broker.Validate.{PolicyResult, denial_of}
use strange_claw.Broker.Public.{
  first_blocked, check_addresses, check_resolution, check_host, ssrf_check, ssrf_or_deny,
}
use strange_claw.Broker.Safety.{PublicAddress, JustLookedUp, IsPublicTarget, Safe}

module _ {W : Type 0} (py : Platform W) where
  first_blocked-none :
      (addresses : List (Option Text))
      → first_blocked py addresses ≡ none
      → All (PublicAddress py) addresses
  unfolding first_blocked
  first_blocked-none [] e = tt
  first_blocked-none (none ∷ rest) e = (tt, first_blocked-none rest e)
  first_blocked-none (some t ∷ rest) e =
      (λ ip found. ground arith, first_blocked-none rest (ground arith))

  check_addresses-allowed :
      (hostname : Text) (addresses : List (Option Text))
      → (check_addresses py hostname addresses).allowed ≡ true
      → first_blocked py addresses ≡ none
  unfolding check_addresses
  check_addresses-allowed hostname addresses e = ground arith

  module _ (policies : Assoc Policy) where
    -- A lookup whose answers are all unblocked is the last thing in the trace.
    LookedUp : Text → Resolution → Host W → Type 0
    LookedUp hostname r h =
        Safe py policies h
        × ((addresses : List (Option Text))
            → r ≡ infos addresses
            → All (PublicAddress py) addresses
            → JustLookedUp py hostname h.trace)

    getaddrinfo-Triple :
        (hostname : Text)
        → Triple (Safe py policies) (getaddrinfo py hostname) (LookedUp hostname) (Safe py policies)
    unfolding getaddrinfo LookedUp
    getaddrinfo-Triple hostname = record {
      at = λ h safe. (safe, λ addresses e unblocked. rw e (refl, unblocked));
    }

    -- What is known where a host has passed.
    Passed : Option Text → PolicyResult → Host W → Type 0
    Passed hostname r h =
        Safe py policies h
        × (r.allowed ≡ true → (host : Text) × (hostname ≡ some host) × JustLookedUp py host h.trace)

    check_resolution-Triple :
        (hostname : Text) (r : Resolution)
        → Triple
            (LookedUp hostname r)
            (lift (check_resolution py hostname r))
            (Passed (some hostname))
            (Safe py policies)
    unfolding LookedUp Passed check_resolution lift
    check_resolution-Triple hostname (infos addresses) = record {
      at = λ h known. (
        known.0,
        λ passed. (
          hostname,
          refl,
          known.1 addresses refl
              (first_blocked-none addresses (check_addresses-allowed hostname addresses passed)),
        ),
      );
    }
    check_resolution-Triple hostname gaierror = record {
      at = λ h known. (known.0, λ passed. absurd (ground arith));
    }
    check_resolution-Triple hostname (Resolution.crashed e) = record { at = λ h known. known.0 }

    check_host-Triple :
        (hostname : Option Text)
        → Triple (Safe py policies) (check_host py hostname) (Passed hostname) (Safe py policies)
    unfolding check_host Passed
    check_host-Triple none = Triple-pure _ (λ h safe. (safe, λ passed. absurd (ground arith)))
    check_host-Triple (some []) = Triple-pure _ (λ h safe. (safe, λ passed. absurd (ground arith)))
    check_host-Triple (some (c ∷ hostname)) =
        Triple-bind _ _ (getaddrinfo-Triple (c ∷ hostname)) (check_resolution-Triple (c ∷ hostname))

  module _ (policies : Assoc Policy) where
    Admitted : Text → PolicyResult → Host W → Type 0
    Admitted url r h = Safe py policies h × (r.allowed ≡ true → IsPublicTarget py url h.trace)

    ssrf_check-Triple :
        (url : Text)
        → Triple (Safe py policies) (ssrf_check py url) (Admitted url) (Safe py policies)
    unfolding ssrf_check Admitted Passed
    ssrf_check-Triple url =
        Triple-bind {Q = λ u h. Safe py policies h × (py.urlparse url ≡ returned u)} _ _
          (Triple-lift (py.urlparse url) (λ u h e safe. (safe, e)) (λ h safe. safe))
          λ u.
            Triple-if (elem (py.lower u.scheme) (codes "http" ∷ codes "https" ∷ [])) _ _
              (λ web. record {
                at = λ h known.
                    (Triple-weaken _ (check_host-Triple policies u.hostname) (λ h' safe. safe)
                        (λ r h' p. (p.0, λ allowed. admit url u known.1 web h' (p.1 allowed)))).at
                      h known.0;
              })
              (λ _. Triple-pure _ (λ h known. (known.0, λ passed. absurd (ground arith))))
      where
        admit :
            (url : Text) (u : Url)
            → py.urlparse url ≡ returned u
            → elem (py.lower u.scheme) (codes "http" ∷ codes "https" ∷ []) ≡ true
            → (h : Host W) → (host : Text) × (u.hostname ≡ some host) × JustLookedUp py host h.trace
            → IsPublicTarget py url h.trace
        admit url u parses web h (host, has, looked) = record {
          parsed = u;
          parses = parses;
          web_scheme = web;
          host = host;
          has_host = has;
          just_looked_up = looked;
        }

    denial_of-none :
        (integration method url otherwise : Text) (r : PolicyResult)
        → denial_of py integration method url otherwise r ≡ none
        → r.allowed ≡ true
    denial_of-none integration method url otherwise r e = ground arith

    -- Where the check gives no denial, the URL is a public target at that moment.
    pub ssrf_or_deny-Triple :
        (integration method url : Text)
        → Triple
            (Safe py policies)
            (ssrf_or_deny py integration method url)
            (λ d h. Safe py policies h × (d ≡ none → IsPublicTarget py url h.trace))
            (Safe py policies)
    unfolding ssrf_or_deny Admitted
    ssrf_or_deny-Triple integration method url = Triple-bind _ _ (ssrf_check-Triple url) λ r.
        Triple-pure _ (λ h known.
          (known.0, λ e. known.1 (denial_of-none integration method url (codes "SSRF denied") r e)))
