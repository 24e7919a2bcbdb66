-- ===== src/Broker/Validate/Laws.antt =====
-- `_validate` allows exactly the requests that the policy permits.
use strange_claw.Prelude.{
  ◌≡◌, refl, Bool, true, false, ◌↔◌, ◌||◌, Option, none, some, List, [], ◌∷◌, map, All, any, inl,
  inr, arith,
}
use strange_claw.Text.{Text, codes, text_eq, elem, or_else}
use strange_claw.Text.Equality.{text_eq_iff}
use strange_claw.Assoc.{Assoc, Headers, insert, lookup}
use strange_claw.Python.{Platform, Outcome-cases, returned, Url}
use strange_claw.Broker.Policy.{Policy}
use strange_claw.Broker.Validate.{
  allow, hostname_or_empty, protect, first_protected, check_headers, check_parts, validate,
  validate_or_deny,
}

abbrev pub is_some {ℓ} : {A : Type ℓ} → Option A → Bool
is_some none = false
is_some (some a) = true

-- `protected_by_lower` has the keys of its names in lower case.
lookup-insert-is_some :
    (k j v : Text) (d : Assoc Text)
    → is_some (lookup k (insert j v d)) ≡ (text_eq k j || is_some (lookup k d))
unfolding lookup insert
lookup-insert-is_some k j v [] = ground (arith, text_eq_iff j k, text_eq_iff k j)
lookup-insert-is_some k j v ((i, w) ∷ d) = ground (
  arith,
  text_eq_iff i j,
  text_eq_iff i k,
  text_eq_iff j k,
  text_eq_iff k j,
  lookup-insert-is_some k j v d,
)

lookup-protect-is_some :
    (lower : Text → Text) (k : Text) (d : Assoc Text) (names : List Text)
    → is_some (lookup k (protect lower d names))
      ≡ (elem k (map lower names) || is_some (lookup k d))
unfolding elem
lookup-protect-is_some lower k d [] = refl
lookup-protect-is_some lower k d (n ∷ names) = ground (
  arith,
  lookup-protect-is_some lower k (insert (lower n) n d) names,
  lookup-insert-is_some k (lower n) n d,
)

-- No header's name is protected, in any spelling of its letters.
abbrev pub NoneProtected : (Text → Text) → List Text → Headers → Type 0
NoneProtected lower names = All (λ (h : Text × Text). elem (lower h.0) (map lower names) ≡ false)

first_protected-none :
    (lower : Text → Text) (names : List Text) (hs : Headers)
    → first_protected lower (protect lower [] names) hs ≡ none
    → NoneProtected lower names hs
unfolding first_protected lookup
first_protected-none lower names [] e = tt
first_protected-none lower names ((n, v) ∷ hs) e =
    ground
      (arith, lookup-protect-is_some lower (lower n) [] names, first_protected-none lower names hs)

none-first_protected :
    (lower : Text → Text) (names : List Text) (hs : Headers)
    → NoneProtected lower names hs
    → first_protected lower (protect lower [] names) hs ≡ none
unfolding first_protected lookup
none-first_protected lower names [] e = refl
none-first_protected lower names ((n, v) ∷ hs) e =
    ground
      (arith, lookup-protect-is_some lower (lower n) [] names, none-first_protected lower names hs)

module _ {W : Type 0} (py : Platform W) where
  -- The requests that a policy permits, read off its fields.
  pub record Permits (p : Policy) (method_upper url : Text) (headers : Headers) : Type 0 where
    pub parsed : Url
    pub parses : py.urlparse url ≡ returned parsed
    pub scheme_listed : elem (py.lower parsed.scheme) p.allowed_schemes ≡ true
    pub method_listed : elem method_upper p.allowed_methods ≡ true
    pub host_matched : any (py.fnmatch (hostname_or_empty parsed)) p.allowed_hosts ≡ true
    pub path_matched : any (py.fnmatch (or_else parsed.path (codes "/"))) p.allowed_paths ≡ true
    pub none_protected : NoneProtected py.lower p.protected_headers headers

  check_headers-allow :
      (p : Policy) (hs : Headers)
      → (check_headers py p hs).allowed ≡ true
      → NoneProtected py.lower p.protected_headers hs
  unfolding check_headers
  check_headers-allow p hs e = first_protected-none py.lower p.protected_headers hs (ground arith)

  check_parts-allow :
      (p : Policy) (m : Text) (u : Url) (hs : Headers)
      → (check_parts py p m u hs).allowed ≡ true
      → (elem (py.lower u.scheme) p.allowed_schemes ≡ true)
        × (elem m p.allowed_methods ≡ true)
        × (any (py.fnmatch (hostname_or_empty u)) p.allowed_hosts ≡ true)
        × (any (py.fnmatch (or_else u.path (codes "/"))) p.allowed_paths ≡ true)
        × ((check_headers py p hs).allowed ≡ true)
  unfolding check_parts
  check_parts-allow p m u hs e = ground arith

  validate_or_deny-parsed :
      (p : Policy) (integration method url : Text) (hs : Headers)
      → validate_or_deny py p integration method url hs ≡ returned none
      → (u : Url) × (py.urlparse url ≡ returned u)
        × ((check_parts py p (py.upper method) u hs).allowed ≡ true)
  unfolding validate_or_deny validate
  validate_or_deny-parsed p integration method url hs e = elim (Outcome-cases (py.urlparse url)) [
    | inl (u, parses) ↦ (u, parses, ground arith)
    | inr (x, raises) ↦ absurd (ground arith)
  ]

  validate_or_deny-Permits :
      (p : Policy) (integration method url : Text) (hs : Headers)
      → validate_or_deny py p integration method url hs ≡ returned none
      → Permits p (py.upper method) url hs
  validate_or_deny-Permits p integration method url hs e =
      let (u, parses, allowed) = validate_or_deny-parsed p integration method url hs e in
      let (scheme, listed, host, path, headers) =
        check_parts-allow p (py.upper method) u hs allowed in
      record {
        parsed = u;
        parses = parses;
        scheme_listed = scheme;
        method_listed = listed;
        host_matched = host;
        path_matched = path;
        none_protected = check_headers-allow p hs headers;
      }

  Permits-check_parts :
      (p : Policy) (method url : Text) (hs : Headers) (a : Permits p method url hs)
      → check_parts py p method a.parsed hs ≡ allow
  unfolding check_parts check_headers
  Permits-check_parts p method url hs a =
      ground (arith, none-first_protected py.lower p.protected_headers hs a.none_protected)

  Permits-validate_or_deny :
      (p : Policy) (integration method url : Text) (hs : Headers)
      → Permits p (py.upper method) url hs
      → validate_or_deny py p integration method url hs ≡ returned none
  unfolding validate_or_deny validate
  Permits-validate_or_deny p integration method url hs a =
      ground (arith, a.parses, Permits-check_parts p (py.upper method) url hs a)

  -- The broker lets a request pass exactly when the policy permits it: its URL parses, its scheme and
  -- its method in upper case are listed, its host and its path each match a pattern, and none of its
  -- headers has the name of a protected one, in any spelling of the letters.
  pub validate_or_deny_lem :
      (p : Policy) (integration method url : Text) (hs : Headers)
      → (validate_or_deny py p integration method url hs ≡ returned none)
        ↔ Permits p (py.upper method) url hs
  validate_or_deny_lem p integration method url hs = (
    validate_or_deny-Permits p integration method url hs,
    Permits-validate_or_deny p integration method url hs,
  )

  -- A URL that is permitted with one method is permitted with each permitted method.
  pub Permits-with_method :
      (p : Policy) (m n url other : Text) (hs : Headers)
      → Permits p m other hs
      → Permits p n url hs
      → Permits p m url hs
  Permits-with_method p m n url other hs a b = record {
    parsed = b.parsed;
    parses = b.parses;
    scheme_listed = b.scheme_listed;
    method_listed = a.method_listed;
    host_matched = b.host_matched;
    path_matched = b.path_matched;
    none_protected = b.none_protected;
  }
