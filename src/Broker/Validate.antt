-- ===== src/Broker/Validate.antt =====
-- sandbox/broker.py: `RequestBroker._validate`, `_deny`, `_validate_or_deny` and `_inject`.
use strange_claw.Prelude.{
  Bool, true, false, not, Option, none, some, List, [], ◌∷◌, ◌++◌, map, any, if◌then◌else◌,
}
use strange_claw.Text.{Text, codes, text_eq, elem, or_else}
use strange_claw.Assoc.{Assoc, Headers, insert, lookup, update}
use strange_claw.Value.{boolean, str, Dict, empty, field, text}
use strange_claw.Python.{Platform, Outcome, returned, raised, Url}
use strange_claw.Broker.Policy.{Policy}
pub mod Laws

-- `PolicyResult`
pub record PolicyResult : Type 0 where
  pub allowed : Bool
  pub reason : Option Text

abbrev pub allow : PolicyResult
allow = record { allowed = true; reason = none }

abbrev pub refuse : Text → PolicyResult
refuse why = record { allowed = false; reason = some why }

-- `parsed.hostname or ""`
abbrev pub hostname_or_empty : Url → Text
hostname_or_empty u = elim u.hostname [ none ↦ [] | some h ↦ h ]

-- `protected_by_lower`: of names that differ in case only, the last.
abbrev protect : (Text → Text) → Assoc Text → List Text → Assoc Text
protect lower d [] = d
protect lower d (name ∷ names) = protect lower (insert (lower name) name d) names

-- The first header that is protected, by its protected name.
first_protected : (Text → Text) → Assoc Text → Headers → Option Text
first_protected lower d [] = none
first_protected lower d ((name, v) ∷ hs) = elim (lookup (lower name) d) [
  | none ↦ first_protected lower d hs
  | some canonical ↦ some canonical
]

module _ {W : Type 0} (py : Platform W) where
  for_integration : Policy → Text
  for_integration p = codes " for integration '" ++ p.integration ++ codes "'"

  check_headers : Policy → Headers → PolicyResult
  unfolding for_integration first_protected
  check_headers p headers =
      elim (first_protected py.lower (protect py.lower [] p.protected_headers) headers) [
        | none ↦ allow
        | some canonical ↦
            refuse (codes "header '" ++ canonical ++ codes "' is protected" ++ for_integration p)
      ]

  check_parts : Policy → Text → Url → Headers → PolicyResult
  unfolding for_integration check_headers
  check_parts p method_upper u headers =
      let scheme = py.lower u.scheme in
      let host = hostname_or_empty u in
      let path = or_else u.path (codes "/") in
      if not (elem scheme p.allowed_schemes)
      then refuse (
          codes "scheme "
          ++ or_else scheme (codes "<none>")
          ++ codes " not in allowed_schemes "
          ++ py.repr_list p.allowed_schemes
          ++ for_integration p)
      else if not (elem method_upper p.allowed_methods)
      then refuse (
          codes "method "
          ++ method_upper
          ++ codes " not in allowed_methods "
          ++ py.repr_list p.allowed_methods
          ++ for_integration p)
      else if not (any (py.fnmatch host) p.allowed_hosts)
      then refuse (codes "host " ++ host ++ codes " not in allowed_hosts" ++ for_integration p)
      else if not (any (py.fnmatch path) p.allowed_paths)
      then refuse (
          codes "path "
          ++ path
          ++ codes " not matched by allowed_paths "
          ++ py.repr_list p.allowed_paths
          ++ for_integration p)
      else check_headers p headers

  unfoldable pub validate : Policy → Text → Text → Headers → Outcome PolicyResult
  unfolding check_parts
  validate p method url headers = elim (py.urlparse url) [
    | returned u ↦ returned (check_parts p (py.upper method) u headers)
    | raised e ↦ raised e
  ]

  pub deny : Text → Text → Text → Text → Dict
  deny integration method url reason = field "success" (boolean false) (
      field "error" (text "policy_denied") (
        field "reason" (str reason) (
          field "integration" (str integration) (
            field "requested_method" (str (py.upper method))
              (field "requested_url" (str url) empty)))))

  -- `None` where the request is allowed, or the denial
  abbrev pub denial_of : Text → Text → Text → Text → PolicyResult → Option Dict
  denial_of integration method url otherwise r =
      if r.allowed
      then none
      else some (
          deny integration method url
            (elim r.reason [ none ↦ otherwise | some why ↦ or_else why otherwise ]))

  unfoldable pub validate_or_deny : Policy → Text → Text → Text → Headers → Outcome (Option Dict)
  unfolding validate
  validate_or_deny p integration method url headers = elim (validate p method url headers) [
    | returned r ↦ returned (denial_of integration method url (codes "policy denied") r)
    | raised e ↦ raised e
  ]

-- The headers that are sent: the defaults, over them the model's, over them the credential.
unfoldable pub inject : Policy → Headers → Headers
inject p headers =
    let final_headers = update (update [] p.default_headers) headers in
    if text_eq p.auth_type (codes "bearer")
    then insert (codes "Authorization") (codes "Bearer " ++ p.token) final_headers
    else if text_eq p.auth_type (codes "header")
    then insert p.header_name p.token final_headers
    else final_headers
