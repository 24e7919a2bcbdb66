-- ===== src/Broker/Policy/Values.antt =====
-- What the fields of a record say, and what the parsers of `from_record` take from them.
use strange_claw.Prelude.{
  ℕ, ◌≡◌, ◌≢◌, refl, Bool, true, false, not, ◌&&◌, Option, none, some, List, [], ◌∷◌, ◌++◌, map, ap,
  append-nil, Bool-cases, inl, inr, arith, String, ◌∙◌, if◌then◌else◌,
}
use strange_claw.Text.{Text, codes, text_eq, elem, is_empty}
use strange_claw.Assoc.{Headers, insert, update}
use strange_claw.Value.{
  Value, str, list, dict, Items, nil, cons, Dict, empty, entry, name, get_field, text, items,
}
use strange_claw.Python.{Platform, Outcome, returned, raised}
use strange_claw.Broker.Checked.{
  ok, Yields, Yields-ok, Yields-bind, Yields-require, Yields-value_error, Yields-crashed,
}
use strange_claw.Broker.Numbers.{Period, to_positive_int, to_positive_float}
use strange_claw.Broker.Policy.{
  Policy, field_or_none, field_or, as_text, non_empty, from_outcome, must, string_items,
  default_headers_of, string_list, as_string_tuple, normalize_allowed_scheme, normalize_schemes,
  ensure_protected_header, header_name_of, limits_of,
}

abbrev texts_of : List Text → Items
texts_of [] = nil
texts_of (s ∷ ss) = cons (str s) (texts_of ss)

-- The value is a list of one text or more.
abbrev pub AreTexts : Value → List Text → Type 0
AreTexts v ss = (v ≡ list (texts_of ss)) × (ss ≢ [])

abbrev entries_of : Headers → Dict
entries_of [] = empty
entries_of ((k, v) ∷ hs) = entry (name k) (str v) (entries_of hs)

module _ {W : Type 0} (py : Platform W) where
  -- The policy's list is that of the value, without the space around each text.
  abbrev pub Listed : Value → (List Text → List Text) → List Text → Type 0
  Listed v change xs = (ss : List Text) × AreTexts v ss × (xs ≡ change (map py.strip ss))

  -- What is made of the stripped texts
  pub Listed-change :
      (v : Value) (change : List Text → List Text) (xs ys : List Text)
      → Listed v (λ zs. zs) xs
      → ys ≡ change xs
      → Listed v change ys
  Listed-change v change xs ys h e = (h.0, h.1, e ∙ ap change h.2)

  -- The header that carries the token is added if it is to be protected and is not yet.
  abbrev pub added_header : Bool → Text → List Text → List Text
  added_header by_header header_name given =
      if by_header && not (elem (py.lower header_name) (map py.lower given))
      then header_name ∷ []
      else []

  abbrev pub HasLimits : Value → Option ℕ → Option Period → Type 0
  HasLimits (dict d) requests period =
      (to_positive_int py (field_or_none "requests" d) ≡ returned requests)
      × (to_positive_float py (field_or_none "per_seconds" d) ≡ returned period)
  HasLimits _ requests period = (requests ≡ none) × (period ≡ none)

  abbrev pub IsHeaderName : Bool → Dict → Text → Type 0
  IsHeaderName false fields header_name = header_name ≡ codes "Authorization"
  IsHeaderName true fields header_name =
      (raw : Text) × (field_or "header_name" (text "Authorization") fields ≡ str raw)
      × (header_name ≡ py.strip raw)
      × (header_name ≢ [])

  -- Each value of the policy, by the field of the record
  pub record HasValues (integration : Text) (fields : Dict) (p : Policy) : Type 0 where
    pub of_name : p.integration ≡ integration
    pub of_auth_type :
        (raw : Text) × (get_field "auth_type" fields ≡ some (str raw))
        × (p.auth_type ≡ py.lower (py.strip raw))
    pub of_token : get_field "token" fields ≡ some (str p.token)
    pub of_hosts : Listed (field_or_none "allowed_hosts" fields) (λ xs. xs) p.allowed_hosts
    pub of_methods :
        Listed (field_or_none "allowed_methods" fields) (map py.upper) p.allowed_methods
    pub of_paths : Listed (field_or_none "allowed_paths" fields) (λ xs. xs) p.allowed_paths
    pub of_schemes :
        Listed
          (field_or "allowed_schemes" (list (items (text "https" ∷ []))) fields)
          (map py.lower)
          p.allowed_schemes
    pub of_protected :
        Listed
          (field_or_none "protected_headers" fields)
          (λ xs. xs ++ added_header (text_eq p.auth_type (codes "header")) p.header_name xs)
          p.protected_headers
    pub of_defaults :
        (hs : Headers) × (get_field "default_headers" fields ≡ some (dict (entries_of hs)))
        × (p.default_headers ≡ update [] hs)
    pub of_size :
        to_positive_int py (field_or_none "max_response_bytes" fields)
        ≡ returned (some p.max_response_bytes)
    pub of_limits :
        HasLimits
          (field_or_none "rate_limit" fields)
          p.rate_limit_requests
          p.rate_limit_period_seconds
    pub of_header : IsHeaderName (text_eq p.auth_type (codes "header")) fields p.header_name

  string_list-Yields :
      (e : Text) (xs : Items)
      → Yields
          (λ ts. (ss : List Text) × (xs ≡ texts_of ss) × (ts ≡ map py.strip ss))
          (string_list py e xs)
  unfolding string_list
  string_list-Yields e nil = Yields-ok [] ([], refl, refl)
  string_list-Yields e (cons (str s) xs) = elim (Bool-cases (is_empty (py.strip s))) [
    | inl blank ↦ rw blank (Yields-value_error e)
    | inr given ↦ rw given (
        Yields-bind _ _ (string_list-Yields e xs)
          λ ts h. Yields-ok _ (s ∷ h.0, ap (cons (str s)) h.1, ap (λ us. py.strip s ∷ us) h.2))
  ]
  string_list-Yields e (cons _ xs) = Yields-value_error e

  texts-not_empty : (v : Value) (xs : Items) (ss : List Text) → cons v xs ≡ texts_of ss → ss ≢ []
  texts-not_empty v xs [] e = absurd (cc)
  texts-not_empty v xs (s ∷ ss) e = ground arith

  pub as_string_tuple-Yields :
      (v : Value) (field_name : String)
      → Yields (Listed v (λ xs. xs)) (as_string_tuple py v field_name)
  unfolding as_string_tuple
  as_string_tuple-Yields (list (cons v xs)) field_name = record {
    at = λ ts e.
        let h = (string_list-Yields _ (cons v xs)).at ts e in
        (h.0, (ap list h.1, texts-not_empty v xs h.0 h.1), h.2);
  }
  as_string_tuple-Yields (list nil) field_name = Yields-value_error _
  as_string_tuple-Yields _ field_name = Yields-value_error _

  pub normalize_schemes-lower :
      (ss : List Text) → Yields (λ ts. ts ≡ map py.lower ss) (normalize_schemes py ss)
  unfolding normalize_schemes normalize_allowed_scheme
  normalize_schemes-lower [] = Yields-ok [] refl
  normalize_schemes-lower (s ∷ ss) =
      Yields-bind _ _
        (Yields-bind _ _ (Yields-require _ _) (λ _ web. Yields-ok {P = λ t. t ≡ py.lower s} _ refl))
        λ scheme is_lower.
          Yields-bind _ _ (normalize_schemes-lower ss)
            λ rest h. Yields-ok _ (rw is_lower (rw h refl))

  pub ensure_protected_header-added :
      (by_header : Bool) (header_name : Text) (given : List Text)
      → ensure_protected_header py given (if by_header then some header_name else none)
        ≡ given ++ added_header by_header header_name given
  unfolding ensure_protected_header
  ensure_protected_header-added false header_name given = rw append-nil refl
  ensure_protected_header-added true header_name given =
      elim (Bool-cases (elem (py.lower header_name) (map py.lower given))) [
        | inl there ↦ rw there (rw append-nil refl)
        | inr missing ↦ rw missing refl
      ]

  string_items-update :
      (acc : Headers) (d : Dict) (found : Headers)
      → string_items acc d ≡ some found
      → (hs : Headers) × (d ≡ entries_of hs) × (found ≡ update acc hs)
  unfolding string_items update
  string_items-update acc empty found e = ([], refl, cc)
  string_items-update acc (entry (name k) (str v) d) found e =
      let h = string_items-update (insert k v acc) d found e in
      ((k, v) ∷ h.0, ap (entry (name k) (str v)) h.1, h.2)
  string_items-update acc (entry _ _ d) found e = absurd (cc)

  pub default_headers_of-Yields :
      (v : Value)
      → Yields
          (λ found. (hs : Headers) × (v ≡ dict (entries_of hs)) × (found ≡ update [] hs))
          (default_headers_of v)
  unfolding default_headers_of must
  default_headers_of-Yields (dict d) = of_items (string_items [] d) refl
    where
      of_items :
          (x : Option Headers)
          → string_items [] d ≡ x
          → Yields
              (λ found. (hs : Headers) × (dict d ≡ dict (entries_of hs)) × (found ≡ update [] hs))
              (must (codes "default_headers must be a mapping of string keys and values") x)
      of_items none e = Yields-value_error _
      of_items (some found) e =
          let h = string_items-update [] d found e in Yields-ok found (h.0, ap dict h.1, h.2)
  default_headers_of-Yields _ = Yields-value_error _

  pub from_outcome-Yields :
      {A : Type 0} (x : Outcome A) → Yields (λ a. x ≡ returned a) (from_outcome x)
  unfolding from_outcome
  from_outcome-Yields (returned a) = Yields-ok a refl
  from_outcome-Yields (raised e) = Yields-crashed e

  pub must-Yields : {A : Type 0} (e : Text) (x : Option A) → Yields (λ a. x ≡ some a) (must e x)
  unfolding must
  must-Yields e none = Yields-value_error e
  must-Yields e (some a) = Yields-ok a refl

  pub limits_of-Yields : (v : Value) → Yields (λ l. HasLimits v l.0 l.1) (limits_of py v)
  unfolding limits_of
  limits_of-Yields (dict d) = Yields-bind _ _ (from_outcome-Yields _) λ requests r.
      Yields-bind _ _ (from_outcome-Yields _) λ period p. Yields-ok (requests, period) (r, p)
  limits_of-Yields _ = Yields-ok (none, none) (refl, refl)

  pub non_empty-Yields : (e s : Text) → Yields (λ t. (t ≢ []) × (t ≡ s)) (non_empty e s)
  unfolding non_empty
  non_empty-Yields e [] = Yields-value_error e
  non_empty-Yields e (c ∷ s) = Yields-ok (c ∷ s) (ground arith, refl)

  pub as_text-Yields : (e : Text) (v : Value) → Yields (λ s. v ≡ str s) (as_text e v)
  unfolding as_text
  as_text-Yields e (str s) = Yields-ok s refl
  as_text-Yields e _ = Yields-value_error e

  pub IsHeaderName-Yields :
      (by_header : Bool) (fields : Dict)
      → Yields
          (IsHeaderName by_header fields)
          (if by_header then header_name_of py fields else ok (codes "Authorization"))
  unfolding header_name_of
  IsHeaderName-Yields false fields = Yields-ok _ refl
  IsHeaderName-Yields true fields =
      Yields-bind _ _ (as_text-Yields _ (field_or "header_name" (text "Authorization") fields))
        λ raw is_raw. record {
          at = λ s e. let h = (non_empty-Yields _ (py.strip raw)).at s e in (raw, is_raw, h.1, h.0);
        }
