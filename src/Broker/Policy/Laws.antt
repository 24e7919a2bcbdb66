-- ===== src/Broker/Policy/Laws.antt =====
-- What holds of every policy that `from_record` builds.
use strange_claw.Prelude.{
  Bool, false, ap, ◌∙◌, ◌<◌, ◌≡◌, ◌≢◌, refl, true, none, some, List, [], ◌∷◌, ◌++◌, map, map-append,
  All, Bool-cases, inl, inr, arith, if◌then◌else◌, String,
}
use strange_claw.Text.{Text, codes, text_eq, elem}
use strange_claw.Text.Equality.{text_eq_refl}
use strange_claw.Value.{Dict, str, dict, get_field}
use strange_claw.Python.{Platform, returned}
use strange_claw.Broker.Checked.{Checked, ok, Yields, Yields-ok, Yields-bind, Yields-require}
use strange_claw.Broker.Numbers.{to_positive_int-pos}
use strange_claw.Broker.Policy.{
  Policy, field_or_none, from_record, normalize_allowed_scheme, normalize_schemes,
  ensure_protected_header,
}
use strange_claw.Broker.Policy.Values.{
  HasValues, added_header, non_empty-Yields, as_text-Yields, as_string_tuple-Yields,
  normalize_schemes-lower, ensure_protected_header-added, default_headers_of-Yields,
  from_outcome-Yields, must-Yields, limits_of-Yields, Listed-change, IsHeaderName-Yields,
}

abbrev pub IsWebScheme : Text → Type 0
IsWebScheme s = elem s (codes "http" ∷ codes "https" ∷ []) ≡ true

module _ {W : Type 0} (py : Platform W) where
  Yields-both :
      {A : Type 0} {P Q : A → Type 0} (m : Checked A)
      → Yields P m
      → Yields Q m
      → Yields (λ a. P a × Q a) m
  Yields-both m p q = record { at = λ a e. (p.at a e, q.at a e) }

  -- A policy that the broker may act on.
  pub record IsSound (p : Policy) : Type 0 where
    pub has_token : p.token ≢ []
    pub has_auth_type : elem p.auth_type (codes "bearer" ∷ codes "header" ∷ []) ≡ true
    pub web_schemes : All IsWebScheme p.allowed_schemes
    pub has_room : 0 < p.max_response_bytes
    pub protects_header :
        text_eq p.auth_type (codes "header") ≡ true
        → elem (py.lower p.header_name) (map py.lower p.protected_headers) ≡ true

  field_or_none-str :
      (k : String) (fields : Dict) (s : Text)
      → field_or_none k fields ≡ str s
      → get_field k fields ≡ some (str s)
  field_or_none-str k fields s e = ground arith

  field_or_none-dict :
      (k : String) (fields d : Dict)
      → field_or_none k fields ≡ dict d
      → get_field k fields ≡ some (dict d)
  field_or_none-dict k fields d e = ground arith

  normalize_allowed_scheme-Yields : (s : Text) → Yields IsWebScheme (normalize_allowed_scheme py s)
  unfolding normalize_allowed_scheme
  normalize_allowed_scheme-Yields s =
      Yields-bind _ _ (Yields-require _ _) λ _ web. Yields-ok (py.lower s) web

  normalize_schemes-Yields : (ss : List Text) → Yields (All IsWebScheme) (normalize_schemes py ss)
  unfolding normalize_schemes
  normalize_schemes-Yields [] = Yields-ok [] tt
  normalize_schemes-Yields (s ∷ ss) =
      Yields-bind _ _ (normalize_allowed_scheme-Yields s) λ scheme web.
        Yields-bind _ _ (normalize_schemes-Yields ss)
          λ rest all. Yields-ok (scheme ∷ rest) (web, all)

  elem-append_last : (a : Text) (bs : List Text) → elem a (bs ++ a ∷ []) ≡ true
  unfolding elem
  elem-append_last a [] = rw text_eq_refl
  elem-append_last a (b ∷ bs) = ground (arith, elem-append_last a bs)

  ensure_protected_header-elem :
      (hs : List Text) (required : Text)
      → elem (py.lower required) (map py.lower (ensure_protected_header py hs (some required)))
        ≡ true
  unfolding ensure_protected_header
  ensure_protected_header-elem hs required =
      elim (Bool-cases (elem (py.lower required) (map py.lower hs))) [
        | inl there ↦ rw there there
        | inr added ↦
            rw added (rw map-append (elem-append_last (py.lower required) (map py.lower hs)))
      ]

  protects :
      (b : Bool) (hs added : List Text) (required : Text)
      → b ≡ true
      → hs ≡ ensure_protected_header py added (if b then some required else none)
      → elem (py.lower required) (map py.lower hs) ≡ true
  protects true hs added required h e = rw e (ensure_protected_header-elem added required)
  protects false hs added required h e = absurd (cc)

  -- A sound policy, and the values of the record
  abbrev pub Built : Text → Dict → Policy → Type 0
  Built integration fields p = IsSound p × HasValues py integration fields p

  from_record-Yields :
      (integration : Text) (fields : Dict)
      → Yields (Built integration fields) (from_record py integration fields)
  unfolding from_record
  from_record-Yields integration fields =
      Yields-bind _ _ (as_text-Yields py _ (field_or_none "auth_type" fields))
        λ auth_type_raw is_auth. Yields-bind _ _ (Yields-require _ _) λ _ auth.
          Yields-bind _ _ (as_text-Yields py _ (field_or_none "token" fields)) λ token_text is_text.
            Yields-bind _ _ (non_empty-Yields py _ token_text) λ token given.
              Yields-bind _ _ (as_string_tuple-Yields py _ _) λ hosts is_hosts.
                Yields-bind _ _ (as_string_tuple-Yields py _ _) λ methods is_methods.
                  Yields-bind _ _ (as_string_tuple-Yields py _ _) λ paths is_paths.
                    Yields-bind _ _ (as_string_tuple-Yields py _ _) λ schemes is_schemes.
                      Yields-bind _ _
                        (Yields-both _ (normalize_schemes-Yields schemes)
                          (normalize_schemes-lower py schemes))
                        λ allowed_schemes web.
                          Yields-bind _ _ (as_string_tuple-Yields py _ _) λ protected is_protected.
                            Yields-bind _ _
                              (default_headers_of-Yields py
                                (field_or_none "default_headers" fields))
                              λ defaults is_defaults.
                                Yields-bind _ _ (from_outcome-Yields py _) λ max_bytes is_bytes.
                                  Yields-bind _ _ (must-Yields py _ max_bytes)
                                    λ max_response_bytes is_size.
                                      Yields-bind _ _
                                        (limits_of-Yields py (field_or_none "rate_limit" fields))
                                        λ limits is_limits.
                                          Yields-bind _ _
                                            (IsHeaderName-Yields py
                                              (text_eq (py.lower (py.strip auth_type_raw))
                                                (codes "header"))
                                              fields)
                                            λ header_name is_header.
                                              let by_header =
                                                text_eq (py.lower (py.strip auth_type_raw))
                                                  (codes "header") in
                                              let size = is_bytes ∙ ap returned is_size in
                                              Yields-ok _ (
                                                record {
                                                  has_token = given.0;
                                                  has_auth_type = auth;
                                                  web_schemes = web.0;
                                                  has_room =
                                                      to_positive_int-pos py _ max_response_bytes
                                                        size;
                                                  protects_header = λ h.
                                                      protects by_header _ protected header_name h
                                                        refl;
                                                },
                                                record {
                                                  of_name = refl;
                                                  of_auth_type = (
                                                    auth_type_raw,
                                                    field_or_none-str "auth_type" fields
                                                        auth_type_raw is_auth,
                                                    refl,
                                                  );
                                                  of_token = rw given.1 (
                                                      field_or_none-str "token" fields token_text
                                                        is_text);
                                                  of_hosts = is_hosts;
                                                  of_methods =
                                                      Listed-change py _ (map py.upper) methods _
                                                        is_methods refl;
                                                  of_paths = is_paths;
                                                  of_schemes =
                                                      Listed-change py _ (map py.lower) schemes _
                                                        is_schemes web.1;
                                                  of_protected =
                                                      Listed-change py _
                                                        (λ xs.
                                                          xs
                                                          ++ added_header py by_header header_name
                                                            xs)
                                                        protected _ is_protected
                                                        (ensure_protected_header-added py by_header
                                                          header_name protected);
                                                  of_defaults = (
                                                    is_defaults.0,
                                                    field_or_none-dict "default_headers" fields _
                                                        is_defaults.1,
                                                    is_defaults.2,
                                                  );
                                                  of_size = size;
                                                  of_limits = is_limits;
                                                  of_header = is_header;
                                                },
                                              )

  pub from_record-IsSound :
      (integration : Text) (fields : Dict) (p : Policy)
      → from_record py integration fields ≡ ok p
      → Built integration fields p
  from_record-IsSound integration fields p e = (from_record-Yields integration fields).at p e
