-- ===== src/Broker/Tokens/Laws.antt =====
-- The tokens of the credentials are all collected, and the longest come first.
use strange_claw.Prelude.{
  ◌≡◌, ◌≢◌, ◌≤◌, refl, ◌∙◌, true, ◌||◌, some, List, [], ◌∷◌, ◌++◌, length, arith, Bool-cases, inl,
  inr,
}
use strange_claw.Text.{Text, codes, text_eq, elem}
use strange_claw.Text.Equality.{text_eq_refl}
use strange_claw.Value.{
  Value, null, boolean, int, float, str, list, tuple, dict, Items, nil, cons, Dict, empty, entry,
  Key, name, other, get, get_field, key_eq,
}
use strange_claw.Broker.Tokens.{
  add, add_token, collect, collect_items, collect_dict, insert_by_length, sort_by_length,
  collect_credential_tokens,
}

elem-append : (t : Text) (us vs : List Text) → elem t (us ++ vs) ≡ (elem t us || elem t vs)
unfolding elem
elem-append t [] vs = refl
elem-append t (u ∷ us) vs = ground (arith, elem-append t us vs)

elem-add_self : (t : Text) (ts : List Text) → elem t (add t ts) ≡ true
unfolding add elem
elem-add_self t ts = ground (arith, elem-append t ts (t ∷ []), text_eq_refl t)

elem-add : (t u : Text) (ts : List Text) → elem t ts ≡ true → elem t (add u ts) ≡ true
unfolding add
elem-add t u ts h = ground (arith, elem-append t ts (u ∷ []))

elem-add_token :
    (t : Text) (k : Key) (v : Value) (ts : List Text)
    → elem t ts ≡ true
    → elem t (add_token k v ts) ≡ true
unfolding add_token
elem-add_token t (name k) (str s) ts h = ground (arith, elem-add t s ts)
elem-add_token t k v ts h = h

-- What has been collected stays.
mutual
  unfolding collect

  elem-collect :
      (t : Text) (ts : List Text) (v : Value) → elem t ts ≡ true → elem t (collect ts v) ≡ true
  elem-collect t ts (dict d) h = elem-collect_dict t ts d h
  elem-collect t ts (list xs) h = elem-collect_items t ts xs h
  elem-collect t ts null h = h
  elem-collect t ts (boolean b) h = h
  elem-collect t ts (int n) h = h
  elem-collect t ts (float n) h = h
  elem-collect t ts (str s) h = h
  elem-collect t ts (tuple xs) h = h

  elem-collect_items :
      (t : Text) (ts : List Text) (xs : Items)
      → elem t ts ≡ true
      → elem t (collect_items ts xs) ≡ true
  elem-collect_items t ts nil h = h
  elem-collect_items t ts (cons v xs) h =
      elem-collect_items t (collect ts v) xs (elem-collect t ts v h)

  elem-collect_dict :
      (t : Text) (ts : List Text) (d : Dict) → elem t ts ≡ true → elem t (collect_dict ts d) ≡ true
  elem-collect_dict t ts empty h = h
  elem-collect_dict t ts (entry k v d) h =
      elem-collect_dict t (collect (add_token k v ts) v) d
        (elem-collect t (add_token k v ts) v (elem-add_token t k v ts h))

elem-add_token_self :
    (k t : Text) (ts : List Text)
    → text_eq k (codes "token") ≡ true
    → t ≢ []
    → elem t (add_token (name k) (str t) ts) ≡ true
unfolding add_token
elem-add_token_self k [] ts e given = absurd (given refl)
elem-add_token_self k (c ∷ t) ts e given = rw e (elem-add_self (c ∷ t) ts)

-- The token of a mapping is collected from it.
collect_dict_own :
    (t : Text) (ts : List Text) (d : Dict)
    → get_field "token" d ≡ some (str t)
    → t ≢ []
    → elem t (collect_dict ts d) ≡ true
unfolding collect get key_eq
collect_dict_own t ts empty e given = absurd (cc)
collect_dict_own t ts (entry (name k) v d) e given = elim (Bool-cases (text_eq k (codes "token"))) [
  | inl same ↦
      let v_eq : v ≡ str t = ground arith in
      rw v_eq (
        elem-collect_dict t (collect (add_token (name k) (str t) ts) (str t)) d
          (elem-add_token_self k t ts same given))
  | inr differs ↦ collect_dict_own t (collect (add_token (name k) v ts) v) d (ground arith) given
]
collect_dict_own t ts (entry (other n) v d) e given =
    collect_dict_own t (collect (add_token (other n) v ts) v) d e given

-- `P` holds of the token of each mapping among the values.
abbrev pub Covers : (Text → Type 0) → Dict → Type 0
Covers P empty = Unit
Covers P (entry k (dict fields) d) =
    ((t : Text) → get_field "token" fields ≡ some (str t) → t ≢ [] → P t) × Covers P d
Covers P (entry k _ d) = Covers P d

collect_dict-Covers :
    (ts : List Text) (d : Dict) → Covers (λ t. elem t (collect_dict ts d) ≡ true) d
unfolding collect
collect_dict-Covers ts empty = tt
collect_dict-Covers ts (entry k (dict fields) d) = (
  λ t e given.
      elem-collect_dict t (collect (add_token k (dict fields) ts) (dict fields)) d
        (collect_dict_own t (add_token k (dict fields) ts) fields e given),
  collect_dict-Covers (collect (add_token k (dict fields) ts) (dict fields)) d,
)
collect_dict-Covers ts (entry k v d) = collect_dict-Covers (collect (add_token k v ts) v) d

Covers-map : (P Q : Text → Type 0) (d : Dict) → ((t : Text) → P t → Q t) → Covers P d → Covers Q d
Covers-map P Q empty f h = tt
Covers-map P Q (entry k (dict fields) d) f h =
    ((λ t e given. f t (h.0 t e given)), Covers-map P Q d f h.1)
Covers-map P Q (entry k v d) f h = Covers-map P Q d f h

elem-insert_by_length :
    (t u : Text) (us : List Text) → elem t (insert_by_length u us) ≡ (text_eq t u || elem t us)
unfolding insert_by_length elem
elem-insert_by_length t u [] = refl
elem-insert_by_length t u (v ∷ us) = ground (arith, elem-insert_by_length t u us)

elem-sort_by_length : (t : Text) (us : List Text) → elem t (sort_by_length us) ≡ elem t us
unfolding sort_by_length elem
elem-sort_by_length t [] = refl
elem-sort_by_length t (u ∷ us) =
    ground (arith, elem-insert_by_length t u (sort_by_length us), elem-sort_by_length t us)

-- The token of every mapping among the credentials is one of the collected tokens.
pub collect_credential_tokens-Covers :
    (credentials : Dict)
    → Covers (λ t. elem t (collect_credential_tokens credentials) ≡ true) credentials
unfolding collect_credential_tokens
collect_credential_tokens-Covers credentials =
    Covers-map _ _ credentials (λ t h. elem-sort_by_length t (collect_dict [] credentials) ∙ h)
      (collect_dict-Covers [] credentials)

-- Each text is at least as long as the next.
abbrev pub LongestFirst : List Text → Type 0
LongestFirst [] = Unit
LongestFirst (t ∷ []) = Unit
LongestFirst (t ∷ u ∷ us) = (length u ≤ length t) × LongestFirst (u ∷ us)

insert_by_length-LongestFirst :
    (t : Text) (us : List Text) → LongestFirst us → LongestFirst (insert_by_length t us)
unfolding insert_by_length
insert_by_length-LongestFirst t [] h = tt
insert_by_length-LongestFirst t (u ∷ []) h = ground arith
insert_by_length-LongestFirst t (u ∷ v ∷ us) h =
    ground (arith, insert_by_length-LongestFirst t (v ∷ us) h.1)

sort_by_length-LongestFirst : (us : List Text) → LongestFirst (sort_by_length us)
unfolding sort_by_length
sort_by_length-LongestFirst [] = tt
sort_by_length-LongestFirst (u ∷ us) =
    insert_by_length-LongestFirst u (sort_by_length us) (sort_by_length-LongestFirst us)

-- A longer token is always replaced before a shorter one, which may be a part of it.
pub collect_credential_tokens-LongestFirst :
    (credentials : Dict) → LongestFirst (collect_credential_tokens credentials)
unfolding collect_credential_tokens
collect_credential_tokens-LongestFirst credentials =
    sort_by_length-LongestFirst (collect_dict [] credentials)
