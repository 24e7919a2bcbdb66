-- ===== src/Broker/Redact/Clean.antt =====
-- What redaction guarantees: no token occurs in a redacted value, in no text and in no key.
use strange_claw.Prelude.{true, false, ◌≡◌, refl, List, [], ◌∷◌, All, Bool-cases, inl, inr}
use strange_claw.Text.{Text, codes, contains, replace, elem}
use strange_claw.Text.Equality.{All-elem}
use strange_claw.Text.Search.{
  NonEmpty, Bracketless, not_contains-replace, not_contains-replace_self,
}
use strange_claw.Value.{
  Value, null, boolean, int, float, str, list, tuple, dict, Items, nil, cons, Dict, empty, entry,
  Key, name, other, put, key_eq,
}
use strange_claw.Broker.Redact.{
  redaction, redact_string, redact_key, walk, walk_items, walk_dict, redact_value,
}

-- A token that the text put in its place cannot bring back.
abbrev pub Redactable : Text → Type 0
Redactable t = NonEmpty t × Bracketless t × (contains t (codes "REDACTED") ≡ false)

abbrev pub CleanText : List Text → Text → Type 0
CleanText ts s = All (λ t. contains t s ≡ false) ts

abbrev pub CleanKey : List Text → Key → Type 0
CleanKey ts (name s) = CleanText ts s
CleanKey ts (other n) = Unit

abbrev mutual
  pub Clean : List Text → Value → Type 0
  Clean ts null = Unit
  Clean ts (boolean b) = Unit
  Clean ts (int n) = Unit
  Clean ts (float n) = Unit
  Clean ts (str s) = CleanText ts s
  Clean ts (list xs) = CleanItems ts xs
  Clean ts (tuple xs) = CleanItems ts xs
  Clean ts (dict d) = CleanDict ts d

  pub CleanItems : List Text → Items → Type 0
  CleanItems ts nil = Unit
  CleanItems ts (cons v xs) = Clean ts v × CleanItems ts xs

  pub CleanDict : List Text → Dict → Type 0
  CleanDict ts empty = Unit
  CleanDict ts (entry k v d) = CleanKey ts k × Clean ts v × CleanDict ts d

-- Redaction by other tokens brings back no token that is gone.
contains-redact_string :
    (u : Text) (ts : List Text) (s : Text)
    → Redactable u
    → All Redactable ts
    → contains u s ≡ false
    → contains u (redact_string ts s) ≡ false
unfolding redact_string
contains-redact_string u [] s r rs h = h
contains-redact_string u (t ∷ ts) s r rs h =
    contains-redact_string u ts (replace t redaction s) r rs.1
      (not_contains-replace t (codes "REDACTED") u s rs.0.0 r.0 r.1 r.2 h)

pub redact_string-CleanText :
    (ts : List Text) (s : Text) → All Redactable ts → CleanText ts (redact_string ts s)
unfolding redact_string
redact_string-CleanText [] s rs = tt
redact_string-CleanText (t ∷ ts) s rs = (
  contains-redact_string t ts (replace t redaction s) rs.0 rs.1
      (not_contains-replace_self t (codes "REDACTED") s rs.0.0 rs.0.1 rs.0.2),
  redact_string-CleanText ts (replace t redaction s) rs.1,
)

put-CleanDict :
    (ts : List Text) (k : Key) (v : Value) (d : Dict)
    → CleanKey ts k
    → Clean ts v
    → CleanDict ts d
    → CleanDict ts (put k v d)
unfolding put
put-CleanDict ts k v empty hk hv hd = (hk, hv, tt)
put-CleanDict ts k v (entry j w d) hk hv hd = elim (Bool-cases (key_eq j k)) [
  | inl same ↦ rw same (hd.0, hv, hd.2)
  | inr differs ↦ rw differs (hd.0, hd.1, put-CleanDict ts k v d hk hv hd.2)
]

redact_key-CleanKey : (ts : List Text) (k : Key) → All Redactable ts → CleanKey ts (redact_key ts k)
unfolding redact_key
redact_key-CleanKey ts (name s) rs = redact_string-CleanText ts s rs
redact_key-CleanKey ts (other n) rs = tt

mutual
  unfolding walk

  walk-Clean : (ts : List Text) (v : Value) → All Redactable ts → Clean ts (walk ts v)
  walk-Clean ts null rs = tt
  walk-Clean ts (boolean b) rs = tt
  walk-Clean ts (int n) rs = tt
  walk-Clean ts (float n) rs = tt
  walk-Clean ts (str s) rs = redact_string-CleanText ts s rs
  walk-Clean ts (list xs) rs = walk_items-CleanItems ts xs rs
  walk-Clean ts (tuple xs) rs = walk_items-CleanItems ts xs rs
  walk-Clean ts (dict d) rs = walk_dict-CleanDict ts empty d rs tt

  walk_items-CleanItems :
      (ts : List Text) (xs : Items) → All Redactable ts → CleanItems ts (walk_items ts xs)
  walk_items-CleanItems ts nil rs = tt
  walk_items-CleanItems ts (cons v xs) rs = (walk-Clean ts v rs, walk_items-CleanItems ts xs rs)

  walk_dict-CleanDict :
      (ts : List Text) (acc d : Dict)
      → All Redactable ts
      → CleanDict ts acc
      → CleanDict ts (walk_dict ts acc d)
  walk_dict-CleanDict ts acc empty rs h = h
  walk_dict-CleanDict ts acc (entry k v d) rs h =
      walk_dict-CleanDict ts (put (redact_key ts k) (walk ts v) acc) d rs (
        put-CleanDict ts (redact_key ts k) (walk ts v) acc (redact_key-CleanKey ts k rs)
          (walk-Clean ts v rs) h)

CleanKey-no_tokens : (k : Key) → CleanKey [] k
CleanKey-no_tokens (name s) = tt
CleanKey-no_tokens (other n) = tt

mutual
  Clean-no_tokens : (v : Value) → Clean [] v
  Clean-no_tokens null = tt
  Clean-no_tokens (boolean b) = tt
  Clean-no_tokens (int n) = tt
  Clean-no_tokens (float n) = tt
  Clean-no_tokens (str s) = tt
  Clean-no_tokens (list xs) = CleanItems-no_tokens xs
  Clean-no_tokens (tuple xs) = CleanItems-no_tokens xs
  Clean-no_tokens (dict d) = CleanDict-no_tokens d

  CleanItems-no_tokens : (xs : Items) → CleanItems [] xs
  CleanItems-no_tokens nil = tt
  CleanItems-no_tokens (cons v xs) = (Clean-no_tokens v, CleanItems-no_tokens xs)

  CleanDict-no_tokens : (d : Dict) → CleanDict [] d
  CleanDict-no_tokens empty = tt
  CleanDict-no_tokens (entry k v d) =
      (CleanKey-no_tokens k, Clean-no_tokens v, CleanDict-no_tokens d)

-- If every token is non-empty, has no bracket and does not occur in "REDACTED", then no token
-- occurs in any text or key of a redacted value, however deep it lies.
pub redact_value-Clean :
    (ts : List Text) (v : Value) → All Redactable ts → Clean ts (redact_value ts v)
unfolding redact_value
redact_value-Clean [] v rs = Clean-no_tokens v
redact_value-Clean (t ∷ ts) v rs = walk-Clean (t ∷ ts) v rs

-- A redacted mapping is a mapping.
pub redact_value-dict :
    (ts : List Text) (d : Dict) → (redacted : Dict) × (redact_value ts (dict d) ≡ dict redacted)
unfolding redact_value walk
redact_value-dict [] d = (d, refl)
redact_value-dict (t ∷ ts) d = (walk_dict (t ∷ ts) empty d, refl)

module _ (t : Text) (ts : List Text) (member : elem t ts ≡ true) where
  CleanText-elem : (s : Text) → CleanText ts s → CleanText (t ∷ []) s
  CleanText-elem s h = (All-elem (λ u. contains u s ≡ false) t ts h member, tt)

  CleanKey-elem : (k : Key) → CleanKey ts k → CleanKey (t ∷ []) k
  CleanKey-elem (name s) h = CleanText-elem s h
  CleanKey-elem (other n) h = tt

  mutual
    Clean-elem : (v : Value) → Clean ts v → Clean (t ∷ []) v
    Clean-elem null h = tt
    Clean-elem (boolean b) h = tt
    Clean-elem (int n) h = tt
    Clean-elem (float n) h = tt
    Clean-elem (str s) h = CleanText-elem s h
    Clean-elem (list xs) h = CleanItems-elem xs h
    Clean-elem (tuple xs) h = CleanItems-elem xs h
    Clean-elem (dict d) h = CleanDict-elem' d h

    CleanItems-elem : (xs : Items) → CleanItems ts xs → CleanItems (t ∷ []) xs
    CleanItems-elem nil h = tt
    CleanItems-elem (cons v xs) h = (Clean-elem v h.0, CleanItems-elem xs h.1)

    CleanDict-elem' : (d : Dict) → CleanDict ts d → CleanDict (t ∷ []) d
    CleanDict-elem' empty h = tt
    CleanDict-elem' (entry k v d) h = (CleanKey-elem k h.0, Clean-elem v h.1, CleanDict-elem' d h.2)

  -- What is clean of many tokens is clean of each.
  pub CleanDict-elem : (d : Dict) → CleanDict ts d → CleanDict (t ∷ []) d
  CleanDict-elem d h = CleanDict-elem' d h
