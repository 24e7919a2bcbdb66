-- ===== src/Broker/Tokens.antt =====
-- sandbox/broker.py: `_collect_credential_tokens`.
use strange_claw.Prelude.{
  Bool, true, false, ◌&&◌, ◌||◌, not, Option, none, some, List, [], ◌∷◌, ◌++◌, leb, length,
  if◌then◌else◌,
}
use strange_claw.Text.{Text, codes, text_eq, elem, is_empty}
use strange_claw.Value.{
  Value, null, boolean, int, float, str, list, tuple, dict, Items, nil, cons, Dict, empty, entry,
  Key, name, other,
}
pub mod Laws
pub mod Tests

-- `tokens.add(item)`, to a set in the order of its insertion
add : Text → List Text → List Text
add t ts = if elem t ts then ts else ts ++ t ∷ []

-- The item of a key is a token if the key is `token` and the item a non-empty text.
add_token : Key → Value → List Text → List Text
unfolding add
add_token (name k) (str s) ts =
    if text_eq k (codes "token") && not (is_empty s) then add s ts else ts
add_token _ _ ts = ts

mutual
  pub collect : List Text → Value → List Text
  collect ts (dict d) = collect_dict ts d
  collect ts (list xs) = collect_items ts xs
  collect ts null = ts
  collect ts (boolean b) = ts
  collect ts (int n) = ts
  collect ts (float n) = ts
  collect ts (str s) = ts
  collect ts (tuple xs) = ts

  pub collect_items : List Text → Items → List Text
  collect_items ts nil = ts
  collect_items ts (cons v xs) = collect_items (collect ts v) xs

  pub collect_dict : List Text → Dict → List Text
  collect_dict ts empty = ts
  collect_dict ts (entry k v d) = collect_dict (collect (add_token k v ts) v) d

-- `sorted(tokens, key=len, reverse=True)`: the longest first
insert_by_length : Text → List Text → List Text
insert_by_length t [] = t ∷ []
insert_by_length t (u ∷ us) =
    if leb (length u) (length t) then t ∷ u ∷ us else u ∷ insert_by_length t us

sort_by_length : List Text → List Text
unfolding insert_by_length
sort_by_length [] = []
sort_by_length (t ∷ ts) = insert_by_length t (sort_by_length ts)

pub collect_credential_tokens : Dict → List Text
unfolding collect sort_by_length
collect_credential_tokens credentials = sort_by_length (collect_dict [] credentials)
