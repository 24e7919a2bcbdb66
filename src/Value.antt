-- ===== src/Value.antt =====
-- The values that the program passes around as `Any` and `dict[str, Any]`: what `json.loads` and
-- YAML give, and Python's tuples. A dictionary keeps the order of insertion.
use strange_claw.Prelude.{
  ℕ, Bool, true, false, Option, none, some, List, [], ◌∷◌, ◌==◌, if◌then◌else◌, String, length,
}
use strange_claw.Prelude.Int.{ℤ}
use strange_claw.Text.{Text, codes, text_eq}
pub mod Fields

-- A key that is no text (YAML allows it) is told apart by a number.
pub data Key : Type 0 where
  name : Text → Key
  other : ℕ → Key

-- A float is the bit pattern of its double.
mutual
  pub data Value : Type 0 where
    null : Value
    boolean : Bool → Value
    int : ℤ → Value
    float : ℕ → Value
    str : Text → Value
    list : Items → Value
    tuple : Items → Value
    dict : Dict → Value

  pub data Items : Type 0 where
    nil : Items
    cons : Value → Items → Items

  pub data Dict : Type 0 where
    empty : Dict
    entry : Key → Value → Dict → Dict

unfoldable pub key_eq : Key → Key → Bool
unfolding text_eq
key_eq (name s) (name t) = text_eq s t
key_eq (name s) (other n) = false
key_eq (other m) (name t) = false
key_eq (other m) (other n) = m == n

-- `d.get(k)`
unfoldable pub get : Key → Dict → Option Value
get k empty = none
get k (entry j v d) = if key_eq j k then some v else get k d

-- `d[k] = v`: a key that is there keeps its place.
unfoldable pub put : Key → Value → Dict → Dict
put k v empty = entry k v empty
put k v (entry j w d) = if key_eq j k then entry j v d else entry j w (put k v d)

-- `d.get("...")` and the pairs of a literal.
abbrev pub get_field : String → Dict → Option Value
get_field k d = get (name (codes k)) d

abbrev pub field : String → Value → Dict → Dict
field k v d = entry (name (codes k)) v d

-- A text of the source as a value.
abbrev pub text : String → Value
text s = str (codes s)

abbrev pub items : List Value → Items
items [] = nil
items (v ∷ vs) = cons v (items vs)
