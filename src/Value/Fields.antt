-- ===== src/Value/Fields.antt =====
-- Laws of dictionaries: `get` after `put`, and properties that `put` keeps.
use strange_claw.Prelude.{Bool-cases, inl, inr, true, false, ◌≡◌, refl, some, arith, ==_iff, ap}
use strange_claw.Text.Equality.{text_eq→eq, text_eq_refl}
use strange_claw.Value.{Value, Key, name, other, Dict, empty, entry, key_eq, get, put}

pub key_eq→eq : (j k : Key) → key_eq j k ≡ true → j ≡ k
unfolding key_eq
key_eq→eq (name s) (name t) h = ap name (text_eq→eq s t h)
key_eq→eq (name s) (other n) h = ground arith
key_eq→eq (other m) (name t) h = ground arith
key_eq→eq (other m) (other n) h = ap other ((==_iff m n).0 h)

pub key_eq_refl : (k : Key) → key_eq k k ≡ true
unfolding key_eq
key_eq_refl (name s) = text_eq_refl s
key_eq_refl (other n) = (==_iff n n).1 refl

pub get-put_self : (k : Key) (v : Value) (d : Dict) → get k (put k v d) ≡ some v
unfolding get put
get-put_self k v empty = rw key_eq_refl
get-put_self k v (entry j w d) = ground (arith, get-put_self k v d)

-- Another key keeps its value.
pub get-put_other :
    (j k : Key) (v : Value) (d : Dict) → key_eq j k ≡ false → get k (put j v d) ≡ get k d
unfolding get put
get-put_other j k v empty h = rw h refl
get-put_other j k v (entry i w d) h = elim (Bool-cases (key_eq i j)) [
  | inl same ↦ rw same (ground (arith, key_eq→eq i j same))
  | inr differs ↦ rw differs (ground (arith, get-put_other j k v d h))
]
