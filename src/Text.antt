-- ===== src/Text.antt =====
-- Python's `str` as the list of its code points, with the operations that sandbox/broker.py uses:
-- `==`, `in` on a tuple of texts, `startswith` and `replace`.
use Prim.Native.Char.{code}
use strange_claw.Prelude.{
  ℕ, zero, suc, ◌-◌, String, Bool, true, false, ◌&&◌, ◌||◌, List, [], ◌∷◌, ◌++◌, ◌==◌, length,
  if◌then◌else◌,
}
pub mod Search
pub mod Equality
pub mod Order

abbrev pub Text : Type 0
Text = List ℕ

-- A literal of the source.
abbrev pub codes : String → Text
codes String.[] = []
codes (String.◌∷◌ c s) = code c ∷ codes s

-- `a == b`
unfoldable pub text_eq : Text → Text → Bool
text_eq [] [] = true
text_eq [] (d ∷ t) = false
text_eq (c ∷ s) [] = false
text_eq (c ∷ s) (d ∷ t) = (c == d) && text_eq s t

-- `a in names`
unfoldable pub elem : Text → List Text → Bool
elem a [] = false
elem a (b ∷ bs) = text_eq a b || elem a bs

-- `not a`
abbrev pub is_empty : Text → Bool
is_empty [] = true
is_empty (c ∷ s) = false

-- `a or b`
abbrev pub or_else : Text → Text → Text
or_else [] b = b
or_else (c ∷ s) b = c ∷ s

-- `s.startswith(u)`
unfoldable pub is_prefix : Text → Text → Bool
is_prefix [] s = true
is_prefix (d ∷ u) [] = false
is_prefix (d ∷ u) (c ∷ s) = (d == c) && is_prefix u s

-- `u in s`
unfoldable pub contains : Text → Text → Bool
unfolding is_prefix
contains u [] = is_prefix u []
contains u (c ∷ s) = is_prefix u (c ∷ s) || contains u s

-- One left-to-right pass that replaces the occurrences of a non-empty `old`. The number counts the
-- characters of an occurrence that are still to be skipped.
unfoldable pub scan : Text → Text → ℕ → Text → Text
scan old new k [] = []
scan old new (suc k) (c ∷ s) = scan old new k s
scan old new zero (c ∷ s) =
    let found = is_prefix old (c ∷ s) in
    (if found then new else c ∷ []) ++ scan old new (if found then length old - 1 else 0) s

-- Python puts `new` before each character and at the end where `old` is empty.
unfoldable pub interleave : Text → Text → Text
interleave new [] = new
interleave new (c ∷ s) = new ++ c ∷ interleave new s

-- `s.replace(old, new)`
unfoldable pub replace : Text → Text → Text → Text
unfolding scan interleave
replace [] new s = interleave new s
replace (d ∷ old) new s = scan (d ∷ old) new 0 s
