-- ===== src/Text/Order.antt =====
-- Python's `sorted` on texts, by code points.
use strange_claw.Prelude.{
  Bool, true, false, ◌&&◌, ◌||◌, List, [], ◌∷◌, ltb, ◌==◌, All, if◌then◌else◌, Bool-cases, inl, inr,
}
use strange_claw.Text.{Text}

-- The order of `sorted`: by code points.
pub text_le : Text → Text → Bool
text_le [] t = true
text_le (c ∷ s) [] = false
text_le (c ∷ s) (d ∷ t) = ltb c d || ((c == d) && text_le s t)

insert_sorted : Text → List Text → List Text
insert_sorted a [] = a ∷ []
insert_sorted a (b ∷ bs) = if text_le a b then a ∷ b ∷ bs else b ∷ insert_sorted a bs

unfoldable pub sorted : List Text → List Text
unfolding insert_sorted text_le
sorted [] = []
sorted (a ∷ as_) = insert_sorted a (sorted as_)

insert_sorted-All :
    (P : Text → Type 0) (t : Text) (ts : List Text) → P t → All P ts → All P (insert_sorted t ts)
unfolding insert_sorted
insert_sorted-All P t [] h hs = (h, tt)
insert_sorted-All P t (u ∷ us) h hs = elim (Bool-cases (text_le t u)) [
  | inl before ↦ rw before (h, hs)
  | inr after ↦ rw after (hs.0, insert_sorted-All P t us h hs.1)
]

-- What all have, all of the sorted list have.
pub sorted-All : (P : Text → Type 0) (ts : List Text) → All P ts → All P (sorted ts)
unfolding sorted
sorted-All P [] h = tt
sorted-All P (t ∷ ts) h = insert_sorted-All P t (sorted ts) h.0 (sorted-All P ts h.1)
