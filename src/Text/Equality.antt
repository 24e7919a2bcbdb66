-- ===== src/Text/Equality.antt =====
-- `text_eq` decides equality of texts, and `elem` membership.
use strange_claw.Prelude.{◌≡◌, ◌↔◌, refl, true, List, [], ◌∷◌, Bool-cases, inl, inr, arith, All}
use strange_claw.Text.{Text, text_eq, elem}

pub text_eq→eq : (s t : Text) → text_eq s t ≡ true → s ≡ t
unfolding text_eq
text_eq→eq [] [] h = refl
text_eq→eq [] (d ∷ t) h = ground arith
text_eq→eq (c ∷ s) [] h = ground arith
text_eq→eq (c ∷ s) (d ∷ t) h = ground (arith, text_eq→eq s t)

pub text_eq_refl : (s : Text) → text_eq s s ≡ true
unfolding text_eq
text_eq_refl [] = refl
text_eq_refl (c ∷ s) = ground (arith, text_eq_refl s)

pub eq→text_eq : (s t : Text) → s ≡ t → text_eq s t ≡ true
eq→text_eq s t e = rw (← e) (text_eq_refl s)

-- What holds of each member of a list holds of every text that `elem` finds there.
pub All-elem {ℓ} :
    (P : Text → Type ℓ) (a : Text) (bs : List Text) → All P bs → elem a bs ≡ true → P a
unfolding elem
All-elem P a [] h e = absurd (ground arith)
All-elem P a (b ∷ bs) h e = elim (Bool-cases (text_eq a b)) [
  | inl same ↦ rw (text_eq→eq a b same) h.0
  | inr other ↦ All-elem P a bs h.1 (ground arith)
]

pub text_eq_iff : (s t : Text) → (text_eq s t ≡ true) ↔ (s ≡ t)
text_eq_iff s t = (text_eq→eq s t, eq→text_eq s t)
