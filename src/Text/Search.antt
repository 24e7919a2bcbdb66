-- ===== src/Text/Search.antt =====
-- Laws of `contains` and `replace`, where the new text is bracketed and the old one has no bracket.
use strange_claw.Prelude.{
  ℕ, zero, suc, ◌-◌, ◌≡◌, ◌≢◌, refl, true, false, ◌⊎◌, inl, inr, [], ◌∷◌, ◌++◌, append_assoc,
  length, All, Bool-cases, arith,
}
use strange_claw.Text.{Text, is_prefix, contains, scan, replace}

-- No character of the text is `[` or `]`.
abbrev pub Bracketless : Text → Type 0
Bracketless = All (λ c. (c ≢ b'[') × (c ≢ b']'))

abbrev pub NonEmpty : Text → Type 0
NonEmpty u = u ≢ []

-- A text without the stop character that begins `mid ++ stop ∷ rest` begins `mid`.
prefix_before_stop :
    (u mid rest : Text)
    → Bracketless u
    → is_prefix u (mid ++ b']' ∷ rest) ≡ true
    → is_prefix u mid ≡ true
unfolding is_prefix
prefix_before_stop [] mid rest b h = refl
prefix_before_stop (d ∷ u) [] rest b h = ground arith
prefix_before_stop (d ∷ u) (c ∷ mid) rest b h = ground (arith, prefix_before_stop u mid rest b.1)

-- An occurrence does not cross the closing bracket.
contains_before_stop :
    (u mid rest : Text)
    → NonEmpty u
    → Bracketless u
    → contains u (mid ++ b']' ∷ rest) ≡ true
    → (contains u mid ≡ true) ⊎ (contains u rest ≡ true)
unfolding contains is_prefix
contains_before_stop [] mid rest n b h = absurd (n refl)
contains_before_stop (d ∷ u) [] rest n b h = ground arith
contains_before_stop (d ∷ u) (c ∷ mid) rest n b h =
    ground (
      arith,
      prefix_before_stop (d ∷ u) (c ∷ mid) rest b,
      contains_before_stop (d ∷ u) mid rest n b,
    )

abbrev pub bracketed : Text → Text
bracketed mid = b'[' ∷ mid ++ b']' ∷ []

contains_after_bracketed :
    (u mid rest : Text)
    → NonEmpty u
    → Bracketless u
    → contains u (b'[' ∷ mid ++ b']' ∷ rest) ≡ true
    → (contains u mid ≡ true) ⊎ (contains u rest ≡ true)
unfolding contains is_prefix
contains_after_bracketed [] mid rest n b h = absurd (n refl)
contains_after_bracketed (d ∷ u) mid rest n b h =
    ground (arith, contains_before_stop (d ∷ u) mid rest n b)

not_prefix-nil : (u : Text) → NonEmpty u → is_prefix u [] ≡ false
unfolding is_prefix
not_prefix-nil [] n = absurd (n refl)
not_prefix-nil (d ∷ u) n = refl

scan_found :
    (old new : Text) (c : ℕ) (s : Text)
    → is_prefix old (c ∷ s) ≡ true
    → scan old new 0 (c ∷ s) ≡ new ++ scan old new (length old - 1) s
unfolding scan
scan_found old new c s h = rw h

scan_copied :
    (old new : Text) (c : ℕ) (s : Text)
    → is_prefix old (c ∷ s) ≡ false
    → scan old new 0 (c ∷ s) ≡ c ∷ scan old new 0 s
unfolding scan
scan_copied old new c s h = rw h

module _ (old mid : Text) where
  scan_found_bracketed :
      (c : ℕ) (s : Text)
      → is_prefix old (c ∷ s) ≡ true
      → scan old (bracketed mid) 0 (c ∷ s)
        ≡ b'[' ∷ (mid ++ b']' ∷ scan old (bracketed mid) (length old - 1) s)
  scan_found_bracketed c s h = rw (scan_found old (bracketed mid) c s h) (rw append_assoc)

  -- What begins the output of a pass, and has no bracket, began the input.
  prefix-scan :
      (u s : Text)
      → Bracketless u
      → is_prefix u (scan old (bracketed mid) 0 s) ≡ true
      → is_prefix u s ≡ true
  unfolding is_prefix scan
  prefix-scan [] s b h = refl
  prefix-scan (d ∷ u) [] b h = h
  prefix-scan (d ∷ u) (c ∷ s) b h = elim (Bool-cases (is_prefix old (c ∷ s))) [
    | inl found ↦ ground (arith, scan_found_bracketed c s found)
    | inr copied ↦ ground (arith, scan_copied old (bracketed mid) c s copied, prefix-scan u s b.1)
  ]

  -- A pass makes no new occurrence of a text without brackets that is not in the new text.
  pub contains-scan :
      (u : Text) (k : ℕ) (s : Text)
      → NonEmpty u
      → Bracketless u
      → contains u mid ≡ false
      → contains u (scan old (bracketed mid) k s) ≡ true
      → contains u s ≡ true
  unfolding contains scan
  contains-scan u k [] n b m h = h
  contains-scan u (suc k) (c ∷ s) n b m h = ground (arith, contains-scan u k s n b m h)
  contains-scan u zero (c ∷ s) n b m h = elim (Bool-cases (is_prefix old (c ∷ s))) [
    | inl found ↦ ground (
      arith,
      contains_after_bracketed u mid (scan old (bracketed mid) (length old - 1) s) n b
          (rw (scan_found_bracketed c s found) at h),
      contains-scan u (length old - 1) s n b m,
    )
    | inr copied ↦ ground (
      arith,
      scan_copied old (bracketed mid) c s copied,
      contains-scan u 0 s n b m,
      prefix-scan u (c ∷ s) b,
    )
  ]

  -- After a pass nothing is left of a text without brackets that is not in the new text.
  pub not_contains-scan_self :
      (k : ℕ) (s : Text)
      → NonEmpty old
      → Bracketless old
      → contains old mid ≡ false
      → contains old (scan old (bracketed mid) k s) ≡ false
  unfolding contains scan
  not_contains-scan_self k [] n b m = not_prefix-nil old n
  not_contains-scan_self (suc k) (c ∷ s) n b m = not_contains-scan_self k s n b m
  not_contains-scan_self zero (c ∷ s) n b m = elim (Bool-cases (is_prefix old (c ∷ s))) [
    | inl found ↦ rw (scan_found_bracketed c s found) (
        ground (
          arith,
          contains_after_bracketed old mid (scan old (bracketed mid) (length old - 1) s) n b,
          not_contains-scan_self (length old - 1) s n b m,
        ))
    | inr copied ↦
        rw (scan_copied old (bracketed mid) c s copied)
          (ground (arith, not_contains-scan_self 0 s n b m, prefix-scan old (c ∷ s) b))
  ]

-- Replacing one text by a bracketed one makes no new occurrence of another text.
pub not_contains-replace :
    (old mid u s : Text)
    → NonEmpty old
    → NonEmpty u
    → Bracketless u
    → contains u mid ≡ false
    → contains u s ≡ false
    → contains u (replace old (bracketed mid) s) ≡ false
unfolding replace
not_contains-replace [] mid u s given n b m h = absurd (given refl)
not_contains-replace (d ∷ old) mid u s given n b m h =
    ground (arith, contains-scan (d ∷ old) mid u 0 s n b m)

-- Replacing a text by a bracketed one leaves no occurrence of it.
pub not_contains-replace_self :
    (old mid s : Text)
    → NonEmpty old
    → Bracketless old
    → contains old mid ≡ false
    → contains old (replace old (bracketed mid) s) ≡ false
unfolding replace
not_contains-replace_self [] mid s n b m = absurd (n refl)
not_contains-replace_self (d ∷ old) mid s n b m = not_contains-scan_self (d ∷ old) mid 0 s n b m
